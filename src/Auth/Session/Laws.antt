-- ===== src/Auth/Session/Laws.antt =====
-- Which tokens open a session.
use mathlib.Core.Bool.{false≢true}
use text.Mathlib.TextLemmas.{nil-append, cons-append}
use Prim.Native.Char.{code}
use local_singbox_manager.Common.{
  ℕ, arith, ◌≤◌, ◌+◌, ◌*◌, ◌/◌, String, ◌≡◌, refl, sym, ap, ◌∙◌, Bool, true, false, not, ◌&&◌, ◌||◌,
  Option, none, some, ◌⧺◌, ◌==◌, ◌=ℕ◌, leb, eq_iff, eq_refl, is_code, any_char, if◌then◌else◌,
}
use local_singbox_manager.Common.Json.{ℤ, pos, negsuc}
use local_singbox_manager.Common.Python.{Python}
use local_singbox_manager.Auth.Session.{
  Security, second, session_max_age, split_once, code_of_dot, in_age, sign_session,
  create_session_token, checked_token, of_parts, verify_session_token,
}

-- what Python documents of numbers as text
pub record DecimalLaws (py : Python) : Type 0 where
  pub int_of-decimal : (n : ℕ) → py.int_of (py.decimal n) ≡ some (pos n)
  pub no_dot : (n : ℕ) → any_char (is_code code_of_dot) (py.decimal n) ≡ false

or-right : (p q : Bool) → (p || q) ≡ false → (p ≡ false) × (q ≡ false)
or-right true q e = (e, absurd (false≢true (sym e)))
or-right false q e = (refl, e)

split_once-dot : (b : String) → split_once code_of_dot ("." ⧺ b) ≡ some ("", b)
unfolding split_once
split_once-dot b =
    ap (split_once code_of_dot)
      (cons-append "." String.[] b ∙ ap (λ (s : String). String.◌∷◌ "." s) (nil-append b))

split_once-first :
    (a b : String)
    → any_char (is_code code_of_dot) a ≡ false
    → split_once code_of_dot (a ⧺ ("." ⧺ b)) ≡ some (a, b)
unfolding split_once
split_once-first String.[] b none_before = rw (nil-append ("." ⧺ b)) (split_once-dot b)
split_once-first (String.◌∷◌ d a) b none_before =
    let (before, after) = or-right (code d =ℕ code_of_dot) _ none_before in
    rw (cons-append d a ("." ⧺ b), before, split_once-first a b after) refl

gate : (b : Bool) (s : String) → (if not b then false else s == s) ≡ b
gate true s = eq_refl s
gate false s = refl

-- A token opens a session exactly while it is not older than 30 days, counted from the whole second in
-- which it was made, and not before that second, if `int` reads back a decimal, which has no dot.
pub verify-create :
    ⦃py : Python⦄ (security : Security) (made now : ℕ)
    → DecimalLaws py
    → verify_session_token security now (create_session_token security made)
      ≡ (leb (made / second * second) now && leb now (made / second * second + session_max_age))
unfolding verify_session_token create_session_token
verify-create ⦃py⦄ security made now laws =
    let ts = made / second in
    rw (split_once-first (py.decimal ts) (sign_session security (pos ts)) (laws.no_dot ts))
      (rw (laws.int_of-decimal ts) (gate (in_age now (pos ts)) (sign_session security (pos ts))))

-- a time, in seconds since 1970, at most 30 days before `now` and not after it
abbrev pub InAge : ℕ → ℤ → Type 0
InAge now (pos ts) = (ts * 1000000 ≤ now) × (now ≤ ts * 1000000 + 2592000 * 1000000)
InAge now (negsuc n) = now + (1 + n) * 1000000 ≤ 2592000 * 1000000

InAge-of_test : ⦃py : Python⦄ (now : ℕ) (made : ℤ) → in_age now made ≡ true → InAge now made
InAge-of_test now (pos ts) e = (ground arith, ground arith)
InAge-of_test now (negsuc n) e = ground arith

-- what an open session says of its token
pub record IsGenuine ⦃py : Python⦄ (security : Security) (now : ℕ) (token : String) : Type 0 where
  pub made_text : String
  pub made : ℤ
  pub parts : split_once code_of_dot token ≡ some (made_text, sign_session security made)
  pub number : py.int_of made_text ≡ some made
  pub fresh : InAge now made

gate-true :
    (b : Bool) (s t : String) → (if not b then false else s == t) ≡ true → (b ≡ true) × (s ≡ t)
gate-true true s t e = (refl, (eq_iff s t).0 e)
gate-true false s t e = absurd (false≢true e)

parts-IsGenuine :
    ⦃py : Python⦄ (security : Security) (now : ℕ) (token text sig : String) (o : Option ℤ)
    → split_once code_of_dot token ≡ some (text, sig)
    → py.int_of text ≡ o
    → checked_token security now sig o ≡ true
    → IsGenuine security now token
parts-IsGenuine security now token text sig none split number e = absurd (false≢true e)
parts-IsGenuine security now token text sig (some ts) split number e =
    let (fresh, same) = gate-true (in_age now ts) (sign_session security ts) sig e in
    record {
      made_text = text;
      made = ts;
      parts = split ∙ ap (λ (x : String). some (text, x)) (sym same);
      number = number;
      fresh = InAge-of_test now ts fresh;
    }

split-IsGenuine :
    ⦃py : Python⦄ (security : Security) (now : ℕ) (token : String) (o : Option (String × String))
    → split_once code_of_dot token ≡ o
    → of_parts security now o ≡ true
    → IsGenuine security now token
split-IsGenuine security now token none split e = absurd (false≢true e)
split-IsGenuine ⦃py⦄ security now token (some (text, sig)) split e =
    parts-IsGenuine security now token text sig (py.int_of text) split refl e

-- A token that opens a session is a number and, after its first dot, the signature of that number,
-- which is a time at most 30 days ago and not in the future.
pub verify_session_token-IsGenuine :
    ⦃py : Python⦄ (security : Security) (now : ℕ) (token : String)
    → verify_session_token security now token ≡ true
    → IsGenuine security now token
unfolding verify_session_token
verify_session_token-IsGenuine security now token e =
    split-IsGenuine security now token (split_once code_of_dot token) refl e

-- ===== src/Auth/Middleware/Laws.antt =====
-- What a request that is passed on has shown.
use mathlib.Core.Bool.{false≢true}
use local_singbox_manager.Common.{
  ℕ, String, ◌≡◌, ◌↔◌, ◌⊎◌, inl, inr, refl, sym, ap, ◌∙◌, arith, Bool, true, false, not, ◌&&◌, ◌||◌,
  ◌==◌, eq_iff, Option, none, some, [], ◌∷◌, All, Bool-cases, starts_with, member, is_some, ◌⧺◌,
  is_blank, text_or, if◌then◌else◌,
}
use local_singbox_manager.Common.Python.{Python, Url}
use local_singbox_manager.Auth.Session.{Security, verify_session_token}
use local_singbox_manager.Auth.Session.Laws.{IsGenuine, verify_session_token-IsGenuine}
use local_singbox_manager.Auth.Middleware.{
  Request, Urllib, passed_on, unauthorized, redirect, csrf_failed, is_open, is_safe, skips_csrf,
  auth_enabled, allowed_host, allowed_url, is_authenticated, check_csrf, dispatch, is_api,
}

-- a page of this host: its scheme, its host, and no credentials
pub record IsLocalPage (url : Url) : Type 0 where
  pub scheme : url.scheme ≡ "http"
  pub host : (url.hostname ≡ some "127.0.0.1") ⊎ (url.hostname ≡ some "localhost")
  pub no_user : url.username ≡ none
  pub no_password : url.password ≡ none

-- the origin, or else the referer, is there and is a page of this host
abbrev pub IsLocal : Urllib → Request → Type 0
IsLocal urllib r =
    (is_blank (text_or r.origin (text_or r.referer "")) ≡ false)
    × ((url : Url) × (urllib.urlsplit (text_or r.origin (text_or r.referer "")) ≡ some url)
        × IsLocalPage url)

-- a request that may change something, on a path that is not exempt
pub record IsChecked (r : Request) : Type 0 where
  pub changes : member r.method ("GET" ∷ "HEAD" ∷ "OPTIONS" ∷ []) ≡ false
  pub path :
      All
        (λ (p : String). starts_with r.path p ≡ false)
        ("/static/" ∷ "/login" ∷ "/logout" ∷ "/health" ∷ "/version" ∷ [])

none-some {ℓ} : {A : Type ℓ} {x : A} → ◌≡◌ {A = Option A} none (some x) → ⊥
none-some e = false≢true (ap is_some e)

host-cases :
    (o : Option String) → allowed_host o ≡ true → (o ≡ some "127.0.0.1") ⊎ (o ≡ some "localhost")
host-cases none e = absurd (false≢true e)
host-cases (some host) e = elim (Bool-cases ("127.0.0.1" == host)) [
  | inl k ↦ inl (ap some (sym ((eq_iff _ _).0 k)))
  | inr k ↦ inr (ap some (sym ((eq_iff "localhost" host).0 (ground (arith, e, k)))))
]

host-allowed :
    (o : Option String) → (o ≡ some "127.0.0.1") ⊎ (o ≡ some "localhost") → allowed_host o ≡ true
host-allowed o (inl e) = rw e refl
host-allowed o (inr e) = rw e refl

none-of_test : (o : Option String) → is_some o ≡ false → o ≡ none
none-of_test none e = refl
none-of_test (some s) e = absurd (false≢true (sym e))

local-allowed : (url : Url) → IsLocalPage url → allowed_url (some url) ≡ true
local-allowed url l = rw (l.scheme, host-allowed url.hostname l.host, l.no_user, l.no_password) refl

allowed-IsLocalPage : (url : Url) → allowed_url (some url) ≡ true → IsLocalPage url
allowed-IsLocalPage url e = record {
  scheme = (eq_iff url.scheme "http").0 (ground arith);
  host = host-cases url.hostname (ground arith);
  no_user = none-of_test url.username (ground arith);
  no_password = none-of_test url.password (ground arith);
}

closed_path :
    (path p : String)
    → starts_with p p ≡ true
    → starts_with path p ≡ false
    → (path == p || starts_with path p) ≡ false
closed_path path p own e = elim (Bool-cases (path == p)) [
  | inl k ↦
      absurd (false≢true (sym e ∙ ap (λ (x : String). starts_with x p) ((eq_iff path p).0 k) ∙ own))
  | inr k ↦ rw (k, e) refl
]

checked-closed : (r : Request) → IsChecked r → is_open r.path ≡ false
unfolding is_open
checked-closed r c =
    let (static, (login, (logout, (health, (version, end))))) = c.path in
    rw
      (
        closed_path r.path "/static/" refl static,
        closed_path r.path "/login" refl login,
        closed_path r.path "/health" refl health,
        closed_path r.path "/version" refl version,
      )
      refl

checked-kept : (r : Request) → IsChecked r → skips_csrf r.path ≡ false
unfolding skips_csrf
checked-kept r c =
    let (static, (login, (logout, (health, (version, end))))) = c.path in
    rw (static, login, logout, health, version) refl

checked-changes : (r : Request) → IsChecked r → is_safe r.method ≡ false
unfolding is_safe
checked-changes r c = c.changes

-- the answer by its four tests
answer :
    (opened authenticated api fails : Bool) (target : String)
    → (if opened
        then passed_on
        else if not authenticated
        then (if api then unauthorized else redirect target)
        else if fails
        then csrf_failed
        else passed_on)
      ≡ passed_on
    → (opened ≡ false)
    → (authenticated ≡ true) × (fails ≡ false)
answer true a api fails target e closed = absurd (false≢true (sym closed))
answer false true api true target e closed = cc
answer false true api false target e closed = (refl, refl)
answer false false true fails target e closed = cc
answer false false false fails target e closed = cc

module _ ⦃py : Python⦄ (security : Security) (urllib : Urllib) where
  authenticated-valid :
      (now : ℕ) (r : Request)
      → auth_enabled security ≡ true
      → is_authenticated security urllib now r ≡ true
      → verify_session_token security now (text_or r.session_cookie "") ≡ true
  unfolding is_authenticated
  authenticated-valid now r on e = branch (auth_enabled security) _ on e
    where
      branch : (b c : Bool) → b ≡ true → (if not b then true else c) ≡ true → c ≡ true
      branch true c on e = e
      branch false c on e = absurd (false≢true on)

  csrf_iff :
      (r : Request)
      → auth_enabled security ≡ true
      → is_safe r.method ≡ false
      → check_csrf security urllib r ≡ true ↔ IsLocal urllib r
  unfolding check_csrf
  csrf_iff r on unsafe = rw (on, unsafe) (of_source (is_blank source) refl)
    where
      source : String
      source = text_or r.origin (text_or r.referer "")

      of_url :
          (o : Option Url) → allowed_url o ≡ true ↔ ((url : Url) × (o ≡ some url) × IsLocalPage url)
      of_url none = ((λ e. absurd (false≢true e)), (λ l. absurd (none-some l.1)))
      of_url (some url) = (
        (λ e. (url, refl, allowed-IsLocalPage url e)),
        (λ l. ap allowed_url l.1 ∙ local-allowed l.0 l.2),
      )

      of_source :
          (b : Bool)
          → is_blank source ≡ b
          → (if b then false else allowed_url (urllib.urlsplit source)) ≡ true ↔ IsLocal urllib r
      of_source true e = ((λ k. absurd (false≢true k)), (λ l. absurd (false≢true (sym l.0 ∙ e))))
      of_source false e =
          let (there, back) = of_url (urllib.urlsplit source) in
          ((λ k. (e, there k)), (λ l. back l.1))

  fails-false :
      (s k c : Bool) → (not s && (not k && not c)) ≡ false → s ≡ false → k ≡ false → c ≡ true
  fails-false true k c e f g = absurd (false≢true (sym f))
  fails-false false true c e f g = absurd (false≢true (sym g))
  fails-false false false true e f g = refl
  fails-false false false false e f g = absurd (false≢true (sym e))

  both-tests :
      (now : ℕ) (r : Request)
      → is_open r.path ≡ false
      → dispatch security urllib now r ≡ passed_on
      → (is_authenticated security urllib now r ≡ true)
        × ((not (is_safe r.method)
              && (not (skips_csrf r.path) && not (check_csrf security urllib r)))
            ≡ false)
  unfolding dispatch
  both-tests now r closed e =
      answer (is_open r.path) (is_authenticated security urllib now r) (is_api r.path)
        (not (is_safe r.method) && (not (skips_csrf r.path) && not (check_csrf security urllib r)))
        ("/login?next=" ⧺ urllib.quote r.path) e closed

  -- With a password set, a request that is passed on to a path that is not open carries a genuine
  -- session token.
  pub dispatch-IsGenuine :
      (now : ℕ) (r : Request)
      → auth_enabled security ≡ true
      → is_open r.path ≡ false
      → dispatch security urllib now r ≡ passed_on
      → IsGenuine security now (text_or r.session_cookie "")
  dispatch-IsGenuine now r on closed e =
      verify_session_token-IsGenuine security now _
        (authenticated-valid now r on (both-tests now r closed e).0)

  -- With a password set, a request whose method is not GET, HEAD or OPTIONS and whose path has none of the
  -- prefixes that are open or exempt is passed on exactly if its session token is valid and its origin, or
  -- else its referer, is there and is an http URL of 127.0.0.1 or localhost without user and password.
  pub dispatch-IsLocal :
      (now : ℕ) (r : Request)
      → auth_enabled security ≡ true
      → IsChecked r
      → dispatch security urllib now r ≡ passed_on ↔ (
          (verify_session_token security now (text_or r.session_cookie "") ≡ true)
          × IsLocal urllib r)
  unfolding dispatch is_authenticated
  dispatch-IsLocal now r on c = (
    (λ e.
        let (valid, free) = both-tests now r (checked-closed r c) e in
        (
          authenticated-valid now r on valid,
          (csrf_iff r on (checked-changes r c)).0 (
              fails-false (is_safe r.method) (skips_csrf r.path) (check_csrf security urllib r) free
                (checked-changes r c) (checked-kept r c)),
        )),
    (λ (valid, local).
        rw
          (
            checked-closed r c,
            on,
            valid,
            checked-changes r c,
            checked-kept r c,
            (csrf_iff r on (checked-changes r c)).1 local,
          )
          refl),
  )

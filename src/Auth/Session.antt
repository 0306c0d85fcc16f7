-- ===== src/Auth/Session.antt =====
-- The session token and the password of app/auth.py.
pub mod Laws
use Prim.Native.Char.{Char}
use Prim.Native.String
use local_singbox_manager.Common.{
  ℕ, suc, ◌+◌, ◌*◌, ◌/◌, String, Bool, true, false, not, ◌&&◌, Option, none, some, ◌⧺◌, ◌==◌, leb,
  is_blank, is_code, if◌then◌else◌,
}
use local_singbox_manager.Common.Json.{ℤ, pos, negsuc}
use local_singbox_manager.Common.Python.{Python}

-- `settings.security`, and `hmac.new(key, msg, sha256).hexdigest()` on texts
pub record Security : Type 0 where
  pub admin_password : String
  pub session_secret : String
  pub hmac : String → String → String

-- Times are microseconds.
abbrev pub second : ℕ
second = 1000000

abbrev pub session_max_age : ℕ
session_max_age = 30 * 24 * 3600 * second

abbrev onto : Char → Option (String × String) → Option (String × String)
onto c none = none
onto c (some (a, b)) = some (String.◌∷◌ c a, b)

-- `s.split(sep, 1)`, if it has two parts; the separator is one character, given by its code
unfoldable pub split_once : ℕ → String → Option (String × String)
split_once code String.[] = none
split_once code (String.◌∷◌ c s) =
    let rest = split_once code s in if is_code code c then some (String.[], s) else onto c rest

abbrev pub code_of_dot : ℕ
code_of_dot = 46

module _ ⦃py : Python⦄ where
  -- `str` of an integer
  abbrev pub shown_int : ℤ → String
  shown_int (pos n) = py.decimal n
  shown_int (negsuc n) = "-" ⧺ py.decimal (suc n)

  -- `0 <= now - ts <= SESSION_MAX_AGE`
  abbrev pub in_age : ℕ → ℤ → Bool
  in_age now (pos ts) = leb (ts * second) now && leb now (ts * second + session_max_age)
  in_age now (negsuc n) = leb (now + suc n * second) session_max_age

  module _ (security : Security) where
    unfoldable pub sign_session : ℤ → String
    sign_session ts = security.hmac security.session_secret ("singbox-session:v1:" ⧺ shown_int ts)

    -- the token that `create_session_token` makes at this time
    unfoldable pub create_session_token : ℕ → String
    create_session_token now = let ts = pos (now / second) in shown_int ts ⧺ "." ⧺ sign_session ts

    abbrev pub checked_token : ℕ → String → Option ℤ → Bool
    checked_token now sig none = false
    checked_token now sig (some ts) = if not (in_age now ts) then false else sign_session ts == sig

    abbrev pub of_parts : ℕ → Option (String × String) → Bool
    of_parts now none = false
    of_parts now (some (ts_str, sig)) = checked_token now sig (py.int_of ts_str)

    -- An integer too large for a float raises an OverflowError in the source; here its age is out of range.
    unfoldable pub verify_session_token : ℕ → String → Bool
    unfolding split_once sign_session
    verify_session_token now token = of_parts now (split_once code_of_dot token)

unfoldable pub verify_password : Security → String → Bool
verify_password security password =
    if is_blank security.admin_password then false else security.admin_password == password

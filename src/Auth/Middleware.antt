-- ===== src/Auth/Middleware.antt =====
-- `is_authenticated`, `check_csrf` and `AuthMiddleware.dispatch` of app/auth.py.
pub mod Laws
use local_singbox_manager.Common.{
  ℕ, String, Bool, true, false, not, ◌&&◌, ◌||◌, Option, none, some, List, [], ◌∷◌, ◌⧺◌, ◌==◌, any,
  member, is_blank, is_some, starts_with, text_or, if◌then◌else◌,
}
use local_singbox_manager.Common.Python.{Python, Url}
use local_singbox_manager.Auth.Session.{Security, verify_session_token}

-- what the program reads of a request; a header or a cookie that is missing is `none`
pub record Request : Type 0 where
  pub method : String
  pub path : String
  pub session_cookie : Option String
  pub origin : Option String
  pub referer : Option String

-- `urllib.parse.urlsplit` (`none`: ValueError) and `urllib.parse.quote`
pub record Urllib : Type 0 where
  pub urlsplit : String → Option Url
  pub quote : String → String

pub data Response : Type 0 where
  passed_on : Response
  unauthorized : Response
  redirect : String → Response
  csrf_failed : Response

abbrev pub allowed_hosts : List String
allowed_hosts = "127.0.0.1" ∷ "localhost" ∷ []

abbrev safe_methods : List String
safe_methods = "GET" ∷ "HEAD" ∷ "OPTIONS" ∷ []

abbrev open_prefixes : List String
open_prefixes = "/static/" ∷ "/login" ∷ "/health" ∷ "/version" ∷ []

abbrev api_prefixes : List String
api_prefixes = "/api/" ∷ []

abbrev csrf_skip_prefixes : List String
csrf_skip_prefixes = "/login" ∷ "/logout" ∷ "/static/" ∷ "/health" ∷ "/version" ∷ []

abbrev has_prefix : List String → String → Bool
has_prefix prefixes path = any (λ p. starts_with path p) prefixes

-- `any(path == p or path.startswith(p) for p in _OPEN_PREFIXES)`
unfoldable pub is_open : String → Bool
is_open path = any (λ p. path == p || starts_with path p) open_prefixes

unfoldable pub is_safe : String → Bool
is_safe method = member method safe_methods

unfoldable pub skips_csrf : String → Bool
skips_csrf path = has_prefix csrf_skip_prefixes path

unfoldable pub is_api : String → Bool
is_api path = has_prefix api_prefixes path

abbrev pub auth_enabled : Security → Bool
auth_enabled security = not (is_blank security.admin_password)

abbrev pub allowed_host : Option String → Bool
allowed_host none = false
allowed_host (some host) = member host allowed_hosts

abbrev pub allowed_url : Option Url → Bool
allowed_url none = false
allowed_url (some url) =
    url.scheme == "http"
    && (allowed_host url.hostname && (not (is_some url.username) && not (is_some url.password)))

module _ ⦃py : Python⦄ (security : Security) (urllib : Urllib) where
  unfoldable pub is_authenticated : ℕ → Request → Bool
  is_authenticated now request =
      if not (auth_enabled security)
      then true
      else verify_session_token security now (text_or request.session_cookie "")

  unfoldable pub check_csrf : Request → Bool
  check_csrf request =
      let src = text_or request.origin (text_or request.referer "") in
      if not (auth_enabled security)
      then true
      else if is_safe request.method
      then true
      else if is_blank src
      then false
      else allowed_url (urllib.urlsplit src)

  unfoldable pub dispatch : ℕ → Request → Response
  dispatch now request =
      if is_open request.path
      then passed_on
      else if not (is_authenticated now request)
      then (if is_api request.path
          then unauthorized
          else redirect ("/login?next=" ⧺ urllib.quote request.path))
      else if not (is_safe request.method)
          && (not (skips_csrf request.path) && not (check_csrf request))
      then csrf_failed
      else passed_on

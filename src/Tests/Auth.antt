-- ===== src/Tests/Auth.antt =====
-- Tests of Auth.
use local_singbox_manager.Common.{
  ◌≡◌, ◌↔◌, refl, true, false, none, some, [], ◌∷◌, ◌≤◌, ltb, leb, ◌&&◌, ◌+◌, ◌*◌, ◌/◌, arith,
}
use local_singbox_manager.Auth.RateLimit.{rate_limit_ok, rate_max, cleaned, record_attempt}
use local_singbox_manager.Auth.RateLimit.Counts.{count}
use local_singbox_manager.Auth.RateLimit.Laws.{
  Log, InOrder, state_after, accepted_times, rate_limit_ok-exact, accepted_times-bounded,
}
use local_singbox_manager.Auth.Session.{
  Security, second, session_max_age, split_once, sign_session, create_session_token,
  verify_session_token,
}
use local_singbox_manager.Auth.Session.Laws.{IsGenuine, verify-create}
use local_singbox_manager.Auth.Middleware.{
  Request, Urllib, passed_on, is_open, is_safe, skips_csrf, is_api, is_authenticated, check_csrf,
  dispatch,
}
use local_singbox_manager.Auth.Middleware.Laws.{
  IsLocal, IsChecked, dispatch-IsGenuine, dispatch-IsLocal,
}
use local_singbox_manager.Tests.Samples.{sample_python, sample_url, sample_python-DecimalLaws}

-- five attempts of one address and one of another, newest first
abbrev log : Log
log = (5, "a") ∷ (4, "b") ∷ (4, "a") ∷ (3, "a") ∷ (2, "a") ∷ (1, "a") ∷ []

log-InOrder : InOrder log
log-InOrder =
    (omega arith, (omega arith, (omega arith, (omega arith, (omega arith, (omega arith, tt))))))

sixth_refused : (rate_limit_ok 60 6 "a" (state_after 60 log)).0 ≡ false
unfolding rate_limit_ok state_after cleaned record_attempt
sixth_refused = refl

rate_limit_ok-exact_example :
    (rate_limit_ok 60 6 "a" (state_after 60 log)).0
    ≡ ltb (count 60 6 (accepted_times 60 "a" log)) rate_max
rate_limit_ok-exact_example = rate_limit_ok-exact 60 6 "a" log log-InOrder (omega arith)

accepted_times-bounded_example : count 60 6 (accepted_times 60 "a" log) ≤ rate_max
accepted_times-bounded_example = accepted_times-bounded 60 6 "a" log log-InOrder (omega arith)

abbrev security : Security
security = record { admin_password = "pw"; session_secret = "key"; hmac = λ key message. key }

verify-create_example :
    verify_session_token security 2000001 (create_session_token security 2000000) ≡ (
      leb (2000000 / second * second) 2000001
      && leb 2000001 (2000000 / second * second + session_max_age))
verify-create_example = verify-create security 2000000 2000001 sample_python-DecimalLaws

abbrev urllib : Urllib
urllib = record {
  urlsplit = λ s.
      some (record sample_url { scheme = "http"; username = none; hostname = some "localhost" });
  quote = λ s. s;
}

abbrev request : Request
request = record {
  method = "POST";
  path = "/nodes";
  session_cookie = some "11.key";
  origin = some "http://localhost:8080";
  referer = none;
}

request_passed_on : dispatch security urllib 2000001 request ≡ passed_on
unfolding dispatch is_open is_api is_safe skips_csrf is_authenticated check_csrf
    verify_session_token split_once sign_session
request_passed_on = refl

closed : is_open "/nodes" ≡ false
unfolding is_open
closed = refl

dispatch-IsGenuine_example : IsGenuine security 2000001 "11.key"
dispatch-IsGenuine_example =
    dispatch-IsGenuine security urllib 2000001 request refl closed request_passed_on

checked : IsChecked request
checked = record { changes = refl; path = (refl, (refl, (refl, (refl, (refl, tt))))) }

dispatch-IsLocal_example :
    dispatch security urllib 2000001 request ≡ passed_on
    ↔ ((verify_session_token security 2000001 "11.key" ≡ true) × IsLocal urllib request)
dispatch-IsLocal_example = dispatch-IsLocal security urllib 2000001 request refl checked

-- ===== src/Auth/RateLimit.antt =====
-- `rate_limit_ok` of app/auth.py. Times are counts of ticks of a clock that never goes back, so that
-- `now - t < window` is `now < t + window`.
pub mod Counts
pub mod Laws
use local_singbox_manager.Common.{
  ℕ, ◌+◌, String, Bool, true, false, not, Option, none, some, List, [], ◌∷◌, ◌++◌, ◌==◌, ltb, leb,
  any, filter, length, if◌then◌else◌,
}

-- `_login_attempts`: the addresses in insertion order, with the times of their attempts
abbrev pub Attempts : Type 0
Attempts = List (String × List ℕ)

abbrev pub rate_max : ℕ
rate_max = 5

abbrev pub cleanup_threshold : ℕ
cleanup_threshold = 500

abbrev pub is_recent : ℕ → ℕ → ℕ → Bool
is_recent window now t = ltb now (t + window)

-- the value of the `defaultdict`
abbrev pub times_of : String → Attempts → List ℕ
times_of ip [] = []
times_of ip ((key, times) ∷ rest) = if key == ip then times else times_of ip rest

abbrev pub put_times : String → List ℕ → Attempts → Attempts
put_times ip times [] = (ip, times) ∷ []
put_times ip times ((key, old) ∷ rest) =
    if key == ip then (key, times) ∷ rest else (key, old) ∷ put_times ip times rest

-- the entries that the cleanup keeps
unfoldable pub cleaned : ℕ → ℕ → Attempts → Attempts
cleaned window now attempts =
    filter (λ (e : String × List ℕ). any (is_recent window now) e.1) attempts

abbrev pub cleanup_if : ℕ → ℕ → Attempts → Attempts
cleanup_if window now attempts =
    if ltb cleanup_threshold (length attempts) then cleaned window now attempts else attempts

-- after the cleanup; `window` is `_RATE_WINDOW` in ticks
unfoldable pub record_attempt : ℕ → ℕ → String → Attempts → Bool × Attempts
record_attempt window now ip attempts =
    let recent = filter (is_recent window now) (times_of ip attempts) in
    if leb rate_max (length recent)
    then (false, put_times ip recent attempts)
    else (true, put_times ip (recent ++ now ∷ []) attempts)

unfoldable pub rate_limit_ok : ℕ → ℕ → String → Attempts → Bool × Attempts
unfolding cleaned record_attempt
rate_limit_ok window now ip attempts = record_attempt window now ip (cleanup_if window now attempts)

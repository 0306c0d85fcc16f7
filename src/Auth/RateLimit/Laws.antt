-- ===== src/Auth/RateLimit/Laws.antt =====
-- The limit on logins against the attempts that it accepted.
use local_singbox_manager.Common.{
  ℕ, ◌+◌, ◌≤◌, String, ◌≡◌, refl, sym, ap, ◌∙◌, Bool, true, false, List, [], ◌∷◌, ◌==◌, ◌&&◌, ltb,
  leb, filter, length, Distinct, arith, eq_iff, Bool-cases, inl, inr, if◌then◌else◌,
}
use local_singbox_manager.Auth.RateLimit.{
  Attempts, rate_max, is_recent, times_of, cleanup_if, record_attempt, rate_limit_ok,
}
use local_singbox_manager.Auth.RateLimit.Counts.{
  count, count-later, count-nil, addresses, Distinct-put_times, cleanup_if-same,
  cleanup_if-Distinct, record_attempt-accepted, added, record_attempt-count,
}

-- attempts, newest first, each with its time and its address, and times that never go back
abbrev pub Log : Type 0
Log = List (ℕ × String)

abbrev pub latest : Log → ℕ
latest [] = 0
latest ((now, ip) ∷ log) = now

abbrev pub InOrder : Log → Type 0
InOrder [] = Unit {0}
InOrder ((now, ip) ∷ log) = (latest log ≤ now) × InOrder log

-- the attempts that the limit has accepted from an address, and what the program holds then
unfoldable pub state_after : ℕ → Log → Attempts
state_after window [] = []
state_after window ((now, ip) ∷ log) = (rate_limit_ok window now ip (state_after window log)).1

unfoldable pub accepted_times : ℕ → String → Log → List ℕ
accepted_times window who [] = []
accepted_times window who ((now, ip) ∷ log) =
    let rest = accepted_times window who log in
    if (rate_limit_ok window now ip (state_after window log)).0 && ip == who
    then now ∷ rest
    else rest

record_attempt-Distinct :
    (window now : ℕ) (ip : String) (s : Attempts)
    → Distinct (addresses s)
    → Distinct (addresses (record_attempt window now ip s).1)
unfolding record_attempt
record_attempt-Distinct window now ip s d =
    elim (Bool-cases (leb rate_max (length (filter (is_recent window now) (times_of ip s))))) [
      | inl e ↦ rw e (Distinct-put_times ip _ s d)
      | inr e ↦ rw e (Distinct-put_times ip _ s d)
    ]

state_after-Distinct : (window : ℕ) (log : Log) → Distinct (addresses (state_after window log))
unfolding state_after rate_limit_ok
state_after-Distinct window [] = tt
state_after-Distinct window ((now, ip) ∷ log) =
    record_attempt-Distinct window now ip (cleanup_if window now (state_after window log))
      (cleanup_if-Distinct window now (state_after window log) (state_after-Distinct window log))

count-cons :
    (window t : ℕ) (b c : Bool) (now : ℕ) (xs : List ℕ)
    → count window t (if b && c then now ∷ xs else xs)
      ≡ count window t xs + added b c (is_recent window t now)
unfolding count
count-cons window t b c now xs = ground arith

-- what the program holds of an address agrees with what it has accepted
held :
    (window t : ℕ) (who : String) (log : Log)
    → InOrder log
    → latest log ≤ t
    → count window t (times_of who (state_after window log))
      ≡ count window t (accepted_times window who log)
unfolding state_after accepted_times rate_limit_ok
held window t who [] o h = refl
held window t who ((now, ip) ∷ log) (o, os) h =
    let s = state_after window log in
    let c = cleanup_if window now s in
    record_attempt-count window now t ip who c h
    ∙ ap
        (λ (n : ℕ).
          n + added (record_attempt window now ip c).0 (ip == who) (is_recent window t now))
        (cleanup_if-same window now t who s h (state_after-Distinct window log)
          ∙ held window t who log os (omega arith))
    ∙ sym (
        count-cons window t (record_attempt window now ip c).0 (ip == who) now
          (accepted_times window who log))

-- An attempt is accepted exactly if fewer than five attempts of its address have been accepted within
-- the window, whatever the other addresses did and whether or not old entries were cleaned up. The
-- clock does not go back.
pub rate_limit_ok-exact :
    (window now : ℕ) (ip : String) (log : Log)
    → InOrder log
    → latest log ≤ now
    → (rate_limit_ok window now ip (state_after window log)).0
      ≡ ltb (count window now (accepted_times window ip log)) rate_max
unfolding rate_limit_ok
rate_limit_ok-exact window now ip log o h =
    let s = state_after window log in
    record_attempt-accepted window now ip (cleanup_if window now s)
    ∙ ap (λ (n : ℕ). ltb n rate_max)
        (cleanup_if-same window now now ip s (omega arith) (state_after-Distinct window log)
          ∙ held window now ip log o h)

bound_step :
    (b c : Bool) (n m k : ℕ)
    → (c ≡ true → b ≡ ltb m rate_max)
    → n ≤ m
    → n ≤ 5
    → k ≤ 1
    → n + (if b && c then k else 0) ≤ 5
bound_step true true n m k e h five one = let small = e refl in ground arith
bound_step true false n m k e h five one = omega arith
bound_step false c n m k e h five one = omega arith

flat :
    (b c r : Bool) (n : ℕ)
    → n + (if b && c then (if r then 1 else 0) else 0) ≤ 5
    → n + added b c r ≤ 5
flat true true r n h = h
flat true false r n h = h
flat false c r n h = h

-- In no window are more than five attempts of one address accepted, if the clock does not go back.
pub accepted_times-bounded :
    (window t : ℕ) (who : String) (log : Log)
    → InOrder log
    → latest log ≤ t
    → count window t (accepted_times window who log) ≤ rate_max
unfolding accepted_times
accepted_times-bounded window t who [] o h = rw (count-nil window t) (omega arith)
accepted_times-bounded window t who ((now, ip) ∷ log) (o, os) h =
    let rest = accepted_times window who log in
    let b = (rate_limit_ok window now ip (state_after window log)).0 in
    let small =
      bound_step b (ip == who) (count window t rest) (count window now rest)
        (if is_recent window t now then 1 else 0)
        (λ same.
          rate_limit_ok-exact window now ip log os o
          ∙ ap (λ (x : String). ltb (count window now (accepted_times window x log)) rate_max)
              ((eq_iff ip who).0 same))
        (count-later window now t rest h) (accepted_times-bounded window t who log os (omega arith))
        (ground arith) in
    rw (count-cons window t b (ip == who) now rest)
      (flat b (ip == who) (is_recent window t now) _ small)

-- ===== src/Health/Laws.antt =====
-- The verdict of the checks, and what the loop keeps and reports of it.
use local_singbox_manager.Common.{
  ℕ, ap, ◌∙◌, ◌⧺◌, inl, inr, Bool-cases, zero, suc, ◌++◌, ◌&&◌, ◌||◌, strip, contains, ltb, map,
  ◌≡◌, ◌≢◌, eq_iff, ◌↔◌, refl, arith, String, Bool, true, false, List, [], ◌∷◌, all, any, filter,
  leb, length, ◌==◌, subst, if◌then◌else◌,
}
use local_singbox_manager.Common.Python.{Python}
use local_singbox_manager.Common.Results.{Result, ok, err, >>=-eq-ok, ok-injective}
use local_singbox_manager.Health.{
  CheckResult, HealthReport, Probes, Timed, answered, timed_out, raised, has_passed, is_category,
  overall_of, all_checks, check_dns, timed_result, check_external_ip, run_health_checks,
  service_result, link_result, https_result, check_service, check_tun_interface, check_tcp,
  check_https,
}

abbrev connectivity : CheckResult → Bool
connectivity = is_category "connectivity"

any-length {ℓ} : {A : Type ℓ} (p : A → Bool) (xs : List A) → leb 1 (length (filter p xs)) ≡ any p xs
any-length p [] = refl
any-length p (x ∷ xs) = ground (arith, any-length p xs)

some_passing :
    (p q : CheckResult → Bool) (xs : List CheckResult)
    → all p xs ≡ true
    → any q xs ≡ true
    → any p (filter q xs) ≡ true
some_passing p q [] h k = k
some_passing p q (x ∷ xs) h k = ground (arith, some_passing p q xs)

-- what a verdict says: whether all checks passed, and whether one of the connectivity checks did
pub record IsVerdict (overall : String) (every some : Bool) : Type 0 where
  pub is_connected : (overall ≡ "connected") ↔ (every ≡ true)
  pub is_degraded : (overall ≡ "degraded") ↔ ((every ≡ false) × (some ≡ true))
  pub is_failed : (overall ≡ "failed") ↔ (some ≡ false)

no_text : (s t : String) → (s == t) ≡ false → s ≢ t
no_text s t h e = ground (arith, eq_iff s t)

of_tests-IsVerdict :
    (b c : Bool)
    → (b ≡ true → c ≡ true)
    → IsVerdict (if b then "connected" else if c then "degraded" else "failed") b c
of_tests-IsVerdict true true h = record {
  is_connected = ground arith;
  is_degraded = ground (arith, no_text "connected" "degraded" refl);
  is_failed = ground (arith, no_text "connected" "failed" refl);
}
of_tests-IsVerdict true false h = absurd (ground (arith, h refl))
of_tests-IsVerdict false true h = record {
  is_connected = ground (arith, no_text "degraded" "connected" refl);
  is_degraded = ground arith;
  is_failed = ground (arith, no_text "degraded" "failed" refl);
}
of_tests-IsVerdict false false h = record {
  is_connected = ground (arith, no_text "failed" "connected" refl);
  is_degraded = ground (arith, no_text "failed" "degraded" refl);
  is_failed = ground arith;
}

abbrev all_passed : List CheckResult → Bool
all_passed checks = all has_passed checks

abbrev one_connected : List CheckResult → Bool
one_connected checks = any has_passed (filter connectivity checks)

overall_of-IsVerdict :
    (checks : List CheckResult)
    → any connectivity checks ≡ true
    → IsVerdict (overall_of checks) (all_passed checks) (one_connected checks)
unfolding overall_of
overall_of-IsVerdict checks h = rw (any-length has_passed (filter connectivity checks)) (
    of_tests-IsVerdict (all_passed checks) (one_connected checks)
      (λ e. some_passing has_passed connectivity checks e h))

cons_same {ℓ} : {A : Type ℓ} {x y : A} {xs ys : List A} → x ≡ y → xs ≡ ys → x ∷ xs ≡ y ∷ ys
cons_same e f = cc

module _ ⦃py : Python⦄ where
  -- what the five checks find, by the answers of the host and the network
  abbrev is_up : Result String (ℕ × String) → Bool
  is_up (err text) = false
  is_up (ok (code, out)) = strip out == "active"

  abbrev is_linked : Result String (ℕ × String) → Bool
  is_linked (err text) = false
  is_linked (ok (zero, out)) = contains out "state UP" || contains out ",UP,"
  is_linked (ok (suc code, out)) = false

  abbrev has_answered : Timed (Unit {0}) → Bool
  has_answered (answered ms tt) = true
  has_answered timed_out = false
  has_answered (raised text) = false

  abbrev is_served : Timed ℕ → Bool
  is_served (answered ms status) = ltb status 400
  is_served timed_out = false
  is_served (raised text) = false

  abbrev pub system_outcomes : Probes → List Bool
  system_outcomes probes =
      is_up (probes.service "sing-box.service") ∷ is_linked (probes.link "singtun0") ∷ []

  abbrev pub connectivity_outcomes : Probes → List Bool
  connectivity_outcomes probes =
      has_answered (probes.dns "google.com")
      ∷ has_answered (probes.tcp "1.1.1.1" 80)
      ∷ is_served (probes.https "https://www.google.com")
      ∷ []

  -- the outcome of a check, with its category
  abbrev pub outcome : CheckResult → String × Bool
  outcome check = (check.category, check.passed)

  abbrev pub in_category : String → Bool → String × Bool
  in_category category passed = (category, passed)

  service_outcome :
      (name : String) (a : Result String (ℕ × String))
      → outcome (service_result name a) ≡ ("system", is_up a)
  service_outcome name (err text) = refl
  service_outcome name (ok (code, out)) = ground arith

  link_outcome :
      (name : String) (a : Result String (ℕ × String))
      → outcome (link_result name a) ≡ ("system", is_linked a)
  link_outcome name (err text) = refl
  link_outcome name (ok (zero, out)) = ground arith
  link_outcome name (ok (suc code, out)) = refl

  timed_outcome :
      (name done limit : String) (a : Timed (Unit {0}))
      → outcome (timed_result name done limit a) ≡ ("connectivity", has_answered a)
  timed_outcome name done limit (answered ms tt) = refl
  timed_outcome name done limit timed_out = refl
  timed_outcome name done limit (raised text) = refl

  https_outcome :
      (name : String) (a : Timed ℕ) → outcome (https_result name a) ≡ ("connectivity", is_served a)
  https_outcome name (answered ms status) = refl
  https_outcome name timed_out = refl
  https_outcome name (raised text) = refl

  all_checks-outcome :
      (probes : Probes)
      → map outcome (all_checks probes)
        ≡ map (in_category "system") (system_outcomes probes)
          ++ map (in_category "connectivity") (connectivity_outcomes probes)
  unfolding all_checks check_service check_tun_interface check_dns check_tcp check_https
  all_checks-outcome probes =
      cons_same (service_outcome "Service (sing-box.service)" (probes.service "sing-box.service")) (
        cons_same (link_outcome "TUN (singtun0)" (probes.link "singtun0")) (
          cons_same (timed_outcome "DNS (google.com)" "Resolved" "5s" (probes.dns "google.com")) (
            cons_same
              (timed_outcome ("TCP " ⧺ ("1.1.1.1" ⧺ (":" ⧺ py.decimal 80))) "Connected" "5s"
                (probes.tcp "1.1.1.1" 80))
              (cons_same
                (https_outcome "HTTPS https://www.google.com"
                  (probes.https "https://www.google.com"))
                refl))))

  all-outcome :
      (checks : List CheckResult)
      → all has_passed checks ≡ all (λ (o : String × Bool). o.1) (map outcome checks)
  all-outcome [] = refl
  all-outcome (check ∷ checks) = rw (all-outcome checks) refl

  any-outcome :
      (checks : List CheckResult)
      → any has_passed (filter connectivity checks)
        ≡ any (λ (o : String × Bool). o.0 == "connectivity" && o.1) (map outcome checks)
  any-outcome [] = refl
  any-outcome (check ∷ checks) = elim (Bool-cases (connectivity check)) [
    | inl e ↦ rw (e, any-outcome checks) refl
    | inr e ↦ rw (e, any-outcome checks) refl
  ]

  every_outcome :
      (probes : Probes)
      → all has_passed (all_checks probes)
        ≡ all (λ b. b) (system_outcomes probes ++ connectivity_outcomes probes)
  every_outcome probes =
      all-outcome (all_checks probes)
      ∙ ap (all (λ (o : String × Bool). o.1)) (all_checks-outcome probes)

  some_outcome :
      (probes : Probes)
      → any has_passed (filter connectivity (all_checks probes))
        ≡ any (λ b. b) (connectivity_outcomes probes)
  some_outcome probes =
      any-outcome (all_checks probes)
      ∙ ap (any (λ (o : String × Bool). o.0 == "connectivity" && o.1)) (all_checks-outcome probes)

  dns-category :
      (t : Timed (Unit {0}))
      → connectivity (timed_result "DNS (google.com)" "Resolved" "5s" t) ≡ true
  dns-category (answered ms tt) = refl
  dns-category timed_out = refl
  dns-category (raised text) = refl

  all_checks-connectivity : (probes : Probes) → any connectivity (all_checks probes) ≡ true
  unfolding all_checks check_dns
  all_checks-connectivity probes = ground (arith, dns-category (probes.dns "google.com"))

  -- A report holds the outcomes of five checks, of the service, the interface, DNS, TCP and HTTPS, as the host and
  -- the network answer them, the first two of the category "system" and the others of
  -- "connectivity". It says "connected" exactly when all five passed, "failed" exactly when none of the
  -- connectivity checks did, and "degraded" exactly when one of these passed and some check did not.
  pub run_health_checks-IsVerdict :
      (probes : Probes) (report : HealthReport)
      → run_health_checks probes ≡ ok report
      → (map outcome report.checks
          ≡ map (in_category "system") (system_outcomes probes)
            ++ map (in_category "connectivity") (connectivity_outcomes probes))
        × IsVerdict report.overall
            (all (λ b. b) (system_outcomes probes ++ connectivity_outcomes probes))
            (any (λ b. b) (connectivity_outcomes probes))
  unfolding run_health_checks
  run_health_checks-IsVerdict probes report h =
      let ((ip, text), asked, made) = >>=-eq-ok (check_external_ip probes) _ h in
      let verdict = overall_of-IsVerdict (all_checks probes) (all_checks-connectivity probes) in
      subst
        (λ (r : HealthReport).
          (map outcome r.checks
            ≡ map (in_category "system") (system_outcomes probes)
              ++ map (in_category "connectivity") (connectivity_outcomes probes))
          × IsVerdict r.overall
              (all (λ b. b) (system_outcomes probes ++ connectivity_outcomes probes))
              (any (λ b. b) (connectivity_outcomes probes)))
        (ok-injective made)
        (
          all_checks-outcome probes,
          subst
              (λ (b : Bool).
                IsVerdict (overall_of (all_checks probes)) b
                  (any (λ c. c) (connectivity_outcomes probes)))
              (every_outcome probes)
              (subst
                (λ (b : Bool).
                  IsVerdict (overall_of (all_checks probes)) (all has_passed (all_checks probes)) b)
                (some_outcome probes) verdict),
        )

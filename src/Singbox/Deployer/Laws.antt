-- ===== src/Singbox/Deployer/Laws.antt =====
-- The commands that a deploy runs with privileges.
use local_singbox_manager.Common.{
  ℕ, zero, suc, ◌+◌, ◌≤◌, arith, String, ◌≡◌, refl, ap, ◌∙◌, Bool, true, false, ◌||◌, Option, none,
  some, List, [], ◌∷◌, ◌++◌, ◌==◌, ◌⧺◌, inl, inr, Bool-cases, if◌then◌else◌,
}
use local_singbox_manager.Common.Json.{Dict}
use local_singbox_manager.Common.Python.{Python}
use local_singbox_manager.Common.Results.{ok, ok-injective}
use local_singbox_manager.Singbox.Host.{
  Host, Event, ran, wrote, unlinked, notified, slept, helper_command, run, run_helper,
  validate_config, is_active, check_written, get_failure_detail,
}
use local_singbox_manager.Singbox.Deployer.{
  DeployResult, poll, wait_service_active, run_deploy, deploy_with_rollback, do_rollback,
  after_restore, rollback_if, fail_and_roll_back, validate_stage, write_stage, deploy_stage,
  deploy_path, restart_stage, health_stage, active_or_unchecked,
}

-- the commands run through sudo, newest first
abbrev call_of : List String → List (List String) → List (List String)
call_of [] rest = rest
call_of (program ∷ args) rest = if program == "sudo" then (program ∷ args) ∷ rest else rest

unfoldable pub privileged : List Event → List (List String)
privileged [] = []
privileged (ran args ∷ past) = call_of args (privileged past)
privileged (wrote path ∷ past) = privileged past
privileged (unlinked path ∷ past) = privileged past
privileged (notified title body level ∷ past) = privileged past
privileged (slept ∷ past) = privileged past

-- the part of `expected_calls` that a rollback makes
abbrev rollback_calls : Host → Bool → Option String → List (List String)
rollback_calls host rolled_back none = []
rollback_calls host rolled_back (some backup) =
    if rolled_back
    then helper_command host ("restart" ∷ []) ∷ helper_command host ("restore" ∷ backup ∷ []) ∷ []
    else helper_command host ("restore" ∷ backup ∷ []) ∷ []

-- the commands, newest first, that a deploy with this result has run: none before the configuration
-- is validated, then `deploy`, `restart`, and, for a failure with a backup, `restore` and, if that
-- worked, `restart`
unfoldable pub expected_calls : Host → String → DeployResult → List (List String)
expected_calls host path r =
    if r.stage == "lock" || r.stage == "validate"
    then []
    else (if r.stage == "deploy"
        then []
        else (if r.success then [] else rollback_calls host r.rolled_back r.backup_name)
          ++ helper_command host ("restart" ∷ []) ∷ [])
      ++ helper_command host ("deploy" ∷ path ∷ []) ∷ []

calls_assoc :
    (xs : List (List String)) (a b : List String) (rest : List (List String))
    → xs ++ a ∷ b ∷ rest ≡ ((xs ++ a ∷ []) ++ b ∷ []) ++ rest
calls_assoc [] a b rest = refl
calls_assoc (x ∷ xs) a b rest = ap (λ (ys : List (List String)). x ∷ ys) (calls_assoc xs a b rest)

module _ ⦃py : Python⦄ (host : Host) where
  after_restore-privileged :
      (backup : String) (x : Bool × String) (past rest : List Event)
      → privileged past ≡ helper_command host ("restore" ∷ backup ∷ []) ∷ privileged rest
      → privileged (after_restore host backup x past).1
        ≡ rollback_calls host (after_restore host backup x past).0.0 (some backup)
          ++ privileged rest
  unfolding privileged run_helper run
  after_restore-privileged backup (true, out) past rest h =
      ap (λ (xs : List (List String)). helper_command host ("restart" ∷ []) ∷ xs) h
  after_restore-privileged backup (false, out) past rest h = h

  do_rollback-privileged :
      (backup : String) (past : List Event)
      → privileged (do_rollback host backup past).1
        ≡ rollback_calls host (do_rollback host backup past).0.0 (some backup) ++ privileged past
  unfolding privileged do_rollback run_helper run
  do_rollback-privileged backup past =
      after_restore-privileged backup (run_helper host ("restore" ∷ backup ∷ []) past).0
        (run_helper host ("restore" ∷ backup ∷ []) past).1 past refl

  fail_and_roll_back-privileged :
      (stage error : String) (hash backup : Option String) (past : List Event)
      → privileged (fail_and_roll_back host stage error hash backup past).1
        ≡ rollback_calls host
            (fail_and_roll_back host stage error hash backup past).0.rolled_back
            backup
          ++ privileged past
  unfolding privileged fail_and_roll_back
  fail_and_roll_back-privileged stage error hash none past = refl
  fail_and_roll_back-privileged stage error hash (some backup) past =
      do_rollback-privileged backup
        (notified "✗ Deploy failed" ("Stage: " ⧺ stage ⧺ " — " ⧺ error) "critical" ∷ past)

  poll-privileged :
      (attempts : ℕ) (past : List Event) → privileged (poll host attempts past).1 ≡ privileged past
  unfolding privileged is_active
  poll-privileged zero past = refl
  poll-privileged (suc attempts) past = elim (Bool-cases (is_active host past).0) [
    | inl e ↦ rw e refl
    | inr e ↦ rw e (poll-privileged attempts _)
  ]

  active-privileged :
      (check : Bool) (past : List Event)
      → privileged (active_or_unchecked host check past).1 ≡ privileged past
  unfolding wait_service_active
  active-privileged true past = poll-privileged 6 past
  active-privileged false past = refl

  -- the calls of a result that a failure after the restart gives
  failed-privileged :
      (stage error path : String) (hash backup : Option String) (past rest : List Event)
      → (stage == "lock" || stage == "validate") ≡ false
      → (stage == "deploy") ≡ false
      → privileged past
        ≡ helper_command host ("restart" ∷ [])
          ∷ helper_command host ("deploy" ∷ path ∷ [])
          ∷ privileged rest
      → privileged (fail_and_roll_back host stage error hash backup past).1
        ≡ expected_calls host path (fail_and_roll_back host stage error hash backup past).0
          ++ privileged rest
  unfolding expected_calls fail_and_roll_back
  failed-privileged stage error path hash backup past rest late later h =
      rw (late, later, fail_and_roll_back-privileged stage error hash backup past, h)
        (calls_assoc (rollback_calls host (rollback_if host backup _).0 backup) _ _ _)

  health-privileged :
      (path : String) (active : Bool) (tag : String) (hash backup : Option String)
      (past rest : List Event)
      → privileged past
        ≡ helper_command host ("restart" ∷ [])
          ∷ helper_command host ("deploy" ∷ path ∷ [])
          ∷ privileged rest
      → privileged (health_stage host active tag hash backup past).1
        ≡ expected_calls host path (health_stage host active tag hash backup past).0
          ++ privileged rest
  unfolding privileged get_failure_detail run expected_calls
  health-privileged path true tag hash backup past rest h = h
  health-privileged path false tag hash backup past rest h =
      failed-privileged "health" _ path hash backup (get_failure_detail host 200 host.since past).1
        rest refl refl h

  restart-privileged :
      (path : String) (x : Bool × String) (tag : String) (check : Bool)
      (hash backup : Option String) (past rest : List Event)
      → privileged past
        ≡ helper_command host ("restart" ∷ [])
          ∷ helper_command host ("deploy" ∷ path ∷ [])
          ∷ privileged rest
      → privileged (restart_stage host x tag check hash backup past).1
        ≡ expected_calls host path (restart_stage host x tag check hash backup past).0
          ++ privileged rest
  unfolding privileged get_failure_detail run
  restart-privileged path (false, error) tag check hash backup past rest h =
      failed-privileged "restart" _ path hash backup (get_failure_detail host 200 host.since past).1
        rest refl refl h
  restart-privileged path (true, output) tag check hash backup past rest h =
      health-privileged path (active_or_unchecked host check past).0 tag hash backup
        (active_or_unchecked host check past).1 rest (active-privileged check past ∙ h)

  deploy-privileged :
      (path : String) (x : Bool × String) (tag : String) (check : Bool) (hash : Option String)
      (past rest : List Event)
      → privileged past ≡ helper_command host ("deploy" ∷ path ∷ []) ∷ privileged rest
      → privileged (deploy_stage host x tag check hash past).1
        ≡ expected_calls host path (deploy_stage host x tag check hash past).0 ++ privileged rest
  unfolding privileged run_helper run expected_calls
  deploy-privileged path (false, output) tag check hash past rest h = h
  deploy-privileged path (true, output) tag check hash past rest h =
      restart-privileged path (run_helper host ("restart" ∷ []) past).0 tag check hash
        (host.backup_in output) (run_helper host ("restart" ∷ []) past).1 rest
        (ap (λ (xs : List (List String)). helper_command host ("restart" ∷ []) ∷ xs) h)

  write-privileged :
      (o : Option String) (tag : String) (check : Bool) (hash : Option String) (past : List Event)
      {r : DeployResult}
      → (write_stage host o tag check hash past).0 ≡ ok r
      → privileged (write_stage host o tag check hash past).1
        ≡ expected_calls host (deploy_path host past) r ++ privileged past
  unfolding privileged run_helper run
  write-privileged (some text) tag check hash past e = cc
  write-privileged none tag check hash past e =
      let path = deploy_path host past in
      let (deployed, next) = run_helper host ("deploy" ∷ path ∷ []) (wrote path ∷ past) in
      deploy-privileged path deployed tag check hash (unlinked path ∷ next) past refl
      ∙ ap (λ (x : DeployResult). expected_calls host path x ++ privileged past) (ok-injective e)

  check-privileged :
      (o : Option String) (path : String) (past : List Event)
      → (host.singbox_bin == "sudo") ≡ false
      → privileged (check_written host o path past).1 ≡ privileged past
  unfolding privileged run
  check-privileged (some text) path past h = refl
  check-privileged none path past h = rw h refl

  validate-privileged :
      (x : Bool × String) (tag : String) (check : Bool) (hash : Option String) (past : List Event)
      {r : DeployResult}
      → (validate_stage host x tag check hash past).0 ≡ ok r
      → privileged (validate_stage host x tag check hash past).1
        ≡ expected_calls host (deploy_path host past) r ++ privileged past
  unfolding privileged expected_calls
  validate-privileged (false, error) tag check hash past e =
      ap (λ (x : DeployResult). expected_calls host (deploy_path host past) x ++ privileged past)
        (ok-injective e)
  validate-privileged (true, message) tag check hash past e =
      write-privileged (host.write past (deploy_path host past)) tag check hash past e

  run_deploy-privileged :
      (config : Dict) (tag : String) (check : Bool) (past : List Event) (r : DeployResult)
      → (host.singbox_bin == "sudo") ≡ false
      → (run_deploy host config tag check past).0 ≡ ok r
      → privileged (run_deploy host config tag check past).1
        ≡ expected_calls host (deploy_path host (validate_config host past).1) r ++ privileged past
  unfolding run_deploy validate_config
  run_deploy-privileged config tag check past r h e =
      validate-privileged (validate_config host past).0 tag check _ (validate_config host past).1 e
      ∙ ap
          (λ (xs : List (List String)).
            expected_calls host (deploy_path host (validate_config host past).1) r ++ xs)
          (check-privileged (host.write past ("/tmp/singbox-check-" ⧺ host.uuid past ⧺ ".json"))
            ("/tmp/singbox-check-" ⧺ host.uuid past ⧺ ".json") past h)

  -- The result of a deploy tells which commands it has run through sudo: none if another deploy holds
  -- the lock or the configuration is invalid; the helper's `deploy`, and after it `restart`; and after
  -- a failed restart or health check with a backup, `restore` of that backup, followed by `restart`
  -- exactly if the result says that it rolled back. The checker of configurations is not sudo itself.
  pub deploy_with_rollback-privileged :
      (locked : Bool) (config : Dict) (tag : String) (check : Bool) (past : List Event)
      (r : DeployResult)
      → (host.singbox_bin == "sudo") ≡ false
      → (deploy_with_rollback host locked config tag check past).0 ≡ ok r
      → privileged (deploy_with_rollback host locked config tag check past).1
        ≡ expected_calls host (deploy_path host (validate_config host past).1) r ++ privileged past
  unfolding deploy_with_rollback expected_calls
  deploy_with_rollback-privileged true config tag check past r h e =
      ap
        (λ (x : DeployResult).
          expected_calls host (deploy_path host (validate_config host past).1) x ++ privileged past)
        (ok-injective e)
  deploy_with_rollback-privileged false config tag check past r h e =
      run_deploy-privileged config tag check past r h e

-- how often the log asks whether the service is active
abbrev asks : List String → ℕ → ℕ
asks [] n = n
asks (program ∷ args) n = if program == "systemctl" then suc n else n

unfoldable pub questions : List Event → ℕ
questions [] = 0
questions (ran args ∷ past) = asks args (questions past)
questions (wrote path ∷ past) = questions past
questions (unlinked path ∷ past) = questions past
questions (notified title body level ∷ past) = questions past
questions (slept ∷ past) = questions past

module _ ⦃py : Python⦄ (host : Host) where
  poll-bounded :
      (attempts : ℕ) (past : List Event)
      → questions (poll host attempts past).1 ≤ questions past + attempts
  unfolding questions is_active run
  poll-bounded zero past = omega arith
  poll-bounded (suc attempts) past = elim (Bool-cases (is_active host past).0) [
    | inl e ↦ rw e (omega arith)
    | inr e ↦ rw e (omega (arith, poll-bounded attempts (slept ∷ (is_active host past).1)))
  ]

  -- The wait for the service ends after at most six questions to systemd.
  pub wait_service_active-bounded :
      (past : List Event) → questions (wait_service_active host past).1 ≤ questions past + 6
  unfolding wait_service_active
  wait_service_active-bounded past = poll-bounded 6 past

-- ===== src/Singbox/Deployer.antt =====
-- app/singbox/deployer.py: the deploy pipeline with its rollback.
pub mod Laws
use local_singbox_manager.Common.{
  ℕ, zero, suc, String, Bool, true, false, not, Option, none, some, List, [], ◌∷◌, ◌⧺◌, is_blank,
  text_or, if◌then◌else◌,
}
use local_singbox_manager.Common.Json.{Json, Dict, object, array}
use local_singbox_manager.Common.Python.{Python}
use local_singbox_manager.Common.Results.{Result, ok, err}
use local_singbox_manager.Singbox.Host.{
  Host, Event, wrote, unlinked, notified, slept, run_helper, is_active, get_failure_detail,
  validate_config,
}

pub record DeployResult : Type 0 where
  pub success : Bool
  pub stage : String
  pub error : String
  pub rolled_back : Bool
  pub backup_name : Option String
  pub node_tag : Option String
  pub config_hash : Option String

-- `f"{x}"` of an optional text
abbrev shown : Option String → String
shown none = "None"
shown (some s) = s

unfoldable pub user_message : DeployResult → String
user_message r =
    if r.success
    then "✓ Active: "
      ⧺ shown r.node_tag
      ⧺ (if is_blank (text_or r.backup_name "")
          then ""
          else " (backup: " ⧺ shown r.backup_name ⧺ ")")
    else "Deploy failed at '"
      ⧺ r.stage
      ⧺ "': "
      ⧺ r.error
      ⧺ (if r.rolled_back
          then " — automatically rolled back to previous config"
          else if is_blank (text_or r.backup_name "")
          then ""
          else " — manual rollback available: " ⧺ shown r.backup_name)

-- a file that could not be written
pub data DeployCrash : Type 0 where
  os_error : String → DeployCrash

abbrev failed_at : String → String → Option String → Bool → Option String → DeployResult
failed_at stage error hash rolled_back backup_name = record {
  success = false;
  stage = stage;
  error = error;
  rolled_back = rolled_back;
  backup_name = backup_name;
  node_tag = none;
  config_hash = hash;
}

module _ ⦃py : Python⦄ where
  unfoldable pub config_hash : Dict → String
  config_hash config = py.sha256_hex (py.dumps_canonical (object config))

  module _ (host : Host) where
    abbrev pub poll : ℕ → List Event → Bool × List Event
    poll zero past = (false, past)
    poll (suc attempts) past =
        let (active, next) = is_active host past in
        let rest = poll attempts (slept ∷ next) in if active then (true, next) else rest

    -- `_wait_service_active()`
    unfoldable pub wait_service_active : List Event → Bool × List Event
    wait_service_active past = poll 6 past

    abbrev pub after_restore : String → (Bool × String) → List Event → (Bool × String) × List Event
    after_restore backup_name (false, out) past = (
      (false, "restore failed: " ⧺ out),
      notified "⚠ Rollback FAILED" ("Manual recovery needed. Backup: " ⧺ backup_name) "critical"
          ∷ past,
    )
    after_restore backup_name (true, out) past =
        let (ignored, next) = run_helper host ("restart" ∷ []) past in
        (
          (true, out),
          notified "↩ Rolled back" ("Restored " ⧺ backup_name ⧺ " after failed deploy") "warning"
              ∷ next,
        )

    -- `_do_rollback`
    unfoldable pub do_rollback : String → List Event → (Bool × String) × List Event
    do_rollback backup_name past =
        let (restored, next) = run_helper host ("restore" ∷ backup_name ∷ []) past in
        after_restore backup_name restored next

    -- `if backup_name: rolled_back, _ = _do_rollback(backup_name)`
    abbrev pub rollback_if : Option String → List Event → Bool × List Event
    rollback_if none past = (false, past)
    rollback_if (some backup_name) past =
        let ((rolled_back, out), next) = do_rollback backup_name past in (rolled_back, next)

    -- a failure after the new configuration is in place
    unfoldable pub fail_and_roll_back :
        String → String → Option String → Option String → List Event → DeployResult × List Event
    unfolding do_rollback
    fail_and_roll_back stage error hash backup_name past =
        let failed =
          notified "✗ Deploy failed" ("Stage: " ⧺ stage ⧺ " — " ⧺ error) "critical" ∷ past in
        let (rolled_back, next) = rollback_if backup_name failed in
        (failed_at stage error hash rolled_back backup_name, next)

    abbrev with_detail : String → String → String → String
    with_detail separator error detail =
        if is_blank detail then error else error ⧺ separator ⧺ detail

    abbrev succeed : String → Option String → Option String → List Event → DeployResult × List Event
    succeed node_tag hash backup_name past = (
      record {
        success = true;
        stage = "ok";
        error = "";
        rolled_back = false;
        backup_name = backup_name;
        node_tag = some node_tag;
        config_hash = hash;
      },
      notified "✓ Tunnel active" ("Node: " ⧺ node_tag) "info" ∷ past,
    )

    -- 4. Health check
    abbrev pub health_stage :
        Bool → String → Option String → Option String → List Event → DeployResult × List Event
    health_stage true node_tag hash backup_name past = succeed node_tag hash backup_name past
    health_stage false node_tag hash backup_name past =
        let (detail, next) = get_failure_detail host 200 host.since past in
        fail_and_roll_back "health"
          (with_detail ": " "sing-box.service not active after restart" detail) hash backup_name
          next

    -- `health_check` is off: the service counts as active
    abbrev pub active_or_unchecked : Bool → List Event → Bool × List Event
    active_or_unchecked true past = wait_service_active past
    active_or_unchecked false past = (true, past)

    -- 3. Restart
    abbrev pub restart_stage :
        (Bool × String)
        → String
        → Bool
        → Option String
        → Option String
        → List Event
        → DeployResult × List Event
    restart_stage (false, error) node_tag health_check hash backup_name past =
        let (detail, next) = get_failure_detail host 200 host.since past in
        fail_and_roll_back "restart" (with_detail " | " error detail) hash backup_name next
    restart_stage (true, output) node_tag health_check hash backup_name past =
        let (active, next) = active_or_unchecked health_check past in
        health_stage active node_tag hash backup_name next

    -- the answer to the helper's `deploy`
    abbrev pub deploy_stage :
        (Bool × String) → String → Bool → Option String → List Event → DeployResult × List Event
    deploy_stage (false, output) node_tag health_check hash past = (
      failed_at "deploy" output hash false none,
      notified "✗ Deploy failed" ("Stage: deploy — " ⧺ output) "critical" ∷ past,
    )
    deploy_stage (true, output) node_tag health_check hash past =
        let (restarted, next) = run_helper host ("restart" ∷ []) past in
        restart_stage restarted node_tag health_check hash (host.backup_in output) next

    abbrev pub deploy_path : List Event → String
    deploy_path past = "/tmp/singbox-deploy-" ⧺ host.uuid past ⧺ ".json"

    -- 2. Write a temporary file and deploy it
    abbrev pub write_stage :
        Option String
        → String
        → Bool
        → Option String
        → List Event
        → Result DeployCrash DeployResult × List Event
    write_stage (some text) node_tag health_check hash past = (err (os_error text), past)
    write_stage none node_tag health_check hash past =
        let path = deploy_path past in
        let (deployed, next) = run_helper host ("deploy" ∷ path ∷ []) (wrote path ∷ past) in
        let (result, done) =
          deploy_stage deployed node_tag health_check hash (unlinked path ∷ next) in
        (ok result, done)

    -- 1. Validate
    abbrev pub validate_stage :
        (Bool × String)
        → String
        → Bool
        → Option String
        → List Event
        → Result DeployCrash DeployResult × List Event
    validate_stage (false, error) node_tag health_check hash past = (
      ok (failed_at "validate" error hash false none),
      notified "✗ Deploy failed" ("Config invalid: " ⧺ error) "critical" ∷ past,
    )
    validate_stage (true, message) node_tag health_check hash past =
        write_stage (host.write past (deploy_path past)) node_tag health_check hash past

    unfoldable pub run_deploy :
        Dict → String → Bool → List Event → Result DeployCrash DeployResult × List Event
    unfolding wait_service_active
    run_deploy config node_tag health_check past =
        let (valid, next) = validate_config host past in
        validate_stage valid node_tag health_check (some (config_hash config)) next

    -- `locked`: another deploy holds the lock
    unfoldable pub deploy_with_rollback :
        Bool → Dict → String → Bool → List Event → Result DeployCrash DeployResult × List Event
    unfolding run_deploy
    deploy_with_rollback locked config node_tag health_check past =
        if locked
        then (
          ok (
              failed_at "lock" "Another deploy is already in progress — try again in a moment" none
                false none),
          past,
        )
        else run_deploy config node_tag health_check past

    abbrev or_empty : Option Json → Json
    or_empty none = array []
    or_empty (some backups) = backups

    unfoldable pub list_backups : List Event → Json × List Event
    list_backups past =
        let ((succeeded, output), next) = run_helper host ("list-backups" ∷ []) past in
        (or_empty (if succeeded then py.loads output else none), next)

    unfoldable pub restore_backup : String → List Event → (Bool × String) × List Event
    restore_backup name past = run_helper host ("restore" ∷ name ∷ []) past

-- ===== src/Services/Deploy.antt =====
-- app/services/deploy.py: generating a configuration for a node, deploying it, and the rows after it.
pub mod Laws
use local_singbox_manager.Common.{
  ℕ, String, Bool, true, false, Option, none, some, List, [], ◌∷◌, ◌++◌, ◌⧺◌, ◌=ℕ◌, map, or_none,
  text_or, if◌then◌else◌,
}
use local_singbox_manager.Common.Json.{Dict}
use local_singbox_manager.Common.Python.{Python}
use local_singbox_manager.Common.Results.{Result, ok, err}
use local_singbox_manager.Parsers.Node.{ParsedNode}
use local_singbox_manager.Singbox.Routes.{ConfigError}
use local_singbox_manager.Singbox.Generator.{generate_config}
use local_singbox_manager.Singbox.Host.{Host, Event}
use local_singbox_manager.Singbox.Deployer.{
  DeployResult, DeployCrash, user_message, deploy_with_rollback,
}
use local_singbox_manager.Store.Models.{current_timestamp, Node, Profile, DeployLog, Database}
use local_singbox_manager.Store.Nodes as NodeRows
use local_singbox_manager.Store.Profiles as ProfileRows
use local_singbox_manager.Services.AppBypass.{process_bypass_for_config}
use local_singbox_manager.Services.Nodes.{Pydantic, LoadError, deserialize_node}
use local_singbox_manager.Services.Settings.{presets, singbox_log_level}

pub record ActivationResult : Type 0 where
  pub accepted : Bool
  pub message : String
  pub deploy_result : Option DeployResult

-- `str(e)` of the exceptions that are caught
pub record Texts : Type 0 where
  pub of_load : LoadError → String
  pub of_config : ConfigError → String

-- what the operations run on: the host, and whether another deploy holds the lock
pub record Env : Type 0 where
  pub pydantic : Pydantic
  pub texts : Texts
  pub host : Host
  pub locked : Bool

abbrev pub Run : Type 0 → Type 0
Run A = Result DeployCrash (Database × A) × List Event

abbrev pub rejected : String → Option DeployResult → ActivationResult
rejected message result = record { accepted = false; message = message; deploy_result = result }

-- `db.query(Node).update({"active": False}); node.active = True`
abbrev activate_row : Node → Database → Database
activate_row node db = record db {
  nodes = map (λ (n : Node). if n.id =ℕ node.id then record n { active = true } else n) db.nodes;
}

abbrev activate_profile_row : Option Profile → Database → Database
activate_profile_row none db = db
activate_profile_row (some profile) db = record db {
  profiles =
      map (λ (p : Profile). if p.id =ℕ profile.id then record p { active = true } else p)
        db.profiles;
}

unfoldable pub mark_active : Node → Option Profile → Database → Database
unfolding NodeRows.deactivate_all ProfileRows.deactivate_all
mark_active node profile db =
    activate_profile_row profile
      (ProfileRows.deactivate_all (activate_row node (NodeRows.deactivate_all db)))

module _ ⦃py : Python⦄ where
  unfoldable pub add_log : Node → DeployResult → Database → Database
  add_log node result db = record db {
    deploy_logs =
        db.deploy_logs
        ++ record {
          id = py.new_id (map (λ (l : DeployLog). l.id) db.deploy_logs);
          started_at = current_timestamp db.now;
          node_tag = some (text_or result.node_tag node.tag);
          config_hash = result.config_hash;
          backup_name = result.backup_name;
          stage_reached = result.stage;
          success = result.success;
          rolled_back = result.rolled_back;
          error = or_none result.error;
        }
          ∷ [];
  }

  -- the rows and the answer after the pipeline
  unfoldable pub record_result :
      Database → Node → Option Profile → DeployResult → Database × ActivationResult
  record_result db node profile result = (
    if result.success
        then mark_active node profile (add_log node result db)
        else add_log node result db,
    record {
      accepted = result.success;
      message = user_message result;
      deploy_result = some result;
    },
  )

  -- the presets of the profile, or those of the settings
  abbrev chosen_presets : Database → Option Profile → String × String
  chosen_presets db none = presets db
  chosen_presets db (some profile) = (profile.dns_preset, profile.route_preset)

  module _ (env : Env) where
    abbrev pub recorded :
        Database
        → Node
        → Option Profile
        → Result DeployCrash DeployResult
        → Result DeployCrash (Database × ActivationResult)
    recorded db node profile (ok result) = ok (record_result db node profile result)
    recorded db node profile (err e) = err e

    abbrev pub deploy_config :
        Database
        → Node
        → Option Profile
        → Result ConfigError Dict
        → List Event
        → Run ActivationResult
    deploy_config db node profile (err e) past =
        (ok (db, rejected ("Config generation failed: " ⧺ env.texts.of_config e) none), past)
    deploy_config db node profile (ok config) past =
        let (result, next) = deploy_with_rollback env.host env.locked config node.tag true past in
        (recorded db node profile result, next)

    abbrev pub activate_loaded :
        Database
        → Node
        → Option Profile
        → Result LoadError ParsedNode
        → List Event
        → Run ActivationResult
    activate_loaded db node profile (err e) past =
        (ok (db, rejected ("Failed to load node: " ⧺ env.texts.of_load e) none), past)
    activate_loaded db node profile (ok parsed) past =
        let (dns_preset, route_preset) = chosen_presets db profile in
        deploy_config db node profile
          (generate_config parsed dns_preset route_preset (singbox_log_level db)
            (some (process_bypass_for_config db)))
          past

    unfoldable pub activate_node :
        Database → Node → Option Profile → List Event → Run ActivationResult
    activate_node db node profile past =
        activate_loaded db node profile (deserialize_node env.pydantic node) past

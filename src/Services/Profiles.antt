-- ===== src/Services/Profiles.antt =====
-- app/services/profiles.py: named pairs of a node and its presets.
pub mod Laws
use local_singbox_manager.Common.{
  ℕ, String, Bool, true, false, not, Option, none, some, List, [], ◌∷◌, ◌++◌, ◌⧺◌, ◌=ℕ◌, map,
  filter, is_blank, or_none, strip, text_or, if◌then◌else◌,
}
use local_singbox_manager.Common.Python.{Python}
use local_singbox_manager.Common.Results.{Result, ok, err}
use local_singbox_manager.Singbox.Presets.{known_dns_preset, known_route_preset}
use local_singbox_manager.Singbox.Host.{Event}
use local_singbox_manager.Singbox.Deployer.{DeployCrash}
use local_singbox_manager.Store.Models.{current_timestamp, Node, Profile, Database}
use local_singbox_manager.Store.Nodes as NodeRows
use local_singbox_manager.Store.Profiles as ProfileRows
use local_singbox_manager.Services.Deploy.{Env, Run, ActivationResult, activate_node}
use local_singbox_manager.Services.Settings.{set_setting}

pub record ProfileInput : Type 0 where
  pub name : String
  pub description : String
  pub node_tag : String
  pub dns_preset : String
  pub route_preset : String

pub record ProfileMutationResult : Type 0 where
  pub accepted : Bool
  pub message : String
  pub redirect_to : String

abbrev pub refused : String → ProfileMutationResult
refused message = record { accepted = false; message = message; redirect_to = "/profiles" }

abbrev done : String → ProfileMutationResult
done message = record { accepted = true; message = message; redirect_to = "/profiles" }

module _ ⦃py : Python⦄ (repr : String → String) where
  -- the error of `_validate_presets`, with `repr` of the name
  unfoldable pub validate_presets : String → String → Option ProfileMutationResult
  validate_presets dns_preset route_preset =
      if not (known_dns_preset dns_preset)
      then some (refused ("Invalid DNS preset: " ⧺ repr dns_preset))
      else if not (known_route_preset route_preset)
      then some (refused ("Invalid route preset: " ⧺ repr route_preset))
      else none

  abbrev pub new_profile : Database → ProfileInput → Profile
  new_profile db form = record {
    id = py.new_id (map (λ (p : Profile). p.id) db.profiles);
    name = strip form.name;
    description = or_none (strip form.description);
    node_tag = or_none (strip form.node_tag);
    dns_preset = form.dns_preset;
    route_preset = form.route_preset;
    active = false;
    created_at = current_timestamp db.now;
  }

  abbrev pub create_valid :
      Database
      → ProfileInput
      → Option ProfileMutationResult
      → Option Profile
      → Database × ProfileMutationResult
  create_valid db form (some invalid) taken = (db, invalid)
  create_valid db form none (some p) =
      (db, refused ("Profile '" ⧺ strip form.name ⧺ "' already exists"))
  create_valid db form none none = (
    record db { profiles = db.profiles ++ new_profile db form ∷ [] },
    done ("Created profile '" ⧺ strip form.name ⧺ "'"),
  )

  unfoldable pub create_profile : Database → ProfileInput → Database × ProfileMutationResult
  create_profile db form =
      if is_blank (strip form.name)
      then (db, refused "Profile name is required")
      else create_valid db form (validate_presets form.dns_preset form.route_preset)
          (ProfileRows.get_by_name (strip form.name) db)

abbrev delete_found : Database → ℕ → Option Profile → Database × ProfileMutationResult
delete_found db profile_id none = (db, refused "Profile not found")
delete_found db profile_id (some profile) = (
  record db { profiles = filter (λ (p : Profile). not (p.id =ℕ profile_id)) db.profiles },
  done ("Deleted profile '" ⧺ profile.name ⧺ "'"),
)

unfoldable pub delete_profile : Database → ℕ → Database × ProfileMutationResult
delete_profile db profile_id = delete_found db profile_id (ProfileRows.get_by_id profile_id db)

module _ ⦃py : Python⦄ (env : Env) where
  -- the settings become those of the profile
  abbrev pub save_presets : Profile → Database → Database
  save_presets profile db =
      set_setting "route_preset" profile.route_preset
        (set_setting "dns_preset" profile.dns_preset db)

  abbrev pub after_activation :
      Profile → Database → ActivationResult → Database × ProfileMutationResult
  after_activation profile db result =
      if not result.accepted then (db, refused result.message) else (
        save_presets profile db,
        record {
          accepted = true;
          message = "✓ Profile '" ⧺ profile.name ⧺ "' activated";
          redirect_to = "/";
        },
      )

  abbrev pub activated :
      Profile
      → Result DeployCrash (Database × ActivationResult)
      → Result DeployCrash (Database × ProfileMutationResult)
  activated profile (err e) = err e
  activated profile (ok (db, result)) = ok (after_activation profile db result)

  abbrev pub activate_with :
      Database → Profile → String → Option Node → List Event → Run ProfileMutationResult
  activate_with db profile tag none past =
      (ok (db, refused ("Node '" ⧺ tag ⧺ "' no longer exists — update the profile")), past)
  activate_with db profile tag (some node) past =
      let (result, next) = activate_node env db node (some profile) past in
      (activated profile result, next)

  abbrev pub activate_found : Database → Option Profile → List Event → Run ProfileMutationResult
  activate_found db none past = (ok (db, refused "Profile not found"), past)
  activate_found db (some profile) past =
      let tag = text_or profile.node_tag "" in
      if is_blank tag
      then (
        ok (db, refused ("Profile '" ⧺ profile.name ⧺ "' has no node — edit or delete it")),
        past,
      )
      else activate_with db profile tag (NodeRows.get_by_tag tag db) past

  unfoldable pub activate_profile : Database → ℕ → List Event → Run ProfileMutationResult
  activate_profile db profile_id past = activate_found db (ProfileRows.get_by_id profile_id db) past

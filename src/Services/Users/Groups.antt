-- ===== src/Services/Users/Groups.antt =====
-- The operations on groups of app/services/users.py.
pub mod Laws
pub mod Effects
use local_singbox_manager.Common.{
  ℕ, zero, suc, ◌+◌, String, Bool, true, false, not, ◌&&◌, ◌||◌, Option, none, some, List, [], ◌∷◌,
  ◌++◌, ◌⧺◌, map, ◌=ℕ◌, ◌==◌, is_blank, or_none, strip, is_some, all, member, filter, if◌then◌else◌,
}
use local_singbox_manager.Common.Python.{Python}
use local_singbox_manager.Common.Results.{Result, ok, err, guard, ◌>>=◌, ◌>>◌}
use local_singbox_manager.Store.Models.{current_timestamp, ConfigGroup, Database}
use local_singbox_manager.Store.Rows.{Crash}
use local_singbox_manager.Store.Users
use local_singbox_manager.Services.NodeTags.{decode_node_tags, encode_node_tags}
use local_singbox_manager.Services.Distribution.{preset_of}
use local_singbox_manager.Services.Users.Forms.{
  MutationResult, ConfigGroupInput, Exit, refused, finish, tags_or_empty, validated_node_tags,
  checked_route_preset, parse_optional_positive_int,
}
use local_singbox_manager.Services.Users.Notify.{Telegram, notify_group_config_changed}

-- the fields of a form that passed the checks
pub record Checked : Type 0 where
  pub name : String
  pub tags : List String
  pub route_preset : String
  pub limit : Option ℕ

-- `set(a) != set(b)`
unfoldable pub sets_differ : List String → List String → Bool
sets_differ xs ys = not (all (λ x. member x ys) xs && all (λ y. member y xs) ys)

-- `int(group.config_version or 1) + 1`
unfoldable pub next_version : ℕ → ℕ
next_version zero = 2
next_version (suc n) = suc (suc n)

unfoldable pub config_changed : ⦃py : Python⦄ → ConfigGroup → Checked → Bool
config_changed group c =
    sets_differ (decode_node_tags group.node_tags_json) c.tags
    || not (preset_of group == c.route_preset)

module _ ⦃py : Python⦄ where
  -- the checks that `create_group` and `update_group` share: `taken` is the row with the same name
  unfoldable pub checked_group :
      Database → ConfigGroupInput → (String → Option ConfigGroup) → Result Exit Checked
  checked_group db form taken =
      guard (not (is_blank (strip form.name))) (refused "Group name is required")
      >> (guard (not (is_some (taken (strip form.name))))
            (refused ("Group '" ⧺ strip form.name ⧺ "' already exists"))
          >> (validated_node_tags db (tags_or_empty form.node_tags) >>= λ tags.
              checked_route_preset form.route_preset >>= λ preset.
              parse_optional_positive_int form.refresh_limit_per_hour "Group refresh limit"
              >>= λ limit. ok (record {
                name = strip form.name;
                tags = tags;
                route_preset = preset;
                limit = limit;
              })))

  abbrev pub new_group : Database → ConfigGroupInput → Checked → ConfigGroup
  new_group db form c = record {
    id = py.new_id (map (λ (g : ConfigGroup). g.id) db.groups);
    name = c.name;
    description = or_none (strip form.description);
    enabled = form.enabled;
    node_tags_json = encode_node_tags c.tags;
    config_version = 1;
    route_preset = c.route_preset;
    refresh_limit_per_hour = c.limit;
    notes = or_none (strip form.notes);
    created_at = current_timestamp db.now;
  }

  abbrev pub add_group : Database → ConfigGroup → Database
  add_group db group = record db { groups = db.groups ++ group ∷ [] }

  unfoldable pub create_group :
      Database → ConfigGroupInput → Result Crash (Database × MutationResult)
  create_group db form = finish db (
      checked_group db form (λ name. Users.get_group_by_name name db) >>= λ (c : Checked).
      ok (add_group db (new_group db form c), "Created group '" ⧺ c.name ⧺ "'"))

  -- the assignments to the row
  unfoldable pub updated_group : ConfigGroup → ConfigGroupInput → Checked → ConfigGroup
  updated_group group form c = record group {
    name = c.name;
    description = or_none (strip form.description);
    node_tags_json = encode_node_tags c.tags;
    route_preset = c.route_preset;
    refresh_limit_per_hour = c.limit;
    notes = or_none (strip form.notes);
    enabled = form.enabled;
    config_version =
        if config_changed group c then next_version group.config_version else group.config_version;
  }

  -- the row with this id is the loaded one
  abbrev pub put_group : ℕ → ConfigGroup → Database → Database
  put_group group_id group db = record db {
    groups = map (λ (g : ConfigGroup). if g.id =ℕ group_id then group else g) db.groups;
  }

  abbrev notify_if : Telegram → Bool → ConfigGroup → Database → Database
  notify_if bot wanted group db =
      let notified = notify_group_config_changed bot group db in if wanted then notified else db

  abbrev update_found :
      Telegram
      → Database
      → ℕ
      → ConfigGroupInput
      → Option ConfigGroup
      → Result Exit (Database × String)
  update_found bot db group_id form none = err (refused "Group not found")
  update_found bot db group_id form (some group) =
      checked_group db form (λ name. Users.get_group_name_duplicate name group_id db)
      >>= λ (c : Checked). ok (
        notify_if bot (config_changed group c && form.enabled) (updated_group group form c)
            (put_group group_id (updated_group group form c) db),
        "Updated group '" ⧺ c.name ⧺ "'",
      )

  unfoldable pub update_group :
      Telegram → Database → ℕ → ConfigGroupInput → Result Crash (Database × MutationResult)
  update_group bot db group_id form =
      finish db (update_found bot db group_id form (Users.get_group group_id db))

abbrev remove_group : ℕ → Database → Database
remove_group group_id db = record db {
  groups = filter (λ (g : ConfigGroup). not (g.id =ℕ group_id)) db.groups;
}

abbrev delete_found : Database → ℕ → Option ConfigGroup → Database × MutationResult
delete_found db group_id none = (db, record { accepted = false; message = "Group not found" })
delete_found db group_id (some group) = (
  remove_group group_id (Users.clear_group_assignments group_id db),
  record { accepted = true; message = "Deleted group '" ⧺ group.name ⧺ "'" },
)

unfoldable pub delete_group : Database → ℕ → Database × MutationResult
delete_group db group_id = delete_found db group_id (Users.get_group group_id db)

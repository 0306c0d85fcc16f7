-- ===== src/Services/Distribution.antt =====
-- app/services/distribution.py: what a Telegram user is given, and how often.
pub mod Laws
pub mod Tables
use local_singbox_manager.Common.{
  ℕ, zero, suc, ◌+◌, ◌*◌, ◌/◌, ltb, String, Bool, true, false, not, ◌&&◌, Option, none, some, List,
  [], ◌∷◌, ◌++◌, map, ◌==◌, ◌=ℕ◌, leb, is_blank, is_empty, or_none, length, member, filter, find,
  if◌then◌else◌,
}
use local_singbox_manager.Common.Json.{Json, str, object, array}
use local_singbox_manager.Common.Python.{Python}
use local_singbox_manager.Common.Sorting.{sort_by}
use local_singbox_manager.Singbox.Presets.{default_route_preset, known_route_preset}
use local_singbox_manager.Store.Models.{
  second, current_timestamp, Node, ConfigGroup, ManagedUser, ConfigDeliveryLog, Database,
}
use local_singbox_manager.Store.Users
use local_singbox_manager.Services.NodeTags.{decode_node_tags}

pub record UserAssignment : Type 0 where
  pub user : Option ManagedUser
  pub group : Option ConfigGroup
  pub nodes : List Node
  pub error : String
  pub config_version : Option ℕ
  pub config_fingerprint : String
  pub route_preset : String
  pub refresh_limit_per_hour : ℕ

abbrev pub delivery_actions : List String
delivery_actions = "/config" ∷ "/refresh" ∷ "/sbclient" ∷ []

abbrev pub rate_limit_message : String
rate_limit_message = "Refresh limit reached. Try later."

abbrev pub default_refresh_limit_per_hour : ℕ
default_refresh_limit_per_hour = 10

abbrev pub hour : ℕ
hour = 3600 * second

-- `UserAssignment(user, group, nodes, error)`
abbrev pub refused : Option ManagedUser → Option ConfigGroup → List Node → String → UserAssignment
refused user group nodes error = record {
  user = user;
  group = group;
  nodes = nodes;
  error = error;
  config_version = none;
  config_fingerprint = "";
  route_preset = default_route_preset;
  refresh_limit_per_hour = default_refresh_limit_per_hour;
}

unfoldable pub positive_int_or_none : Option ℕ → Option ℕ
positive_int_or_none none = none
positive_int_or_none (some zero) = none
positive_int_or_none (some (suc n)) = some (suc n)

abbrev or_limit : Option ℕ → ℕ → ℕ
or_limit none n = n
or_limit (some m) n = m

abbrev user_limit : Option ManagedUser → Option ℕ
user_limit none = none
user_limit (some user) = positive_int_or_none user.refresh_limit_per_hour

unfoldable pub effective_refresh_limit : Option ManagedUser → ConfigGroup → ℕ
unfolding positive_int_or_none
effective_refresh_limit user group =
    or_limit (user_limit user)
      (or_limit (positive_int_or_none group.refresh_limit_per_hour) default_refresh_limit_per_hour)

abbrev node_tag : Node → String
node_tag node = node.tag

-- `len(set(tags))`
unfoldable pub count_distinct : List String → ℕ
count_distinct [] = 0
count_distinct (tag ∷ tags) =
    let rest = count_distinct tags in if member tag tags then rest else suc rest

-- the rows whose tag is one of these, by tag
unfoldable pub nodes_of_tags : List String → Database → List Node
nodes_of_tags tags db = sort_by node_tag (filter (λ (n : Node). member n.tag tags) db.nodes)

-- `group.route_preset or DEFAULT_ROUTE_PRESET`
abbrev pub preset_of : ConfigGroup → String
preset_of group = if is_blank group.route_preset then default_route_preset else group.route_preset

-- `if not user.config_group_id`
abbrev pub no_group : Option ℕ → Bool
no_group none = true
no_group (some zero) = true
no_group (some (suc n)) = false

module _ ⦃py : Python⦄ where
  abbrev fingerprint_entry : Node → Json
  fingerprint_entry node =
      object (
        ("tag", str node.tag)
        ∷ ("protocol", str node.protocol)
        ∷ ("raw_url", str node.raw_url)
        ∷ [])

  unfoldable pub config_fingerprint : List Node → String → String
  config_fingerprint nodes route_preset = py.sha256_hex (
      py.dumps_canonical (
        object (
          ("route_preset", str route_preset)
          ∷ ("nodes", array (map fingerprint_entry (sort_by node_tag nodes)))
          ∷ [])))

  unfoldable pub assignment_from_group :
      Database → ConfigGroup → Option ManagedUser → UserAssignment
  assignment_from_group db group user =
      let tags = decode_node_tags group.node_tags_json in
      let nodes = nodes_of_tags tags db in
      let route_preset = preset_of group in
      if is_empty tags
      then refused user (some group) [] "Assigned config group has no nodes."
      else if is_empty nodes
      then refused user (some group) [] "Assigned nodes were not found."
      else if not (length nodes =ℕ count_distinct tags)
      then refused user (some group) nodes "Some assigned nodes were not found."
      else if not (known_route_preset route_preset)
      then refused user (some group) [] "Assigned config group has an invalid route preset."
      else record {
        user = user;
        group = some group;
        nodes = nodes;
        error = "";
        config_version = some group.config_version;
        config_fingerprint = config_fingerprint nodes route_preset;
        route_preset = route_preset;
        refresh_limit_per_hour = effective_refresh_limit user group;
      }

  abbrev pub assignment_in_group : Database → ManagedUser → Option ConfigGroup → UserAssignment
  assignment_in_group db user none =
      refused (some user) none [] "Assigned config group no longer exists."
  assignment_in_group db user (some group) =
      if not group.enabled
      then refused (some user) (some group) [] "Assigned config group is disabled."
      else assignment_from_group db group (some user)

  -- the group that an id of a user names
  abbrev pub group_of_id : Option ℕ → Database → Option ConfigGroup
  group_of_id none db = none
  group_of_id (some group_id) db = Users.get_group group_id db

  abbrev pub assignment_of_user : Database → Option ManagedUser → UserAssignment
  assignment_of_user db none = refused none none [] "User is not registered."
  assignment_of_user db (some user) =
      if not user.enabled
      then refused (some user) none [] "User is disabled."
      else if no_group user.config_group_id
      then refused (some user) none [] "No config group assigned."
      else assignment_in_group db user (group_of_id user.config_group_id db)

  unfoldable pub get_user_assignment : Database → String → UserAssignment
  get_user_assignment db telegram_id =
      assignment_of_user db (Users.get_user_by_telegram_id telegram_id db)

  abbrev artifact_of_group : Database → Option ConfigGroup → UserAssignment
  artifact_of_group db none = refused none none [] "Config group not found."
  artifact_of_group db (some group) = assignment_from_group db group none

  unfoldable pub get_group_artifact_assignment : Database → ℕ → UserAssignment
  get_group_artifact_assignment db group_id = artifact_of_group db (Users.get_group group_id db)

-- a delivery to this user that counts at time `now`: `created_at >= now - 1 hour`. SQLite compares the texts; the
-- stored one ends with its second and the other has a fraction, so that with equal seconds the row is before.
abbrev pub counts : String → ℕ → ConfigDeliveryLog → Bool
counts telegram_id now row =
    row.telegram_id == telegram_id
    && (member row.action delivery_actions && ltb (now / second) ((row.created_at + hour) / second))

unfoldable pub delivery_count : Database → String → ℕ → ℕ
delivery_count db telegram_id now = length (filter (counts telegram_id now) db.deliveries)

-- as many deliveries as the limit, to a user who is there
abbrev pub over_limit : Database → ℕ → ℕ → Option ManagedUser → Bool
over_limit db limit now none = false
over_limit db limit now (some user) = leb limit (delivery_count db user.telegram_id now)

unfoldable pub refresh_limit_exceeded : Database → UserAssignment → ℕ → Bool
unfolding delivery_count
refresh_limit_exceeded db assignment now =
    over_limit db assignment.refresh_limit_per_hour now assignment.user

abbrev user_id_of : Option ManagedUser → Option ℕ
user_id_of none = none
user_id_of (some user) = some user.id

abbrev group_id_of : Option ConfigGroup → Option ℕ
group_id_of none = none
group_id_of (some group) = some group.id

-- `record_delivery`, which every caller gives an assignment
unfoldable pub record_delivery :
    ⦃py : Python⦄ → Database → String → String → Bool → UserAssignment → String → Database
record_delivery ⦃py⦄ db telegram_id action success assignment detail = record db {
  deliveries =
      db.deliveries
      ++ record {
        id = py.new_id (map (λ (l : ConfigDeliveryLog). l.id) db.deliveries);
        created_at = current_timestamp db.now;
        managed_user_id = user_id_of assignment.user;
        telegram_id = telegram_id;
        config_group_id = group_id_of assignment.group;
        action = action;
        success = success;
        config_version = assignment.config_version;
        config_fingerprint = some assignment.config_fingerprint;
        detail = or_none detail;
      }
        ∷ [];
}

-- ===== src/Store/Users.antt =====
-- `UserRepository` of app/repositories.py. `first()` is the first row in insertion order, and equal keys of
-- an `order_by` keep that order.
use local_singbox_manager.Common.{
  ℕ, String, Bool, true, false, not, ◌&&◌, ◌||◌, ltb, take, Option, none, List, map, ◌==◌, ◌=ℕ◌,
  leb, find, filter, if◌then◌else◌,
}
use local_singbox_manager.Common.Sorting.{sort_with, text_leb}
use local_singbox_manager.Store.Models.{ConfigGroup, ManagedUser, ConfigDeliveryLog, Database}
use local_singbox_manager.Store.Rows.{is_id}

unfoldable pub list_enabled_users_for_group : ℕ → Database → List ManagedUser
list_enabled_users_for_group group_id db =
    sort_with (λ (a b : ManagedUser). leb a.created_at b.created_at)
      (filter (λ (u : ManagedUser). is_id u.config_group_id group_id && u.enabled) db.users)

unfoldable pub get_group : ℕ → Database → Option ConfigGroup
get_group group_id db = find (λ (g : ConfigGroup). g.id =ℕ group_id) db.groups

unfoldable pub get_group_by_name : String → Database → Option ConfigGroup
get_group_by_name name db = find (λ (g : ConfigGroup). g.name == name) db.groups

unfoldable pub get_group_name_duplicate : String → ℕ → Database → Option ConfigGroup
get_group_name_duplicate name exclude_id db =
    find (λ (g : ConfigGroup). g.name == name && not (g.id =ℕ exclude_id)) db.groups

unfoldable pub get_user : ℕ → Database → Option ManagedUser
get_user user_id db = find (λ (u : ManagedUser). u.id =ℕ user_id) db.users

unfoldable pub get_user_by_telegram_id : String → Database → Option ManagedUser
get_user_by_telegram_id telegram_id db =
    find (λ (u : ManagedUser). u.telegram_id == telegram_id) db.users

unfoldable pub get_user_telegram_duplicate : String → ℕ → Database → Option ManagedUser
get_user_telegram_duplicate telegram_id exclude_id db =
    find (λ (u : ManagedUser). u.telegram_id == telegram_id && not (u.id =ℕ exclude_id)) db.users

abbrev pub clear_group : ℕ → ManagedUser → ManagedUser
clear_group group_id u =
    if is_id u.config_group_id group_id then record u { config_group_id = none } else u

unfoldable pub clear_group_assignments : ℕ → Database → Database
clear_group_assignments group_id db = record db { users = map (clear_group group_id) db.users }

-- enabled first, then by name
abbrev group_order : ConfigGroup → ConfigGroup → Bool
group_order a b =
    if a.enabled
    then (if b.enabled then text_leb a.name b.name else true)
    else (if b.enabled then false else text_leb a.name b.name)

unfoldable pub list_groups : Database → List ConfigGroup
list_groups db = sort_with group_order db.groups

-- enabled first, then the newest
abbrev user_order : ManagedUser → ManagedUser → Bool
user_order a b =
    if a.enabled
    then (if b.enabled then leb b.created_at a.created_at else true)
    else (if b.enabled then false else leb b.created_at a.created_at)

unfoldable pub list_users : Database → List ManagedUser
list_users db = sort_with user_order db.users

-- the newest first, and of the same time the larger id first
abbrev delivery_order : ConfigDeliveryLog → ConfigDeliveryLog → Bool
delivery_order a b = ltb b.created_at a.created_at || b.created_at =ℕ a.created_at && leb b.id a.id

unfoldable pub list_recent_deliveries : ℕ → Database → List ConfigDeliveryLog
list_recent_deliveries limit db = take limit (sort_with delivery_order db.deliveries)

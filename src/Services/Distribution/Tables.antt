-- ===== src/Services/Distribution/Tables.antt =====
-- What an assignment does not depend on.
use local_singbox_manager.Common.{
  ℕ, ◌≡◌, refl, ap, ◌∙◌, String, not, Option, none, some, List, [], if◌then◌else◌,
}
use local_singbox_manager.Common.Python.{Python}
use local_singbox_manager.Store.Models.{ConfigGroup, ManagedUser, ConfigDeliveryLog, Database}
use local_singbox_manager.Store.Users.{get_group, get_user_by_telegram_id}
use local_singbox_manager.Services.Distribution.{
  UserAssignment, refused, no_group, nodes_of_tags, group_of_id, assignment_from_group,
  assignment_in_group, assignment_of_user, get_user_assignment,
}

module _ ⦃py : Python⦄ where
  -- the same rows, less the log of deliveries and the time
  unfoldable pub with_log : Database → List ConfigDeliveryLog → ℕ → Database
  with_log db rows now = record db { deliveries = rows; now = now }

  module _ (db : Database) (rows : List ConfigDeliveryLog) (now : ℕ) where
    same_group : (o : Option ℕ) → group_of_id o (with_log db rows now) ≡ group_of_id o db
    unfolding get_group with_log
    same_group none = refl
    same_group (some n) = refl

    same_from_group :
        (g : ConfigGroup) (user : Option ManagedUser)
        → assignment_from_group (with_log db rows now) g user ≡ assignment_from_group db g user
    unfolding assignment_from_group nodes_of_tags with_log
    same_from_group g user = refl

    same_in_group :
        (u : ManagedUser) (o : Option ConfigGroup)
        → assignment_in_group (with_log db rows now) u o ≡ assignment_in_group db u o
    same_in_group u none = refl
    same_in_group u (some g) =
        ap
          (λ (a : UserAssignment).
            if not g.enabled
            then refused (some u) (some g) [] "Assigned config group is disabled."
            else a)
          (same_from_group g (some u))

    same_of_user :
        (o : Option ManagedUser)
        → assignment_of_user (with_log db rows now) o ≡ assignment_of_user db o
    same_of_user none = refl
    same_of_user (some u) =
        ap
          (λ (a : UserAssignment).
            if not u.enabled
            then refused (some u) none [] "User is disabled."
            else if no_group u.config_group_id
            then refused (some u) none [] "No config group assigned."
            else a)
          (same_in_group u (group_of_id u.config_group_id (with_log db rows now))
            ∙ ap (assignment_in_group db u) (same_group u.config_group_id))

    pub same_assignment :
        (who : String) → get_user_assignment (with_log db rows now) who ≡ get_user_assignment db who
    unfolding get_user_assignment get_user_by_telegram_id with_log
    same_assignment who = same_of_user (get_user_by_telegram_id who db)

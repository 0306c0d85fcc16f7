-- ===== src/Services/Users/Groups/Effects.antt =====
-- What an operation on a group does to the users of the group.
use mathlib.Core.Bool.{false≢true}
use local_singbox_manager.Store.Rows.{is_id}
use local_singbox_manager.Common.{
  not, ℕ, String, ◌≡◌, refl, ap, ◌∙◌, subst, inl, inr, Bool, true, false, Option, none, some, List,
  [], ◌∷◌, ◌++◌, arith, ◌==◌, =ℕ_refl, filter, length, length-append, if◌then◌else◌,
}
use local_singbox_manager.Common.Keyed.{find-map}
use local_singbox_manager.Common.Python.{Python}
use local_singbox_manager.Common.Results.{ok, ok-injective, >>=-eq-ok}
use local_singbox_manager.Store.Models.{ConfigGroup, ManagedUser, Database}
use local_singbox_manager.Store.Users
use local_singbox_manager.Store.Users.{clear_group}
use local_singbox_manager.Services.Distribution.{
  UserAssignment, counts, delivery_count, get_user_assignment, assignment_of_user,
}
use local_singbox_manager.Services.Distribution.Laws.{filter-append}
use local_singbox_manager.Services.Users.Forms.{MutationResult, ConfigGroupInput}
use local_singbox_manager.Services.Users.Forms.Laws.{finish-accepted}
use local_singbox_manager.Services.Users.Notify.{
  Telegram, delivery_row, notify_users, notify_group_config_changed,
}
use local_singbox_manager.Services.Users.Groups.{
  checked_group, updated_group, put_group, update_found, update_group, delete_group, notify_if,
}

clear-telegram_id :
    (group_id : ℕ) (u : ManagedUser) → (clear_group group_id u).telegram_id ≡ u.telegram_id
clear-telegram_id group_id u = ground arith

pick-true {ℓ} : {A : Type ℓ} (b : Bool) (x y : A) → b ≡ true → (if b then x else y) ≡ x
pick-true true x y e = refl
pick-true false x y e = absurd (false≢true e)

clear_group-in :
    (group_id : ℕ) (u : ManagedUser)
    → u.config_group_id ≡ some group_id
    → clear_group group_id u ≡ record u { config_group_id = none }
clear_group-in group_id u assigned =
    pick-true (is_id u.config_group_id group_id) _ _
      (ap (λ (o : Option ℕ). is_id o group_id) assigned ∙ =ℕ_refl group_id)

no_group-error :
    ⦃py : Python⦄ (db : Database) (u : ManagedUser)
    → u.enabled ≡ true
    → (assignment_of_user db (some (record u { config_group_id = none }))).error
      ≡ "No config group assigned."
no_group-error db u on = not-on u.enabled _ _ on
  where
    not-on : (b : Bool) (r a : UserAssignment) → b ≡ true → (if not b then r else a).error ≡ a.error
    not-on true r a e = refl
    not-on false r a e = absurd (false≢true e)

-- Deleting a group takes it from its users: a user of the group who is not disabled is then told that
-- no group is assigned.
pub delete_group-assignment :
    ⦃py : Python⦄ (db : Database) (group_id : ℕ) (g : ConfigGroup) (who : String) (u : ManagedUser)
    → Users.get_group group_id db ≡ some g
    → Users.get_user_by_telegram_id who db ≡ some u
    → u.enabled ≡ true
    → u.config_group_id ≡ some group_id
    → (get_user_assignment (delete_group db group_id).0 who).error ≡ "No config group assigned."
unfolding delete_group get_user_assignment Users.clear_group_assignments
    Users.get_user_by_telegram_id
delete_group-assignment db group_id g who u exists found on assigned =
    let cleared =
      find-map (λ (x : ManagedUser). x.telegram_id == who) (clear_group group_id)
        (λ x. ap (λ (t : String). t == who) (clear-telegram_id group_id x)) db.users found in
    rw (exists, cleared, clear_group-in group_id u assigned) (no_group-error db u on)

notice-delivery_count :
    ⦃py : Python⦄ (bot : Telegram) (group : ConfigGroup) (fingerprint message : String)
    (user : ManagedUser) (db : Database) (who : String) (now : ℕ)
    → delivery_count
        (record db {
          deliveries = db.deliveries ++ delivery_row bot db group fingerprint message user ∷ [];
        })
        who
        now
      ≡ delivery_count db who now
unfolding delivery_count
notice-delivery_count bot group fingerprint message user db who now =
    ap length (filter-append (counts who now) db.deliveries _)
    ∙ length-append (filter (counts who now) db.deliveries) _
    ∙ ground arith

-- a message about a change is no delivery that counts
notify_users-delivery_count :
    ⦃py : Python⦄ (bot : Telegram) (group : ConfigGroup) (fingerprint message : String)
    (users : List ManagedUser) (db : Database) (who : String) (now : ℕ)
    → delivery_count (notify_users bot group fingerprint message users db) who now
      ≡ delivery_count db who now
unfolding notify_users
notify_users-delivery_count bot group fingerprint message [] db who now = refl
notify_users-delivery_count bot group fingerprint message (user ∷ users) db who now =
    notify_users-delivery_count bot group fingerprint message users _ who now
    ∙ notice-delivery_count bot group fingerprint message user db who now

notify_if-delivery_count :
    ⦃py : Python⦄ (bot : Telegram) (wanted : Bool) (group : ConfigGroup) (db : Database)
    (who : String) (now : ℕ)
    → delivery_count (notify_if bot wanted group db) who now ≡ delivery_count db who now
unfolding notify_group_config_changed
notify_if-delivery_count bot true group db who now =
    notify_users-delivery_count bot group _ _ _ db who now
notify_if-delivery_count bot false group db who now = refl

update_found-delivery_count :
    ⦃py : Python⦄ (bot : Telegram) (db : Database) (group_id : ℕ) (form : ConfigGroupInput)
    (o : Option ConfigGroup) {db' : Database} {message : String} (who : String) (now : ℕ)
    → update_found bot db group_id form o ≡ ok (db', message)
    → delivery_count db' who now ≡ delivery_count db who now
unfolding delivery_count
update_found-delivery_count bot db group_id form none who now e = cc
update_found-delivery_count bot db group_id form (some group) who now e =
    let (c, checked, e') =
      >>=-eq-ok (checked_group db form (λ name. Users.get_group_name_duplicate name group_id db)) _
        e in
    subst (λ (d : Database). delivery_count d who now ≡ delivery_count db who now)
      (ap (λ x. x.0) (ok-injective e'))
      (notify_if-delivery_count bot _ (updated_group group form c)
        (put_group group_id (updated_group group form c) db) who now)

-- The messages that a change of a group sends do not use up the hourly limit of anybody.
pub update_group-delivery_count :
    ⦃py : Python⦄ (bot : Telegram) (db : Database) (group_id : ℕ) (form : ConfigGroupInput)
    (db' : Database) (r : MutationResult) (who : String) (now : ℕ)
    → update_group bot db group_id form ≡ ok (db', r)
    → delivery_count db' who now ≡ delivery_count db who now
unfolding update_group
update_group-delivery_count bot db group_id form db' r who now e = elim (finish-accepted db _ e) [
  | inl same ↦ ap (λ (d : Database). delivery_count d who now) same
  | inr (message, m) ↦
      update_found-delivery_count bot db group_id form (Users.get_group group_id db) who now m
]

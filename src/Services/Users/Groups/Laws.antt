-- ===== src/Services/Users/Groups/Laws.antt =====
-- The rows of groups after an operation on groups.
use local_singbox_manager.Common.{
  ℕ, String, ◌≡◌, refl, sym, ap, subst, inl, inr, Bool, true, false, not, Option, none, some, List,
  [], ◌∷◌, ◌=ℕ◌, =ℕ_iff, All, All-append, is_blank, is_some, strip,
}
use local_singbox_manager.Common.Pairwise.{Pairwise, Pairwise-filter}
use local_singbox_manager.Common.Keyed.{
  Differ, Pairwise-Differ-add, Pairwise-Differ-put, All-filter, All-put, find-holds, IsFresh,
}
use local_singbox_manager.Common.Python.{Python}
use local_singbox_manager.Common.Results.{ok, ok-injective, >>=-eq-ok, guard->>-eq-ok}
use local_singbox_manager.Singbox.Presets.{known_route_preset}
use local_singbox_manager.Store.Models.{ConfigGroup, ManagedUser, Database}
use local_singbox_manager.Store.Users
use local_singbox_manager.Services.Distribution.{positive_int_or_none}
use local_singbox_manager.Services.Users.Forms.{
  MutationResult, ConfigGroupInput, tags_or_empty, validated_node_tags, checked_route_preset,
  parse_optional_positive_int,
}
use local_singbox_manager.Services.Users.Forms.Laws.{
  not-true, is_some-false, finish-accepted, checked_route_preset-known,
  parse_optional_positive_int-positive,
}
use local_singbox_manager.Services.Users.Notify.{
  Telegram, notify_users, notify_group_config_changed,
}
use local_singbox_manager.Services.Users.Groups.{
  Checked, checked_group, new_group, create_group, updated_group, put_group, update_found,
  update_group, delete_found, delete_group, notify_if,
}

-- what two rows may not share
abbrev GroupsDiffer : ConfigGroup → ConfigGroup → Type 0
GroupsDiffer = Differ (λ (g : ConfigGroup). g.id) (λ (g : ConfigGroup). g.name)

-- a row whose name is no blank text, whose route preset exists, and whose limit, if any, is above 0
pub record IsUsable (g : ConfigGroup) : Type 0 where
  pub named : is_blank g.name ≡ false
  pub preset : known_route_preset g.route_preset ≡ true
  pub limit : positive_int_or_none g.refresh_limit_per_hour ≡ g.refresh_limit_per_hour

pub record AreValid (groups : List ConfigGroup) : Type 0 where
  pub differ : Pairwise GroupsDiffer groups
  pub usable : All IsUsable groups

module _ ⦃py : Python⦄ where
  -- what the checks of a form let pass
  record Passed (form : ConfigGroupInput) (taken : String → Option ConfigGroup) (c : Checked)
      : Type 0 where
    named : is_blank c.name ≡ false
    free : taken c.name ≡ none
    preset : known_route_preset c.route_preset ≡ true
    limit : positive_int_or_none c.limit ≡ c.limit

  checked_group-Passed :
      (db : Database) (form : ConfigGroupInput) (taken : String → Option ConfigGroup) {c : Checked}
      → checked_group db form taken ≡ ok c
      → Passed form taken c
  unfolding checked_group
  checked_group-Passed db form taken e =
      let (named, e1) = guard->>-eq-ok (not (is_blank (strip form.name))) _ _ e in
      let (free, e2) = guard->>-eq-ok (not (is_some (taken (strip form.name)))) _ _ e1 in
      let (tags, found, e3) =
        >>=-eq-ok (validated_node_tags db (tags_or_empty form.node_tags)) _ e2 in
      let (preset, known, e4) = >>=-eq-ok (checked_route_preset form.route_preset) _ e3 in
      let (limit, positive, e5) =
        >>=-eq-ok (parse_optional_positive_int form.refresh_limit_per_hour "Group refresh limit") _
          e4 in
      subst (λ (x : Checked). Passed form taken x) (ok-injective e5)
        (record {
          named = not-true _ named;
          free = is_some-false _ free;
          preset = checked_route_preset-known form.route_preset known;
          limit = parse_optional_positive_int-positive form.refresh_limit_per_hour _ positive;
        })

  notify_users-groups :
      (bot : Telegram) (group : ConfigGroup) (fingerprint message : String)
      (users : List ManagedUser) (db : Database)
      → (notify_users bot group fingerprint message users db).groups ≡ db.groups
  unfolding notify_users
  notify_users-groups bot group fingerprint message [] db = refl
  notify_users-groups bot group fingerprint message (user ∷ users) db =
      notify_users-groups bot group fingerprint message users _

  notify_if-groups :
      (bot : Telegram) (wanted : Bool) (group : ConfigGroup) (db : Database)
      → (notify_if bot wanted group db).groups ≡ db.groups
  unfolding notify_group_config_changed
  notify_if-groups bot true group db = notify_users-groups bot group _ _ _ db
  notify_if-groups bot false group db = refl

-- one call of an operation on groups, that returns
pub data GroupStep ⦃py : Python⦄ : Database → Database → Type 0 where
  created :
      (db : Database) (form : ConfigGroupInput) (db' : Database) (r : MutationResult)
      → create_group db form ≡ ok (db', r)
      → GroupStep db db'
  updated :
      (bot : Telegram) (db : Database) (group_id : ℕ) (form : ConfigGroupInput) (db' : Database)
      (r : MutationResult)
      → update_group bot db group_id form ≡ ok (db', r)
      → GroupStep db db'
  deleted : (db : Database) (group_id : ℕ) → GroupStep db (delete_group db group_id).0

module _ ⦃py : Python⦄ (fresh : IsFresh py) where
  create_group-AreValid :
      (db : Database) (form : ConfigGroupInput) {db' : Database} {r : MutationResult}
      → create_group db form ≡ ok (db', r)
      → AreValid db.groups
      → AreValid db'.groups
  unfolding create_group Users.get_group_by_name
  create_group-AreValid db form e v = elim (finish-accepted db _ e) [
    | inl same ↦ subst (λ (d : Database). AreValid d.groups) (sym same) v
    | inr (message, m) ↦
        let (c, checked, m') =
          >>=-eq-ok (checked_group db form (λ name. Users.get_group_by_name name db)) _ m in
        let passed =
          checked_group-Passed db form (λ name. Users.get_group_by_name name db) checked in
        subst (λ (d : Database). AreValid d.groups) (ap (λ x. x.0) (ok-injective m'))
          (record {
            differ =
                Pairwise-Differ-add (λ (g : ConfigGroup). g.id) (λ (g : ConfigGroup). g.name)
                  db.groups (new_group db form c) v.differ (fresh _) passed.free;
            usable =
                All-append IsUsable db.groups _ v.usable (
                  record { named = passed.named; preset = passed.preset; limit = passed.limit },
                  tt,
                );
          })
  ]

  update_found-AreValid :
      (bot : Telegram) (db : Database) (group_id : ℕ) (form : ConfigGroupInput)
      (o : Option ConfigGroup) {db' : Database} {message : String}
      → Users.get_group group_id db ≡ o
      → update_found bot db group_id form o ≡ ok (db', message)
      → AreValid db.groups
      → AreValid db'.groups
  unfolding updated_group Users.get_group_name_duplicate Users.get_group
  update_found-AreValid bot db group_id form none f e v = cc
  update_found-AreValid bot db group_id form (some group) f e v =
      let (c, checked, e') =
        >>=-eq-ok (checked_group db form (λ name. Users.get_group_name_duplicate name group_id db))
          _ e in
      let passed =
        checked_group-Passed db form (λ name. Users.get_group_name_duplicate name group_id db)
          checked in
      subst (λ (d : Database). AreValid d.groups) (ap (λ x. x.0) (ok-injective e'))
        (subst AreValid
          (sym (
            notify_if-groups bot _ (updated_group group form c)
              (put_group group_id (updated_group group form c) db)))
          (record {
            differ =
                Pairwise-Differ-put (λ (g : ConfigGroup). g.id) (λ (g : ConfigGroup). g.name)
                  group_id (updated_group group form c) db.groups v.differ
                  ((=ℕ_iff _ _).0 (find-holds _ db.groups f)) passed.free;
            usable =
                All-put IsUsable (λ (g : ConfigGroup). g.id =ℕ group_id)
                  (updated_group group form c) db.groups
                  (record { named = passed.named; preset = passed.preset; limit = passed.limit })
                  v.usable;
          }))

  update_group-AreValid :
      (bot : Telegram) (db : Database) (group_id : ℕ) (form : ConfigGroupInput) {db' : Database}
      {r : MutationResult}
      → update_group bot db group_id form ≡ ok (db', r)
      → AreValid db.groups
      → AreValid db'.groups
  unfolding update_group
  update_group-AreValid bot db group_id form e v = elim (finish-accepted db _ e) [
    | inl same ↦ subst (λ (d : Database). AreValid d.groups) (sym same) v
    | inr (message, m) ↦
        update_found-AreValid bot db group_id form (Users.get_group group_id db) refl m v
  ]

delete_group-AreValid :
    (db : Database) (group_id : ℕ) (o : Option ConfigGroup)
    → AreValid db.groups
    → AreValid (delete_found db group_id o).0.groups
unfolding Users.clear_group_assignments
delete_group-AreValid db group_id none v = v
delete_group-AreValid db group_id (some g) v = record {
  differ = Pairwise-filter GroupsDiffer _ db.groups v.differ;
  usable = All-filter IsUsable _ db.groups v.usable;
}

-- Creating, updating and deleting a group, whether the form is refused or accepted, keeps ids and
-- names of groups different, names not blank, route presets known and limits above 0, provided that
-- the database gives a new row an id not in use.
pub GroupStep-AreValid :
    ⦃py : Python⦄ {db db' : Database}
    → IsFresh py
    → GroupStep db db'
    → AreValid db.groups
    → AreValid db'.groups
unfolding delete_group
GroupStep-AreValid fresh (created db form db' r e) v = create_group-AreValid fresh db form e v
GroupStep-AreValid fresh (updated bot db group_id form db' r e) v =
    update_group-AreValid fresh bot db group_id form e v
GroupStep-AreValid fresh (deleted db group_id) v =
    delete_group-AreValid db group_id (Users.get_group group_id db) v

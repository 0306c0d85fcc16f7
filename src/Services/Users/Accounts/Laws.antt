-- ===== src/Services/Users/Accounts/Laws.antt =====
-- The rows of users after an operation on users.
use local_singbox_manager.Common.{
  ℕ, String, ◌≡◌, refl, sym, ap, subst, inl, inr, not, Option, none, some, List, =ℕ_iff, ◌=ℕ◌,
  false, All, All-append, is_blank, is_some, strip,
}
use local_singbox_manager.Common.Pairwise.{Pairwise, Pairwise-filter}
use local_singbox_manager.Common.Keyed.{
  Differ, Pairwise-Differ-add, Pairwise-Differ-put, All-filter, All-put, find-holds, IsFresh,
}
use local_singbox_manager.Common.Python.{Python}
use local_singbox_manager.Common.Results.{ok, ok-injective, >>=-eq-ok, guard->>-eq-ok}
use local_singbox_manager.Store.Models.{ManagedUser, Database}
use local_singbox_manager.Store.Users
use local_singbox_manager.Services.Distribution.{positive_int_or_none}
use local_singbox_manager.Services.Users.Forms.{
  MutationResult, ManagedUserInput, parse_optional_positive_int, parse_group_id,
}
use local_singbox_manager.Services.Users.Forms.Laws.{
  not-true, is_some-false, finish-accepted, parse_optional_positive_int-positive,
}
use local_singbox_manager.Services.Users.Accounts.{
  CheckedUser, checked_user, new_user, create_user, updated_user, update_found, update_user,
  delete_found, delete_user,
}

abbrev UsersDiffer : ManagedUser → ManagedUser → Type 0
UsersDiffer = Differ (λ (u : ManagedUser). u.id) (λ (u : ManagedUser). u.telegram_id)

-- a row whose Telegram id is no blank text and whose limit, if any, is above 0
pub record IsUsable (u : ManagedUser) : Type 0 where
  pub named : is_blank u.telegram_id ≡ false
  pub limit : positive_int_or_none u.refresh_limit_per_hour ≡ u.refresh_limit_per_hour

pub record AreValid (users : List ManagedUser) : Type 0 where
  pub differ : Pairwise UsersDiffer users
  pub usable : All IsUsable users

-- one call of an operation on users, that returns
pub data UserStep ⦃py : Python⦄ : Database → Database → Type 0 where
  created :
      (db : Database) (form : ManagedUserInput) (db' : Database) (r : MutationResult)
      → create_user db form ≡ ok (db', r)
      → UserStep db db'
  updated :
      (db : Database) (user_id : ℕ) (form : ManagedUserInput) (db' : Database) (r : MutationResult)
      → update_user db user_id form ≡ ok (db', r)
      → UserStep db db'
  deleted : (db : Database) (user_id : ℕ) → UserStep db (delete_user db user_id).0

module _ ⦃py : Python⦄ where
  -- what the checks of a form let pass
  record Passed (taken : String → Option ManagedUser) (c : CheckedUser) : Type 0 where
    named : is_blank c.telegram_id ≡ false
    free : taken c.telegram_id ≡ none
    limit : positive_int_or_none c.limit ≡ c.limit

  checked_user-Passed :
      (form : ManagedUserInput) (taken : String → Option ManagedUser) {c : CheckedUser}
      → checked_user form taken ≡ ok c
      → Passed taken c
  unfolding checked_user
  checked_user-Passed form taken e =
      let (named, e1) = guard->>-eq-ok (not (is_blank (strip form.telegram_id))) _ _ e in
      let (free, e2) = guard->>-eq-ok (not (is_some (taken (strip form.telegram_id)))) _ _ e1 in
      let (limit, positive, e3) =
        >>=-eq-ok (parse_optional_positive_int form.refresh_limit_per_hour "User refresh limit") _
          e2 in
      let (group_id, number, e4) = >>=-eq-ok (parse_group_id form.config_group_id) _ e3 in
      subst (λ (x : CheckedUser). Passed taken x) (ok-injective e4)
        (record {
          named = not-true _ named;
          free = is_some-false _ free;
          limit = parse_optional_positive_int-positive form.refresh_limit_per_hour _ positive;
        })

  create_user-AreValid :
      (db : Database) (form : ManagedUserInput) {db' : Database} {r : MutationResult}
      → IsFresh py
      → create_user db form ≡ ok (db', r)
      → AreValid db.users
      → AreValid db'.users
  unfolding create_user Users.get_user_by_telegram_id
  create_user-AreValid db form fresh e v = elim (finish-accepted db _ e) [
    | inl same ↦ subst (λ (d : Database). AreValid d.users) (sym same) v
    | inr (message, m) ↦
        let taken = λ (telegram_id : String). Users.get_user_by_telegram_id telegram_id db in
        let (c, checked, m') = >>=-eq-ok (checked_user form taken) _ m in
        let passed = checked_user-Passed form taken checked in
        subst (λ (d : Database). AreValid d.users) (ap (λ x. x.0) (ok-injective m'))
          (record {
            differ =
                Pairwise-Differ-add (λ (u : ManagedUser). u.id) (λ (u : ManagedUser). u.telegram_id)
                  db.users (new_user db form c) v.differ (fresh _) passed.free;
            usable =
                All-append IsUsable db.users _ v.usable
                  (record { named = passed.named; limit = passed.limit }, tt);
          })
  ]

  update_found-AreValid :
      (db : Database) (user_id : ℕ) (form : ManagedUserInput) (o : Option ManagedUser)
      {db' : Database} {message : String}
      → Users.get_user user_id db ≡ o
      → update_found db user_id form o ≡ ok (db', message)
      → AreValid db.users
      → AreValid db'.users
  unfolding Users.get_user_telegram_duplicate Users.get_user
  update_found-AreValid db user_id form none f e v = cc
  update_found-AreValid db user_id form (some user) f e v =
      let taken =
        λ (telegram_id : String). Users.get_user_telegram_duplicate telegram_id user_id db in
      let (c, checked, e') = >>=-eq-ok (checked_user form taken) _ e in
      let passed = checked_user-Passed form taken checked in
      subst (λ (d : Database). AreValid d.users) (ap (λ x. x.0) (ok-injective e'))
        (record {
          differ =
              Pairwise-Differ-put (λ (u : ManagedUser). u.id) (λ (u : ManagedUser). u.telegram_id)
                user_id (updated_user user form c) db.users v.differ
                ((=ℕ_iff _ _).0 (find-holds _ db.users f)) passed.free;
          usable =
              All-put IsUsable (λ (u : ManagedUser). u.id =ℕ user_id) (updated_user user form c)
                db.users (record { named = passed.named; limit = passed.limit }) v.usable;
        })

  update_user-AreValid :
      (db : Database) (user_id : ℕ) (form : ManagedUserInput) {db' : Database} {r : MutationResult}
      → update_user db user_id form ≡ ok (db', r)
      → AreValid db.users
      → AreValid db'.users
  unfolding update_user
  update_user-AreValid db user_id form e v = elim (finish-accepted db _ e) [
    | inl same ↦ subst (λ (d : Database). AreValid d.users) (sym same) v
    | inr (message, m) ↦ update_found-AreValid db user_id form (Users.get_user user_id db) refl m v
  ]

delete_found-AreValid :
    (db : Database) (user_id : ℕ) (o : Option ManagedUser)
    → AreValid db.users
    → AreValid (delete_found db user_id o).0.users
delete_found-AreValid db user_id none v = v
delete_found-AreValid db user_id (some u) v = record {
  differ = Pairwise-filter UsersDiffer _ db.users v.differ;
  usable = All-filter IsUsable _ db.users v.usable;
}

-- Creating, updating and deleting a user, whether the form is refused or accepted, keeps ids and
-- Telegram ids of users different, Telegram ids not blank and limits above 0, provided that the
-- database gives a new row an id not in use.
pub UserStep-AreValid :
    ⦃py : Python⦄ {db db' : Database}
    → IsFresh py
    → UserStep db db'
    → AreValid db.users
    → AreValid db'.users
unfolding delete_user
UserStep-AreValid fresh (created db form db' r e) v = create_user-AreValid db form fresh e v
UserStep-AreValid fresh (updated db user_id form db' r e) v =
    update_user-AreValid db user_id form e v
UserStep-AreValid fresh (deleted db user_id) v =
    delete_found-AreValid db user_id (Users.get_user user_id db) v

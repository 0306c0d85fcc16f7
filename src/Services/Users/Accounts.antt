-- ===== src/Services/Users/Accounts.antt =====
-- The operations on users of app/services/users.py.
pub mod Laws
use local_singbox_manager.Common.{
  ℕ, String, Bool, true, false, not, Option, none, some, [], ◌∷◌, ◌++◌, ◌⧺◌, map, ◌=ℕ◌, is_blank,
  or_none, text_or, strip, is_some, filter, if◌then◌else◌,
}
use local_singbox_manager.Common.Python.{Python}
use local_singbox_manager.Common.Results.{Result, ok, err, guard, ◌>>=◌, ◌>>◌}
use local_singbox_manager.Store.Models.{current_timestamp, ManagedUser, Database}
use local_singbox_manager.Store.Rows.{Crash}
use local_singbox_manager.Store.Users
use local_singbox_manager.Services.Users.Forms.{
  MutationResult, ManagedUserInput, Exit, refused, finish, parse_optional_positive_int,
  parse_group_id,
}

-- the fields of a form that passed the checks
pub record CheckedUser : Type 0 where
  pub telegram_id : String
  pub limit : Option ℕ
  pub group_id : Option ℕ

module _ ⦃py : Python⦄ where
  unfoldable pub checked_user :
      ManagedUserInput → (String → Option ManagedUser) → Result Exit CheckedUser
  checked_user form taken =
      guard (not (is_blank (strip form.telegram_id))) (refused "Telegram ID is required")
      >> (guard (not (is_some (taken (strip form.telegram_id))))
            (refused ("User '" ⧺ strip form.telegram_id ⧺ "' already exists"))
          >> (parse_optional_positive_int form.refresh_limit_per_hour "User refresh limit"
              >>= λ limit. parse_group_id form.config_group_id >>= λ group_id. ok (record {
                telegram_id = strip form.telegram_id;
                limit = limit;
                group_id = group_id;
              })))

  abbrev pub new_user : Database → ManagedUserInput → CheckedUser → ManagedUser
  new_user db form c = record {
    id = py.new_id (map (λ (u : ManagedUser). u.id) db.users);
    telegram_id = c.telegram_id;
    display_name = or_none (strip form.display_name);
    enabled = form.enabled;
    config_group_id = c.group_id;
    refresh_limit_per_hour = c.limit;
    notes = or_none (strip form.notes);
    created_at = current_timestamp db.now;
  }

  abbrev pub add_user : Database → ManagedUser → Database
  add_user db user = record db { users = db.users ++ user ∷ [] }

  unfoldable pub create_user :
      Database → ManagedUserInput → Result Crash (Database × MutationResult)
  create_user db form = finish db (
      checked_user form (λ telegram_id. Users.get_user_by_telegram_id telegram_id db)
      >>= λ (c : CheckedUser).
          ok (add_user db (new_user db form c), "Created user '" ⧺ c.telegram_id ⧺ "'"))

  abbrev pub updated_user : ManagedUser → ManagedUserInput → CheckedUser → ManagedUser
  updated_user user form c = record user {
    telegram_id = c.telegram_id;
    display_name = or_none (strip form.display_name);
    config_group_id = c.group_id;
    refresh_limit_per_hour = c.limit;
    notes = or_none (strip form.notes);
    enabled = form.enabled;
  }

  -- the row with this id is the loaded one
  abbrev pub put_user : ℕ → ManagedUser → Database → Database
  put_user user_id user db = record db {
    users = map (λ (u : ManagedUser). if u.id =ℕ user_id then user else u) db.users;
  }

  abbrev update_found :
      Database → ℕ → ManagedUserInput → Option ManagedUser → Result Exit (Database × String)
  update_found db user_id form none = err (refused "User not found")
  update_found db user_id form (some user) =
      checked_user form (λ telegram_id. Users.get_user_telegram_duplicate telegram_id user_id db)
      >>= λ (c : CheckedUser).
          ok
            (put_user user_id (updated_user user form c) db, "Updated user '" ⧺ c.telegram_id ⧺ "'")

  unfoldable pub update_user :
      Database → ℕ → ManagedUserInput → Result Crash (Database × MutationResult)
  update_user db user_id form = finish db (update_found db user_id form (Users.get_user user_id db))

abbrev delete_found : Database → ℕ → Option ManagedUser → Database × MutationResult
delete_found db user_id none = (db, record { accepted = false; message = "User not found" })
delete_found db user_id (some user) = (
  record db { users = filter (λ (u : ManagedUser). not (u.id =ℕ user_id)) db.users },
  record {
    accepted = true;
    message = "Deleted user '" ⧺ text_or user.display_name user.telegram_id ⧺ "'";
  },
)

unfoldable pub delete_user : Database → ℕ → Database × MutationResult
delete_user db user_id = delete_found db user_id (Users.get_user user_id db)

-- ===== src/Config.antt =====
-- app/config.py: the settings that are read from the environment.
pub mod Laws
use local_singbox_manager.Common.{
  ℕ, String, Bool, true, false, not, ◌&&◌, ◌||◌, Option, none, some, List, [], ◌∷◌, is_blank,
  is_empty, member, strip, split_on, replace_char, if◌then◌else◌,
}
use local_singbox_manager.Common.Json.{ℤ, pos, negsuc, lookup}
use local_singbox_manager.Common.Python.{Python}
use local_singbox_manager.Common.Integers.{same_int, has_int, add_int}

-- a mapping of names to values
abbrev pub Environ : Type 0
Environ = List (String × String)

-- `source.get(key, default)`
abbrev pub get_or : String → String → Environ → String
get_or key default env = elim (lookup key env) [ none ↦ default | some value ↦ value ]

abbrev pub code_of_comma : ℕ
code_of_comma = 44

abbrev pub code_of_semicolon : ℕ
code_of_semicolon = 59

pub record SystemPaths : Type 0 where
  pub singbox_bin : String
  pub helper_bin : String

pub record SecuritySettings : Type 0 where
  pub admin_password : String
  pub session_secret : String

pub record TelegramSettings : Type 0 where
  pub bot_token : String
  pub chat_id : String
  pub admin_ids_raw : String
  pub admin_bot_enabled : Bool

pub record NotificationSettings : Type 0 where
  pub ntfy_topic : String
  pub ntfy_server : String

pub record AppSettings : Type 0 where
  pub database_url : String
  pub migrations_enabled : Bool
  pub background_tasks_enabled : Bool
  pub health_check_interval : ℤ
  pub system_paths : SystemPaths
  pub security : SecuritySettings
  pub telegram : TelegramSettings
  pub notifications : NotificationSettings

unfoldable pub auth_enabled : SecuritySettings → Bool
auth_enabled settings = not (is_blank settings.admin_password)

module _ ⦃py : Python⦄ where
  -- `value.lower() not in {"0", "false", "no", "off"}`
  abbrev pub is_on : String → Bool
  is_on value = not (member (py.lower value) ("0" ∷ "false" ∷ "no" ∷ "off" ∷ []))

  unfoldable pub env_bool : String → Bool → Bool
  env_bool value default = if is_blank value then default else is_on value

  abbrev int_or : ℤ → Option ℤ → ℤ
  int_or default none = default
  int_or default (some n) = n

  unfoldable pub env_int : String → ℤ → ℤ
  env_int value default = int_or default (py.int_of value)

  abbrev pub add_parsed : Option ℤ → List ℤ → List ℤ
  add_parsed none ids = ids
  add_parsed (some n) ids = add_int n ids

  -- the loop of `parse_id_set`, on a set kept as a list without repetitions
  unfoldable pub ids_from : List String → List ℤ → List ℤ
  ids_from [] ids = ids
  ids_from (part ∷ parts) ids =
      ids_from parts
        (if is_blank (strip part) then ids else add_parsed (py.int_of (strip part)) ids)

  unfoldable pub parse_id_set : String → List ℤ
  unfolding ids_from
  parse_id_set raw = ids_from (split_on code_of_comma (replace_char code_of_semicolon "," raw)) []

  unfoldable pub admin_ids : TelegramSettings → List ℤ
  unfolding parse_id_set
  admin_ids settings = parse_id_set settings.admin_ids_raw

  unfoldable pub admin_bot_ready : TelegramSettings → Bool
  unfolding admin_ids
  admin_bot_ready settings =
      settings.admin_bot_enabled
      && (not (is_blank settings.bot_token) && not (is_empty (admin_ids settings)))

  unfoldable pub load_settings : Environ → AppSettings
  unfolding env_bool env_int
  load_settings env = record {
    database_url = get_or "DATABASE_URL" "sqlite:///./singbox_manager.db" env;
    migrations_enabled = env_bool (get_or "MIGRATIONS_ENABLED" "1" env) true;
    background_tasks_enabled = env_bool (get_or "BACKGROUND_TASKS_ENABLED" "1" env) true;
    health_check_interval = env_int (get_or "HEALTH_CHECK_INTERVAL" "300" env) (pos 300);
    system_paths = record {
      singbox_bin = get_or "SINGBOX_BIN" "/usr/bin/sing-box" env;
      helper_bin = get_or "HELPER_BIN" "/usr/local/bin/singbox-manager-helper" env;
    };
    security = record {
      admin_password = get_or "SINGLE_ADMIN_PASSWORD" "" env;
      session_secret = get_or "SESSION_SECRET" "" env;
    };
    telegram = record {
      bot_token = get_or "TELEGRAM_BOT_TOKEN" "" env;
      chat_id = get_or "TELEGRAM_CHAT_ID" "" env;
      admin_ids_raw = get_or "TELEGRAM_ADMIN_IDS" "" env;
      admin_bot_enabled = env_bool (get_or "TELEGRAM_ADMIN_BOT_ENABLED" "1" env) true;
    };
    notifications = record {
      ntfy_topic = get_or "NTFY_TOPIC" "" env;
      ntfy_server = get_or "NTFY_SERVER" "https://ntfy.sh" env;
    };
  }

-- ===== src/Telegram/Diagnostics.antt =====
-- app/telegram/diagnostics.py, and the settings that app/telegram/bot.py reads: is the bot ready?
use Prim.Native.Char.{Char, code}
use local_singbox_manager.Common.{
  ℕ, ◌-◌, String, Bool, false, not, ◌&&◌, ◌||◌, Option, none, some, List, [], ◌∷◌, ◌++◌, ◌⧺◌, ◌=ℕ◌,
  is_blank, is_empty, member, before, after, contains, starts_with, strip, leb, text_length,
  take_text, drop_text, if◌then◌else◌,
}
use local_singbox_manager.Common.Json.{insert, lookup}
use local_singbox_manager.Common.Python.{Python}
use local_singbox_manager.Config.{AppSettings, Environ, get_or, is_on, parse_id_set}

abbrev pub telegram_env_keys : List String
telegram_env_keys =
    "TELEGRAM_BOT_TOKEN" ∷ "TELEGRAM_CHAT_ID" ∷ "TELEGRAM_ADMIN_IDS" ∷ "TELEGRAM_ADMIN_BOT_ENABLED"
    ∷ []

pub record TelegramEnv : Type 0 where
  pub bot_token : String
  pub chat_id : String
  pub admin_ids_raw : String
  pub admin_bot_enabled_raw : String

abbrev is_quote : ℕ → Bool
is_quote n = n =ℕ 39 || n =ℕ 34

-- a text of two characters at least, by its first
abbrev unquoted : Char → String → String
unquoted c rest =
    let n = text_length rest - 1 in
    if is_quote (code c) && last_is rest then take_text n rest else String.◌∷◌ c rest
  where
    last_is : String → Bool
    last_is String.[] = false
    last_is (String.◌∷◌ d String.[]) = code d =ℕ code c
    last_is (String.◌∷◌ d (String.◌∷◌ e s)) = last_is (String.◌∷◌ e s)

unfoldable pub strip_quotes : String → String
strip_quotes String.[] = String.[]
strip_quotes (String.◌∷◌ c rest) = unquoted c rest

-- the loop of `parse_env_file`, over the lines of the file
unfoldable pub values_from : Environ → List String → Environ
unfolding strip_quotes
values_from values [] = values
values_from values (raw_line ∷ lines) =
    let line = strip raw_line in
    let key = strip (before 61 line) in
    let skipped =
      is_blank line
      || starts_with line "#"
      || not (contains line "=")
      || not (member key telegram_env_keys) in
    values_from
      (if skipped then values else insert key (strip_quotes (strip (after 61 line))) values) lines

-- `parse_env_file`; `none` is a file that does not exist
unfoldable pub parse_env_file : Option (List String) → Environ
unfolding values_from
parse_env_file none = []
parse_env_file (some lines) = values_from [] lines

-- the loop over the keys: the environment wins over the file
unfoldable pub overlaid : Environ → List String → Environ → Environ
overlaid source [] env = source
overlaid source (key ∷ keys) env =
    overlaid (elim (lookup key env) [ none ↦ source | some value ↦ insert key value source ]) keys
      env

abbrev or_1 : String → String
or_1 s = if is_blank s then "1" else s

unfoldable pub load_telegram_env : Option (List String) → Environ → TelegramEnv
unfolding parse_env_file overlaid
load_telegram_env env_file env =
    let source = overlaid (parse_env_file env_file) telegram_env_keys env in
    record {
      bot_token = get_or "TELEGRAM_BOT_TOKEN" "" source;
      chat_id = get_or "TELEGRAM_CHAT_ID" "" source;
      admin_ids_raw = get_or "TELEGRAM_ADMIN_IDS" "" source;
      admin_bot_enabled_raw = or_1 (get_or "TELEGRAM_ADMIN_BOT_ENABLED" "1" source);
    }

-- `s[-4:]`
abbrev last_4 : String → String
last_4 s = drop_text (text_length s - 4) s

unfoldable pub redact_token : String → String
redact_token token =
    let prefix = before 58 token in
    let suffix = after 58 token in
    let tail = if is_blank suffix then last_4 token else last_4 suffix in
    if is_blank token
    then ""
    else if leb (text_length token) 10
    then "***"
    else if is_blank prefix
    then "..." ⧺ tail
    else prefix ⧺ ":..." ⧺ tail

unfoldable pub notification_ready : TelegramEnv → Bool
notification_ready env = not (is_blank env.bot_token) && not (is_blank env.chat_id)

module _ ⦃py : Python⦄ where
  unfoldable pub bot_ready : TelegramEnv → Bool
  unfolding parse_id_set
  bot_ready env =
      not (is_blank env.bot_token)
      && (not (is_empty (parse_id_set env.admin_ids_raw)) && is_on env.admin_bot_enabled_raw)

  unfoldable pub missing_admin_bot_settings : TelegramEnv → List String
  unfolding parse_id_set
  missing_admin_bot_settings env =
      (if is_blank env.bot_token then "TELEGRAM_BOT_TOKEN" ∷ [] else [])
      ++ (if is_empty (parse_id_set env.admin_ids_raw) then "TELEGRAM_ADMIN_IDS" ∷ [] else [])

  -- `is_enabled` of the bot; `parse_admin_ids()` reads the same setting
  unfoldable pub is_enabled : AppSettings → Bool
  unfolding parse_id_set
  is_enabled settings =
      is_on (if settings.telegram.admin_bot_enabled then "1" else "0")
      && (not (is_blank settings.telegram.bot_token)
          && not (is_empty (parse_id_set settings.telegram.admin_ids_raw)))

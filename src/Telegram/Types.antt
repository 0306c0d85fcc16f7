-- ===== src/Telegram/Types.antt =====
-- app/telegram/types.py: messages, commands and answers.
use local_singbox_manager.Common.{
  ℕ, String, Bool, not, Option, none, some, starts_with, strip, before, after, if◌then◌else◌,
}
use local_singbox_manager.Common.Json.{ℤ, Json, obj, Dict, lookup, of_fields}
use local_singbox_manager.Common.Integers.{int_of_found}
use local_singbox_manager.Common.Python.{Python}
use local_singbox_manager.Services.AppBypass.{text_at}

pub record TelegramMessage : Type 0 where
  pub actor_id : Option ℤ
  pub chat_id : Option ℤ
  pub text : String

pub record ParsedCommand : Type 0 where
  pub name : String
  pub arg : String

-- `content` is the text that is sent in UTF-8
pub record TelegramDocument : Type 0 where
  pub filename : String
  pub content : String
  pub mime_type : String
  pub caption : String

pub record BotResponse : Type 0 where
  pub accepted : Bool
  pub text : String
  pub document : Option TelegramDocument

abbrev pub code_of_space : ℕ
code_of_space = 32

abbrev pub code_of_at : ℕ
code_of_at = 64

module _ ⦃py : Python⦄ where
  -- `_extract_int(raw.get(…) or {}, key)`; a value that is no dictionary raises TypeError
  unfoldable pub extract_int : Option Json → String → Option ℤ
  extract_int (some (obj fields)) key = int_of_found (lookup key (of_fields fields))
  extract_int _ key = none

  unfoldable pub from_api_message : Dict → TelegramMessage
  unfolding extract_int
  from_api_message raw = record {
    actor_id = extract_int (lookup "from" raw) "id";
    chat_id = extract_int (lookup "chat" raw) "id";
    text = text_at "text" "" raw;
  }

  abbrev command_of : String → ParsedCommand
  command_of text = if not (starts_with text "/") then record { name = ""; arg = "" } else record {
    name = py.lower (before code_of_at (before code_of_space text));
    arg = strip (after code_of_space text);
  }

  unfoldable pub parse_command : String → ParsedCommand
  parse_command text = command_of (strip text)

  unfoldable pub command_parts : String → String × String
  unfolding parse_command
  command_parts text = ((parse_command text).name, (parse_command text).arg)

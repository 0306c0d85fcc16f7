-- ===== src/Telegram/Dispatcher.antt =====
-- app/telegram/dispatcher.py: who may give which commands.
pub mod Laws
use local_singbox_manager.Common.{
  ℕ, suc, String, Bool, true, false, ◌||◌, ◌&&◌, not, Option, none, some, List, [], ◌∷◌, ◌=ℕ◌,
  is_blank, if◌then◌else◌,
}
use local_singbox_manager.Common.Json.{ℤ, pos, negsuc, Json, Dict, lookup, obj, of_fields, end}
use local_singbox_manager.Common.Integers.{has_int}
use local_singbox_manager.Common.Python.{Python}
use local_singbox_manager.Common.Results.{Result, ok, err}
use local_singbox_manager.Store.Models.{Database}
use local_singbox_manager.Singbox.Host.{Event}
use local_singbox_manager.Services.Nodes.{Pydantic}
use local_singbox_manager.Services.ClientConfigs.{DocumentError}
use local_singbox_manager.Telegram.Types.{
  TelegramMessage, TelegramDocument, BotResponse, parse_command, from_api_message,
}
use local_singbox_manager.Telegram.Users.{handle_user}
use local_singbox_manager.Telegram.Admins.{AdminHandlerDeps, HandlerCrash, handle_admin}

-- `message.actor_id in self._admin_ids`
abbrev pub is_admin : List ℤ → Option ℤ → Bool
is_admin ids none = false
is_admin ids (some n) = has_int n ids

-- the answer of a handler that always answers
abbrev pub answered :
    Result HandlerCrash (Database × BotResponse)
    → Result HandlerCrash (Database × Option BotResponse)
answered (err e) = err e
answered (ok (db, response)) = ok (db, some response)

-- the bot: who its administrators are, and what its handlers call
pub record Bot : Type 0 where
  pub admin_ids : List ℤ
  pub deps : AdminHandlerDeps
  pub pydantic : Pydantic
  pub name_of : DocumentError → String

module _ ⦃py : Python⦄ (bot : Bot) where
  unfoldable pub handle :
      Database
      → TelegramMessage
      → List Event
      → Result HandlerCrash (Database × Option BotResponse) × List Event
  unfolding parse_command handle_admin handle_user
  handle db message past =
      let command = parse_command message.text in
      if is_blank command.name
      then (ok (db, none), past)
      else if is_admin bot.admin_ids message.actor_id
      then (let (r, next) = handle_admin bot.deps db message command past in (answered r, next))
      else (let (db', response) = handle_user bot.pydantic bot.name_of db message command in
          (ok (db', some response), past))

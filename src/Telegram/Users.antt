-- ===== src/Telegram/Users.antt =====
-- `UserCommandHandler` of app/telegram/handlers.py.
pub mod Laws
pub mod Window
pub mod Limit
pub mod Delivery
use local_singbox_manager.Common.{
  String, Bool, true, false, not, ◌&&◌, Option, none, some, [], ◌∷◌, ◌⧺◌, ◌==◌, ℕ, is_blank,
  is_some, length, member, text_or, if◌then◌else◌,
}
use local_singbox_manager.Common.Json.{ℤ, num, pos}
use local_singbox_manager.Common.Python.{Python}
use local_singbox_manager.Common.Results.{Result, ok, err}
use local_singbox_manager.Store.Models.{ManagedUser, Database}
use local_singbox_manager.Services.Nodes.{Pydantic}
use local_singbox_manager.Services.Distribution.{
  UserAssignment, rate_limit_message, get_user_assignment, refresh_limit_exceeded, record_delivery,
}
use local_singbox_manager.Services.ClientConfigs.{
  ClientConfigDocument, DocumentError, build_client_config_document, build_sbclient_bundle_document,
}
use local_singbox_manager.Telegram.Types.{
  TelegramMessage, ParsedCommand, TelegramDocument, BotResponse,
}
use local_singbox_manager.Telegram.Presenters.{user_help, format_user_status, format_user_configs}

abbrev pub answer : Bool → String → BotResponse
answer accepted text = record { accepted = accepted; text = text; document = none }

abbrev pub telegram_document : ClientConfigDocument → TelegramDocument
telegram_document d = record {
  filename = d.filename;
  content = d.content;
  mime_type = d.mime_type;
  caption = d.caption;
}

-- `command.name or "unknown"`
abbrev pub name_or_unknown : ParsedCommand → String
name_or_unknown command = if is_blank command.name then "unknown" else command.name

abbrev or_text : String → String → String
or_text s t = if is_blank s then t else s

-- `document` and `document_error`, whose text is never empty
pub record Attachment : Type 0 where
  pub document : Option TelegramDocument
  pub problem : Option String

module _ ⦃py : Python⦄ where
  -- `str(message.actor_id or "unknown")`
  unfoldable pub actor_of : TelegramMessage → String
  actor_of message = elim message.actor_id [
    | none ↦ "unknown"
    | some n ↦ if is_zero n then "unknown" else py.str_of (num n)
  ]
    where
      is_zero : ℤ → Bool
      is_zero (pos ℕ.zero) = true
      is_zero _ = false

  abbrev pub limited : Database → UserAssignment → Bool
  limited db a = is_blank a.error && refresh_limit_exceeded db a db.now

  -- the record of a delivery with a file, and the answer
  abbrev pub delivered :
      Database
      → String
      → String
      → UserAssignment
      → Attachment
      → String
      → String
      → Database × BotResponse
  delivered db actor name a attachment text detail = (
    record_delivery db actor name (is_blank a.error && not (is_some attachment.problem)) a
        (or_text a.error (text_or attachment.problem detail)),
    record { accepted = is_blank a.error; text = text; document = attachment.document },
  )

  abbrev pub refused_by_limit : Database → String → String → UserAssignment → Database × BotResponse
  refused_by_limit db actor name a = (
    record_delivery db actor name false a "refresh limit exceeded",
    answer false rate_limit_message,
  )

  abbrev pub help_command : Database → String → String → UserAssignment → Database × BotResponse
  help_command db actor name a =
      if is_blank a.error
      then (record_delivery db actor name true a "help requested", answer true user_help)
      else (record_delivery db actor name false a a.error, answer false a.error)

  abbrev pub status_command : Database → String → String → UserAssignment → Database × BotResponse
  status_command db actor name a = (
    record_delivery db actor name (is_blank a.error) a (or_text a.error "status requested"),
    answer (is_blank a.error) (format_user_status a),
  )

  module _ (pydantic : Pydantic) (name_of : DocumentError → String) where
    abbrev pub attached : String → Result DocumentError ClientConfigDocument → Attachment
    attached what (ok d) = record { document = some (telegram_document d); problem = none }
    attached what (err e) = record {
      document = none;
      problem = some (what ⧺ " failed: " ⧺ name_of e);
    }

    -- the file, which is only made for an assignment without an error
    abbrev pub attach :
        UserAssignment → String → Result DocumentError ClientConfigDocument → Attachment
    attach a what made =
        if is_blank a.error then attached what made else record { document = none; problem = none }

    -- `/config` and `/refresh`
    abbrev pub config_command : Database → String → String → UserAssignment → Database × BotResponse
    config_command db actor name a =
        let attachment =
          attach a "generated client config" (build_client_config_document pydantic a) in
        let text =
          if not (is_some attachment.problem)
          then format_user_configs a
          else format_user_configs a
            ⧺ "\n\nGenerated sing-box config is unavailable for this assignment. Use the raw fallback links above." in
        if limited db a
        then refused_by_limit db actor name a
        else delivered db actor name a attachment text
            (py.decimal (length a.nodes) ⧺ " raw fallback link(s) and generated config prepared")

    -- `/sbclient`
    abbrev pub sbclient_command :
        Database → String → String → UserAssignment → Database × BotResponse
    sbclient_command db actor name a =
        let attachment =
          attach a "generated sbclient bundle" (build_sbclient_bundle_document pydantic a) in
        let text =
          if not (is_some attachment.problem)
          then format_user_status a
          else format_user_configs a
            ⧺ "\n\n.sbclient bundle is unavailable for this assignment. Use the raw fallback links above." in
        if limited db a
        then refused_by_limit db actor name a
        else delivered db actor name a attachment text
            (py.decimal (length a.nodes) ⧺ " profile(s) in .sbclient bundle prepared")

    abbrev pub known_user :
        Database → String → ParsedCommand → UserAssignment → Database × BotResponse
    known_user db actor command a =
        let name = command.name in
        if member name ("/start" ∷ "/help" ∷ [])
        then help_command db actor name a
        else if name == "/status"
        then status_command db actor name a
        else if member name ("/config" ∷ "/refresh" ∷ [])
        then config_command db actor name a
        else if name == "/sbclient"
        then sbclient_command db actor name a
        else (
          record_delivery db actor (name_or_unknown command) false a "unknown command",
          answer false "Unknown command. Use /help.",
        )

    abbrev pub for_assignment :
        Database
        → String
        → ParsedCommand
        → UserAssignment
        → Option ManagedUser
        → Database × BotResponse
    for_assignment db actor command a none = (
      record_delivery db actor (name_or_unknown command) false a (or_text a.error "access denied"),
      answer false "Access denied.",
    )
    for_assignment db actor command a (some user) = known_user db actor command a

    unfoldable pub handle_user : Database → TelegramMessage → ParsedCommand → Database × BotResponse
    handle_user db message command =
        let actor = actor_of message in
        let a = get_user_assignment db actor in for_assignment db actor command a a.user

-- ===== src/Telegram/Users/Delivery.antt =====
-- Who gets the file of a configuration.
use local_singbox_manager.Common.{
  ◌≡◌, ◌<◌, ap, ◌∙◌, arith, String, true, false, some, ◌==◌, eq_iff, is_blank,
}
use local_singbox_manager.Common.Python.{Python}
use local_singbox_manager.Common.Results.{ok}
use local_singbox_manager.Common.Keyed.{find-holds}
use local_singbox_manager.Store.Models.{ManagedUser, Database}
use local_singbox_manager.Store.Users.{get_user_by_telegram_id}
use local_singbox_manager.Services.Nodes.{Pydantic}
use local_singbox_manager.Services.Distribution.{
  UserAssignment, delivery_count, get_user_assignment, refresh_limit_exceeded,
}
use local_singbox_manager.Services.Distribution.Laws.{get_user_assignment-IsEntitled}
use local_singbox_manager.Services.ClientConfigs.{
  ClientConfigDocument, DocumentError, build_client_config_document,
}
use local_singbox_manager.Telegram.Types.{TelegramMessage, ParsedCommand, BotResponse}
use local_singbox_manager.Telegram.Presenters.{format_user_configs}
use local_singbox_manager.Telegram.Users.{
  telegram_document, actor_of, known_user, for_assignment, handle_user,
}
use local_singbox_manager.Telegram.Users.Window.{exceeded}

module _ ⦃py : Python⦄ (pydantic : Pydantic) (name_of : DocumentError → String) where
  -- the answer with the file
  abbrev pub file_answer : UserAssignment → ClientConfigDocument → BotResponse
  file_answer a d = record {
    accepted = true;
    text = format_user_configs a;
    document = some (telegram_document d);
  }

  config-file :
      (db : Database) (actor : String) (command : ParsedCommand) (a : UserAssignment)
      (d : ClientConfigDocument)
      → command.name ≡ "/config"
      → is_blank a.error ≡ true
      → refresh_limit_exceeded db a db.now ≡ false
      → build_client_config_document pydantic a ≡ ok d
      → (known_user pydantic name_of db actor command a).1 ≡ file_answer a d
  config-file db actor command a d named clean free made = simp (named, clean, free, made)

  -- A sender whose assignment has no error, who has had fewer counted deliveries within the last hour than the limit
  -- says, and whose configuration can be generated, gets it by "/config".
  pub handle_user-config :
      (db : Database) (message : TelegramMessage) (command : ParsedCommand)
      (d : ClientConfigDocument)
      → command.name ≡ "/config"
      → (get_user_assignment db (actor_of message)).error ≡ ""
      → delivery_count db (actor_of message) db.now
        < (get_user_assignment db (actor_of message)).refresh_limit_per_hour
      → build_client_config_document pydantic (get_user_assignment db (actor_of message)) ≡ ok d
      → (handle_user pydantic name_of db message command).1
        ≡ file_answer (get_user_assignment db (actor_of message)) d
  unfolding handle_user get_user_by_telegram_id
  handle_user-config db message command d named clean below made =
      let who = actor_of message in
      let a = get_user_assignment db who in
      let entitled = get_user_assignment-IsEntitled db who clean in
      let same =
        (eq_iff entitled.user.telegram_id who).0
          (find-holds (λ (u : ManagedUser). u.telegram_id == who) db.users entitled.registered) in
      ap (λ u. (for_assignment pydantic name_of db who command a u).1) entitled.same_user
      ∙ config-file db who command a d named (ap is_blank clean)
          (exceeded db who a entitled.user entitled.same_user same ∙ ground arith) made

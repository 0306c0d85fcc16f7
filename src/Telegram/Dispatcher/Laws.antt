-- ===== src/Telegram/Dispatcher/Laws.antt =====
-- Who may change what through the bot.
use local_singbox_manager.Common.{
  ◌≡◌, ◌≤◌, ◌++◌, [], ◌∷◌, All, length, append-nil, refl, sym, ap, arith, Bool, true, false, Option,
  none, some, List, inl, inr, is_blank, Bool-cases, is_some,
}
use local_singbox_manager.Common.Python.{Python}
use local_singbox_manager.Common.Results.{Result, ok}
use local_singbox_manager.Store.Models.{ConfigDeliveryLog, Database}
use local_singbox_manager.Singbox.Host.{Event}
use local_singbox_manager.Services.Distribution.{get_user_assignment}
use local_singbox_manager.Services.Distribution.Laws.{IsEntitled, get_user_assignment-IsEntitled}
use local_singbox_manager.Telegram.Types.{
  TelegramMessage, ParsedCommand, BotResponse, parse_command,
}
use local_singbox_manager.Telegram.Users.{actor_of, handle_user}
use local_singbox_manager.Telegram.Admins.{HandlerCrash}
use local_singbox_manager.Telegram.Users.Laws.{handle_user-IsLogged}
use local_singbox_manager.Telegram.Dispatcher.{Bot, is_admin, handle}

abbrev pub has_document : Option BotResponse → Bool
has_document none = false
has_document (some response) = is_some response.document

module _ ⦃py : Python⦄ (bot : Bot) where
  -- what somebody who is no administrator brings about: no crash, nothing on the host, one row at most that is
  -- added to the log of deliveries; and a file only with an assignment
  pub record IsHarmless (db : Database) (message : TelegramMessage) (past : List Event)
      (out : Result HandlerCrash (Database × Option BotResponse) × List Event) : Type 0 where
    pub db' : Database
    pub response : Option BotResponse
    pub returns : out ≡ (ok (db', response), past)
    pub added : List ConfigDeliveryLog
    pub only : db' ≡ record db { deliveries = db.deliveries ++ added }
    pub at_most_one : length added ≤ 1
    pub of_sender : All (λ (row : ConfigDeliveryLog). row.telegram_id ≡ actor_of message) added
    pub entitled :
        has_document response ≡ true
        → IsEntitled db (actor_of message) (get_user_assignment db (actor_of message))

  user-IsHarmless :
      (db : Database) (message : TelegramMessage) (command : ParsedCommand) (past : List Event)
      → let out = handle_user bot.pydantic bot.name_of db message command in
        IsHarmless db message past (ok (out.0, some out.1), past)
  user-IsHarmless db message command past =
      let logged = handle_user-IsLogged bot.pydantic bot.name_of db message command in
      record {
        db' = _;
        response = _;
        returns = refl;
        added = logged.row ∷ [];
        only = logged.only;
        at_most_one = omega arith;
        of_sender = (logged.of_actor, tt);
        entitled = λ e. get_user_assignment-IsEntitled db (actor_of message) (logged.file e).1;
      }

  -- A message of somebody who is no administrator, whatever it says, is handled without an exception, runs nothing
  -- on the host, and changes no stored row; it adds at most one row, with the sender's id, to the log of
  -- deliveries, and the answer has a file only for a sender who is registered, enabled and assigned to an enabled group.
  pub handle-IsHarmless :
      (db : Database) (message : TelegramMessage) (past : List Event)
      → is_admin bot.admin_ids message.actor_id ≡ false
      → IsHarmless db message past (handle bot db message past)
  unfolding handle
  handle-IsHarmless db message past h =
      elim (Bool-cases (is_blank (parse_command message.text).name)) [
        | inl e ↦ rw e (record {
          db' = db;
          response = none;
          returns = refl;
          added = [];
          only =
              ap (λ (rows : List ConfigDeliveryLog). record db { deliveries = rows })
                (sym (append-nil db.deliveries));
          at_most_one = omega arith;
          of_sender = tt;
          entitled = λ k. absurd (ground arith);
        })
        | inr e ↦ rw (e, h) (user-IsHarmless db message (parse_command message.text) past)
      ]

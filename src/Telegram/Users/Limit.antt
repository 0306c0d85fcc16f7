-- ===== src/Telegram/Users/Limit.antt =====
-- How many files a user gets within an hour, by the times of the messages.
use local_singbox_manager.Common.{
  ℕ, ◌*◌, is_some, ◌+◌, ◌≤◌, ◌<◌, ◌≡◌, sym, ap, subst, ◌∙◌, arith, String, Bool, true, false, ◌&&◌,
  some, List, [], ◌∷◌, ◌++◌, ◌==◌, eq_iff, member, if◌then◌else◌,
}
use local_singbox_manager.Common.Python.{Python}
use local_singbox_manager.Common.Keyed.{find-holds}
use local_singbox_manager.Store.Models.{current_timestamp, ManagedUser, ConfigDeliveryLog, Database}
use local_singbox_manager.Store.Users.{get_user_by_telegram_id}
use local_singbox_manager.Services.Nodes.{Pydantic}
use local_singbox_manager.Services.Distribution.{
  UserAssignment, delivery_actions, counts, delivery_count, get_user_assignment,
  refresh_limit_exceeded,
}
use local_singbox_manager.Services.Distribution.Laws.{get_user_assignment-IsEntitled}
use local_singbox_manager.Services.Distribution.Tables.{with_log, same_assignment}
use local_singbox_manager.Services.ClientConfigs.{DocumentError}
use local_singbox_manager.Telegram.Types.{TelegramMessage, ParsedCommand}
use local_singbox_manager.Telegram.Users.{actor_of, handle_user}
use local_singbox_manager.Telegram.Users.Laws.{handle_user-IsLogged}
use local_singbox_manager.Telegram.Users.Window.{
  and-parts, below, count-append, exceeded, in_window, one_counted, one_more, regroup, still_counts,
  trans_le, window-parts, within, within-cons,
}

module _ ⦃py : Python⦄ where
  -- the limit that holds for an assignment without an error
  not_exceeded :
      (db : Database) (who : String)
      → (get_user_assignment db who).error ≡ ""
      → refresh_limit_exceeded db (get_user_assignment db who) db.now ≡ false
      → delivery_count db who db.now < (get_user_assignment db who).refresh_limit_per_hour
  unfolding refresh_limit_exceeded get_user_by_telegram_id
  not_exceeded db who e l =
      let entitled = get_user_assignment-IsEntitled db who e in
      let same =
        (eq_iff entitled.user.telegram_id who).0
          (find-holds (λ (u : ManagedUser). u.telegram_id == who) db.users entitled.registered) in
      of_user (get_user_assignment db who) entitled.user entitled.same_user same l
    where
      of_user :
          (a : UserAssignment) (u : ManagedUser)
          → a.user ≡ some u
          → u.telegram_id ≡ who
          → refresh_limit_exceeded db a db.now ≡ false
          → delivery_count db who db.now < a.refresh_limit_per_hour
      of_user a u f g k = below _ _ (sym (exceeded db who a u f g) ∙ k)

  module _ (pydantic : Pydantic) (name_of : DocumentError → String) where
    -- a message at a time, and its command
    abbrev pub Arrival : Type 0
    Arrival = ℕ × (TelegramMessage × ParsedCommand)

    abbrev pub at_time : ℕ → Database → Database
    at_time now db = record db { now = now }

    -- the times at which this user gets a file, over the messages in their order
    unfoldable pub file_times : Database → String → List Arrival → List ℕ
    file_times db who [] = []
    file_times db who ((now, (message, command)) ∷ arrivals) =
        let (db', response) = handle_user pydantic name_of (at_time now db) message command in
        let rest = file_times db' who arrivals in
        if actor_of message == who && is_some response.document then now ∷ rest else rest

    -- each time is not before the one before
    abbrev pub InOrder : ℕ → List Arrival → Type 0
    InOrder now [] = Unit {0}
    InOrder now ((later, rest) ∷ arrivals) = (now ≤ later) × InOrder later arrivals

    limit_of : Database → String → ℕ
    limit_of db who = (get_user_assignment db who).refresh_limit_per_hour

    -- a file is a row that counts, below the limit
    record IsCounted (db : Database) (message : TelegramMessage) (command : ParsedCommand)
        (who : String) : Type 0 where
      row : ConfigDeliveryLog
      only :
          (handle_user pydantic name_of db message command).0
          ≡ record db { deliveries = db.deliveries ++ row ∷ [] }
      at : row.created_at ≡ current_timestamp db.now
      of_file :
          (actor_of message == who
              && is_some (handle_user pydantic name_of db message command).1.document)
            ≡ true
          → (row.telegram_id ≡ who)
            × (member row.action delivery_actions ≡ true)
            × (delivery_count db who db.now < limit_of db who)

    handle_user-IsCounted :
        (db : Database) (message : TelegramMessage) (command : ParsedCommand) (who : String)
        → IsCounted db message command who
    unfolding limit_of
    handle_user-IsCounted db message command who =
        let logged = handle_user-IsLogged pydantic name_of db message command in
        record {
          row = logged.row;
          only = logged.only;
          at = logged.at;
          of_file = λ e.
              let (mine, filed) = and-parts _ _ e in
              let same = (eq_iff (actor_of message) who).0 mine in
              let (success, clean, counted, free) = logged.file filed in
              (
                logged.of_actor ∙ same,
                subst (λ (x : String). member x delivery_actions ≡ true) (sym logged.of_action)
                    counted,
                subst (λ (x : String). delivery_count db x db.now < limit_of db x) same
                    (not_exceeded db (actor_of message) clean free),
              );
        }

    same_time :
        (db : Database) (now : ℕ) (who : String) → limit_of (at_time now db) who ≡ limit_of db who
    unfolding limit_of with_log
    same_time db now who =
        ap (λ (a : UserAssignment). a.refresh_limit_per_hour)
          (same_assignment db db.deliveries now who)

    -- a message keeps the limit and the time
    same_limit :
        (db : Database) (message : TelegramMessage) (command : ParsedCommand) (now : ℕ)
        (who : String)
        → let out = (handle_user pydantic name_of (at_time now db) message command).0 in
          (limit_of out who ≡ limit_of db who) × (out.now ≡ now)
    unfolding limit_of with_log
    same_limit db message command now who =
        let only = (handle_user-IsLogged pydantic name_of (at_time now db) message command).only in
        (
          ap (λ (d : Database). limit_of d who) only
              ∙ ap (λ (a : UserAssignment). a.refresh_limit_per_hour)
                  (same_assignment db _ now who),
          ap (λ (d : Database). d.now) only,
        )

    -- whether this user gets a file for a message
    abbrev gets_file : Database → TelegramMessage → ParsedCommand → String → Bool
    gets_file db message command who =
        actor_of message == who
        && is_some (handle_user pydantic name_of db message command).1.document

    -- a file in the window still counts later in it
    counted_later :
        (db : Database) (message : TelegramMessage) (command : ParsedCommand) (who : String)
        (start later n : ℕ)
        → later ≤ start + 3599 * 1000000
        → n ≤ delivery_count db who later
        → n + (if gets_file db message command who && in_window start db.now then 1 else 0)
          ≤ delivery_count (handle_user pydantic name_of db message command).0 who later
    counted_later db message command who start later n k h =
        let c = handle_user-IsCounted db message command who in
        subst
          (λ (x : ℕ).
            n + (if gets_file db message command who && in_window start db.now then 1 else 0) ≤ x)
          (sym (
            ap (λ (d : Database). delivery_count d who later) c.only
            ∙ count-append db who later c.row))
          (one_counted (gets_file db message command who && in_window start db.now)
            (counts who later c.row) n (delivery_count db who later) h
            (λ e.
              let (filed, inside) =
                and-parts (gets_file db message command who) (in_window start db.now) e in
              let (mine, counted, below) = c.of_file filed in
              still_counts c.row who db.now start later mine counted c.at
                (window-parts start db.now inside).0 k))

    times_bounded :
        (arrivals : List Arrival) (db : Database) (who : String) (start n : ℕ)
        → InOrder db.now arrivals
        → n ≤ limit_of db who
        → ((later : ℕ)
            → db.now ≤ later
            → later ≤ start + 3599 * 1000000
            → n ≤ delivery_count db who later)
        → n + within start (file_times db who arrivals) ≤ limit_of db who
    unfolding file_times delivery_count
    times_bounded [] db who start n o h k = omega arith
    times_bounded ((now, (message, command)) ∷ arrivals) db who start n (after, o) h k =
        let db0 = at_time now db in
        let out = handle_user pydantic name_of db0 message command in
        let filed = gets_file db0 message command who in
        let (limit, time) = same_limit db message command now who in
        let still =
          one_more (filed && in_window start now) n (delivery_count db who now) (limit_of db who) h
            (λ e. k now after (window-parts start now (and-parts filed _ e).1).1)
            (λ e.
              subst (λ (x : ℕ). delivery_count db who now < x) (same_time db now who)
                ((handle_user-IsCounted db0 message command who).of_file
                  (and-parts filed _ e).0).2) in
        let next =
          times_bounded arrivals out.0 who start
            (n + (if filed && in_window start now then 1 else 0))
            (subst (λ (x : ℕ). InOrder x arrivals) (sym time) o)
            (subst (λ (x : ℕ). n + (if filed && in_window start now then 1 else 0) ≤ x) (sym limit)
              still)
            (λ later e f.
              let on = subst (λ (x : ℕ). x ≤ later) time e in
              counted_later db0 message command who start later n f
                (k later (trans_le after on) f)) in
        regroup n (if filed && in_window start now then 1 else 0) _ _ _
          (within-cons start now (file_times out.0 who arrivals) filed)
          (subst
            (λ (x : ℕ).
              n
                + (if filed && in_window start now then 1 else 0)
                + within start (file_times out.0 who arrivals)
              ≤ x)
            limit next)

    -- Over any messages in the order of their times, from any state of the log, a user gets at most as many
    -- files as the limit of the assignment says within any 3599 seconds. The log has whole seconds, so that this is
    -- a second less than the hour.
    pub file_times_bounded :
        (arrivals : List Arrival) (db : Database) (who : String) (start : ℕ)
        → InOrder db.now arrivals
        → within start (file_times db who arrivals)
          ≤ (get_user_assignment db who).refresh_limit_per_hour
    unfolding limit_of
    file_times_bounded arrivals db who start o =
        omega
          (arith, times_bounded arrivals db who start 0 o (omega arith) (λ later h k. omega arith))

-- ===== src/Telegram/Users/Laws.antt =====
-- What a command of a user leaves in the log, and who gets a file.
use local_singbox_manager.Common.{
  ◌⊎◌, All, ◌≡◌, refl, sym, subst, ◌∙◌, arith, String, Bool, true, false, not, ◌||◌, Option, none,
  some, List, [], ◌∷◌, ◌++◌, ◌==◌, eq_iff, is_blank, is_some, member, Bool-cases, inl, inr,
  if◌then◌else◌,
}
use local_singbox_manager.Common.Python.{Python}
use local_singbox_manager.Common.Results.{Result, ok, err}
use local_singbox_manager.Store.Models.{current_timestamp, ManagedUser, ConfigDeliveryLog, Database}
use local_singbox_manager.Services.Nodes.{Pydantic}
use local_singbox_manager.Services.Distribution.{
  UserAssignment, delivery_actions, get_user_assignment, refresh_limit_exceeded, record_delivery,
}
use local_singbox_manager.Services.ClientConfigs.{ClientConfigDocument, DocumentError}
use local_singbox_manager.Telegram.Types.{TelegramMessage, ParsedCommand, BotResponse}
use local_singbox_manager.Telegram.Users.{
  answer, name_or_unknown, actor_of, attached, attach, limited, delivered, known_user,
  for_assignment, handle_user, help_command, status_command, refused_by_limit,
}

-- the row that a command adds, and nothing else that it changes
pub record IsLogged (db : Database) (actor action : String) (a : UserAssignment)
    (out : Database × BotResponse) : Type 0 where
  pub row : ConfigDeliveryLog
  pub only : out.0 ≡ record db { deliveries = db.deliveries ++ row ∷ [] }
  pub of_actor : row.telegram_id ≡ actor
  pub of_action : row.action ≡ action
  pub at : row.created_at ≡ current_timestamp db.now
  -- a file is a success of a command that is counted, for an assignment without an error, below the limit
  pub file :
      is_some out.1.document ≡ true
      → (row.success ≡ true)
        × (a.error ≡ "")
        × (member action delivery_actions ≡ true)
        × (refresh_limit_exceeded db a db.now ≡ false)
  -- a success of a counted command is a file
  pub success :
      row.success ≡ true → member action delivery_actions ≡ true → is_some out.1.document ≡ true

or-cases : (b c : Bool) → (b || c) ≡ true → (b ≡ true) ⊎ (c ≡ true)
or-cases true c e = inl refl
or-cases false c e = inr e

-- a text that is one of a list's, by the texts of the list
pub of_member :
    (P : String → Type 0) (s : String) (xs : List String) → member s xs ≡ true → All P xs → P s
of_member P s [] e h = absurd (ground arith)
of_member P s (x ∷ xs) e (p, h) = elim (or-cases (x == s) (member s xs) e) [
  | inl same ↦ subst P ((eq_iff x s).0 same) p
  | inr later ↦ of_member P s xs later h
]

of_same : (P : String → Type 0) (s t : String) → (s == t) ≡ true → P t → P s
of_same P s t e p = subst P (sym ((eq_iff s t).0 e)) p

abbrev IsUncounted : String → Type 0
IsUncounted action = (member action delivery_actions ≡ false) × (is_blank action ≡ false)

abbrev IsCounted : String → Type 0
IsCounted action = (member action delivery_actions ≡ true) × (is_blank action ≡ false)

blank-empty : (s : String) → is_blank s ≡ true → s ≡ ""
blank-empty String.[] e = refl
blank-empty (String.◌∷◌ c s) e = absurd (ground arith)

module _ ⦃py : Python⦄ where
  logged :
      (db : Database) (actor action : String) (success : Bool) (a : UserAssignment)
      (detail : String) (response : BotResponse)
      → (is_some response.document ≡ true
          → (success ≡ true)
            × (a.error ≡ "")
            × (member action delivery_actions ≡ true)
            × (refresh_limit_exceeded db a db.now ≡ false))
      → (success ≡ true → member action delivery_actions ≡ true → is_some response.document ≡ true)
      → IsLogged db actor action a (record_delivery db actor action success a detail, response)
  unfolding record_delivery
  logged db actor action success a detail response file delivery = record {
    row = _;
    only = refl;
    of_actor = refl;
    of_action = refl;
    at = refl;
    file = file;
    success = delivery;
  }

  -- a row and an answer without a file
  without_file :
      (db : Database) (actor action : String) (success : Bool) (a : UserAssignment)
      (detail text : String) (accepted : Bool)
      → (success ≡ true → member action delivery_actions ≡ false)
      → IsLogged db actor action a
          (record_delivery db actor action success a detail, answer accepted text)
  without_file db actor action success a detail text accepted h =
      logged db actor action success a detail (answer accepted text) (λ e. absurd (ground arith))
        (λ e k. absurd (ground (arith, h e)))

  failed : (action : String) → false ≡ true → member action delivery_actions ≡ false
  failed action e = absurd (ground arith)

  help-IsLogged :
      (db : Database) (actor action : String) (a : UserAssignment)
      → IsUncounted action
      → IsLogged db actor action a (help_command db actor action a)
  help-IsLogged db actor action a (h, named) = elim (Bool-cases (is_blank a.error)) [
    | inl e ↦ rw e (without_file db actor action true a "help requested" _ true (λ k. h))
    | inr e ↦ rw e (without_file db actor action false a a.error _ false (failed action))
  ]

  status-IsLogged :
      (db : Database) (actor action : String) (a : UserAssignment)
      → IsUncounted action
      → IsLogged db actor action a (status_command db actor action a)
  status-IsLogged db actor action a (h, named) =
      without_file db actor action (is_blank a.error) a _ _ (is_blank a.error) (λ k. h)

  module _ (pydantic : Pydantic) (name_of : DocumentError → String) where
    -- a file is attached exactly when nothing failed
    attached-document :
        (what : String) (made : Result DocumentError ClientConfigDocument)
        → is_some (attached pydantic name_of what made).document
          ≡ not (is_some (attached pydantic name_of what made).problem)
    attached-document what (ok d) = refl
    attached-document what (err e) = refl

    delivered-IsLogged :
        (db : Database) (actor action what : String) (a : UserAssignment)
        (made : Result DocumentError ClientConfigDocument) (text detail : String)
        → IsCounted action
        → IsLogged db actor action a (
            if limited db a
            then refused_by_limit db actor action a
            else delivered db actor action a (attach pydantic name_of a what made) text detail)
    delivered-IsLogged db actor action what a made text detail (h, named) =
        elim (Bool-cases (is_blank a.error)) [
          | inl e ↦ elim (Bool-cases (refresh_limit_exceeded db a db.now)) [
            | inl l ↦ rw (e, l) (without_file db actor action false a _ _ false (failed action))
            | inr l ↦
                rw (e, l)
                  (logged db actor action _ a _ _
                    (λ k. (sym (attached-document what made) ∙ k, blank-empty a.error e, h, l))
                    (λ k m. attached-document what made ∙ k))
          ]
          | inr e ↦ rw e (
              logged db actor action false a _ _ (λ k. absurd (ground arith))
                (λ k. absurd (ground arith)))
        ]

    -- a command by its name, where it has one
    with_name :
        (db : Database) (actor : String) (command : ParsedCommand) (a : UserAssignment)
        (out : Database × BotResponse)
        → is_blank command.name ≡ false
        → IsLogged db actor command.name a out
        → IsLogged db actor (name_or_unknown command) a out
    with_name db actor command a out e h = rw e h

    by_help_name : (name : String) → member name ("/start" ∷ "/help" ∷ []) ≡ true → IsUncounted name
    by_help_name name e =
        of_member IsUncounted name ("/start" ∷ "/help" ∷ []) e ((refl, refl), ((refl, refl), tt))

    by_config_name :
        (name : String) → member name ("/config" ∷ "/refresh" ∷ []) ≡ true → IsCounted name
    by_config_name name e =
        of_member IsCounted name ("/config" ∷ "/refresh" ∷ []) e ((refl, refl), ((refl, refl), tt))

    known_user-IsLogged :
        (db : Database) (actor : String) (command : ParsedCommand) (a : UserAssignment)
        → IsLogged db actor
            (name_or_unknown command)
            a
            (known_user pydantic name_of db actor command a)
    known_user-IsLogged db actor command a =
        let name = command.name in
        elim (Bool-cases (member name ("/start" ∷ "/help" ∷ []))) [
          | inl e ↦
              let u = by_help_name name e in
              rw e (with_name db actor command a _ u.1 (help-IsLogged db actor name a u))
          | inr e ↦ elim (Bool-cases (name == "/status")) [
            | inl f ↦
                let u = of_same IsUncounted name "/status" f (refl, refl) in
                rw (e, f) (with_name db actor command a _ u.1 (status-IsLogged db actor name a u))
            | inr f ↦ elim (Bool-cases (member name ("/config" ∷ "/refresh" ∷ []))) [
              | inl g ↦
                  let u = by_config_name name g in
                  rw (e, f, g)
                    (with_name db actor command a _ u.1
                      (delivered-IsLogged db actor name _ a _ _ _ u))
              | inr g ↦ elim (Bool-cases (name == "/sbclient")) [
                | inl h ↦
                    let u = of_same IsCounted name "/sbclient" h (refl, refl) in
                    rw (e, f, g, h)
                      (with_name db actor command a _ u.1
                        (delivered-IsLogged db actor name _ a _ _ _ u))
                | inr h ↦
                    rw (e, f, g, h)
                      (without_file db actor _ false a _ _ false (failed (name_or_unknown command)))
              ]
            ]
          ]
        ]

    for_assignment-IsLogged :
        (db : Database) (actor : String) (command : ParsedCommand) (a : UserAssignment)
        (user : Option ManagedUser)
        → IsLogged db actor
            (name_or_unknown command)
            a
            (for_assignment pydantic name_of db actor command a user)
    for_assignment-IsLogged db actor command a none =
        without_file db actor _ false a _ _ false (failed (name_or_unknown command))
    for_assignment-IsLogged db actor command a (some user) = known_user-IsLogged db actor command a

    -- Whatever a user sends, known or not, allowed or not, the handler adds exactly one row to the log
    -- of deliveries, with the sender, the command and the second, and changes no other row. An answer has a
    -- file only if the assignment of the sender has no error and the hourly limit is not
    -- reached; that row is then a success of a command that counts for the limit, and each such success is a file.
    pub handle_user-IsLogged :
        (db : Database) (message : TelegramMessage) (command : ParsedCommand)
        → IsLogged db
            (actor_of message)
            (name_or_unknown command)
            (get_user_assignment db (actor_of message))
            (handle_user pydantic name_of db message command)
    unfolding handle_user
    handle_user-IsLogged db message command =
        for_assignment-IsLogged db (actor_of message) command
          (get_user_assignment db (actor_of message)) _

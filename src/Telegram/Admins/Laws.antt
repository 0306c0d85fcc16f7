-- ===== src/Telegram/Admins/Laws.antt =====
-- What a command of an administrator changes.
use local_singbox_manager.Common.{
  ◌≡◌, refl, sym, subst, String, Bool, true, false, Option, none, some, List, [], ◌∷◌, ◌++◌, ◌==◌,
  eq_iff, arith, inl, inr, Bool-cases, is_blank, member,
}
use local_singbox_manager.Common.Python.{Python}
use local_singbox_manager.Common.Results.{Result, ok, err, ok-injective}
use local_singbox_manager.Store.Models.{Node, AdminActionLog, Database}
use local_singbox_manager.Store.Nodes as NodeRows
use local_singbox_manager.Store.Rows.{Crash}
use local_singbox_manager.Store.Audit.{add_admin_action}
use local_singbox_manager.Singbox.Host.{Event}
use local_singbox_manager.Services.Deploy.{Env, Run, ActivationResult, activate_node}
use local_singbox_manager.Services.Deploy.Laws.{Activated, activate_node-Activated}
use local_singbox_manager.Health.{HealthReport, Probes}
use local_singbox_manager.Telegram.Types.{TelegramMessage, ParsedCommand, BotResponse}
use local_singbox_manager.Telegram.Users.{answer, actor_of}
use local_singbox_manager.Telegram.Users.Laws.{of_member}
use local_singbox_manager.Telegram.Admins.{
  AdminHandlerDeps, HandlerCrash, default_admin_deps, status_answer, activation_answer,
  activate_found, activate_answer, health_answer, handle_admin,
}

-- the row of an action
abbrev pub IsAudit : String → String → Bool → AdminActionLog → Type 0
IsAudit actor action success row =
    (row.actor ≡ actor)
    × (row.channel ≡ "telegram")
    × (row.action ≡ action)
    × (row.success ≡ success)

-- one row for the action is added, with the outcome that is answered, and nothing else changes
abbrev pub Audited : Database → String → String → Database → BotResponse → Type 0
Audited db actor action db' response =
    (row : AdminActionLog) × (db' ≡ record db { admin_logs = db.admin_logs ++ row ∷ [] })
    × IsAudit actor action response.accepted row

-- the commands that are logged
abbrev pub logged_commands : List String
logged_commands = "/status" ∷ "/nodes" ∷ "/activate" ∷ "/logs" ∷ "/health" ∷ "/notify_test" ∷ []

-- a command that is logged, and activates nothing
abbrev IsPlain : String → Type 0
IsPlain name = (member name logged_commands ≡ true) × ((name == "/activate") ≡ false)

-- what a finished command did: nothing, for help and unknown commands; its audit row only; or an activation
-- and its audit row
pub data Effect ⦃py : Python⦄ (db : Database) (actor : String) (command : ParsedCommand)
    : Database → BotResponse → Type 0 where
  nothing :
      (response : BotResponse)
      → member command.name logged_commands ≡ false
      → Effect db actor command db response
  only_audit :
      (db' : Database) (response : BotResponse)
      → member command.name logged_commands ≡ true
      → (command.name == "/activate") ≡ false
      → Audited db actor command.name db' response
      → Effect db actor command db' response
  not_activated :
      (db' : Database) (response : BotResponse)
      → command.name ≡ "/activate"
      → response.accepted ≡ false
      → Audited db actor command.name db' response
      → Effect db actor command db' response
  activation :
      (node : Node) (db1 db' : Database) (result : ActivationResult) (response : BotResponse)
      → command.name ≡ "/activate"
      → NodeRows.find_by_id_or_tag command.arg db ≡ ok (some node)
      → Activated db node none db1 result
      → response.accepted ≡ result.accepted
      → Audited db1 actor command.name db' response
      → Effect db actor command db' response

module _ ⦃py : Python⦄ where
  -- what a handler returns has an effect of these
  HasEffect :
      Database → String → ParsedCommand → Result HandlerCrash (Database × BotResponse) → Type 0
  HasEffect db actor command out =
      (db' : Database) (response : BotResponse)
      → out ≡ ok (db', response)
      → Effect db actor command db' response

  audit_row :
      (db : Database) (actor name detail text : String) (success : Bool) (db' : Database)
      (response : BotResponse)
      → ◌≡◌ {A = Result HandlerCrash (Database × BotResponse)}
          (ok (add_admin_action actor "telegram" name success detail db, answer success text))
          (ok (db', response))
      → Audited db actor name db' response
  unfolding add_admin_action
  audit_row db actor name detail text success db' response h =
      subst (λ (x : Database × BotResponse). Audited db actor name x.0 x.1) (ok-injective h)
        (_, refl, (refl, refl, refl, refl))

  returned-nothing :
      (db : Database) (actor : String) (command : ParsedCommand) (r : BotResponse)
      → member command.name logged_commands ≡ false
      → HasEffect db actor command (ok (db, r))
  unfolding HasEffect
  returned-nothing db actor command r unlogged db' response h =
      subst (λ (x : Database × BotResponse). Effect db actor command x.0 x.1) (ok-injective h)
        (nothing r unlogged)

  module _ (env : Env) (probes : Probes) where
    deps : AdminHandlerDeps
    deps = default_admin_deps env probes

    module _ (db : Database) (actor : String) (command : ParsedCommand) (past : List Event) where
      audit_only :
          (success : Bool) (detail text : String)
          → IsPlain command.name
          → HasEffect db actor command (
              ok (
                add_admin_action actor "telegram" command.name success detail db,
                answer success text,
              ))
      unfolding HasEffect
      audit_only success detail text (known, e) db' response h =
          only_audit db' response known e
            (audit_row db actor command.name detail text success db' response h)

      status-HasEffect :
          (m : Result String (Option String × String))
          → IsPlain command.name
          → HasEffect db actor command (status_answer deps db actor command.name m past).0
      unfolding HasEffect deps
      status-HasEffect (err text) e db' response h = cc
      status-HasEffect (ok (ip, error)) e db' response h = audit_only true _ _ e db' response h

      health-HasEffect :
          (m : Result String HealthReport)
          → IsPlain command.name
          → HasEffect db actor command (health_answer deps db actor command.name m past).0
      unfolding HasEffect
      health-HasEffect (err text) e db' response h = cc
      health-HasEffect (ok report) e db' response h =
          audit_only (report.overall == "connected") _ _ e db' response h

      refused_activation :
          (detail text : String)
          → command.name ≡ "/activate"
          → HasEffect db actor command (
              ok
                (add_admin_action actor "telegram" command.name false detail db, answer false text))
      unfolding HasEffect
      refused_activation detail text named db' response h =
          not_activated db' response named
            (subst (λ (x : Database × BotResponse). x.1.accepted ≡ false) (ok-injective h) refl)
            (audit_row db actor command.name detail text false db' response h)

      activation-HasEffect :
          (node : Node) (run : Run ActivationResult)
          → command.name ≡ "/activate"
          → NodeRows.find_by_id_or_tag command.arg db ≡ ok (some node)
          → ((db1 : Database) (result : ActivationResult)
              → run.0 ≡ ok (db1, result)
              → Activated db node none db1 result)
          → HasEffect db actor command (activation_answer deps actor command.name run).0
      unfolding HasEffect
      activation-HasEffect node (err e, next) named found f db' response h = cc
      activation-HasEffect node (ok (db1, result), next) named found f db' response h =
          activation node db1 db' result response named found (f db1 result refl)
            (subst (λ (x : Database × BotResponse). x.1.accepted ≡ result.accepted) (ok-injective h)
              refl)
            (audit_row db1 actor command.name result.message result.message result.accepted db'
              response h)

      found-HasEffect :
          (m : Result Crash (Option Node))
          → command.name ≡ "/activate"
          → NodeRows.find_by_id_or_tag command.arg db ≡ m
          → HasEffect db actor command (activate_found deps db actor command m past).0
      unfolding HasEffect deps default_admin_deps
      found-HasEffect (err e) named found db' response h = cc
      found-HasEffect (ok none) named found db' response h =
          refused_activation _ _ named db' response h
      found-HasEffect (ok (some node)) named found db' response h =
          activation-HasEffect node (activate_node env db node none past) named found
            (λ db1 result e. activate_node-Activated env db node none past db1 result e) db'
            response h

      activate-HasEffect :
          command.name ≡ "/activate"
          → HasEffect db actor command (activate_answer deps db actor command past).0
      activate-HasEffect named = elim (Bool-cases (is_blank command.arg)) [
        | inl e ↦ rw e (refused_activation _ _ named)
        | inr e ↦ rw e (found-HasEffect (NodeRows.find_by_id_or_tag command.arg db) named refl)
      ]

    same_name : (s t : String) → (s == t) ≡ true → s ≡ t
    same_name s t e = (eq_iff s t).0 e

    other_name : (s t : String) → (s == t) ≡ true → IsPlain t → IsPlain s
    other_name s t e known = subst IsPlain (sym ((eq_iff s t).0 e)) known

    swapped : (s t : String) → (s == t) ≡ false → (t == s) ≡ false
    swapped s t e = ground (arith, eq_iff s t, eq_iff t s)

    unlogged :
        (name : String)
        → (name == "/status") ≡ false
        → (name == "/nodes") ≡ false
        → (name == "/activate") ≡ false
        → (name == "/logs") ≡ false
        → (name == "/health") ≡ false
        → (name == "/notify_test") ≡ false
        → member name logged_commands ≡ false
    unlogged name f g a k m n =
        rw
          (swapped _ _ f, swapped _ _ g, swapped _ _ a, swapped _ _ k, swapped _ _ m, swapped _ _ n)
          refl

    help_unlogged :
        (name : String)
        → member name ("/start" ∷ "/help" ∷ []) ≡ true
        → member name logged_commands ≡ false
    help_unlogged name e =
        of_member (λ (x : String). member x logged_commands ≡ false) name ("/start" ∷ "/help" ∷ [])
          e (refl, (refl, tt))

    handle_admin-HasEffect :
        (db : Database) (message : TelegramMessage) (command : ParsedCommand) (past : List Event)
        → HasEffect db
            (actor_of message)
            command
            (handle_admin (default_admin_deps env probes) db message command past).0
    unfolding handle_admin deps
    handle_admin-HasEffect db message command past =
        let name = command.name in
        let actor = actor_of message in
        elim (Bool-cases (member name ("/start" ∷ "/help" ∷ []))) [
          | inl e ↦ rw e (returned-nothing db actor command _ (help_unlogged name e))
          | inr e ↦ elim (Bool-cases (name == "/status")) [
            | inl f ↦
                rw (e, f)
                  (status-HasEffect db actor command past _ (other_name name _ f (refl, refl)))
            | inr f ↦ elim (Bool-cases (name == "/nodes")) [
              | inl g ↦
                  rw (e, f, g)
                    (audit_only db actor command past true _ _ (other_name name _ g (refl, refl)))
              | inr g ↦ elim (Bool-cases (name == "/activate")) [
                | inl a ↦
                    rw (e, f, g, a) (activate-HasEffect db actor command past (same_name name _ a))
                | inr a ↦ elim (Bool-cases (name == "/logs")) [
                  | inl k ↦
                      rw (e, f, g, a, k)
                        (audit_only db actor command past true _ _
                          (other_name name _ k (refl, refl)))
                  | inr k ↦ elim (Bool-cases (name == "/health")) [
                    | inl m ↦
                        rw (e, f, g, a, k, m)
                          (health-HasEffect db actor command past _
                            (other_name name _ m (refl, refl)))
                    | inr m ↦ elim (Bool-cases (name == "/notify_test")) [
                      | inl n ↦
                          rw (e, f, g, a, k, m, n)
                            (audit_only db actor command past true _ _
                              (other_name name _ n (refl, refl)))
                      | inr n ↦
                          rw (e, f, g, a, k, m, n)
                            (returned-nothing db actor command _ (unlogged name f g a k m n))
                    ]
                  ]
                ]
              ]
            ]
          ]
        ]

    -- What a command of an administrator does if the handler returns: nothing for help and an unknown
    -- command; for every other command exactly one audit row is added, with the administrator, the command and
    -- the outcome that is answered, and no other row changes but by the activation of the node that "/activate"
    -- names, which leaves exactly this node active and no profile if it is accepted, and the
    -- active nodes and profiles as they were if it is not.
    pub handle_admin-Effect :
        (db : Database) (message : TelegramMessage) (command : ParsedCommand) (past : List Event)
        (db' : Database) (response : BotResponse)
        → (handle_admin (default_admin_deps env probes) db message command past).0
          ≡ ok (db', response)
        → Effect db (actor_of message) command db' response
    unfolding HasEffect
    handle_admin-Effect = handle_admin-HasEffect

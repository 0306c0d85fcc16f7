-- ===== src/Telegram/Admins.antt =====
-- `AdminCommandHandler` of app/telegram/handlers.py.
pub mod Laws
use local_singbox_manager.Common.{
  ℕ, ◌-◌, String, Bool, true, false, not, Option, none, some, List, [], ◌∷◌, ◌⧺◌, ◌==◌, is_blank,
  member, text_length, drop_text, text_or, if◌then◌else◌,
}
use local_singbox_manager.Common.Python.{Python}
use local_singbox_manager.Common.Results.{Result, ok, err}
use local_singbox_manager.Store.Models.{Node, Database}
use local_singbox_manager.Store.Nodes as NodeRows
use local_singbox_manager.Store.Rows.{Crash}
use local_singbox_manager.Store.Audit.{add_admin_action}
use local_singbox_manager.Singbox.Host.{Event, notified}
use local_singbox_manager.Singbox.Service.{ServiceStatus, get_status, get_logs}
use local_singbox_manager.Singbox.Deployer.{DeployCrash}
use local_singbox_manager.Services.Deploy.{Env, Run, ActivationResult, activate_node}
use local_singbox_manager.Health.{HealthReport, Probes, check_external_ip, run_health_checks}
use local_singbox_manager.Telegram.Types.{TelegramMessage, ParsedCommand, BotResponse}
use local_singbox_manager.Telegram.Users.{answer, actor_of}
use local_singbox_manager.Telegram.Presenters.{
  admin_help, format_service_status, format_nodes, format_health_report,
}

-- the exceptions that a handler lets through
pub data HandlerCrash : Type 0 where
  lookup : Crash → HandlerCrash
  deploy : DeployCrash → HandlerCrash
  probe : String → HandlerCrash

abbrev pub Handled : Type 0
Handled = Result HandlerCrash (Database × BotResponse) × List Event

-- `AdminHandlerDeps`: what the handler calls, with the events before, newest first
pub record AdminHandlerDeps : Type 0 where
  pub external_ip_checker : Result String (Option String × String)
  pub health_checker : Result String HealthReport
  pub status_provider : List Event → ServiceStatus × List Event
  pub log_provider : ℕ → String → List Event → String × List Event
  pub deploy_activator : Database → Node → List Event → Run ActivationResult
  pub notifier : String → String → String → List Event → List Event

-- `text[-3500:] if text else "No recent problems."`
abbrev pub last_logs : String → String
last_logs text =
    if is_blank text then "No recent problems." else drop_text (text_length text - 3500) text

abbrev active_tag : Option Node → String
active_tag none = ""
active_tag (some node) = node.tag

module _ ⦃py : Python⦄ where
  -- `default_admin_deps` and the defaults of `AdminHandlerDeps`
  unfoldable pub default_admin_deps : Env → Probes → AdminHandlerDeps
  unfolding check_external_ip run_health_checks get_status get_logs activate_node
  default_admin_deps env probes = record {
    external_ip_checker = check_external_ip probes;
    health_checker = run_health_checks probes;
    status_provider = get_status env.host;
    log_provider = λ lines mode past. get_logs env.host lines mode "" past;
    deploy_activator = λ db node past. activate_node env db node none past;
    notifier = λ title body level past. notified title body level ∷ past;
  }

  -- `audit.add_admin_action(…); db.commit()`, and the answer
  abbrev pub audited :
      Database → String → String → Bool → String → BotResponse → List Event → Handled
  audited db actor action success detail response past =
      (ok (add_admin_action actor "telegram" action success detail db, response), past)

  module _ (deps : AdminHandlerDeps) where
    abbrev pub status_answer :
        Database → String → String → Result String (Option String × String) → List Event → Handled
    status_answer db actor name (err text) past = (err (probe text), past)
    status_answer db actor name (ok (ip, error)) past =
        let (status, next) = deps.status_provider past in
        audited db actor name true "status requested"
          (answer true
            (format_service_status status (active_tag (NodeRows.get_active db)) (text_or ip error)))
          next

    abbrev pub activation_answer : String → String → Run ActivationResult → Handled
    activation_answer actor name (err e, next) = (err (deploy e), next)
    activation_answer actor name (ok (db, result), next) =
        audited db actor name result.accepted result.message (answer result.accepted result.message)
          next

    abbrev pub activate_found :
        Database → String → ParsedCommand → Result Crash (Option Node) → List Event → Handled
    activate_found db actor command (err e) past = (err (lookup e), past)
    activate_found db actor command (ok none) past =
        audited db actor command.name false ("node not found: " ⧺ command.arg)
          (answer false ("Node not found: " ⧺ command.arg)) past
    activate_found db actor command (ok (some node)) past =
        activation_answer actor command.name (deps.deploy_activator db node past)

    abbrev pub activate_answer : Database → String → ParsedCommand → List Event → Handled
    activate_answer db actor command past =
        if is_blank command.arg
        then audited db actor command.name false "missing node"
            (answer false "Usage: /activate <node-id-or-tag>") past
        else activate_found db actor command (NodeRows.find_by_id_or_tag command.arg db) past

    abbrev pub logs_answer : Database → String → String → List Event → Handled
    logs_answer db actor name past =
        let (text, next) = deps.log_provider 300 "problems" past in
        audited db actor name true "logs requested" (answer true (last_logs text)) next

    abbrev pub health_answer :
        Database → String → String → Result String HealthReport → List Event → Handled
    health_answer db actor name (err text) past = (err (probe text), past)
    health_answer db actor name (ok report) past =
        let connected = report.overall == "connected" in
        audited db actor name connected report.overall
          (answer connected (format_health_report report)) past

    abbrev pub notify_answer : Database → String → String → List Event → Handled
    notify_answer db actor name past =
        audited db actor name true "test notification" (answer true "Test notification scheduled.")
          (deps.notifier "Test notification" "Telegram admin bot requested a test notification."
            "info" past)

    unfoldable pub handle_admin : Database → TelegramMessage → ParsedCommand → List Event → Handled
    handle_admin db message command past =
        let actor = actor_of message in
        let name = command.name in
        if member name ("/start" ∷ "/help" ∷ [])
        then (ok (db, answer true admin_help), past)
        else if name == "/status"
        then status_answer db actor name deps.external_ip_checker past
        else if name == "/nodes"
        then audited db actor name true "nodes listed"
            (answer true (format_nodes (NodeRows.list_for_dashboard db))) past
        else if name == "/activate"
        then activate_answer db actor command past
        else if name == "/logs"
        then logs_answer db actor name past
        else if name == "/health"
        then health_answer db actor name deps.health_checker past
        else if name == "/notify_test"
        then notify_answer db actor name past
        else (ok (db, answer false "Unknown command. Use /help."), past)

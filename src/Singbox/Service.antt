-- ===== src/Singbox/Service.antt =====
-- app/singbox/service.py, less what a deploy calls: the state of the service, its log, and its control.
pub mod Laws
use local_singbox_manager.Common.{
  ℕ, String, Bool, true, false, not, ◌&&◌, Option, none, some, List, [], ◌∷◌, ◌⧺◌, ◌==◌, is_blank,
  before, after, contains, starts_with, strip, join, filter, if◌then◌else◌,
}
use local_singbox_manager.Common.Json.{insert, lookup}
use local_singbox_manager.Common.Python.{Python}
use local_singbox_manager.Singbox.Host.{
  Host, Event, CommandResult, run, helper_command, journal_command, head_or,
}

abbrev code_of_equals : ℕ
code_of_equals = 61

-- the dictionary of `get_status`
pub record ServiceStatus : Type 0 where
  pub active_state : String
  pub sub_state : String
  pub pid : String
  pub load_state : String
  pub since : String

abbrev show_command : List String
show_command =
    "systemctl" ∷ "show" ∷ "sing-box.service" ∷ "--no-pager"
    ∷ "--property=ActiveState,SubState,MainPID,LoadState,ActiveEnterTimestamp" ∷ []

-- the loop over the lines `key=value`
unfoldable pub props_from : List (String × String) → List String → List (String × String)
props_from props [] = props
props_from props (line ∷ lines) =
    props_from
      (if contains line "="
        then insert (strip (before code_of_equals line)) (strip (after code_of_equals line)) props
        else props)
      lines

abbrev prop_or : String → String → List (String × String) → String
prop_or key default props = elim (lookup key props) [ none ↦ default | some v ↦ v ]

unfoldable pub status_of : List (String × String) → ServiceStatus
status_of props = record {
  active_state = prop_or "ActiveState" "unknown" props;
  sub_state = prop_or "SubState" "unknown" props;
  pid = prop_or "MainPID" "0" props;
  load_state = prop_or "LoadState" "unknown" props;
  since = prop_or "ActiveEnterTimestamp" "" props;
}

abbrev show_failed : ServiceStatus
show_failed = record {
  active_state = "error";
  sub_state = "systemctl show failed";
  pid = "0";
  load_state = "error";
  since = "";
}

module _ ⦃py : Python⦄ (host : Host) where
  abbrev lines_of_mode : String → List String → List String
  lines_of_mode mode lines =
      if mode == "problems"
      then filter host.is_problem lines
      else if mode == "fatal"
      then filter host.is_fatal lines
      else lines

  abbrev lines_with : String → List String → List String
  lines_with grep lines =
      if is_blank grep
      then lines
      else filter (λ (line : String). contains (py.lower line) (py.lower grep)) lines

  unfoldable pub filter_log_lines : String → String → String → String
  filter_log_lines text mode grep =
      let kept = join "\n" (lines_with grep (lines_of_mode mode (host.splitlines text))) in
      if is_blank kept then "(no matching log output)" else kept

  unfoldable pub get_status : List Event → ServiceStatus × List Event
  unfolding run props_from status_of
  get_status past =
      let (r, next) = run host show_command 5 past in
      (
        if not r.success && is_blank r.output
            then show_failed
            else status_of (props_from [] (host.splitlines r.output)),
        next,
      )

  unfoldable pub get_logs : ℕ → String → String → List Event → String × List Event
  unfolding run filter_log_lines
  get_logs lines mode grep past =
      let (r, next) = run host (journal_command host "" lines) 10 past in
      (
        if not r.success && not (is_blank r.output)
            then "Error fetching logs: " ⧺ r.output
            else filter_log_lines (if is_blank r.output then "(no log output)" else r.output) mode
                grep,
        next,
      )

  unfoldable pub get_recent_problems : ℕ → List Event → String × List Event
  unfolding get_logs
  get_recent_problems lines past = get_logs lines "problems" "" past

  abbrev helper_answer : CommandResult → Bool × String
  helper_answer r =
      if not r.success && starts_with r.output "Command not found"
      then (false, "Helper not found: " ⧺ host.helper_bin)
      else (r.success, r.output)

  -- `_run_helper` with an action
  unfoldable pub service_action : String → List Event → (Bool × String) × List Event
  unfolding run
  service_action action past =
      let (r, next) = run host (helper_command host (action ∷ [])) 30 past in
      (helper_answer r, next)

  unfoldable pub reload : List Event → (Bool × String) × List Event
  unfolding service_action
  reload past = service_action "reload" past

  unfoldable pub restart : List Event → (Bool × String) × List Event
  unfolding service_action
  restart past = service_action "restart" past

  unfoldable pub stop : List Event → (Bool × String) × List Event
  unfolding service_action
  stop past = service_action "stop" past

  unfoldable pub start : List Event → (Bool × String) × List Event
  unfolding service_action
  start past = service_action "start" past

  abbrev pub or_restart : (Bool × String) × List Event → (Bool × String) × List Event
  or_restart ((true, out), next) = ((true, out), next)
  or_restart ((false, out), next) = service_action "restart" next

  unfoldable pub reload_or_restart : List Event → (Bool × String) × List Event
  unfolding service_action
  reload_or_restart past = or_restart (service_action "reload" past)

  abbrev version_text : Option String → String → String
  version_text (some version) output = version
  version_text none output = strip (head_or "" (host.splitlines output))

  unfoldable pub get_version : List Event → String × List Event
  unfolding run
  get_version past =
      let (r, next) = run host (host.singbox_bin ∷ "version" ∷ []) 5 past in
      (version_text (host.version_in r.output) r.output, next)

-- ===== src/Singbox/Host.antt =====
-- app/system_clients.py, app/singbox/validator.py and the part of app/singbox/service.py that a deploy
-- calls: commands on the host, with the events they leave behind.
use local_singbox_manager.Common.{
  ℕ, String, Bool, true, false, not, ◌&&◌, Option, none, some, List, [], ◌∷◌, ◌++◌, ◌⧺◌, ◌==◌, ◌=ℕ◌,
  is_blank, starts_with, strip, join, filter, last, if◌then◌else◌,
}
use local_singbox_manager.Common.Python.{Python}

-- what `subprocess.run` does: exit code, stdout and stderr; or an exception
pub data Outcome : Type 0 where
  completed : ℕ → String → String → Outcome
  timeout_expired : Outcome
  file_not_found : Outcome
  os_error : String → Outcome

pub record CommandResult : Type 0 where
  pub success : Bool
  pub output : String

-- what the program leaves behind: commands, temporary files, notifications, pauses
pub data Event : Type 0 where
  ran : List String → Event
  wrote : String → Event
  unlinked : String → Event
  notified : String → String → String → Event
  slept : Event

-- The host. An answer may depend on all that happened before, newest first. `write` is the error that
-- stops a temporary file from being written, and is `none` if it is written.
pub record Host : Type 0 where
  pub answer : List Event → List String → Outcome
  pub write : List Event → String → Option String
  pub uuid : List Event → String
  -- the start of the deploy, as `journalctl` reads it
  pub since : String
  pub helper_bin : String
  pub singbox_bin : String
  -- `str.splitlines`, `s[-500:]`
  pub splitlines : String → List String
  pub last_500 : String → String
  -- whether `_PROBLEM_RE` matches a line, and what `sing-box version ([\d.]+)` finds in a text
  pub is_problem : String → Bool
  pub version_in : String → Option String
  -- `re.search(r'config_\d{8}_\d{6}\.json', s)`, and whether `_FATAL_RE` matches a line
  pub backup_in : String → Option String
  pub is_fatal : String → Bool

-- the command of `SystemServiceClient.helper`
abbrev pub helper_command : Host → List String → List String
helper_command host args = "sudo" ∷ host.helper_bin ∷ args

abbrev pub is_active_command : List String
is_active_command = "systemctl" ∷ "is-active" ∷ "sing-box.service" ∷ []

abbrev pub head_or : String → List String → String
head_or d [] = d
head_or d (x ∷ xs) = x

module _ ⦃py : Python⦄ where
  -- `SubprocessCommandRunner.run`
  unfoldable pub result_of : List String → ℕ → Outcome → CommandResult
  result_of args timeout (completed code out errors) = record {
    success = code =ℕ 0;
    output = strip (out ⧺ errors);
  }
  result_of args timeout timeout_expired = record {
    success = false;
    output = "Command timed out after " ⧺ py.decimal timeout ⧺ "s";
  }
  result_of args timeout file_not_found = record {
    success = false;
    output = "Command not found: " ⧺ head_or "<empty>" args;
  }
  result_of args timeout (os_error text) = record { success = false; output = text }

  module _ (host : Host) where
    unfoldable pub run : List String → ℕ → List Event → CommandResult × List Event
    run args timeout past = (result_of args timeout (host.answer past args), ran args ∷ past)

    abbrev missing_helper : CommandResult → Bool × String
    missing_helper r =
        if not r.success && starts_with r.output "Command not found"
        then (false, "Helper not found at " ⧺ host.helper_bin ⧺ ". See README install steps.")
        else (r.success, r.output)

    -- `_run_helper` of the deployer, with an action and its arguments
    unfoldable pub run_helper : List String → List Event → (Bool × String) × List Event
    unfolding run
    run_helper args past =
        let (r, next) = run (helper_command host args) 30 past in (missing_helper r, next)

    unfoldable pub is_active : List Event → Bool × List Event
    unfolding run
    is_active past =
        let (r, next) = run is_active_command 5 past in (strip r.output == "active", next)

    abbrev pub journal_command : String → ℕ → List String
    journal_command since lines =
        "journalctl"
          ∷ "-u"
          ∷ "sing-box.service"
          ∷ (if is_blank since then "-n" ∷ py.decimal lines ∷ [] else "--since" ∷ since ∷ [])
        ++ "--no-pager" ∷ "--output=short-iso" ∷ []

    -- `_filter_log_lines(text, mode="fatal")`
    unfoldable pub fatal_lines : String → String
    fatal_lines text =
        let kept = join "\n" (filter host.is_fatal (host.splitlines text)) in
        if is_blank kept then "(no matching log output)" else kept

    abbrev detail_of : String → String
    detail_of output =
        if starts_with output "(no matching"
        then ""
        else host.last_500 (last "" (host.splitlines output))

    unfoldable pub get_failure_detail : ℕ → String → List Event → String × List Event
    unfolding run
    get_failure_detail lines since past =
        let (r, next) = run (journal_command since lines) 10 past in
        (if is_blank r.output then "" else detail_of (fatal_lines r.output), next)

    abbrev pub check_command : String → List String
    check_command path = host.singbox_bin ∷ "check" ∷ "-c" ∷ path ∷ []

    abbrev verdict : CommandResult → Bool × String
    verdict r =
        if r.success
        then (true, "Config is valid")
        else if starts_with r.output "Command not found"
        then (
          false,
          "sing-box binary not found at " ⧺ host.singbox_bin
              ⧺ " — install sing-box or set the SINGBOX_BIN env var to its path",
        )
        else (
          false,
          if is_blank (strip r.output) then "Unknown validation error" else strip r.output,
        )

    abbrev pub check_written : Option String → String → List Event → (Bool × String) × List Event
    check_written (some text) path past = ((false, text), past)
    check_written none path past =
        let (r, next) = run (check_command path) 15 (wrote path ∷ past) in
        (verdict r, unlinked path ∷ next)

    -- `validate_config`, which writes the configuration to a temporary file first
    unfoldable pub validate_config : List Event → (Bool × String) × List Event
    unfolding run
    validate_config past =
        let path = "/tmp/singbox-check-" ⧺ host.uuid past ⧺ ".json" in
        check_written (host.write past path) path past

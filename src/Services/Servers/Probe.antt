-- ===== src/Services/Servers/Probe.antt =====
-- What a probe of a server over SSH says, of app/services/servers.py. The script that runs on the server is
-- not part of the model: what it prints is an answer of the probe.
use local_singbox_manager.Common.{
  ℕ, zero, suc, String, Bool, true, false, not, ◌||◌, Option, none, some, List, [], ◌∷◌, ◌++◌, ◌⧺◌,
  ◌==◌, map, find, member, take, last, contains, is_blank, strip, take_text, if◌then◌else◌,
}
use local_singbox_manager.Common.Json.{
  ℤ, Json, bool, str, arr, obj, Dict, lookup, of_fields, of_items,
}
use local_singbox_manager.Common.Python.{Python}
use local_singbox_manager.Common.Integers.{int_of_found}
use local_singbox_manager.Singbox.Host.{
  Outcome, completed, timeout_expired, file_not_found, os_error,
}
use local_singbox_manager.Services.AppBypass.{falsy, text_at}
use local_singbox_manager.Services.Servers.{
  ServerSpec, ServerSnapshot, spec, default_servers, allowed_aliases, empty_snapshot,
}

-- `snapshot.reachable = False; snapshot.error = …`
abbrev pub unreachable : ServerSpec → String → ServerSnapshot
unreachable s error = record (empty_snapshot s) { reachable = some false; error = error }

pub record SshResult : Type 0 where
  pub success : Bool
  pub output : String
  pub returncode : Option ℕ

-- what a probe asks: `ssh` of an alias, `str.splitlines`, and the regular expressions
pub record Remote : Type 0 where
  pub ssh : String → Outcome
  pub splitlines : String → List String
  pub is_alias : String → Bool
  pub is_listen : String → Bool
  pub is_bandwidth : String → Bool

unfoldable pub spec_by_alias : String → Option ServerSpec
spec_by_alias alias = find (λ (s : ServerSpec). s.alias == alias) default_servers

abbrev items_of : Option Json → List Json
items_of (some (arr items)) = of_items items
items_of _ = []

abbrev first_text : String → String → String → String
first_text a b c = if is_blank a then (if is_blank b then c else b) else a

module _ ⦃py : Python⦄ where
  unfoldable pub safe_error : String → String
  safe_error text =
      let message = py.lower text in
      if contains message "host key verification failed"
        || contains message "host identification has changed"
      then "SSH host key verification failed. Check the alias in a terminal."
      else if contains message "permission denied"
      then "SSH authentication failed. Check the key and remote user."
      else if contains message "timed out"
      then "SSH connection or probe timed out."
      else if contains message "could not resolve hostname"
      then "SSH hostname could not be resolved."
      else if contains message "connection refused" || contains message "connection closed"
      then "SSH connection refused or closed."
      else "SSH probe failed. Check the alias and access in a terminal."

  abbrev nstat_item : String → Option ℤ → List (String × ℤ)
  nstat_item key none = []
  nstat_item key (some n) = (key, n) ∷ []

  abbrev nstat_at : Dict → String → List (String × ℤ)
  nstat_at value key = nstat_item key (int_of_found (lookup key value))

  unfoldable pub safe_nstat : Option Json → List (String × ℤ)
  safe_nstat (some (obj fields)) =
      let value = of_fields fields in
      nstat_at value "UdpInErrors"
      ++ nstat_at value "UdpRcvbufErrors"
      ++ nstat_at value "UdpSndbufErrors"
      ++ nstat_at value "TcpRetransSegs"
  safe_nstat _ = []

  -- `str(value.get(key, ""))`
  abbrev pub text_of_key : String → Dict → String
  text_of_key key value = elim (lookup key value) [ none ↦ "" | some v ↦ py.str_of v ]

  -- `bool(value.get(key))`
  abbrev true_at : String → Dict → Bool
  true_at key value = elim (lookup key value) [ none ↦ false | some v ↦ not (falsy v) ]

  module _ (remote : Remote) where
    abbrev kept_if : Bool → String → String → Dict
    kept_if b key text = if b then (key, str text) ∷ [] else []

    unfoldable pub safe_hysteria : Dict → Dict
    safe_hysteria value =
        let listen = text_of_key "listen" value in
        let up = text_of_key "bandwidth_up" value in
        let down = text_of_key "bandwidth_down" value in
        kept_if (remote.is_listen listen) "listen" listen
        ++ kept_if (remote.is_bandwidth up) "bandwidth_up" up
        ++ kept_if (remote.is_bandwidth down) "bandwidth_down" down
        ++ ("ignore_client_bandwidth", bool (true_at "ignore_client_bandwidth" value))
          ∷ ("has_obfs", bool (true_at "has_obfs" value))
          ∷ ("has_auth", bool (true_at "has_auth" value))
          ∷ []

    abbrev ssh_failed : String → SshResult
    ssh_failed text = record { success = false; output = text; returncode = none }

    abbrev result_of_ssh : Outcome → SshResult
    result_of_ssh (completed zero out errors) = record {
      success = true;
      output = strip out;
      returncode = some zero;
    }
    result_of_ssh (completed (suc code) out errors) = record {
      success = false;
      output = strip (first_text errors (strip out) "ssh failed");
      returncode = some (suc code);
    }
    result_of_ssh timeout_expired = ssh_failed "SSH timed out after 12s"
    result_of_ssh file_not_found = ssh_failed "Command not found: ssh"
    result_of_ssh (os_error text) = ssh_failed text

    -- the result, and the aliases that `ssh` was run for
    unfoldable pub ssh_python : String → SshResult × List String
    ssh_python alias =
        if not (remote.is_alias alias) || not (member alias allowed_aliases)
        then (ssh_failed "invalid alias", [])
        else (result_of_ssh (remote.ssh alias), alias ∷ [])

    abbrev hysteria_of : Option Json → Option Dict
    hysteria_of (some (obj fields)) = some (safe_hysteria (of_fields fields))
    hysteria_of _ = none

    abbrev short_texts : ℕ → ℕ → Option Json → List String
    short_texts count size value =
        map (λ (item : Json). take_text size (py.str_of item)) (take count (items_of value))

    unfoldable pub snapshot_of : ServerSpec → Dict → ServerSnapshot
    unfolding safe_hysteria safe_nstat
    snapshot_of s payload = record {
      spec_of = s;
      notes = "";
      reachable = some true;
      error = "";
      hostname = take_text 80 (text_at "hostname" "" payload);
      uname = take_text 80 (text_at "uname" "" payload);
      load = short_texts 3 12 (lookup "load" payload);
      uptime = take_text 80 (text_at "uptime" "" payload);
      mem_available_kb = take_text 16 (text_at "mem_available_kb" "" payload);
      mem_total_kb = take_text 16 (text_at "mem_total_kb" "" payload);
      units = short_texts 20 80 (lookup "units" payload);
      listen = short_texts 30 80 (lookup "listen" payload);
      hysteria = hysteria_of (lookup "hysteria" payload);
      nstat = safe_nstat (lookup "nstat" payload);
      journal_err_24h = py.int_of (strip (text_of_key "journal_err_24h" payload));
    }

    abbrev pub of_payload : ServerSpec → Option Json → ServerSnapshot
    of_payload s none = unreachable s "Probe returned non-JSON output"
    of_payload s (some (obj fields)) = snapshot_of s (of_fields fields)
    of_payload s (some _) = unreachable s "Probe payload was not an object"

    -- `json.loads(output.splitlines()[-1])`
    abbrev pub payload_of : List String → Option Json
    payload_of [] = none
    payload_of (line ∷ lines) = py.loads (last line lines)

    abbrev code_text : Option ℕ → String
    code_text none = "None"
    code_text (some code) = py.decimal code

    abbrev pub told_output : SshResult → String
    told_output r =
        if is_blank r.output then "ssh failed (" ⧺ code_text r.returncode ⧺ ")" else r.output

    abbrev pub of_result : ServerSpec → SshResult → ServerSnapshot
    of_result s r =
        if r.success
        then of_payload s (payload_of (remote.splitlines r.output))
        else unreachable s (safe_error (told_output r))

    abbrev pub probe_found : String → Option ServerSpec → ServerSnapshot × List String
    probe_found alias none =
        (unreachable (spec alias alias "unknown" "unknown" "") "Unknown SSH alias", [])
    probe_found alias (some s) = let (r, asked) = ssh_python s.alias in (of_result s r, asked)

    -- the snapshot, and the aliases that `ssh` was run for
    unfoldable pub probe_server : String → ServerSnapshot × List String
    unfolding spec_by_alias ssh_python snapshot_of safe_error
    probe_server alias = probe_found alias (spec_by_alias alias)

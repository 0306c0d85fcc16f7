-- ===== src/Health.antt =====
-- app/health.py: the checks of the host and of its connection, and their verdict.
pub mod Loop
pub mod Laws
use local_singbox_manager.Common.{
  ℕ, zero, suc, String, Bool, true, false, ◌||◌, Option, none, some, List, [], ◌∷◌, ◌⧺◌, ◌==◌, ◌=ℕ◌,
  is_blank, strip, contains, ltb, leb, all, filter, length, text_or, if◌then◌else◌,
}
use local_singbox_manager.Common.Python.{Python}
use local_singbox_manager.Common.Results.{Result, ok, err, ◌>>=◌}

pub record CheckResult : Type 0 where
  pub name : String
  pub passed : Bool
  pub latency_ms : Option ℕ
  pub detail : String
  pub category : String

pub record HealthReport : Type 0 where
  pub overall : String
  pub checks : List CheckResult
  pub external_ip : Option String

-- a check with a latency: the time it took and what came, a timeout, or `str` of an exception
pub data Timed (A : Type 0) : Type 0 where
  answered : ℕ → A → Timed A
  timed_out : Timed A
  raised : String → Timed A

-- the answer of a provider: a status and a text, an exception that is skipped, or another one
pub data IpAnswer : Type 0 where
  responded : ℕ → String → IpAnswer
  unreachable : IpAnswer
  broken : String → IpAnswer

-- What the host and the network answer. A command gives its exit code and its output, or `str` of an
-- exception. An error while a connection is closed counts as an answer where it is ignored.
pub record Probes : Type 0 where
  pub service : String → Result String (ℕ × String)
  pub link : String → Result String (ℕ × String)
  pub dns : String → Timed (Unit {0})
  pub tcp : String → ℕ → Timed (Unit {0})
  pub https : String → Timed ℕ
  pub ip : String → IpAnswer

abbrev pub is_category : String → CheckResult → Bool
is_category category check = check.category == category

abbrev pub has_passed : CheckResult → Bool
has_passed check = check.passed

unfoldable pub system_checks : HealthReport → List CheckResult
system_checks report = filter (is_category "system") report.checks

unfoldable pub connectivity_checks : HealthReport → List CheckResult
connectivity_checks report = filter (is_category "connectivity") report.checks

abbrev system_result : String → Bool → String → CheckResult
system_result name passed detail = record {
  name = name;
  passed = passed;
  latency_ms = none;
  detail = detail;
  category = "system";
}

abbrev connectivity_result : String → Bool → Option ℕ → String → CheckResult
connectivity_result name passed latency_ms detail = record {
  name = name;
  passed = passed;
  latency_ms = latency_ms;
  detail = detail;
  category = "connectivity";
}

abbrev pub service_result : String → Result String (ℕ × String) → CheckResult
service_result name (err text) = system_result name false text
service_result name (ok (code, out)) =
    if strip out == "active"
    then system_result name true "active"
    else system_result name false (if is_blank (strip out) then "inactive" else strip out)

unfoldable pub check_service : Probes → String → CheckResult
check_service probes unit = service_result ("Service (" ⧺ unit ⧺ ")") (probes.service unit)

abbrev pub link_result : String → Result String (ℕ × String) → CheckResult
link_result name (err text) = system_result name false text
link_result name (ok (zero, out)) =
    if contains out "state UP" || contains out ",UP,"
    then system_result name true "UP"
    else system_result name false "DOWN (sing-box not running or TUN not created)"
link_result name (ok (suc code, out)) = system_result name false "interface not found"

unfoldable pub check_tun_interface : Probes → String → CheckResult
check_tun_interface probes iface = link_result ("TUN (" ⧺ iface ⧺ ")") (probes.link iface)

-- the loop over the providers, from the first that has not been asked
abbrev next_ip :
    Result String (Option String × String) → IpAnswer → Result String (Option String × String)
next_ip rest (responded status text) =
    if status =ℕ 200
    then (if is_blank (strip text) then rest else ok (some (strip text), ""))
    else rest
next_ip rest unreachable = rest
next_ip rest (broken text) = err text

unfoldable pub external_ip_from : Probes → List String → Result String (Option String × String)
external_ip_from probes [] = ok (none, "all IP providers unreachable")
external_ip_from probes (url ∷ urls) = next_ip (external_ip_from probes urls) (probes.ip url)

abbrev pub ip_providers : List String
ip_providers = "https://ipinfo.io/ip" ∷ "https://api.ipify.org" ∷ "https://ifconfig.me/ip" ∷ []

unfoldable pub check_external_ip : Probes → Result String (Option String × String)
unfolding external_ip_from
check_external_ip probes = external_ip_from probes ip_providers

-- the verdict of `run_health_checks`
unfoldable pub overall_of : List CheckResult → String
overall_of checks =
    if all has_passed checks
    then "connected"
    else if leb 1 (length (filter has_passed (filter (is_category "connectivity") checks)))
    then "degraded"
    else "failed"

module _ ⦃py : Python⦄ where
  abbrev pub timed_result : String → String → String → Timed (Unit {0}) → CheckResult
  timed_result name done limit (answered ms tt) =
      connectivity_result name true (some ms) (done ⧺ " in " ⧺ py.format_0f ms ⧺ "ms")
  timed_result name done limit timed_out =
      connectivity_result name false none ("Timed out after " ⧺ limit)
  timed_result name done limit (raised text) = connectivity_result name false none text

  unfoldable pub check_dns : Probes → String → CheckResult
  check_dns probes hostname =
      timed_result ("DNS (" ⧺ hostname ⧺ ")") "Resolved" "5s" (probes.dns hostname)

  unfoldable pub check_tcp : Probes → String → ℕ → CheckResult
  check_tcp probes host port =
      timed_result ("TCP " ⧺ host ⧺ ":" ⧺ py.decimal port) "Connected" "5s" (probes.tcp host port)

  abbrev pub https_result : String → Timed ℕ → CheckResult
  https_result name (answered ms status) =
      connectivity_result name (ltb status 400) (some ms)
        ("HTTP " ⧺ py.decimal status ⧺ " in " ⧺ py.format_0f ms ⧺ "ms")
  https_result name timed_out = connectivity_result name false none "Timed out after 8s"
  https_result name (raised text) = connectivity_result name false none text

  unfoldable pub check_https : Probes → String → CheckResult
  check_https probes url = https_result ("HTTPS " ⧺ url) (probes.https url)

  unfoldable pub all_checks : Probes → List CheckResult
  unfolding check_service check_tun_interface check_dns check_tcp check_https
  all_checks probes =
      check_service probes "sing-box.service"
      ∷ check_tun_interface probes "singtun0"
      ∷ check_dns probes "google.com"
      ∷ check_tcp probes "1.1.1.1" 80
      ∷ check_https probes "https://www.google.com"
      ∷ []

  unfoldable pub run_health_checks : Probes → Result String HealthReport
  unfolding all_checks check_external_ip overall_of
  run_health_checks probes = do
    (external_ip, text) ← check_external_ip probes
    ok (record {
      overall = overall_of (all_checks probes);
      checks = all_checks probes;
      external_ip = external_ip;
    })

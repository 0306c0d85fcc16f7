-- ===== src/Tests/Health.antt =====
-- Tests of the health checks and their loop.
use local_singbox_manager.Common.{
  ℕ, String, ◌≡◌, refl, true, none, List, [], ◌∷◌, ◌++◌, map, all, any, filter, All, strip, lstrip,
  rstrip, is_space,
}
use local_singbox_manager.Common.Results.{Result, ok, err}
use local_singbox_manager.Store.Models.{HealthCheckLog}
use local_singbox_manager.Health.{
  HealthReport, overall_of, run_health_checks, all_checks, check_service, check_tun_interface,
  check_dns, check_tcp, check_https, check_external_ip, external_ip_from,
}
use local_singbox_manager.Health.Laws.{
  IsVerdict, outcome, in_category, system_outcomes, connectivity_outcomes,
  run_health_checks-IsVerdict,
}
use local_singbox_manager.Health.Loop.{store_report, health_turns}
use local_singbox_manager.Health.Loop.Laws.{
  is_recent, AreRowsOf, store_report-health_logs, AreJudged, verdicts, changes, last_state,
  level_of, event_level, health_turns-changes,
}
use local_singbox_manager.Tests.Samples.{sample_python, sample_db, result_or}
use local_singbox_manager.Tests.Bots.{sample_probes}

abbrev no_report : HealthReport
no_report = record { overall = "failed"; checks = []; external_ip = none }

abbrev report : HealthReport
report = result_or no_report (run_health_checks sample_probes)

reported : run_health_checks sample_probes ≡ ok report
unfolding run_health_checks all_checks check_service check_tun_interface check_dns check_tcp
    check_https check_external_ip external_ip_from overall_of strip lstrip rstrip is_space
reported = refl

run_health_checks-IsVerdict_example :
    (map outcome report.checks
      ≡ map (in_category "system") (system_outcomes sample_probes)
        ++ map (in_category "connectivity") (connectivity_outcomes sample_probes))
    × IsVerdict report.overall
        (all (λ b. b) (system_outcomes sample_probes ++ connectivity_outcomes sample_probes))
        (any (λ b. b) (connectivity_outcomes sample_probes))
run_health_checks-IsVerdict_example = run_health_checks-IsVerdict sample_probes report reported

store_report-health_logs_example :
    (added : List HealthCheckLog) × ((store_report 9 none report sample_db).health_logs
      ≡ filter (is_recent 9) sample_db.health_logs ++ added)
    × AreRowsOf 9 report.checks added
    × All
        (λ (row : HealthCheckLog). is_recent 9 row ≡ true)
        (store_report 9 none report sample_db).health_logs
store_report-health_logs_example = store_report-health_logs 9 none report sample_db

abbrev fine : HealthReport
fine = record { overall = "connected"; checks = []; external_ip = none }

abbrev turns : List (ℕ × Result String HealthReport)
turns = (1, ok fine) ∷ (2, err "no") ∷ (3, ok report) ∷ (4, ok fine) ∷ []

turns-AreJudged : AreJudged turns
unfolding run_health_checks all_checks check_service check_tun_interface check_dns check_tcp
    check_https check_external_ip external_ip_from overall_of strip lstrip rstrip is_space
turns-AreJudged = (refl, (refl, (refl, tt)))

health_turns-changes_example :
    (map event_level (health_turns turns (sample_db, "unknown")).1
      ≡ map level_of (changes "unknown" (verdicts turns)))
    × ((health_turns turns (sample_db, "unknown")).0.1 ≡ last_state "unknown" (verdicts turns))
health_turns-changes_example = health_turns-changes turns sample_db "unknown" turns-AreJudged

-- ===== src/Health/Loop.antt =====
-- The health loop of app/main.py: one turn of it, with the state it keeps between turns.
pub mod Laws
use local_singbox_manager.Common.{
  ℕ, ◌+◌, ◌*◌, String, Bool, true, false, not, ◌||◌, Option, none, some, List, [], ◌∷◌, ◌++◌, ◌⧺◌,
  ◌==◌, map, filter, join, ltb, if◌then◌else◌,
}
use local_singbox_manager.Common.Python.{Python}
use local_singbox_manager.Common.Results.{Result, ok, err}
use local_singbox_manager.Store.Models.{Node, HealthCheckLog, Database}
use local_singbox_manager.Store.Nodes as NodeRows
use local_singbox_manager.Singbox.Host.{Event, notified}
use local_singbox_manager.Health.{CheckResult, HealthReport, has_passed}

abbrev pub health_retain_days : ℕ
health_retain_days = 7

abbrev pub day : ℕ
day = 24 * 3600 * 1000000

-- `checked_at < now - 7 days`
abbrev pub is_old : ℕ → HealthCheckLog → Bool
is_old now row = ltb (row.checked_at + health_retain_days * day) now

abbrev tag_of : Option Node → Option String
tag_of none = none
tag_of (some node) = some node.tag

unfoldable pub active_node_tag : Database → Option String
active_node_tag db = tag_of (NodeRows.get_active db)

unfoldable pub notify_health_change : String → String → HealthReport → List Event
notify_health_change prev current report =
    let failing =
      map (λ (c : CheckResult). c.name)
        (filter (λ (c : CheckResult). not c.passed) report.checks) in
    if prev == current || prev == "unknown"
    then []
    else if current == "connected"
    then notified "✓ Tunnel recovered" "All health checks passing" "info" ∷ []
    else if current == "degraded"
    then notified "⚠ Tunnel degraded" ("Failing: " ⧺ join ", " failing) "warning" ∷ []
    else if current == "failed"
    then notified "✗ Tunnel failed" "All connectivity checks failing" "critical" ∷ []
    else []

module _ ⦃py : Python⦄ where
  abbrev pub log_row : ℕ → Option String → List HealthCheckLog → CheckResult → HealthCheckLog
  log_row now node_tag rows check = record {
    id = py.new_id (map (λ (l : HealthCheckLog). l.id) rows);
    checked_at = now;
    node_tag = node_tag;
    check_name = check.name;
    category = check.category;
    ok = check.passed;
    latency_ms = check.latency_ms;
    detail = some check.detail;
  }

  -- `for check in report.checks: db.add(…)`
  unfoldable pub add_rows :
      ℕ → Option String → List CheckResult → List HealthCheckLog → List HealthCheckLog
  add_rows now node_tag [] rows = rows
  add_rows now node_tag (check ∷ checks) rows =
      add_rows now node_tag checks (rows ++ log_row now node_tag rows check ∷ [])

  unfoldable pub store_report : ℕ → Option String → HealthReport → Database → Database
  unfolding add_rows
  store_report now node_tag report db = record db {
    health_logs =
        filter (λ (row : HealthCheckLog). not (is_old now row))
          (add_rows now node_tag report.checks db.health_logs);
  }

  -- One turn of `_health_check_loop` at time `now`, on the rows and the last state, with the report of
  -- the checks or what they raise, which is only logged.
  unfoldable pub health_turn :
      ℕ → Result String HealthReport → Database × String → (Database × String) × List Event
  unfolding active_node_tag store_report notify_health_change
  health_turn now (err text) (db, last_health_state) = ((db, last_health_state), [])
  health_turn now (ok report) (db, last_health_state) = (
    (store_report now (active_node_tag db) report db, report.overall),
    notify_health_change last_health_state report.overall report,
  )

  -- the turns of the loop
  unfoldable pub health_turns :
      List (ℕ × Result String HealthReport) → Database × String → (Database × String) × List Event
  unfolding health_turn
  health_turns [] s = (s, [])
  health_turns ((now, report) ∷ turns) s =
      let (s1, fired) = health_turn now report s in
      let (s2, others) = health_turns turns s1 in (s2, fired ++ others)

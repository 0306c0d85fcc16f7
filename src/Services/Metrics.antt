-- ===== src/Services/Metrics.antt =====
-- app/services/metrics.py: uptime and latencies of the health checks.
pub mod Laws
use local_singbox_manager.Common.{
  ℕ, zero, suc, ◌+◌, ◌-◌, ◌*◌, ◌/◌, String, Bool, true, false, not, ◌&&◌, Option, none, some, List,
  [], ◌∷◌, ◌++◌, ◌==◌, map, filter, length, ltb, leb, is_blank, text_or, truthy, if◌then◌else◌,
}
use local_singbox_manager.Common.Sorting.{sort_with}
use local_singbox_manager.Store.Models.{HealthCheckLog, Database}
use local_singbox_manager.Store.HealthLogs
use local_singbox_manager.Services.Distribution.{hour}

-- floating-point numbers, and what is computed with them: `round(ok_count / total * 100, 1)`,
-- `round(mean, 1)` and `round(x, 1)`
pub record Floats : Type 1 where
  pub Float : Type 0
  pub percent : ℕ → ℕ → Float
  pub mean : List ℕ → Float
  pub round_1 : ℕ → Float

-- `min(max(hours, 1), 168)`
unfoldable pub bounded_hours : ℕ → ℕ
bounded_hours hours =
    let at_least = if leb 1 hours then hours else 1 in if leb at_least 168 then at_least else 168

abbrev latency_list : Option ℕ → List ℕ
latency_list none = []
latency_list (some ms) = ms ∷ []

-- the latencies of the checks that passed
unfoldable pub latencies : List HealthCheckLog → List ℕ
latencies [] = []
latencies (check ∷ checks) =
    let rest = latencies checks in if check.ok then latency_list check.latency_ms ++ rest else rest

-- the item at a place
abbrev pub item_at : ℕ → List ℕ → Option ℕ
item_at n [] = none
item_at zero (x ∷ xs) = some x
item_at (suc n) (x ∷ xs) = item_at n xs

-- `int(n * 0.95)`
abbrev pub p95_place : ℕ → ℕ
p95_place n = n * 95 / 100

-- the latency of `_p95`, before it is rounded
unfoldable pub p95_item : List ℕ → Option ℕ
p95_item ms = if ltb (length ms) 2 then none else item_at (p95_place (length ms)) (sort_with leb ms)

-- `d.setdefault(key, []).append(row)`
unfoldable pub append_to :
    String
    → HealthCheckLog
    → List (String × List HealthCheckLog)
    → List (String × List HealthCheckLog)
append_to key row [] = (key, row ∷ []) ∷ []
append_to key row ((name, rows) ∷ groups) =
    let rest = append_to key row groups in
    if name == key then (name, rows ++ row ∷ []) ∷ groups else (name, rows) ∷ rest

-- the rows by a key; a row with an empty one is left out
unfoldable pub grouped :
    (HealthCheckLog → String)
    → List HealthCheckLog
    → List (String × List HealthCheckLog)
    → List (String × List HealthCheckLog)
unfolding append_to
grouped key [] groups = groups
grouped key (row ∷ rows) groups =
    grouped key rows (if is_blank (key row) then groups else append_to (key row) row groups)

module _ (floats : Floats) where
  pub record Summary : Type 0 where
    pub hours : ℕ
    pub uptime_pct : Option floats.Float
    pub avg_ms : Option floats.Float
    pub p95_ms : Option floats.Float
    pub sample_count : ℕ

  abbrev rounded : Option ℕ → Option floats.Float
  rounded none = none
  rounded (some ms) = some (floats.round_1 ms)

  abbrev mean_of : List ℕ → Option floats.Float
  mean_of [] = none
  mean_of (ms ∷ rest) = some (floats.mean (ms ∷ rest))

  unfoldable pub summary : List HealthCheckLog → ℕ → Summary
  unfolding latencies p95_item
  summary checks hours =
      let total = length checks in
      let ok_count = length (filter (λ (c : HealthCheckLog). c.ok) checks) in
      record {
        hours = hours;
        uptime_pct = if leb 1 total then some (floats.percent ok_count total) else none;
        avg_ms = mean_of (latencies checks);
        p95_ms = rounded (p95_item (latencies checks));
        sample_count = total;
      }

  -- `cutoff`, and the rows from it on; times are counted from long before
  abbrev pub recent_rows : ℕ → Database → List HealthCheckLog
  recent_rows hours db = HealthLogs.recent_connectivity (db.now - bounded_hours hours * hour) db

  unfoldable pub connectivity_summary : Database → ℕ → Summary
  unfolding summary bounded_hours HealthLogs.recent_connectivity
  connectivity_summary db hours = summary (recent_rows hours db) (bounded_hours hours)

  abbrev node_tag : HealthCheckLog → String
  node_tag row = text_or row.node_tag ""

  unfoldable pub node_health_summary : Database → ℕ → List (String × Summary)
  unfolding summary grouped bounded_hours HealthLogs.recent_connectivity
  node_health_summary db hours =
      map
        (λ (group : String × List HealthCheckLog). (group.0, summary group.1 (bounded_hours hours)))
        (grouped node_tag (recent_rows hours db) [])

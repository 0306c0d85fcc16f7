-- ===== src/Store/HealthLogs.antt =====
-- `HealthLogRepository` of app/repositories.py. `first()` is the first row in insertion order, and equal keys of
-- an `order_by` keep that order.
use local_singbox_manager.Common.{ℕ, ◌&&◌, List, ◌==◌, leb, filter}
use local_singbox_manager.Common.Sorting.{sort_with}
use local_singbox_manager.Store.Models.{HealthCheckLog, Database}

unfoldable pub recent_connectivity : ℕ → Database → List HealthCheckLog
recent_connectivity cutoff db =
    sort_with (λ (a b : HealthCheckLog). leb a.checked_at b.checked_at)
      (filter
        (λ (row : HealthCheckLog). leb cutoff row.checked_at && row.category == "connectivity")
        db.health_logs)

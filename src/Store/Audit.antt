-- ===== src/Store/Audit.antt =====
-- `AuditRepository` of app/repositories.py. `first()` is the first row in insertion order, and equal keys of
-- an `order_by` keep that order.
use local_singbox_manager.Common.{String, Bool, [], ◌∷◌, ◌++◌, map, or_none}
use local_singbox_manager.Common.Python.{Python}
use local_singbox_manager.Store.Models.{current_timestamp, AdminActionLog, Database}

unfoldable pub add_admin_action :
    ⦃py : Python⦄ → String → String → String → Bool → String → Database → Database
add_admin_action ⦃py⦄ actor channel action success detail db = record db {
  admin_logs =
      db.admin_logs
      ++ record {
        id = py.new_id (map (λ (l : AdminActionLog). l.id) db.admin_logs);
        created_at = current_timestamp db.now;
        actor = actor;
        channel = channel;
        action = action;
        success = success;
        detail = or_none detail;
      }
        ∷ [];
}

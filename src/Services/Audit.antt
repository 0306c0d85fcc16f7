-- ===== src/Services/Audit.antt =====
-- app/services/audit.py: one row for an action, with its commit.
use local_singbox_manager.Common.{String, Bool}
use local_singbox_manager.Common.Python.{Python}
use local_singbox_manager.Store.Models.{Database}
use local_singbox_manager.Store.Audit.{add_admin_action}

unfoldable pub log_admin_action :
    ⦃py : Python⦄ → Database → String → String → String → Bool → String → Database
unfolding add_admin_action
log_admin_action db actor channel action success detail =
    add_admin_action actor channel action success detail db

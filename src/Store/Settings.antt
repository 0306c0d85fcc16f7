-- ===== src/Store/Settings.antt =====
-- `SettingsRepository` of app/repositories.py. `first()` is the first row in insertion order, and equal keys of
-- an `order_by` keep that order.
use local_singbox_manager.Common.{String, Option, ◌==◌, find}
use local_singbox_manager.Store.Models.{Setting, Database}

unfoldable pub get : String → Database → Option Setting
get key db = find (λ (s : Setting). s.key == key) db.settings

-- ===== src/Services/Settings.antt =====
-- app/services/settings.py
pub mod Laws
use local_singbox_manager.Common.{
  String, ◌==◌, Option, none, some, List, [], ◌∷◌, ◌++◌, map, member, if◌then◌else◌,
}
use local_singbox_manager.Singbox.Presets.{default_dns_preset, default_route_preset}
use local_singbox_manager.Singbox.Generator.{log_levels}
use local_singbox_manager.Store.Models.{Setting, Database}
use local_singbox_manager.Store.Settings as Rows

abbrev value_or : String → Option Setting → String
value_or default none = default
value_or default (some s) = s.value

unfoldable pub get_setting : String → String → Database → String
unfolding Rows.get
get_setting key default db = value_or default (Rows.get key db)

-- the row of a key, which is the primary key, with a new value
abbrev put_value : String → String → Setting → Setting
put_value key value s = if s.key == key then record s { value = value } else s

abbrev pub put : String → String → Database → Option Setting → Database
put key value db (some s) = record db { settings = map (put_value key value) db.settings }
put key value db none = record db {
  settings = db.settings ++ record { key = key; value = value } ∷ [];
}

unfoldable pub set_setting : String → String → Database → Database
unfolding Rows.get
set_setting key value db = put key value db (Rows.get key db)

unfoldable pub presets : Database → String × String
presets db = (
  get_setting "dns_preset" default_dns_preset db,
  get_setting "route_preset" default_route_preset db,
)

unfoldable pub singbox_log_level : Database → String
singbox_log_level db =
    let level = get_setting "singbox_log_level" "warn" db in
    if member level log_levels then level else "warn"

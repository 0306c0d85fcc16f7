-- ===== src/Services/Settings/Laws.antt =====
-- Reading settings after a write, and the log level.
use local_singbox_manager.Common.{
  String, ◌≡◌, refl, ◌∙◌, ◌&&◌, is_some, true, Option, none, List, [], ◌∷◌, ◌++◌, map, arith, find,
  ◌==◌, eq_iff, member, Option-cases, Bool-cases, inl, inr, if◌then◌else◌,
}
use local_singbox_manager.Singbox.Generator.{log_levels}
use local_singbox_manager.Store.Models.{Setting, Database}
use local_singbox_manager.Services.Settings.{
  value_or, put_value, get_setting, set_setting, singbox_log_level,
}

-- `query.filter(Settings.key == k).first()`
find_key : String → List Setting → Option Setting
find_key k = find (λ (s : Setting). s.key == k)

value-put :
    (k j value default : String) (rows : List Setting)
    → value_or default (find_key j (map (put_value k value) rows))
      ≡ (if k == j && is_some (find_key k rows) then value else value_or default (find_key j rows))
unfolding find_key
value-put k j value default [] = ground arith
value-put k j value default (r ∷ rows) =
    ground (arith, value-put k j value default rows, eq_iff r.key k, eq_iff r.key j, eq_iff k j)

value-append :
    (k j value default : String) (rows : List Setting)
    → find_key k rows ≡ none
    → value_or default (find_key j (rows ++ record { key = k; value = value } ∷ []))
      ≡ (if k == j then value else value_or default (find_key j rows))
unfolding find_key
value-append k j value default [] e = ground arith
value-append k j value default (r ∷ rows) e =
    ground (arith, value-append k j value default rows, eq_iff r.key k, eq_iff r.key j, eq_iff k j)

-- Reading a setting after a write gives the value written for that key, and for any other key what
-- it gave before.
pub get_setting-set_setting :
    (k j value default : String) (db : Database)
    → get_setting j default (set_setting k value db)
      ≡ (if k == j then value else get_setting j default db)
unfolding get_setting set_setting find_key
get_setting-set_setting k j value default db = elim (Option-cases (find_key k db.settings)) [
  | inl e ↦ rw e (value-append k j value default db.settings e)
  | inr (s, e) ↦ rw e (value-put k j value default db.settings ∙ ground (arith, e))
]

-- The log level that the generators get is always one that they accept.
pub singbox_log_level_known : (db : Database) → member (singbox_log_level db) log_levels ≡ true
unfolding singbox_log_level
singbox_log_level_known db =
    let level = get_setting "singbox_log_level" "warn" db in
    elim (Bool-cases (member level log_levels)) [ inl e ↦ rw e e | inr e ↦ rw e refl ]

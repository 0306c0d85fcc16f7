-- ===== src/Services/Servers.antt =====
-- app/services/servers.py: the servers, the notes on them, and their inventory.
pub mod Laws
pub mod Probe
use local_singbox_manager.Common.{
  ℕ, zero, suc, String, Bool, true, false, not, ◌&&◌, ◌||◌, Option, none, some, List, [], ◌∷◌, ◌++◌,
  ◌⧺◌, ◌==◌, map, filter, find, member, take, last, contains, is_blank, strip, take_text,
  if◌then◌else◌,
}
use local_singbox_manager.Common.Json.{
  ℤ, Json, null, bool, num, str, arr, obj, Dict, lookup, object, of_fields, of_items,
}
use local_singbox_manager.Common.Python.{Python}
use local_singbox_manager.Common.Integers.{int_of_found}
use local_singbox_manager.Store.Models.{Database}
use local_singbox_manager.Singbox.Host.{
  Outcome, completed, timeout_expired, file_not_found, os_error,
}
use local_singbox_manager.Services.Settings.{get_setting, set_setting}
use local_singbox_manager.Services.AppBypass.{falsy, text_at}

pub record ServerSpec : Type 0 where
  pub alias : String
  pub label : String
  pub role : String
  pub kind : String
  pub location : String

abbrev pub spec : String → String → String → String → String → ServerSpec
spec alias label role kind location = record {
  alias = alias;
  label = label;
  role = role;
  kind = kind;
  location = location;
}

abbrev pub default_servers : List ServerSpec
default_servers =
    spec "hykz" "Kazakhstan Hysteria2" "exit" "hysteria2" "KZ"
    ∷ spec "aeza" "Aeza 3x-ui relay" "entry_relay" "3x-ui" "RU"
    ∷ spec "swvps" "Switzerland VLESS" "upstream_exit" "vless" "CH"
    ∷ spec "ge_vps" "Germany VLESS" "upstream_exit" "vless" "DE"
    ∷ []

abbrev pub allowed_aliases : List String
allowed_aliases = map (λ (s : ServerSpec). s.alias) default_servers

pub record ServerSnapshot : Type 0 where
  pub spec_of : ServerSpec
  pub notes : String
  pub reachable : Option Bool
  pub error : String
  pub hostname : String
  pub uname : String
  pub load : List String
  pub uptime : String
  pub mem_available_kb : String
  pub mem_total_kb : String
  pub units : List String
  pub listen : List String
  pub hysteria : Option Dict
  pub nstat : List (String × ℤ)
  pub journal_err_24h : Option ℤ

abbrev pub empty_snapshot : ServerSpec → ServerSnapshot
empty_snapshot s = record {
  spec_of = s;
  notes = "";
  reachable = none;
  error = "";
  hostname = "";
  uname = "";
  load = [];
  uptime = "";
  mem_available_kb = "";
  mem_total_kb = "";
  units = [];
  listen = [];
  hysteria = none;
  nstat = [];
  journal_err_24h = none;
}

abbrev note_or_blank : Option String → String
note_or_blank none = ""
note_or_blank (some note) = note

module _ ⦃py : Python⦄ where
  abbrev pub noted : String → Json → List (String × String) → List (String × String)
  noted alias note rest =
      if member alias allowed_aliases then (alias, take_text 500 (py.str_of note)) ∷ rest else rest

  unfoldable pub notes_of : Dict → List (String × String)
  notes_of [] = []
  notes_of ((alias, note) ∷ payload) = noted alias note (notes_of payload)

  abbrev notes_json : Option Json → List (String × String)
  notes_json (some (obj fields)) = notes_of (of_fields fields)
  notes_json _ = []

  unfoldable pub load_notes : Database → List (String × String)
  unfolding notes_of get_setting
  load_notes db = notes_json (py.loads (get_setting "server_notes_json" "{}" db))

  unfoldable pub inventory : Database → List ServerSnapshot
  unfolding load_notes
  inventory db =
      let notes = load_notes db in
      map
        (λ (s : ServerSpec). record (empty_snapshot s) {
          notes = note_or_blank (lookup s.alias notes);
        })
        default_servers

  -- `value.strip()[:500]` of the aliases that there are
  unfoldable pub cleaned_notes : List (String × String) → Dict
  cleaned_notes [] = []
  cleaned_notes ((alias, value) ∷ notes) =
      let rest = cleaned_notes notes in
      if member alias allowed_aliases
      then (alias, str (take_text 500 (strip value))) ∷ rest
      else rest

  unfoldable pub save_notes : Database → List (String × String) → Database
  unfolding cleaned_notes
  save_notes db notes =
      set_setting "server_notes_json" (py.dumps_unescaped (object (cleaned_notes notes))) db

-- ===== src/Services/AppBypass.antt =====
-- app/services/app_bypass.py, and `is_valid_app_id` of app/services/desktop_apps.py: the programs whose
-- traffic goes around the tunnel, as they are read from the settings.
pub mod Laws
pub mod Form
use local_singbox_manager.Common.{
  ℕ, zero, suc, String, Bool, true, false, not, ◌&&◌, ◌||◌, Option, none, some, List, [], ◌∷◌, ◌⧺◌,
  ◌==◌, ltb, is_blank, is_space, is_control, is_code, is_file_char, all_chars, any_char, ends_with,
  starts_with, drop_text, take_text, text_length, text_or, strip, member, map, filter,
  if◌then◌else◌,
}
use local_singbox_manager.Common.Json.{
  Json, null, bool, num, str, arr, obj, nil, cons, end, field, pos, Dict, lookup, of_items,
  of_fields,
}
use local_singbox_manager.Common.Python.{Python, PosixPath}
use local_singbox_manager.Store.Models.{Database}
use local_singbox_manager.Services.Settings.{get_setting}

pub record BypassEntry : Type 0 where
  pub app_id : String
  pub name : String
  pub process_name : String
  pub process_path : Option String
  pub custom : Bool

-- a name of a desktop file after one of the prefixes
abbrev is_desktop_file : String → Bool
is_desktop_file s = all_chars is_file_char s && ends_with s ".desktop" && ltb 8 (text_length s)

unfoldable pub is_valid_app_id : String → Bool
is_valid_app_id s =
    starts_with s "usr:" && is_desktop_file (drop_text 4 s)
    || starts_with s "usr-local:" && is_desktop_file (drop_text 10 s)
    || starts_with s "home:" && is_desktop_file (drop_text 5 s)

unfoldable pub clean_process : String → String
clean_process value =
    let cleaned = strip value in
    if is_blank cleaned || any_char (is_code 47) cleaned || any_char is_control cleaned
    then ""
    else if ltb 120 (text_length cleaned)
    then ""
    else if any_char is_space cleaned
    then ""
    else cleaned

-- a value that counts as false
unfoldable pub falsy : Json → Bool
falsy null = true
falsy (bool b) = not b
falsy (num (pos zero)) = true
falsy (num n) = false
falsy (str s) = is_blank s
falsy (arr nil) = true
falsy (arr (cons x xs)) = false
falsy (obj end) = true
falsy (obj (field k v fs)) = false

module _ ⦃py : Python⦄ where
  -- `str(item.get(key) or default)`
  unfoldable pub text_at : String → String → Dict → String
  text_at key default item = elim (lookup key item) [
    | none ↦ default
    | some v ↦ if falsy v then default else py.str_of v
  ]

  abbrev of_path : String → PosixPath → Option (String × Option String)
  of_path match_text path =
      if ltb 240 (text_length match_text)
        || member ".." path.parts
        || is_blank path.name
        || ends_with match_text "/"
      then none
      else some (path.name, some path.text)

  abbrev of_name : String → Option (String × Option String)
  of_name name = if is_blank name then none else some (name, none)

  -- `_parse_process_match`; `none` is the ValueError
  unfoldable pub parse_process_match : String → Option (String × Option String)
  parse_process_match value =
      let match_text = strip value in
      if is_blank match_text || any_char is_control match_text
      then none
      else if starts_with match_text "/"
      then of_path match_text (py.posix_path match_text)
      else of_name (clean_process match_text)

  -- `bool(item.get("custom"))`
  abbrev is_custom : Dict → Bool
  is_custom item = elim (lookup "custom" item) [ none ↦ false | some v ↦ not (falsy v) ]

  abbrev entry_of : Dict → String → Option String → String → Bool → BypassEntry
  entry_of item process_name process_path app_id custom =
      let name = take_text 80 (strip (text_at "name" process_name item)) in
      record {
        app_id = app_id;
        name = if is_blank name then process_name else name;
        process_name = process_name;
        process_path = process_path;
        custom = custom;
      }

  abbrev matched : Dict → Option (String × Option String) → Option BypassEntry
  matched item none = none
  matched item (some (process_name, process_path)) =
      let app_id = text_at "app_id" "" item in
      if is_custom item
      then some (
          entry_of item process_name process_path ("custom:" ⧺ text_or process_path process_name)
            true)
      else if not (is_valid_app_id app_id)
      then none
      else some (entry_of item process_name process_path app_id false)

  -- `_entry_from_json`
  unfoldable pub entry_from_json : Json → Option BypassEntry
  entry_from_json (obj fields) =
      let item = of_fields fields in
      let raw_path = strip (text_at "process_path" "" item) in
      if not (is_blank raw_path) && not (starts_with raw_path "/")
      then none
      else matched item (
          parse_process_match
            (if is_blank raw_path then text_at "process_name" "" item else raw_path))
  entry_from_json _ = none

  abbrev keep_entry : Option BypassEntry → List BypassEntry → List BypassEntry
  keep_entry none entries = entries
  keep_entry (some entry) entries = entry ∷ entries

  unfoldable pub entries_from_json : List Json → List BypassEntry
  entries_from_json [] = []
  entries_from_json (item ∷ items) = keep_entry (entry_from_json item) (entries_from_json items)

  abbrev entries_of : Option Json → List BypassEntry
  entries_of (some (arr items)) = entries_from_json (of_items items)
  entries_of _ = []

  unfoldable pub load_bypass_entries : Database → List BypassEntry
  unfolding get_setting
  load_bypass_entries db = entries_of (py.loads (get_setting "app_bypass_json" "[]" db))

-- the loop: the names and the paths, each without repetitions
abbrev pub split_entries : List BypassEntry → List String → List String → List String × List String
split_entries [] names paths = ([], [])
split_entries (entry ∷ entries) names paths =
    let path = text_or entry.process_path "" in
    let as_path = split_entries entries names (path ∷ paths) in
    let as_name = split_entries entries (entry.process_name ∷ names) paths in
    let skip = split_entries entries names paths in
    if not (is_blank path)
    then (if not (member path paths) then (as_path.0, path ∷ as_path.1) else skip)
    else if not (is_blank entry.process_name) && not (member entry.process_name names)
    then (entry.process_name ∷ as_name.0, as_name.1)
    else skip

unfoldable pub process_bypass_for_config : ⦃py : Python⦄ → Database → List (String × List String)
process_bypass_for_config db =
    let (names, paths) = split_entries (load_bypass_entries db) [] [] in
    ("process_name", names) ∷ ("process_path", paths) ∷ []

abbrev selected : List BypassEntry → List String
selected entries =
    map (λ (e : BypassEntry). e.app_id) (filter (λ (e : BypassEntry). not e.custom) entries)

unfoldable pub selected_app_ids : List BypassEntry → List String
selected_app_ids entries = selected entries

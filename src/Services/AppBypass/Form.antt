-- ===== src/Services/AppBypass/Form.antt =====
-- Saving the bypass, of app/services/app_bypass.py: from a form to the setting.
pub mod Laws
use local_singbox_manager.Common.{
  ℕ, zero, suc, String, Bool, true, false, not, ◌&&◌, ◌||◌, Option, none, some, List, [], ◌∷◌, ◌++◌,
  ◌⧺◌, ◌==◌, is_blank, member, length, map, ltb, strip, join, filter, text_or, if◌then◌else◌,
}
use local_singbox_manager.Common.Json.{Json, null, bool, str, object, array, Dict, lookup}
use local_singbox_manager.Common.Python.{Python}
use local_singbox_manager.Common.Results.{Result, ok, err, ◌>>=◌}
use local_singbox_manager.Store.Models.{Database}
use local_singbox_manager.Services.Settings.{set_setting}
use local_singbox_manager.Services.AppBypass.{BypassEntry, is_valid_app_id, parse_process_match}

-- what is read of a `DesktopApp`
pub record DesktopApp : Type 0 where
  pub app_id : String
  pub name : String
  pub process_name : String
  pub process_path : Option String

-- the `ValueError`s of a form
pub data FormError : Type 0 where
  app_gone bad_match too_many_custom too_many_entries : FormError

abbrev pub max_entries : ℕ
max_entries = 200

abbrev pub max_custom_lines : ℕ
max_custom_lines = 40

-- the app of a later place, or this one
abbrev pub later_app : String → DesktopApp → Option DesktopApp → Option DesktopApp
later_app app_id app (some found) = some found
later_app app_id app none = if app.app_id == app_id then some app else none

-- `{app.app_id: app for app in apps}.get(app_id)`: the last app with the id
unfoldable pub catalog_app : String → List DesktopApp → Option DesktopApp
catalog_app app_id [] = none
catalog_app app_id (app ∷ apps) = later_app app_id app (catalog_app app_id apps)

abbrev path_or_null : Option String → Json
path_or_null none = null
path_or_null (some path) = str path

unfoldable pub entry_to_json : BypassEntry → Json
entry_to_json entry = object (
    ("app_id", str entry.app_id)
    ∷ ("name", str entry.name)
    ∷ ("process_name", str entry.process_name)
    ∷ ("process_path", path_or_null entry.process_path)
    ∷ ("custom", bool entry.custom)
    ∷ [])

unfoldable pub custom_process_text : List BypassEntry → String
custom_process_text entries = join "\n" (
    map (λ (e : BypassEntry). text_or e.process_path e.process_name)
      (filter (λ (e : BypassEntry). e.custom) entries))

-- `f"custom:{process_path or process_name}"`
abbrev pub custom_id : String → Option String → String
custom_id process_name process_path = "custom:" ⧺ text_or process_path process_name

module _ ⦃py : Python⦄ where
  abbrev pub matching : Option (String × Option String) → Result FormError (String × Option String)
  matching none = err bad_match
  matching (some m) = ok m

  abbrev pub app_entry : DesktopApp → String × Option String → BypassEntry
  app_entry app (process_name, process_path) = record {
    app_id = app.app_id;
    name = app.name;
    process_name = process_name;
    process_path = process_path;
    custom = false;
  }

  abbrev pub available : String → Option DesktopApp → Result FormError DesktopApp
  available app_id none = err app_gone
  available app_id (some app) = if is_valid_app_id app_id then ok app else err app_gone

  abbrev default_match : DesktopApp → String
  default_match app = text_or app.process_path app.process_name

  abbrev pub match_of : String → List (String × String) → DesktopApp → String
  match_of app_id overrides app = elim (lookup app_id overrides) [
    | none ↦ default_match app
    | some match_text ↦ match_text
  ]

  -- the entry of one selected application
  unfoldable pub selected_entry :
      List DesktopApp → List (String × String) → String → Result FormError BypassEntry
  unfolding catalog_app
  selected_entry apps overrides app_id = available app_id (catalog_app app_id apps) >>= λ app.
      matching (parse_process_match (match_of app_id overrides app)) >>= λ m. ok (app_entry app m)

  abbrev pub consed :
      BypassEntry → Result FormError (List BypassEntry) → Result FormError (List BypassEntry)
  consed entry (err e) = err e
  consed entry (ok entries) = ok (entry ∷ entries)

  abbrev pub custom_entry : String × Option String → BypassEntry
  custom_entry (process_name, process_path) = record {
    app_id = custom_id process_name process_path;
    name = process_name;
    process_name = process_name;
    process_path = process_path;
    custom = true;
  }

  -- the loop over the lines of the text, with the ids that were seen and the count so far
  unfoldable pub custom_entries :
      List String → ℕ → List String → Result FormError (List BypassEntry)
  custom_entries seen count [] = ok []
  custom_entries seen count (line ∷ lines) =
      let skip = custom_entries seen count lines in
      let keep = λ (entry : BypassEntry). custom_entries (entry.app_id ∷ seen) (suc count) lines in
      if is_blank (strip line)
      then skip
      else matching (parse_process_match line) >>= λ m.
          if member (custom_entry m).app_id seen
          then skip
          else if ltb max_custom_lines (suc count)
          then err too_many_custom
          else consed (custom_entry m) (keep (custom_entry m))

  -- the loop over the selected ids, and the lines after them
  unfoldable pub form_entries :
      List DesktopApp
      → List (String × String)
      → List String
      → List String
      → List String
      → Result FormError (List BypassEntry)
  unfolding selected_entry custom_entries
  form_entries apps overrides lines seen [] = custom_entries seen 0 lines
  form_entries apps overrides lines seen (app_id ∷ ids) =
      let skip = form_entries apps overrides lines seen ids in
      let keep = form_entries apps overrides lines (app_id ∷ seen) ids in
      if member app_id seen
      then skip
      else selected_entry apps overrides app_id >>= λ entry. consed entry keep

  abbrev pub at_most : List BypassEntry → Result FormError (List BypassEntry)
  at_most entries = if ltb max_entries (length entries) then err too_many_entries else ok entries

  -- with the lines of the custom text
  unfoldable pub build_entries_from_form :
      List String
      → List (String × String)
      → List String
      → List DesktopApp
      → Result FormError (List BypassEntry)
  unfolding form_entries
  build_entries_from_form selected_ids overrides lines apps =
      form_entries apps overrides lines [] selected_ids >>= at_most

  unfoldable pub save_bypass_entries : Database → List BypassEntry → Result FormError Database
  unfolding entry_to_json
  save_bypass_entries db entries = at_most entries >>= λ few.
      ok (set_setting "app_bypass_json" (py.dumps_unescaped (array (map entry_to_json few))) db)

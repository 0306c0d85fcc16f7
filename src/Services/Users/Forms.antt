-- ===== src/Services/Users/Forms.antt =====
-- app/services/users.py: the forms and the checks of their fields.
pub mod Laws
use local_singbox_manager.Common.{
  ℕ, zero, suc, String, Bool, true, false, not, Option, none, some, List, [], ◌∷◌, ◌⧺◌, ◌==◌,
  is_blank, is_empty, strip, text_or, join, member, any, filter, take, if◌then◌else◌,
}
use local_singbox_manager.Common.Json.{ℤ, pos, negsuc}
use local_singbox_manager.Common.Python.{Python}
use local_singbox_manager.Common.Results.{Result, ok, err, guard, ◌>>=◌, ◌>>◌}
use local_singbox_manager.Singbox.ClientGenerator.{reserved_client_outbound_tags}
use local_singbox_manager.Singbox.Presets.{default_route_preset, known_route_preset}
use local_singbox_manager.Store.Models.{Node, Database}
use local_singbox_manager.Store.Rows.{Crash, value_error}
use local_singbox_manager.Services.NodeTags.{RawTags, listed, parse_node_tags}

pub record MutationResult : Type 0 where
  pub accepted : Bool
  pub message : String

pub record ConfigGroupInput : Type 0 where
  pub name : String
  pub description : String
  pub node_tags : Option (List String)
  pub route_preset : String
  pub refresh_limit_per_hour : String
  pub notes : String
  pub enabled : Bool

pub record ManagedUserInput : Type 0 where
  pub telegram_id : String
  pub display_name : String
  pub config_group_id : String
  pub refresh_limit_per_hour : String
  pub notes : String
  pub enabled : Bool

-- how an operation ends early: `return MutationResult(False, message)`, or an exception
pub data Exit : Type 0 where
  refused : String → Exit
  crashed : Crash → Exit

-- what the caller has: the rows after the last commit, or the exception
unfoldable pub finish :
    Database → Result Exit (Database × String) → Result Crash (Database × MutationResult)
finish db (ok (db', message)) = ok (db', record { accepted = true; message = message })
finish db (err (refused message)) = ok (db, record { accepted = false; message = message })
finish db (err (crashed e)) = err e

-- `form.node_tags or []`
abbrev pub tags_or_empty : Option (List String) → List String
tags_or_empty none = []
tags_or_empty (some tags) = tags

-- is there a row with this tag
abbrev pub has_node : Database → String → Bool
has_node db tag = any (λ (n : Node). n.tag == tag) db.nodes

abbrev no_tags : String → List String → Result Exit (Unit {0})
no_tags label [] = ok tt
no_tags label (tag ∷ tags) = err (refused (label ⧺ join ", " (take 5 (tag ∷ tags))))

unfoldable pub validated_node_tags : Database → List String → Result Exit (List String)
validated_node_tags db raw_tags =
    let tags = parse_node_tags (listed raw_tags) in
    no_tags "Unknown node tag(s): " (filter (λ tag. not (has_node db tag)) tags)
    >> (no_tags "Reserved node tag(s): "
          (filter (λ tag. member tag reserved_client_outbound_tags) tags)
        >> ok tags)

unfoldable pub validated_route_preset : String → Option String
validated_route_preset raw =
    let value = strip (text_or (some raw) default_route_preset) in
    if known_route_preset value then some value else none

-- `if route_preset is None: return MutationResult(False, "Invalid route preset")`
abbrev preset_or_exit : Option String → Result Exit String
preset_or_exit none = err (refused "Invalid route preset")
preset_or_exit (some preset) = ok preset

unfoldable pub checked_route_preset : String → Result Exit String
checked_route_preset raw = preset_or_exit (validated_route_preset raw)

-- the number that `int` gives; it is not negative for a text of digits
abbrev above_zero : String → Option ℤ → Result Exit (Option ℕ)
above_zero label none = err (crashed value_error)
above_zero label (some (pos zero)) = err (refused (label ⧺ " must be greater than zero"))
above_zero label (some (pos (suc n))) = ok (some (suc n))
above_zero label (some (negsuc n)) = err (refused (label ⧺ " must be greater than zero"))

abbrev group_id_of : Option ℤ → Result Exit (Option ℕ)
group_id_of none = err (crashed value_error)
group_id_of (some (pos n)) = ok (some n)
group_id_of (some (negsuc n)) = ok none

module _ ⦃py : Python⦄ where
  unfoldable pub parse_optional_positive_int : String → String → Result Exit (Option ℕ)
  parse_optional_positive_int raw label =
      let value = strip raw in
      if is_blank value
      then ok none
      else if not (py.isdigit value)
      then err (refused (label ⧺ " must be a positive integer"))
      else above_zero label (py.int_of value)

  unfoldable pub parse_group_id : String → Result Exit (Option ℕ)
  parse_group_id raw =
      let value = strip raw in if py.isdigit value then group_id_of (py.int_of value) else ok none

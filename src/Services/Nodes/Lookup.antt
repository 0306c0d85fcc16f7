-- ===== src/Services/Nodes/Lookup.antt =====
-- app/geo.py, and `refresh_geo_by_id` of app/services/nodes.py.
use local_singbox_manager.Common.{
  ℕ, String, Bool, true, false, Option, none, some, ◌⧺◌, is_blank, leb, take_text, if◌then◌else◌,
}
use local_singbox_manager.Common.Json.{Json, obj, Dict, lookup, of_fields}
use local_singbox_manager.Common.Python.{Python}
use local_singbox_manager.Common.Results.{Result, ok, err}
use local_singbox_manager.Store.Models.{Node, Database}
use local_singbox_manager.Store.Nodes as Rows
use local_singbox_manager.Store.Rows.{Crash, value_error}
use local_singbox_manager.Services.AppBypass.{falsy, text_at}
use local_singbox_manager.Services.Nodes.{Geo, NodeMutationResult, refresh_node_geo, put_node}

-- what the service answers for a server: a status and a JSON value, or an exception
pub data Fetched : Type 0 where
  fetched : ℕ → Json → Fetched
  raised : Fetched

-- `GeoInfo()`; a blank text is a field that is `None`
abbrev pub no_geo : Geo
no_geo = record { country_code = ""; country_name = ""; provider_suggestion = "" }

-- a value that counts as true
abbrev is_true : Option Json → Bool
is_true none = false
is_true (some j) = if falsy j then false else true

module _ ⦃py : Python⦄ where
  -- the fields are texts or missing: the service documents no others
  abbrev geo_fields : Dict → Geo
  geo_fields found = record {
    country_code = take_text 8 (text_at "country_code" "" found);
    country_name = text_at "country_name" "" found;
    provider_suggestion = text_at "org" (text_at "asn" "" found) found;
  }

  abbrev geo_of : Fetched → Geo
  geo_of raised = no_geo
  geo_of (fetched status (obj fields)) =
      if leb 400 status
      then no_geo
      else if is_true (lookup "error" (of_fields fields))
      then no_geo
      else geo_fields (of_fields fields)
  geo_of (fetched status _) = no_geo

  unfoldable pub lookup_node_geo : (String → Fetched) → String → Geo
  lookup_node_geo fetch server =
      if is_blank server then no_geo else geo_of (fetch ("https://ipapi.co/" ⧺ server ⧺ "/json/"))

  module _ (fetch : String → Fetched) where
    -- the row with what is found for the server of its node; `none` if the row holds no dictionary
    abbrev pub refreshed : Node → Option Json → Option Node
    refreshed node (some (obj fields)) =
        some
          (refresh_node_geo (lookup_node_geo fetch (text_at "server" "" (of_fields fields))) node)
    refreshed node _ = none

    abbrev pub saved : Database → Node → Option Node → Result Crash (Database × NodeMutationResult)
    saved db node none = err value_error
    saved db node (some node') = ok (
      put_node node.id node' db,
      record { accepted = true; message = "Refreshed geo for '" ⧺ node.tag ⧺ "'" },
    )

    abbrev pub refresh_found : Database → Option Node → Result Crash (Database × NodeMutationResult)
    refresh_found db none = ok (db, record { accepted = false; message = "Node not found" })
    refresh_found db (some node) = saved db node (refreshed node (py.loads node.parsed_json))

    unfoldable pub refresh_geo_by_id : Database → ℕ → Result Crash (Database × NodeMutationResult)
    unfolding lookup_node_geo
    refresh_geo_by_id db node_id = refresh_found db (Rows.get_by_id node_id db)

-- ===== src/Services/Nodes/Export.antt =====
-- The export of nodes, of app/services/nodes.py.
use local_singbox_manager.Common.{String, Option, none, some, List, [], ◌∷◌}
use local_singbox_manager.Common.Json.{Json, null, str, nat, object, array}
use local_singbox_manager.Common.Python.{Python}
use local_singbox_manager.Common.Results.{Result, ok, err, traverse}
use local_singbox_manager.Store.Models.{Node, Database}
use local_singbox_manager.Store.Nodes as Rows
use local_singbox_manager.Store.Rows.{Crash, value_error}

abbrev json_or_null : Option String → Json
json_or_null none = null
json_or_null (some s) = str s

module _ ⦃py : Python⦄ where
  abbrev parsed_of : Result Crash Json → Node → Result Crash Json
  parsed_of (err e) node = err e
  parsed_of (ok parsed) node = ok (
      object (
        ("tag", str node.tag)
        ∷ ("protocol", str node.protocol)
        ∷ ("raw_url", str node.raw_url)
        ∷ ("parsed", parsed)
        ∷ ("schema_version", nat node.schema_version)
        ∷ ("country_code", json_or_null node.country_code)
        ∷ ("country_name", json_or_null node.country_name)
        ∷ ("provider_name", json_or_null node.provider_name)
        ∷ ("provider_suggestion", json_or_null node.provider_suggestion)
        ∷ ("notes", json_or_null node.notes)
        ∷ ("topology_role", json_or_null node.topology_role)
        ∷ []))

  abbrev loaded_json : Option Json → Result Crash Json
  loaded_json none = err value_error
  loaded_json (some j) = ok j

  unfoldable pub serialize_node : Node → Result Crash Json
  serialize_node node = parsed_of (loaded_json (py.loads node.parsed_json)) node

  abbrev dumped : Result Crash (List Json) → Result Crash String
  dumped (err e) = err e
  dumped (ok items) = ok (py.dumps_indented (array items))

  unfoldable pub export_nodes_payload : Database → Result Crash String
  unfolding serialize_node Rows.list_all
  export_nodes_payload db = dumped (traverse serialize_node (Rows.list_all db))

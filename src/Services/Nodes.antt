-- ===== src/Services/Nodes.antt =====
-- app/services/nodes.py: the rows of nodes and the nodes that they hold.
pub mod Laws
pub mod Keys
pub mod Lookup
pub mod Transfer
pub mod Export
pub mod Steps
use local_singbox_manager.Common.{
  ℕ, String, Bool, true, false, not, ◌||◌, Option, none, some, List, [], ◌∷◌, ◌++◌, ◌⧺◌, ◌==◌, ◌=ℕ◌,
  map, filter, is_blank, member, or_none, strip, take_text, text_or, if◌then◌else◌,
}
use local_singbox_manager.Common.Json.{
  Json, null, bool, num, str, arr, obj, Dict, lookup, insert, object, of_fields,
}
use local_singbox_manager.Common.Python.{Python}
use local_singbox_manager.Common.Results.{Result, ok, err, ◌>>=◌}
use local_singbox_manager.Parsers.Node.{
  NodeBase, VlessNode, Hysteria2Node, ParsedNode, vless, hysteria2, base_of,
}
use local_singbox_manager.Parsers.Errors.{ParseError}
use local_singbox_manager.Parsers.Registry.{parse_url}
use local_singbox_manager.Store.Models.{current_timestamp, Node, Database}
use local_singbox_manager.Store.Nodes as Rows
use local_singbox_manager.Services.AppBypass.{text_at}

-- pydantic: `model_dump` of a node, and `model_validate` of the two classes, with the text of its error
pub record Pydantic : Type 0 where
  pub dump : ParsedNode → Dict
  pub validate_vless : Dict → Result String VlessNode
  pub validate_hysteria2 : Dict → Result String Hysteria2Node

-- what `lookup_node_geo` finds for a server
pub record Geo : Type 0 where
  pub country_code : String
  pub country_name : String
  pub provider_suggestion : String

pub data LoadError : Type 0 where
  not_json not_a_dict : LoadError
  unknown_protocol : LoadError
  invalid : String → LoadError

pub record NodeMutationResult : Type 0 where
  pub accepted : Bool
  pub message : String

pub record NodeMetadataInput : Type 0 where
  pub country_code : String
  pub country_name : String
  pub provider_name : String
  pub notes : String
  pub topology_role : String

abbrev pub topology_roles : List String
topology_roles = "entry_relay" ∷ "upstream_exit" ∷ []

module _ ⦃py : Python⦄ (pydantic : Pydantic) where
  -- `str(node.raw_url or stored.get("raw_url") or "")`
  abbrev pub stored_url : Node → Dict → String
  stored_url node stored =
      if is_blank node.raw_url then text_at "raw_url" "" stored else node.raw_url

  -- the parse of the stored URL; an error of it is only logged
  abbrev pub reparsed : Result ParseError ParsedNode → Option ParsedNode
  reparsed (ok parsed) = some parsed
  reparsed (err e) = none

  abbrev pub vless_or : Dict → Option ParsedNode → Dict
  vless_or stored (some (vless n)) = pydantic.dump (vless n)
  vless_or stored _ = stored

  unfoldable pub normalize_vless_payload : Node → Dict → Dict
  normalize_vless_payload node stored =
      let raw_url = stored_url node stored in
      if is_blank raw_url then stored else vless_or stored (reparsed (parse_url raw_url))

  abbrev unquote_value : String → Dict → Option Json → Dict
  unquote_value key stored (some (str s)) = insert key (str (py.unquote s)) stored
  unquote_value key stored _ = stored

  abbrev unquote_at : String → Dict → Dict
  unquote_at key stored = unquote_value key stored (lookup key stored)

  abbrev pub hysteria2_or : Dict → Option ParsedNode → Dict
  hysteria2_or stored (some (hysteria2 n)) = pydantic.dump (hysteria2 n)
  hysteria2_or stored _ = unquote_at "obfs_password" (unquote_at "auth" stored)

  unfoldable pub normalize_hysteria2_payload : Node → Dict → Dict
  normalize_hysteria2_payload node stored =
      let raw_url = stored_url node stored in
      hysteria2_or stored (if is_blank raw_url then none else reparsed (parse_url raw_url))

  abbrev pub loaded {ℓ} :
      {A : Type ℓ} → (A → ParsedNode) → Result String A → Result LoadError ParsedNode
  loaded f (ok n) = ok (f n)
  loaded f (err text) = err (invalid text)

  abbrev pub by_protocol : Node → Dict → Option Json → Result LoadError ParsedNode
  by_protocol node stored (some (str proto)) =
      if proto == "vless"
      then loaded vless (pydantic.validate_vless (normalize_vless_payload node stored))
      else if proto == "hysteria2" || proto == "hy2"
      then loaded hysteria2 (pydantic.validate_hysteria2 (normalize_hysteria2_payload node stored))
      else err unknown_protocol
  by_protocol node stored _ = err unknown_protocol

  abbrev pub of_json : Node → Option Json → Result LoadError ParsedNode
  of_json node none = err not_json
  of_json node (some (obj fields)) =
      by_protocol node (of_fields fields) (lookup "protocol" (of_fields fields))
  of_json node (some _) = err not_a_dict

  unfoldable pub deserialize_node : Node → Result LoadError ParsedNode
  unfolding normalize_vless_payload normalize_hysteria2_payload
  deserialize_node node = of_json node (py.loads node.parsed_json)

-- `if info.x: node.x = info.x`
abbrev found_or : String → Option String → Option String
found_or found old = if is_blank found then old else some found

-- `refresh_node_geo`, with the answer for the server of the node
unfoldable pub refresh_node_geo : Geo → Node → Node
refresh_node_geo info node = record node {
  country_code = found_or info.country_code node.country_code;
  country_name = found_or info.country_name node.country_name;
  provider_suggestion = found_or info.provider_suggestion node.provider_suggestion;
}

-- the rows with this id are the loaded one
abbrev pub put_node : ℕ → Node → Database → Database
put_node node_id node db = record db {
  nodes = map (λ (n : Node). if n.id =ℕ node_id then node else n) db.nodes;
}

module _ ⦃py : Python⦄ (pydantic : Pydantic) (geo : String → Geo) where
  -- the fields of a parsed node that a row holds
  abbrev pub filled : ParsedNode → Node → Node
  filled parsed node = record node {
    raw_url = (base_of parsed).raw_url;
    protocol = (base_of parsed).protocol;
    parsed_json = py.dumps (object (pydantic.dump parsed));
    schema_version = (base_of parsed).schema_version;
  }

  abbrev pub new_node : Database → ParsedNode → Node
  new_node db parsed = record {
    id = py.new_id (map (λ (n : Node). n.id) db.nodes);
    tag = (base_of parsed).tag;
    protocol = (base_of parsed).protocol;
    raw_url = (base_of parsed).raw_url;
    parsed_json = py.dumps (object (pydantic.dump parsed));
    schema_version = (base_of parsed).schema_version;
    active = false;
    country_code = none;
    country_name = none;
    provider_name = none;
    provider_suggestion = none;
    notes = none;
    topology_role = none;
    created_at = current_timestamp db.now;
  }

  abbrev pub save_parsed : Database → ParsedNode → Option Node → Database × NodeMutationResult
  save_parsed db parsed (some existing) = (
    put_node existing.id (refresh_node_geo (geo (base_of parsed).server) (filled parsed existing))
        db,
    record { accepted = true; message = "Updated '" ⧺ (base_of parsed).tag ⧺ "'" },
  )
  save_parsed db parsed none = (
    record db {
      nodes = db.nodes ++ refresh_node_geo (geo (base_of parsed).server) (new_node db parsed) ∷ [];
    },
    record { accepted = true; message = "Added '" ⧺ (base_of parsed).tag ⧺ "'" },
  )

  -- `str(exc)` of a parse error
  module _ (text_of : ParseError → String) where
    abbrev pub save : Database → Result ParseError ParsedNode → Database × NodeMutationResult
    save db (err e) = (db, record { accepted = false; message = "Parse error: " ⧺ text_of e })
    save db (ok parsed) = save_parsed db parsed (Rows.get_by_tag (base_of parsed).tag db)

    unfoldable pub add_or_update_node : Database → String → Database × NodeMutationResult
    unfolding refresh_node_geo
    add_or_update_node db url = save db (parse_url url)

abbrev pub delete_found : Database → ℕ → Option Node → Database × NodeMutationResult
delete_found db node_id none = (db, record { accepted = false; message = "Node not found" })
delete_found db node_id (some node) = (
  record db { nodes = filter (λ (n : Node). not (n.id =ℕ node_id)) db.nodes },
  record {
    accepted = true;
    message =
        "Deleted '"
        ⧺ node.tag
        ⧺ "'"
        ⧺ (if node.active then " (was active — sing-box still runs previous config)" else "");
  },
)

unfoldable pub delete_node : Database → ℕ → Database × NodeMutationResult
delete_node db node_id = delete_found db node_id (Rows.get_by_id node_id db)

-- `normalize_topology_role` of a text; `none` is the ValueError
unfoldable pub normalize_topology_role : String → Option (Option String)
normalize_topology_role value =
    let parsed = strip value in
    if is_blank parsed
    then some none
    else if member parsed topology_roles
    then some (some parsed)
    else none

module _ ⦃py : Python⦄ where
  abbrev pub with_metadata : Node → NodeMetadataInput → Option String → Node
  with_metadata node form role = record node {
    country_code = or_none (take_text 8 (py.upper (strip form.country_code)));
    country_name = or_none (strip form.country_name);
    provider_name = or_none (strip form.provider_name);
    notes = or_none (strip form.notes);
    topology_role = role;
  }

  abbrev pub update_role :
      Database
      → ℕ
      → NodeMetadataInput
      → Node
      → Option (Option String)
      → Database × NodeMutationResult
  update_role db node_id form node none =
      (db, record { accepted = false; message = "Invalid topology role" })
  update_role db node_id form node (some role) = (
    put_node node_id (with_metadata node form role) db,
    record { accepted = true; message = "Updated metadata for '" ⧺ node.tag ⧺ "'" },
  )

  abbrev pub update_found :
      Database → ℕ → NodeMetadataInput → Option Node → Database × NodeMutationResult
  update_found db node_id form none = (db, record { accepted = false; message = "Node not found" })
  update_found db node_id form (some node) =
      update_role db node_id form node (normalize_topology_role form.topology_role)

  unfoldable pub update_node_metadata :
      Database → ℕ → NodeMetadataInput → Database × NodeMutationResult
  update_node_metadata db node_id form = update_found db node_id form (Rows.get_by_id node_id db)

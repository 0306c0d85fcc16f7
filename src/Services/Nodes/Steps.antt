-- ===== src/Services/Nodes/Steps.antt =====
-- The keys of the rows of nodes after any operation on nodes.
use local_singbox_manager.Common.{ℕ, String, ◌≡◌, refl, subst, Option, none, some, find, ◌=ℕ◌}
use local_singbox_manager.Common.Json.{Json, null, bool, num, str, arr, obj, of_fields}
use local_singbox_manager.Common.Python.{Python}
use local_singbox_manager.Common.Results.{ok, ok-injective}
use local_singbox_manager.Common.Keyed.{IsFresh}
use local_singbox_manager.Parsers.Errors.{ParseError}
use local_singbox_manager.Parsers.Registry.{parse_url}
use local_singbox_manager.Store.Models.{Node, Database}
use local_singbox_manager.Store.Nodes as Rows
use local_singbox_manager.Services.Nodes.{
  Pydantic, Geo, NodeMutationResult, NodeMetadataInput, add_or_update_node, delete_node,
  update_node_metadata,
}
use local_singbox_manager.Services.Nodes.Keys.{
  HaveKeys, put_node-HaveKeys, geo_id, geo_tag, add-HaveKeys, metadata-HaveKeys,
  delete_found-HaveKeys,
}
use local_singbox_manager.Services.Nodes.Lookup.{
  Fetched, lookup_node_geo, refreshed, saved, refresh_found, refresh_geo_by_id,
}
use local_singbox_manager.Services.AppBypass.{text_at}
use local_singbox_manager.Services.Nodes.Transfer.{import_nodes_payload}
use local_singbox_manager.Services.Nodes.Transfer.Laws.{loaded-HaveKeys}

module _ ⦃py : Python⦄ (fetch : String → Fetched) where
  saved-HaveKeys :
      (db : Database) (node_id : ℕ) (node : Node) (m : Option Json) {db' : Database}
      {r : NodeMutationResult}
      → find (λ (n : Node). n.id =ℕ node_id) db.nodes ≡ some node
      → saved fetch db node (refreshed fetch node m) ≡ ok (db', r)
      → HaveKeys db.nodes
      → HaveKeys db'.nodes
  saved-HaveKeys db node_id node none f e v = cc
  saved-HaveKeys db node_id node (some (obj fields)) f e v =
      let info = lookup_node_geo fetch (text_at "server" "" (of_fields fields)) in
      subst (λ (x : Database × NodeMutationResult). HaveKeys x.0.nodes) (ok-injective e)
        (put_node-HaveKeys node.id _ db (λ (n : Node). n.id =ℕ node_id) v f (geo_id info node)
          (geo_tag info node) refl)
  saved-HaveKeys db node_id node (some null) f e v = cc
  saved-HaveKeys db node_id node (some (bool b)) f e v = cc
  saved-HaveKeys db node_id node (some (num n)) f e v = cc
  saved-HaveKeys db node_id node (some (str t)) f e v = cc
  saved-HaveKeys db node_id node (some (arr items)) f e v = cc

  refresh_found-HaveKeys :
      (db : Database) (node_id : ℕ) (o : Option Node) {db' : Database} {r : NodeMutationResult}
      → Rows.get_by_id node_id db ≡ o
      → refresh_found fetch db o ≡ ok (db', r)
      → HaveKeys db.nodes
      → HaveKeys db'.nodes
  unfolding Rows.get_by_id
  refresh_found-HaveKeys db node_id none f e v =
      subst (λ (x : Database × NodeMutationResult). HaveKeys x.0.nodes) (ok-injective e) v
  refresh_found-HaveKeys db node_id (some node) f e v =
      saved-HaveKeys db node_id node (py.loads node.parsed_json) f e v

-- one call of an operation on nodes, that returns
pub data NodeStep ⦃py : Python⦄ (pydantic : Pydantic) (geo : String → Geo)
    (text_of : ParseError → String) (load_text : String → String)
    : Database → Database → Type 0 where
  added :
      (db : Database) (url : String)
      → NodeStep pydantic geo text_of load_text db
          (add_or_update_node pydantic geo text_of db url).0
  deleted :
      (db : Database) (node_id : ℕ)
      → NodeStep pydantic geo text_of load_text db (delete_node db node_id).0
  edited :
      (db : Database) (node_id : ℕ) (form : NodeMetadataInput)
      → NodeStep pydantic geo text_of load_text db (update_node_metadata db node_id form).0
  refreshed_geo :
      (db : Database) (fetch : String → Fetched) (node_id : ℕ) (db' : Database)
      (r : NodeMutationResult)
      → refresh_geo_by_id fetch db node_id ≡ ok (db', r)
      → NodeStep pydantic geo text_of load_text db db'
  imported :
      (db : Database) (raw_json : String) (db' : Database) (r : NodeMutationResult)
      → import_nodes_payload pydantic geo text_of load_text db raw_json ≡ ok (db', r)
      → NodeStep pydantic geo text_of load_text db db'

-- Adding a node from a URL, deleting and editing one, looking its place up again, and importing a payload, keep the ids and the tags of nodes
-- different, whatever the input says, provided that the database gives a new row an id not in
-- use.
pub NodeStep-HaveKeys :
    ⦃py : Python⦄ (pydantic : Pydantic) (geo : String → Geo) (text_of : ParseError → String)
    (load_text : String → String) {db db' : Database}
    → IsFresh py
    → NodeStep pydantic geo text_of load_text db db'
    → HaveKeys db.nodes
    → HaveKeys db'.nodes
unfolding add_or_update_node delete_node update_node_metadata import_nodes_payload refresh_geo_by_id
NodeStep-HaveKeys pydantic geo text_of load_text fresh (added db url) v =
    add-HaveKeys pydantic geo text_of db (parse_url url) fresh v
NodeStep-HaveKeys pydantic geo text_of load_text fresh (deleted db node_id) v =
    delete_found-HaveKeys db node_id (Rows.get_by_id node_id db) v
NodeStep-HaveKeys pydantic geo text_of load_text fresh (edited db node_id form) v =
    metadata-HaveKeys db node_id form (Rows.get_by_id node_id db) refl v
NodeStep-HaveKeys pydantic geo text_of load_text fresh (refreshed_geo db fetch node_id db' r e) v =
    refresh_found-HaveKeys fetch db node_id (Rows.get_by_id node_id db) refl e v
NodeStep-HaveKeys ⦃py⦄ pydantic geo text_of load_text fresh (imported db raw_json db' r e) v =
    loaded-HaveKeys pydantic geo text_of load_text db raw_json (py.loads raw_json) fresh v e

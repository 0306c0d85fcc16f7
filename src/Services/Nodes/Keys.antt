-- ===== src/Services/Nodes/Keys.antt =====
-- The keys of the rows of nodes after an operation on them.
use local_singbox_manager.Common.{
  ℕ, String, ◌≡◌, refl, sym, subst, ◌∙◌, Bool, Option, none, some, List, map, All, =ℕ_iff, ◌=ℕ◌,
  ◌==◌, find, if◌then◌else◌, ◌≢◌,
}
use local_singbox_manager.Common.Python.{Python}
use local_singbox_manager.Common.Results.{Result, ok, err}
use local_singbox_manager.Common.Pairwise.{Pairwise, Pairwise-filter}
use local_singbox_manager.Common.Keyed.{Differ, Pairwise-Differ-add, find-holds, IsFresh}
use local_singbox_manager.Common.Unique.{Pairwise-Differ-replace}
use local_singbox_manager.Parsers.Node.{ParsedNode, base_of}
use local_singbox_manager.Parsers.Errors.{ParseError}
use local_singbox_manager.Store.Models.{Node, Database}
use local_singbox_manager.Store.Nodes as Rows
use local_singbox_manager.Services.Nodes.{
  Pydantic, Geo, NodeMetadataInput, put_node, refresh_node_geo, filled, new_node, save_parsed,
  normalize_topology_role, save, delete_found, update_role, update_found, with_metadata,
}

abbrev id_of : Node → ℕ
id_of n = n.id

abbrev tag_of : Node → String
tag_of n = n.tag

-- no two rows share an id or a tag
abbrev pub HaveKeys : List Node → Type 0
HaveKeys nodes = Pairwise (Differ id_of tag_of) nodes

-- a row that is found, changed but for its keys, and put back
pub put_node-HaveKeys :
    (node_id : ℕ) (new : Node) (db : Database) (p : Node → Bool) {x : Node}
    → HaveKeys db.nodes
    → find p db.nodes ≡ some x
    → new.id ≡ x.id
    → new.tag ≡ x.tag
    → x.id ≡ node_id
    → HaveKeys (put_node node_id new db).nodes
put_node-HaveKeys node_id new db p v e i n same =
    subst (λ (k : ℕ). HaveKeys (map (λ (g : Node). if g.id =ℕ k then new else g) db.nodes))
      (i ∙ same) (Pairwise-Differ-replace id_of tag_of new p db.nodes v e i n).0

pub geo_tag : (info : Geo) (node : Node) → (refresh_node_geo info node).tag ≡ node.tag
unfolding refresh_node_geo
geo_tag info node = refl

pub geo_id : (info : Geo) (node : Node) → (refresh_node_geo info node).id ≡ node.id
unfolding refresh_node_geo
geo_id info node = refl

pub delete_found-HaveKeys :
    (db : Database) (node_id : ℕ) (o : Option Node)
    → HaveKeys db.nodes
    → HaveKeys (delete_found db node_id o).0.nodes
delete_found-HaveKeys db node_id none v = v
delete_found-HaveKeys db node_id (some n) v = Pairwise-filter (Differ id_of tag_of) _ db.nodes v

module _ ⦃py : Python⦄ where
  pub metadata-HaveKeys :
      (db : Database) (node_id : ℕ) (form : NodeMetadataInput) (o : Option Node)
      → Rows.get_by_id node_id db ≡ o
      → HaveKeys db.nodes
      → HaveKeys (update_found db node_id form o).0.nodes
  unfolding Rows.get_by_id
  metadata-HaveKeys db node_id form none f v = v
  metadata-HaveKeys db node_id form (some node) f v =
      by_role (normalize_topology_role form.topology_role)
    where
      by_role :
          (role : Option (Option String)) → HaveKeys (update_role db node_id form node role).0.nodes
      by_role none = v
      by_role (some role) =
          put_node-HaveKeys node_id (with_metadata node form role) db
            (λ (n : Node). n.id =ℕ node_id) v f refl refl
            ((=ℕ_iff _ _).0 (find-holds (λ (n : Node). n.id =ℕ node_id) db.nodes f))

  module _ (pydantic : Pydantic) (geo : String → Geo) where
    saved-HaveKeys :
        (db : Database) (parsed : ParsedNode) (o : Option Node)
        → IsFresh py
        → Rows.get_by_tag (base_of parsed).tag db ≡ o
        → HaveKeys db.nodes
        → HaveKeys (save_parsed pydantic geo db parsed o).0.nodes
    unfolding Rows.get_by_tag
    saved-HaveKeys db parsed none fresh f v =
        let new =
          refresh_node_geo (geo (base_of parsed).server) (new_node pydantic geo db parsed) in
        Pairwise-Differ-add id_of tag_of db.nodes new v
          (subst (λ (k : ℕ). All (λ i. i ≢ k) (map id_of db.nodes)) (sym (geo_id _ _)) (fresh _))
          (subst (λ (t : String). find (λ (n : Node). n.tag == t) db.nodes ≡ none)
            (sym (geo_tag _ _)) f)
    saved-HaveKeys db parsed (some existing) fresh f v =
        put_node-HaveKeys existing.id
          (refresh_node_geo (geo (base_of parsed).server) (filled pydantic geo parsed existing)) db
          (λ (n : Node). n.tag == (base_of parsed).tag) v f (geo_id _ _) (geo_tag _ _) refl

    pub add-HaveKeys :
        (text_of : ParseError → String) (db : Database) (m : Result ParseError ParsedNode)
        → IsFresh py
        → HaveKeys db.nodes
        → HaveKeys (save pydantic geo text_of db m).0.nodes
    add-HaveKeys text_of db (err e) fresh v = v
    add-HaveKeys text_of db (ok parsed) fresh v = saved-HaveKeys db parsed _ fresh refl v

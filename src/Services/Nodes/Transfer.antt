-- ===== src/Services/Nodes/Transfer.antt =====
-- The import of nodes, of app/services/nodes.py.
pub mod Laws
use local_singbox_manager.Common.{
  ℕ, suc, String, Bool, true, false, not, ◌&&◌, ◌||◌, Option, none, some, List, [], ◌∷◌, ◌++◌, find,
  ◌==◌, ◌⧺◌, ◌=ℕ◌, map, member, join, take, is_blank, is_some, is_empty, leb, or_none, strip,
  take_text, truthy, if◌then◌else◌,
}
use local_singbox_manager.Common.Json.{
  Json, null, str, nat, arr, obj, Dict, lookup, has_key, object, array, of_fields, of_items,
}
use local_singbox_manager.Common.Python.{Python}
use local_singbox_manager.Common.Results.{Result, ok, err, ◌>>=◌, traverse}
use local_singbox_manager.Parsers.Node.{ParsedNode, base_of}
use local_singbox_manager.Parsers.Errors.{ParseError}
use local_singbox_manager.Parsers.Registry.{parse_url}
use local_singbox_manager.Store.Models.{Node, Database}
use local_singbox_manager.Store.Nodes as Rows
use local_singbox_manager.Store.Rows.{Crash, value_error}
use local_singbox_manager.Services.AppBypass.{text_at}
use local_singbox_manager.Services.Nodes.{
  Pydantic, Geo, NodeMutationResult, topology_roles, refresh_node_geo, put_node, filled, new_node,
}

-- a row that breaks the uniqueness of the tags ends the commit
pub data CommitCrash : Type 0 where
  integrity_error : CommitCrash

-- no text is there twice
abbrev pub all_different : List String → Bool
all_different [] = true
all_different (tag ∷ tags) = not (member tag tags) && all_different tags

-- the session in the loop: the stored rows with their changes, the rows to add, the count and the errors
pub record Import : Type 0 where
  pub rows : List Node
  pub added : List Node
  pub imported : ℕ
  pub errors : List String

abbrev pub put_row : Node → List Node → List Node
put_row node rows = map (λ (n : Node). if n.id =ℕ node.id then node else n) rows

module _ ⦃py : Python⦄ where
  unfoldable pub str_or_none : Option Json → Option String
  str_or_none none = none
  str_or_none (some null) = none
  str_or_none (some value) = or_none (strip (py.str_of value))

  abbrev or_existing : Option String → Option String → Option String
  or_existing none existing = existing
  or_existing (some s) existing = some s

  unfoldable pub str_or_existing : Option Json → Option String → Option String
  unfolding str_or_none
  str_or_existing value existing = or_existing (str_or_none value) existing

  abbrev role_of : Option String → Option (Option String)
  role_of none = some none
  role_of (some role) = if member role topology_roles then some (some role) else none

  -- `normalize_topology_role` of a value of the payload; `none` is the ValueError
  unfoldable pub normalize_role : Option Json → Option (Option String)
  unfolding str_or_none
  normalize_role value = role_of (str_or_none value)

  module _ (pydantic : Pydantic) (geo : String → Geo) where
    -- `_apply_import_update` up to the role, which is set last
    unfoldable pub import_update : ParsedNode → Dict → Node → Node
    unfolding str_or_existing
    import_update parsed item node = record (filled pydantic geo parsed node) {
      country_code = str_or_existing (lookup "country_code" item) node.country_code;
      country_name = str_or_existing (lookup "country_name" item) node.country_name;
      provider_name = str_or_existing (lookup "provider_name" item) node.provider_name;
      provider_suggestion =
          str_or_existing (lookup "provider_suggestion" item) node.provider_suggestion;
      notes = str_or_existing (lookup "notes" item) node.notes;
    }

    unfoldable pub node_from_import : Database → ParsedNode → Dict → Option String → Node
    unfolding str_or_none
    node_from_import db parsed item role = record (new_node pydantic geo db parsed) {
      country_code = str_or_none (lookup "country_code" item);
      country_name = str_or_none (lookup "country_name" item);
      provider_name = str_or_none (lookup "provider_name" item);
      provider_suggestion = str_or_none (lookup "provider_suggestion" item);
      notes = str_or_none (lookup "notes" item);
      topology_role = role;
    }

    -- `if not node.country_code and not node.country_name: await refresh_node_geo(node)`
    abbrev pub located : ParsedNode → Node → Node
    located parsed node =
        if truthy node.country_code || truthy node.country_name
        then node
        else refresh_node_geo (geo (base_of parsed).server) node

    abbrev pub failed : Import → String → String → Import
    failed st raw_url text = record st {
      errors = st.errors ++ (take_text 40 raw_url ⧺ ": " ⧺ text) ∷ [];
    }

    abbrev bad_role : String
    bad_role = "Invalid topology role"

    -- A stored row is changed before its role is read: an invalid role leaves the other changes.
    abbrev pub update_role : Import → String → Node → Option (Option String) → Import
    update_role st raw_url node none =
        failed (record st { rows = put_row node st.rows }) raw_url bad_role
    update_role st raw_url node (some role) = record st {
      rows = put_row (record node { topology_role = role }) st.rows;
      imported = suc st.imported;
    }

    abbrev pub update_existing : Import → String → ParsedNode → Dict → Node → Import
    update_existing st raw_url parsed item existing =
        let node = import_update parsed item existing in
        update_role st raw_url node (
          if has_key "topology_role" item
          then normalize_role (lookup "topology_role" item)
          else some node.topology_role)

    abbrev pub add_imported :
        Database → Import → String → ParsedNode → Dict → Option (Option String) → Import
    add_imported db st raw_url parsed item none = failed st raw_url bad_role
    add_imported db st raw_url parsed item (some role) = record st {
      added = st.added ++ located parsed (node_from_import db parsed item role) ∷ [];
      imported = suc st.imported;
    }

    -- The session does not flush before a query, so that only stored rows are found.
    abbrev pub import_parsed : Database → Import → String → ParsedNode → Dict → Option Node → Import
    import_parsed db st raw_url parsed item none =
        add_imported db st raw_url parsed item (normalize_role (lookup "topology_role" item))
    import_parsed db st raw_url parsed item (some existing) =
        update_existing st raw_url parsed item existing

    module _ (text_of : ParseError → String) where
      abbrev pub import_url :
          Database → Import → String → Dict → Result ParseError ParsedNode → Import
      import_url db st raw_url item (err e) = failed st raw_url (text_of e)
      import_url db st raw_url item (ok parsed) =
          import_parsed db st raw_url parsed item
            (find (λ (n : Node). n.tag == (base_of parsed).tag) st.rows)

      abbrev pub import_dict : Database → Import → Dict → Import
      import_dict db st item =
          let raw_url = text_at "raw_url" "" item in
          if is_blank raw_url then st else import_url db st raw_url item (parse_url raw_url)

      unfoldable pub import_item : Database → Import → Json → Import
      unfolding import_update node_from_import normalize_role
      import_item db st (obj fields) = import_dict db st (of_fields fields)
      import_item db st _ = record st { errors = st.errors ++ "non-object item" ∷ [] }

      unfoldable pub import_items : Database → Import → List Json → Import
      unfolding import_item
      import_items db st [] = st
      import_items db st (item ∷ items) = import_items db (import_item db st item) items

      -- the keys of the new rows
      abbrev pub add_row : List Node → Node → List Node
      add_row rows node =
          rows ++ record node { id = py.new_id (map (λ (n : Node). n.id) rows) } ∷ []

      unfoldable pub add_all : List Node → List Node → List Node
      add_all rows [] = rows
      add_all rows (node ∷ added) = add_all (add_row rows node) added

      abbrev import_message : Import → String
      import_message st =
          "Imported "
          ⧺ py.decimal st.imported
          ⧺ " nodes"
          ⧺ (if is_empty st.errors then "" else ". Skipped: " ⧺ join "; " (take 3 st.errors))

      -- the commit; only the rows to add can share a tag
      unfoldable pub commit_import :
          Database → Import → Result CommitCrash (Database × NodeMutationResult)
      unfolding add_all
      commit_import db st =
          if all_different (map (λ (n : Node). n.tag) st.added)
          then ok (
            record db { nodes = add_all st.rows st.added },
            record { accepted = leb 1 st.imported; message = import_message st },
          )
          else err integrity_error

      module _ (load_text : String → String) where
        abbrev refused : Database → String → Result CommitCrash (Database × NodeMutationResult)
        refused db text = ok (db, record { accepted = false; message = "Import error: " ⧺ text })

        abbrev pub import_loaded :
            Database → String → Option Json → Result CommitCrash (Database × NodeMutationResult)
        import_loaded db raw_json none = refused db (load_text raw_json)
        import_loaded db raw_json (some (arr items)) = commit_import db (
            import_items db (record { rows = db.nodes; added = []; imported = 0; errors = [] })
              (of_items items))
        import_loaded db raw_json (some _) = refused db "Expected a JSON array"

        unfoldable pub import_nodes_payload :
            Database → String → Result CommitCrash (Database × NodeMutationResult)
        unfolding import_items commit_import
        import_nodes_payload db raw_json = import_loaded db raw_json (py.loads raw_json)

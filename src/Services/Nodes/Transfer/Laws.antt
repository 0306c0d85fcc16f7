-- ===== src/Services/Nodes/Transfer/Laws.antt =====
-- The keys of the rows of nodes after an import.
use local_singbox_manager.Common.{
  String, ◌≡◌, refl, sym, ap, subst, ◌∙◌, Bool, true, false, not, ◌&&◌, ◌||◌, Option, none, some,
  List, [], ◌∷◌, ◌++◌, map, All, inl, inr, Bool-cases, ◌==◌, find, member, member-append, eq_iff,
  arith, is_blank, truthy,
}
use local_singbox_manager.Common.Json.{
  Json, null, bool, num, str, arr, obj, Dict, of_fields, of_items,
}
use local_singbox_manager.Common.Python.{Python}
use local_singbox_manager.Common.Results.{Result, ok, err, ok-injective}
use local_singbox_manager.Common.Keyed.{Pairwise-Differ-add, IsFresh}
use local_singbox_manager.Common.Unique.{Pairwise-Differ-replace, find_of_member, member_of_find}
use local_singbox_manager.Parsers.Node.{ParsedNode, base_of}
use local_singbox_manager.Parsers.Errors.{ParseError}
use local_singbox_manager.Store.Models.{Node, Database}
use local_singbox_manager.Services.AppBypass.{text_at}
use local_singbox_manager.Services.Nodes.{Pydantic, Geo, NodeMutationResult}
use local_singbox_manager.Services.Nodes.Keys.{HaveKeys, geo_tag}
use local_singbox_manager.Services.Nodes.Transfer.{
  CommitCrash, Import, all_different, put_row, import_update, node_from_import, located,
  update_role, add_imported, import_parsed, import_url, import_dict, import_item, import_items,
  add_row, add_all, commit_import, import_loaded,
}

abbrev tags_of : List Node → List String
tags_of rows = map (λ (n : Node). n.tag) rows

-- no row to add has a tag of a stored row
abbrev AreNew : List Node → List Node → Type 0
AreNew added rows = All (λ (n : Node). member n.tag (tags_of rows) ≡ false) added

record IsSession (st : Import) : Type 0 where
  keys : HaveKeys st.rows
  new : AreNew st.added st.rows

All-snoc {ℓ κ} :
    {A : Type ℓ} (P : A → Type κ) (xs : List A) (x : A) → All P xs → P x → All P (xs ++ x ∷ [])
All-snoc P [] x h p = (p, tt)
All-snoc P (y ∷ xs) x (q, h) p = (q, All-snoc P xs x h p)

-- a row put back in its place
put-IsSession :
    (st st' : Import) (node : Node) (p : Node → Bool) {x : Node}
    → IsSession st
    → find p st.rows ≡ some x
    → node.id ≡ x.id
    → node.tag ≡ x.tag
    → st'.rows ≡ put_row node st.rows
    → st'.added ≡ st.added
    → IsSession st'
put-IsSession st st' node p s f i t rows added =
    let (keys, same) =
      Pairwise-Differ-replace (λ (n : Node). n.id) (λ (n : Node). n.tag) node p st.rows s.keys f i
        t in
    record {
      keys = subst HaveKeys (sym rows) keys;
      new =
          subst (λ (ts : List String). All (λ (n : Node). member n.tag ts ≡ false) st'.added)
            (sym same ∙ ap tags_of (sym rows))
            (subst (λ (ns : List Node). AreNew ns st.rows) (sym added) s.new);
    }

tags-last :
    (rows : List Node) (node : Node) → tags_of (rows ++ node ∷ []) ≡ tags_of rows ++ node.tag ∷ []
tags-last [] node = refl
tags-last (n ∷ rows) node = ap (λ (ts : List String). n.tag ∷ ts) (tags-last rows node)

-- an answer that changes nothing
same_rows :
    {db db' : Database} {r r' : NodeMutationResult}
    → HaveKeys db.nodes
    → ◌≡◌ {A = Result CommitCrash (Database × NodeMutationResult)} (ok (db, r)) (ok (db', r'))
    → HaveKeys db'.nodes
same_rows v e = subst (λ (x : Database × NodeMutationResult). HaveKeys x.0.nodes) (ok-injective e) v

module _ ⦃py : Python⦄ (pydantic : Pydantic) (geo : String → Geo) where
  located-tag :
      (parsed : ParsedNode) (node : Node) → (located pydantic geo parsed node).tag ≡ node.tag
  located-tag parsed node =
      elim (Bool-cases (truthy node.country_code || truthy node.country_name)) [
        | inl e ↦ rw e refl
        | inr e ↦ rw e (geo_tag _ node)
      ]

  update_role-IsSession :
      (st : Import) (raw_url : String) (node : Node) (role : Option (Option String))
      (p : Node → Bool) {x : Node}
      → IsSession st
      → find p st.rows ≡ some x
      → node.id ≡ x.id
      → node.tag ≡ x.tag
      → IsSession (update_role pydantic geo st raw_url node role)
  update_role-IsSession st raw_url node none p s f i t = put-IsSession st _ node p s f i t refl refl
  update_role-IsSession st raw_url node (some role) p s f i t =
      put-IsSession st _ (record node { topology_role = role }) p s f i t refl refl

  add_imported-IsSession :
      (db : Database) (st : Import) (raw_url : String) (parsed : ParsedNode) (item : Dict)
      (role : Option (Option String))
      → IsSession st
      → find (λ (n : Node). n.tag == (base_of parsed).tag) st.rows ≡ none
      → IsSession (add_imported pydantic geo db st raw_url parsed item role)
  unfolding node_from_import
  add_imported-IsSession db st raw_url parsed item none s f = record { keys = s.keys; new = s.new }
  add_imported-IsSession db st raw_url parsed item (some role) s f =
      let node = node_from_import pydantic geo db parsed item role in
      record {
        keys = s.keys;
        new =
            All-snoc (λ (n : Node). member n.tag (tags_of st.rows) ≡ false) st.added _ s.new
              (subst (λ (t : String). member t (tags_of st.rows) ≡ false)
                (sym (located-tag parsed node))
                (member_of_find (λ (n : Node). n.id) (λ (n : Node). n.tag) (base_of parsed).tag
                  st.rows f));
      }

  import_parsed-IsSession :
      (db : Database) (st : Import) (raw_url : String) (parsed : ParsedNode) (item : Dict)
      (o : Option Node)
      → IsSession st
      → find (λ (n : Node). n.tag == (base_of parsed).tag) st.rows ≡ o
      → IsSession (import_parsed pydantic geo db st raw_url parsed item o)
  unfolding import_update
  import_parsed-IsSession db st raw_url parsed item none s f =
      add_imported-IsSession db st raw_url parsed item _ s f
  import_parsed-IsSession db st raw_url parsed item (some existing) s f =
      update_role-IsSession st raw_url (import_update pydantic geo parsed item existing) _
        (λ (n : Node). n.tag == (base_of parsed).tag) s f refl refl

  module _ (text_of : ParseError → String) where
    import_url-IsSession :
        (db : Database) (st : Import) (raw_url : String) (item : Dict)
        (m : Result ParseError ParsedNode)
        → IsSession st
        → IsSession (import_url pydantic geo text_of db st raw_url item m)
    import_url-IsSession db st raw_url item (err e) s = record { keys = s.keys; new = s.new }
    import_url-IsSession db st raw_url item (ok parsed) s =
        import_parsed-IsSession db st raw_url parsed item _ s refl

    import_dict-IsSession :
        (db : Database) (st : Import) (item : Dict)
        → IsSession st
        → IsSession (import_dict pydantic geo text_of db st item)
    import_dict-IsSession db st item s = elim (Bool-cases (is_blank (text_at "raw_url" "" item))) [
      | inl e ↦ rw e s
      | inr e ↦ rw e (import_url-IsSession db st _ item _ s)
    ]

    import_item-IsSession :
        (db : Database) (st : Import) (item : Json)
        → IsSession st
        → IsSession (import_item pydantic geo text_of db st item)
    unfolding import_item
    import_item-IsSession db st (obj fields) s = import_dict-IsSession db st (of_fields fields) s
    import_item-IsSession db st null s = record { keys = s.keys; new = s.new }
    import_item-IsSession db st (bool b) s = record { keys = s.keys; new = s.new }
    import_item-IsSession db st (num n) s = record { keys = s.keys; new = s.new }
    import_item-IsSession db st (str t) s = record { keys = s.keys; new = s.new }
    import_item-IsSession db st (arr items) s = record { keys = s.keys; new = s.new }

    import_items-IsSession :
        (db : Database) (st : Import) (items : List Json)
        → IsSession st
        → IsSession (import_items pydantic geo text_of db st items)
    unfolding import_items
    import_items-IsSession db st [] s = s
    import_items-IsSession db st (item ∷ items) s =
        import_items-IsSession db (import_item pydantic geo text_of db st item) items
          (import_item-IsSession db st item s)

    AreNew-add :
        (added rows : List Node) (node : Node)
        → AreNew added rows
        → member node.tag (tags_of added) ≡ false
        → AreNew added (rows ++ node ∷ [])
    AreNew-add [] rows node h k = tt
    AreNew-add (n ∷ added) rows node (e, h) k = (
      subst (λ (ts : List String). member n.tag ts ≡ false) (sym (tags-last rows node))
          (member-append n.tag (tags_of rows) (node.tag ∷ [])
            ∙ ground (arith, eq_iff n.tag node.tag, eq_iff node.tag n.tag)),
      AreNew-add added rows node h (ground arith),
    )

    all-different : (b c : Bool) → (not b && c) ≡ true → (b ≡ false) × (c ≡ true)
    all-different b c h = ground arith

    add_all-HaveKeys :
        (added rows : List Node)
        → IsFresh py
        → HaveKeys rows
        → AreNew added rows
        → all_different (tags_of added) ≡ true
        → HaveKeys (add_all pydantic geo text_of rows added)
    unfolding add_all
    add_all-HaveKeys [] rows fresh v h d = v
    add_all-HaveKeys (node ∷ added) rows fresh v (e, h) d =
        let (other, rest) = all-different (member node.tag (tags_of added)) _ d in
        let new = record node { id = py.new_id (map (λ (n : Node). n.id) rows) } in
        add_all-HaveKeys added (add_row pydantic geo text_of rows node) fresh
          (Pairwise-Differ-add (λ (n : Node). n.id) (λ (n : Node). n.tag) rows new v (fresh _)
            (find_of_member (λ (n : Node). n.id) (λ (n : Node). n.tag) node.tag rows e))
          (AreNew-add added rows new h other) rest

    commit_import-HaveKeys :
        (db : Database) (st : Import) {db' : Database} {r : NodeMutationResult}
        → IsFresh py
        → IsSession st
        → commit_import pydantic geo text_of db st ≡ ok (db', r)
        → HaveKeys db'.nodes
    unfolding commit_import
    commit_import-HaveKeys db st fresh s e = elim (Bool-cases (all_different (tags_of st.added))) [
      | inl d ↦
          subst (λ (x : Database × NodeMutationResult). HaveKeys x.0.nodes)
            (ok-injective (rw d at e)) (add_all-HaveKeys st.added st.rows fresh s.keys s.new d)
      | inr d ↦ (let bad = rw d at e in cc)
    ]

    module _ (load_text : String → String) where
      pub loaded-HaveKeys :
          (db : Database) (raw_json : String) (m : Option Json) {db' : Database}
          {r : NodeMutationResult}
          → IsFresh py
          → HaveKeys db.nodes
          → import_loaded pydantic geo text_of load_text db raw_json m ≡ ok (db', r)
          → HaveKeys db'.nodes
      loaded-HaveKeys db raw_json none fresh v e = same_rows v e
      loaded-HaveKeys db raw_json (some (arr items)) fresh v e =
          commit_import-HaveKeys db _ fresh
            (import_items-IsSession db _ (of_items items) (record { keys = v; new = tt })) e
      loaded-HaveKeys db raw_json (some null) fresh v e = same_rows v e
      loaded-HaveKeys db raw_json (some (bool b)) fresh v e = same_rows v e
      loaded-HaveKeys db raw_json (some (num n)) fresh v e = same_rows v e
      loaded-HaveKeys db raw_json (some (str t)) fresh v e = same_rows v e
      loaded-HaveKeys db raw_json (some (obj fields)) fresh v e = same_rows v e

-- ===== src/Singbox/Outbounds/Laws.antt =====
-- What an outbound built from a node holds.
use local_singbox_manager.Common.{
  String, ◌≡◌, refl, ◌∙◌, false, Option, none, some, [], ◌∷◌, ◌==◌, arith, truthy, text_or,
  if◌then◌else◌,
}
use local_singbox_manager.Common.Json.{str, Dict, lookup, lookup-insert, lookup-insert_ne, object}
use local_singbox_manager.Common.Results.{ok, >>=-eq-ok}
use local_singbox_manager.Common.Python.{Python}
use local_singbox_manager.Parsers.Node.{
  VlessNode, Hysteria2Node, ParsedNode, vless, hysteria2, plain, base_of,
}
use local_singbox_manager.Singbox.Outbounds.{
  insert_text, reality_tls, plain_tls, insert_transport, insert_vless_tls, vless_head,
  build_vless_transport, build_vless_outbound, build_hysteria2_outbound, build_outbound,
}

lookup-insert_text :
    (k j : String) (v : Option String) (out : Dict)
    → lookup j (insert_text k v out) ≡ (
        if truthy v
        then (if k == j then some (str (text_or v "")) else lookup j out)
        else lookup j out)
lookup-insert_text k j none out = refl
lookup-insert_text k j (some s) out =
    ground (arith, lookup-insert k j (str (text_or (some s) "")) out)

lookup-insert_transport :
    (k : String) (t : Option Dict) (out : Dict)
    → ("transport" == k) ≡ false
    → lookup k (insert_transport t out) ≡ lookup k out
lookup-insert_transport k none out h = refl
lookup-insert_transport k (some []) out h = refl
lookup-insert_transport k (some (kv ∷ t)) out h = lookup-insert_ne "transport" k _ out h

lookup-insert_vless_tls :
    (k : String) (node : VlessNode) (out : Dict) {out' : Dict}
    → ("tls" == k) ≡ false
    → insert_vless_tls node out ≡ ok out'
    → lookup k out' ≡ lookup k out
unfolding insert_vless_tls
lookup-insert_vless_tls k node out h e = ground (
  arith,
  lookup-insert_ne "tls" k (object (reality_tls node (text_or node.pbk ""))) out,
  lookup-insert_ne "tls" k (object (plain_tls node)) out,
)

-- the three steps of `_build_vless_outbound`, for a key that none of the later ones sets
build_vless_outbound-lookup :
    ⦃py : Python⦄ (k : String) (node : VlessNode) {out : Dict}
    → ("transport" == k) ≡ false
    → ("tls" == k) ≡ false
    → build_vless_outbound node ≡ ok out
    → lookup k out ≡ lookup k (insert_text "flow" node.flow (vless_head node))
unfolding build_vless_outbound
build_vless_outbound-lookup k node ht hs e =
    let (t, built, e') =
      >>=-eq-ok (build_vless_transport node)
        (λ t.
          insert_vless_tls node
            (insert_transport t (insert_text "flow" node.flow (vless_head node))))
        e in
    lookup-insert_vless_tls k node _ hs e' ∙ lookup-insert_transport k t _ ht

module _ ⦃py : Python⦄ where
  build_hysteria2_outbound-tag :
      (node : Hysteria2Node) → lookup "tag" (build_hysteria2_outbound node) ≡ some (str node.tag)
  unfolding build_hysteria2_outbound
  build_hysteria2_outbound-tag node = ground arith

  -- The tag of an outbound is the tag of its node.
  pub build_outbound-tag :
      (node : ParsedNode) {out : Dict}
      → build_outbound node ≡ ok out
      → lookup "tag" out ≡ some (str (base_of node).tag)
  unfolding build_outbound
  build_outbound-tag (vless node) e =
      build_vless_outbound-lookup "tag" node refl refl e
      ∙ lookup-insert_text "flow" "tag" node.flow (vless_head node)
      ∙ ground arith
  build_outbound-tag (hysteria2 node) e = cc (build_hysteria2_outbound-tag node)
  build_outbound-tag (plain node) e = cc

  -- A VLESS outbound has "flow" exactly when the node has one that is not empty, and then with
  -- that value.
  pub build_vless_outbound-flow :
      (node : VlessNode) {out : Dict}
      → build_vless_outbound node ≡ ok out
      → lookup "flow" out ≡ (if truthy node.flow then some (str (text_or node.flow "")) else none)
  build_vless_outbound-flow node e =
      build_vless_outbound-lookup "flow" node refl refl e
      ∙ lookup-insert_text "flow" "flow" node.flow (vless_head node)

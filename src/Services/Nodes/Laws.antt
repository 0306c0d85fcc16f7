-- ===== src/Services/Nodes/Laws.antt =====
-- Reading back the row of a node.
use local_singbox_manager.Common.{
  String, ◌≡◌, refl, sym, ap, ◌∙◌, true, false, some, inl, inr, is_blank, starts_with, strip,
}
use local_singbox_manager.Common.Json.{str, Dict, lookup, object, of_fields-to_fields}
use local_singbox_manager.Common.Python.{Python}
use local_singbox_manager.Common.Results.{ok}
use local_singbox_manager.Parsers.Node.{
  VlessNode, Hysteria2Node, ParsedNode, vless, hysteria2, plain, base_of,
}
use local_singbox_manager.Parsers.Registry.{parse_url}
use local_singbox_manager.Parsers.Registry.Laws.{
  IsComplete, HasScheme, parse_url_sound, parse_url-raw_url,
}
use local_singbox_manager.Store.Models.{Node, Database}
use local_singbox_manager.Services.NodeTags.Laws.{JsonLaws}
use local_singbox_manager.Services.Nodes.{
  Pydantic, Geo, by_protocol, normalize_vless_payload, normalize_hysteria2_payload,
  deserialize_node, refresh_node_geo, filled, new_node,
}

-- what pydantic documents: `model_validate` reads back what `model_dump` wrote, which has each field
pub record PydanticLaws (p : Pydantic) : Type 0 where
  pub protocol : (n : ParsedNode) → lookup "protocol" (p.dump n) ≡ some (str (base_of n).protocol)
  pub vless_back : (n : VlessNode) → p.validate_vless (p.dump (vless n)) ≡ ok n
  pub hysteria2_back : (n : Hysteria2Node) → p.validate_hysteria2 (p.dump (hysteria2 n)) ≡ ok n

filled_start : (s : String) → starts_with s "vless://" ≡ true → is_blank s ≡ false
filled_start String.[] e = sym e
filled_start (String.◌∷◌ c s) e = refl

filled_hysteria2 : (s : String) → starts_with s "hysteria2://" ≡ true → is_blank s ≡ false
filled_hysteria2 String.[] e = sym e
filled_hysteria2 (String.◌∷◌ c s) e = refl

filled_hy2 : (s : String) → starts_with s "hy2://" ≡ true → is_blank s ≡ false
filled_hy2 String.[] e = sym e
filled_hy2 (String.◌∷◌ c s) e = refl

filled_scheme :
    ⦃py : Python⦄ (url : String) (n : ParsedNode) → HasScheme url n → is_blank url ≡ false
filled_scheme url (vless n) h = filled_start url h
filled_scheme url (hysteria2 n) (inl h) = filled_hysteria2 url h
filled_scheme url (hysteria2 n) (inr h) = filled_hy2 url h
filled_scheme url (plain n) h = absurd h

module _ ⦃py : Python⦄ (p : Pydantic) (row : Node) (d : Dict) where
  vless_payload :
      (n : VlessNode)
      → is_blank row.raw_url ≡ false
      → parse_url row.raw_url ≡ ok (vless n)
      → normalize_vless_payload p row d ≡ p.dump (vless n)
  unfolding normalize_vless_payload
  vless_payload n full parsed = simp (full, parsed)

  hysteria2_payload :
      (n : Hysteria2Node)
      → is_blank row.raw_url ≡ false
      → parse_url row.raw_url ≡ ok (hysteria2 n)
      → normalize_hysteria2_payload p row d ≡ p.dump (hysteria2 n)
  unfolding normalize_hysteria2_payload
  hysteria2_payload n full parsed = simp (full, parsed)

  vless_case :
      (n : VlessNode) (proto : String)
      → proto ≡ "vless"
      → p.validate_vless (normalize_vless_payload p row d) ≡ ok n
      → by_protocol p row d (some (str proto)) ≡ ok (vless n)
  vless_case n proto e h = rw (e, h) refl

  hysteria2_case :
      (n : Hysteria2Node) (proto : String)
      → proto ≡ "hysteria2"
      → p.validate_hysteria2 (normalize_hysteria2_payload p row d) ≡ ok n
      → by_protocol p row d (some (str proto)) ≡ ok (hysteria2 n)
  hysteria2_case n proto e h = rw (e, h) refl

module _ ⦃py : Python⦄ (p : Pydantic) (json : JsonLaws py) (laws : PydanticLaws p) where
  load_payload :
      (n : ParsedNode) (row : Node)
      → IsComplete n
      → is_blank row.raw_url ≡ false
      → parse_url row.raw_url ≡ ok n
      → by_protocol p row (p.dump n) (some (str (base_of n).protocol)) ≡ ok n
  load_payload (vless n) row (_, _, _, protocol) full parsed =
      vless_case p row _ n n.protocol protocol
        (ap p.validate_vless (vless_payload p row _ n full parsed) ∙ laws.vless_back n)
  load_payload (hysteria2 n) row (_, _, _, protocol) full parsed =
      hysteria2_case p row _ n n.protocol protocol
        (ap p.validate_hysteria2 (hysteria2_payload p row _ n full parsed) ∙ laws.hysteria2_back n)
  load_payload (plain n) row c full parsed = absurd c

  deserialize_lem :
      (url : String) (n : ParsedNode) (row : Node)
      → parse_url url ≡ ok n
      → row.raw_url ≡ (base_of n).raw_url
      → row.parsed_json ≡ py.dumps (object (p.dump n))
      → deserialize_node p row ≡ ok n
  unfolding deserialize_node
  deserialize_lem url n row e raw text =
      let (complete, stripped, scheme) = parse_url_sound url e in
      let read = ap py.loads text ∙ json.loads-dumps (object (p.dump n)) in
      rw (read, of_fields-to_fields (p.dump n), laws.protocol n)
        (load_payload n row complete
          (ap is_blank (raw ∙ stripped) ∙ filled_scheme (strip url) n scheme)
          (ap (λ (s : String). parse_url s) raw ∙ parse_url-raw_url url e))

  -- The row that adding a URL stores, whether new or an update of an old row, is read back as the node
  -- that the URL parses to, if pydantic and JSON read back what they wrote.
  pub deserialize_node-stored :
      (geo : String → Geo) (db : Database) (url : String) (n : ParsedNode) (info : Geo)
      → parse_url url ≡ ok n
      → (deserialize_node p (refresh_node_geo info (new_node p geo db n)) ≡ ok n)
        × ((old : Node) → deserialize_node p (refresh_node_geo info (filled p geo n old)) ≡ ok n)
  unfolding refresh_node_geo
  deserialize_node-stored geo db url n info e = (
    deserialize_lem url n (refresh_node_geo info (new_node p geo db n)) e refl refl,
    λ old. deserialize_lem url n (refresh_node_geo info (filled p geo n old)) e refl refl,
  )

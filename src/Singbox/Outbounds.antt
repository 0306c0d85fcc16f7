-- ===== src/Singbox/Outbounds.antt =====
-- The outbound builders of app/singbox/generator.py.
pub mod Laws
use local_singbox_manager.Common.{
  ℕ, String, Bool, true, false, Option, none, some, List, [], ◌∷◌, ◌==◌, ◌||◌, not, is_blank,
  filter, map, strip, split_on, truthy, text_or, if◌then◌else◌,
}
use local_singbox_manager.Common.Json.{ℤ, Json, bool, num, nat, str, Dict, object, texts, insert}
use local_singbox_manager.Common.Results.{Result, ok, err, ◌>>=◌}
use local_singbox_manager.Common.Python.{Python}
use local_singbox_manager.Parsers.Node.{
  NodeBase, VlessNode, Hysteria2Node, ParsedNode, vless, hysteria2, plain,
}
use local_singbox_manager.Singbox.Routes.{
  ConfigError, reality_without_public_key, tcp_header_http, unsupported_xhttp, unsupported_quic,
  unsupported_transport, unknown_protocol,
}

-- `if value: out[key] = value`
abbrev pub insert_text : String → Option String → Dict → Dict
insert_text key value out = if truthy value then insert key (str (text_or value "")) out else out

abbrev insert_num : String → Option ℤ → Dict → Dict
insert_num key none out = out
insert_num key (some n) out = insert key (num n) out

unfoldable pub split_hosts : Option String → List String
unfolding split_on
split_hosts none = []
split_hosts (some value) =
    if is_blank value
    then []
    else filter (λ part. not (is_blank part)) (map strip (split_on b',' value))

unfoldable pub first_host : Option String → Option String
unfolding split_hosts
first_host value = elim (split_hosts value) [ [] ↦ none | h ∷ hs ↦ some h ]

abbrev insert_hosts : List String → Dict → Dict
insert_hosts [] out = out
insert_hosts (h ∷ hs) out = insert "host" (texts (h ∷ hs)) out

abbrev insert_host_header : Option String → Dict → Dict
insert_host_header host out =
    if truthy host
    then insert "headers" (object (("Host", str (text_or host "")) ∷ [])) out
    else out

abbrev only_type : String → Dict
only_type name = ("type", str name) ∷ []

-- `if transport: out["transport"] = transport`
abbrev insert_transport : Option Dict → Dict → Dict
insert_transport none out = out
insert_transport (some []) out = out
insert_transport (some (kv ∷ t)) out = insert "transport" (object (kv ∷ t)) out

abbrev reality_tls : VlessNode → String → Dict
reality_tls node pbk =
    ("enabled", bool true)
    ∷ ("server_name", str (text_or node.sni node.server))
    ∷ ("insecure", bool node.insecure)
    ∷ (
      "utls",
      object (("enabled", bool true) ∷ ("fingerprint", str (text_or node.fp "chrome")) ∷ []),
    )
    ∷ (
      "reality",
      object (
          ("enabled", bool true)
          ∷ ("public_key", str pbk)
          ∷ ("short_id", str (text_or node.sid ""))
          ∷ []),
    )
    ∷ []

abbrev plain_tls : VlessNode → Dict
plain_tls node =
    ("enabled", bool true)
    ∷ ("server_name", str (text_or node.sni node.server))
    ∷ ("insecure", bool node.insecure)
    ∷ []

-- the `if node.security == …` at the end of `_build_vless_outbound`
unfoldable pub insert_vless_tls : VlessNode → Dict → Result ConfigError Dict
insert_vless_tls node out =
    if node.security == "reality"
    then (if truthy node.pbk
        then ok (insert "tls" (object (reality_tls node (text_or node.pbk ""))) out)
        else err reality_without_public_key)
    else if node.security == "tls"
    then ok (insert "tls" (object (plain_tls node)) out)
    else ok out

abbrev vless_head : VlessNode → Dict
vless_head node =
    ("type", str "vless")
    ∷ ("tag", str node.tag)
    ∷ ("server", str node.server)
    ∷ ("server_port", nat node.port)
    ∷ ("uuid", str node.uuid)
    ∷ []

module _ ⦃py : Python⦄ where
  unfoldable pub build_vless_transport : VlessNode → Result ConfigError (Option Dict)
  unfolding split_hosts first_host
  build_vless_transport node =
      let kind =
        py.lower (strip (if is_blank node.transport_type then "tcp" else node.transport_type)) in
      if kind == "tcp"
      then (if py.lower (strip (text_or node.header_type "")) == "http"
          then err tcp_header_http
          else ok none)
      else if kind == "http"
      then ok (
          some (
            insert_text "path" node.path (insert_hosts (split_hosts node.host) (only_type "http"))))
      else if kind == "grpc"
      then ok (some (insert_text "service_name" node.service_name (only_type "grpc")))
      else if kind == "ws"
      then ok (
          some (
            insert_host_header (first_host node.host)
              (insert_text "path" node.path (only_type "ws"))))
      else if kind == "httpupgrade"
      then ok (
          some (
            insert_text "path" node.path
              (insert_text "host" (first_host node.host) (only_type "httpupgrade"))))
      else if kind == "xhttp" || kind == "splithttp"
      then err unsupported_xhttp
      else if kind == "quic"
      then err unsupported_quic
      else err (unsupported_transport kind)

  unfoldable pub build_vless_outbound : VlessNode → Result ConfigError Dict
  unfolding build_vless_transport insert_vless_tls
  build_vless_outbound node = do
    transport ← build_vless_transport node
    insert_vless_tls node
        (insert_transport transport (insert_text "flow" node.flow (vless_head node)))

  abbrev obfs_dict : Hysteria2Node → Dict
  obfs_dict node =
      ("type", str (text_or node.obfs_type ""))
      ∷ ("password", str (text_or node.obfs_password ""))
      ∷ []

  unfoldable pub build_hysteria2_outbound : Hysteria2Node → Dict
  build_hysteria2_outbound node =
      let head : Dict =
        ("type", str "hysteria2")
        ∷ ("tag", str node.tag)
        ∷ ("server", str node.server)
        ∷ ("server_port", nat node.port)
        ∷ ("password", str node.auth)
        ∷ [] in
      let tls : Dict =
        insert_text "server_name" node.sni
          (("enabled", bool true) ∷ ("insecure", bool node.insecure) ∷ []) in
      let out = insert "tls" (object tls) head in
      let out' =
        if truthy node.obfs_type then insert "obfs" (object (obfs_dict node)) out else out in
      insert_num "down_mbps" node.down_mbps (insert_num "up_mbps" node.up_mbps out')

  unfoldable pub build_outbound : ParsedNode → Result ConfigError Dict
  unfolding build_vless_outbound build_hysteria2_outbound
  build_outbound (vless node) = build_vless_outbound node
  build_outbound (hysteria2 node) = ok (build_hysteria2_outbound node)
  build_outbound (plain node) = err (unknown_protocol node.protocol)

-- ===== src/Parsers/Registry/Laws.antt =====
-- What a parsed URL gives.
use Prim.Native.Nat.{◌<◌}
use local_singbox_manager.Common.{
  ℕ, zero, suc, String, ◌≡◌, refl, subst, true, false, Option, none, some, ◌⊎◌, inl, inr, arith,
  starts_with, strip, strip_idem, is_blank, text_or, Bool-cases, ◌||◌, ◌==◌,
}
use local_singbox_manager.Common.Results.{ok, ◌>>=◌, >>=-eq-ok, guard->>-eq-ok, ok-injective}
use local_singbox_manager.Common.Python.{Python}
use local_singbox_manager.Parsers.Errors.{
  ParseError, missing_uuid, missing_server, missing_auth, unexpected_scheme,
}
use local_singbox_manager.Parsers.Node.{
  VlessNode, Hysteria2Node, ParsedNode, vless, hysteria2, plain, base_of,
}
use local_singbox_manager.Parsers.Vless.{
  param, vless_of_parts, parse_vless, filled, port_of, parsed_or_invalid,
}
use local_singbox_manager.Parsers.Hysteria2.{
  ◌or◌, hysteria2_of_parts, parse_hysteria2, parse_mbps, port_or_443,
}
use local_singbox_manager.Parsers.Registry.{parse_with, parse_url}

-- what every parsed node has
abbrev pub IsComplete : ParsedNode → Type 0
IsComplete (vless n) =
    (is_blank n.uuid ≡ false) × (is_blank n.server ≡ false) × (0 < n.port) × (n.protocol ≡ "vless")
IsComplete (hysteria2 n) =
    (is_blank n.auth ≡ false)
    × (is_blank n.server ≡ false)
    × (0 < n.port)
    × (n.protocol ≡ "hysteria2")
IsComplete (plain n) = ⊥

filled-ok :
    (e : ParseError) (o : Option String) {s : String} → filled e o ≡ ok s → is_blank s ≡ false
filled-ok e none h = cc
filled-ok e (some t) h = ground arith

port_of-ok : (o : Option (Option ℕ)) {n : ℕ} → port_of o ≡ ok n → 0 < n
port_of-ok none h = cc
port_of-ok (some none) h = cc
port_of-ok (some (some zero)) h = cc
port_of-ok (some (some (suc m))) h = ground arith

port_or_443-ok : (o : Option (Option ℕ)) {n : ℕ} → port_or_443 o ≡ ok n → 0 < n
port_or_443-ok none h = cc
port_or_443-ok (some none) h = ground arith
port_or_443-ok (some (some zero)) h = ground arith
port_or_443-ok (some (some (suc m))) h = ground arith

module _ ⦃py : Python⦄ where
  parse_vless-ok :
      (url : String) {n : VlessNode}
      → parse_vless url ≡ ok n
      → (n.raw_url ≡ url) × IsComplete (vless n)
  unfolding parse_vless vless_of_parts
  parse_vless-ok url e =
      let (parsed, _, e1) = >>=-eq-ok (parsed_or_invalid (py.urlparse (strip url))) _ e in
      let (_, e2) =
        guard->>-eq-ok ("vless" == parsed.scheme) (unexpected_scheme parsed.scheme) _ e1 in
      let (uuid, has_uuid, e3) = >>=-eq-ok (filled missing_uuid parsed.username) _ e2 in
      let (server, has_server, e4) = >>=-eq-ok (filled missing_server parsed.hostname) _ e3 in
      let (port, has_port, e5) = >>=-eq-ok (port_of parsed.port) _ e4 in
      subst (λ (m : VlessNode). (m.raw_url ≡ url) × IsComplete (vless m)) (ok-injective e5)
        (
          refl,
          (
            filled-ok missing_uuid parsed.username has_uuid,
            filled-ok missing_server parsed.hostname has_server,
            port_of-ok parsed.port has_port,
            refl,
          ),
        )

  parse_hysteria2-ok :
      (url : String) {n : Hysteria2Node}
      → parse_hysteria2 url ≡ ok n
      → (n.raw_url ≡ url) × IsComplete (hysteria2 n)
  unfolding parse_hysteria2 hysteria2_of_parts
  parse_hysteria2-ok url e =
      let (parsed, _, e1) = >>=-eq-ok (parsed_or_invalid (py.urlparse (strip url))) _ e in
      let (_, e2) =
        guard->>-eq-ok ("hysteria2" == parsed.scheme || "hy2" == parsed.scheme)
          (unexpected_scheme parsed.scheme) _ e1 in
      let secret = some (py.unquote (text_or (parsed.username or parsed.password) "")) in
      let (auth, has_auth, e3) = >>=-eq-ok (filled missing_auth secret) _ e2 in
      let (server, has_server, e4) = >>=-eq-ok (filled missing_server parsed.hostname) _ e3 in
      let (port, has_port, e5) = >>=-eq-ok (port_or_443 parsed.port) _ e4 in
      let p = param (py.parse_qs parsed.query) in
      let (up, _, e6) = >>=-eq-ok (parse_mbps (p "up" or p "upmbps" or p "up_mbps")) _ e5 in
      let (down, _, e7) = >>=-eq-ok (parse_mbps (p "down" or p "downmbps" or p "down_mbps")) _ e6 in
      subst (λ (m : Hysteria2Node). (m.raw_url ≡ url) × IsComplete (hysteria2 m)) (ok-injective e7)
        (
          refl,
          (
            filled-ok missing_auth secret has_auth,
            filled-ok missing_server parsed.hostname has_server,
            port_or_443-ok parsed.port has_port,
            refl,
          ),
        )

  -- the class of a node against the scheme of its URL
  abbrev pub HasScheme : String → ParsedNode → Type 0
  HasScheme url (vless n) = starts_with url "vless://" ≡ true
  HasScheme url (hysteria2 n) =
      (starts_with url "hysteria2://" ≡ true) ⊎ (starts_with url "hy2://" ≡ true)
  HasScheme url (plain n) = ⊥

  as_vless :
      (url : String) {n : ParsedNode}
      → (parse_vless url >>= λ node. ok (vless node)) ≡ ok n
      → starts_with url "vless://" ≡ true
      → IsComplete n × ((base_of n).raw_url ≡ url) × HasScheme url n
  as_vless url e s =
      let (node, parsed, same) = >>=-eq-ok (parse_vless url) _ e in
      let (raw, complete) = parse_vless-ok url parsed in rw (← ok-injective same) (complete, raw, s)

  as_hysteria2 :
      (url : String) {n : ParsedNode}
      → (parse_hysteria2 url >>= λ node. ok (hysteria2 node)) ≡ ok n
      → (starts_with url "hysteria2://" ≡ true) ⊎ (starts_with url "hy2://" ≡ true)
      → IsComplete n × ((base_of n).raw_url ≡ url) × HasScheme url n
  as_hysteria2 url e s =
      let (node, parsed, same) = >>=-eq-ok (parse_hysteria2 url) _ e in
      let (raw, complete) = parse_hysteria2-ok url parsed in
      rw (← ok-injective same) (complete, raw, s)

  -- A parsed node has its secret (the UUID, or the password) and a server, neither empty, and a
  -- port above 0; its class is that of the scheme, and its raw URL is the stripped text.
  pub parse_url_sound :
      (url : String) {n : ParsedNode}
      → parse_url url ≡ ok n
      → IsComplete n × ((base_of n).raw_url ≡ strip url) × HasScheme (strip url) n
  unfolding parse_url
  parse_url_sound url e = elim (Bool-cases (starts_with (strip url) "hysteria2://")) [
    | inl a ↦ as_hysteria2 (strip url) (rw (a, parse_with) at e) (inl a)
    | inr na ↦ elim (Bool-cases (starts_with (strip url) "hy2://")) [
      | inl b ↦ as_hysteria2 (strip url) (rw (na, b, parse_with) at e) (inr b)
      | inr nb ↦ elim (Bool-cases (starts_with (strip url) "vless://")) [
        | inl c ↦ as_vless (strip url) (rw (na, nb, c, parse_with) at e) c
        | inr nc ↦ cc (rw (na, nb, nc, parse_with) at e)
      ]
    ]
  ]

  -- The raw URL that is stored for a node parses to the same node again.
  pub parse_url-raw_url :
      (url : String) {n : ParsedNode} → parse_url url ≡ ok n → parse_url (base_of n).raw_url ≡ ok n
  unfolding parse_url
  parse_url-raw_url url e = rw (parse_url_sound url e).1 (rw (strip_idem url) e)

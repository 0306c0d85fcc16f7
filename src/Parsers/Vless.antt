-- ===== src/Parsers/Vless.antt =====
-- app/parsers/vless.py
use local_singbox_manager.Common.{
  ℕ, zero, suc, String, Bool, false, not, ◌||◌, Option, none, some, List, [], ◌∷◌, map, ◌==◌, ◌⧺◌,
  is_blank, truthy, text_or, or_none, strip, member, filter, if◌then◌else◌,
}
use mathlib.Core.Option
use local_singbox_manager.Common.Json.{lookup}
use local_singbox_manager.Common.Results.{Result, ok, err, ◌>>=◌, ◌>>◌, guard}
use local_singbox_manager.Common.Python.{Python, Url}
use local_singbox_manager.Parsers.Errors.{
  ParseError, invalid_url, unexpected_scheme, missing_uuid, missing_server, missing_port, Params,
}
use local_singbox_manager.Parsers.Node.{VlessNode}

abbrev known_params : List String
known_params =
    "type" ∷ "security" ∷ "sni" ∷ "pbk" ∷ "sid" ∷ "fp" ∷ "flow" ∷ "allowInsecure" ∷ "headerType"
    ∷ "path" ∷ "host" ∷ "serviceName" ∷ []

abbrev transport_aliases : List (String × String)
transport_aliases =
    ("tcp", "tcp")
    ∷ ("http", "http")
    ∷ ("h2", "http")
    ∷ ("http2", "http")
    ∷ ("grpc", "grpc")
    ∷ ("ws", "ws")
    ∷ ("websocket", "ws")
    ∷ ("httpupgrade", "httpupgrade")
    ∷ ("xhttp", "xhttp")
    ∷ ("splithttp", "xhttp")
    ∷ ("quic", "quic")
    ∷ []

-- the local function `p` of both parsers
abbrev pub param : Params → String → Option String
param params key = Option.map (λ v. v.0) (lookup key params)

-- `{k: v[0] for k, v in params.items() if k not in known}`
abbrev pub extra_params : List String → Params → List (String × String)
extra_params known params =
    map (λ kv. (kv.0, kv.1.0)) (filter (λ kv. not (member kv.0 known)) params)

-- `value in ("1", "true")`
abbrev pub is_on : Option String → Bool
is_on none = false
is_on (some s) = "1" == s || "true" == s

-- the value of an attribute that must be there and not empty
abbrev pub filled : ParseError → Option String → Result ParseError String
filled e none = err e
filled e (some s) = if is_blank s then err e else ok s

-- `parsed.port`, which raises, and `if not port: raise`
abbrev pub port_of : Option (Option ℕ) → Result ParseError ℕ
port_of none = err invalid_url
port_of (some none) = err missing_port
port_of (some (some zero)) = err missing_port
port_of (some (some (suc n))) = ok (suc n)

abbrev pub parsed_or_invalid : Option Url → Result ParseError Url
parsed_or_invalid none = err invalid_url
parsed_or_invalid (some u) = ok u

module _ ⦃py : Python⦄ where
  unfoldable pub normalize_transport_type : Option String → String
  normalize_transport_type value =
      let plain = py.lower (strip (text_or value "")) in
      if truthy value
      then elim (lookup plain transport_aliases) [ none ↦ plain | some name ↦ name ]
      else "tcp"

  -- the tag of a node: the fragment, or a name made from the server
  abbrev pub tag_of : String → Url → String → String
  tag_of prefix parsed server =
      if is_blank parsed.fragment then prefix ⧺ server else strip (py.unquote parsed.fragment)

  unfoldable pub vless_of_parts : String → Url → String → String → ℕ → VlessNode
  unfolding normalize_transport_type
  vless_of_parts url parsed uuid server port =
      let params = py.parse_qs parsed.query in
      let p = param params in
      record {
        base = record {
          protocol = "vless";
          raw_url = url;
          tag = tag_of "vless-" parsed server;
          server = server;
          port = port;
          schema_version = 1;
          extra_params = extra_params known_params params;
        };
        uuid = uuid;
        network = "tcp";
        transport_type = normalize_transport_type (p "type");
        security = text_or (p "security") "none";
        sni = p "sni";
        pbk = p "pbk";
        sid = p "sid";
        fp = some (text_or (p "fp") "chrome");
        flow = or_none (text_or (p "flow") "");
        insecure = is_on (p "allowInsecure");
        path = p "path";
        host = p "host";
        service_name = p "serviceName";
        header_type = p "headerType";
      }

  unfoldable pub parse_vless : String → Result ParseError VlessNode
  parse_vless url = do
    parsed ← parsed_or_invalid (py.urlparse (strip url))
    guard ("vless" == parsed.scheme) (unexpected_scheme parsed.scheme)
    uuid ← filled missing_uuid parsed.username
    server ← filled missing_server parsed.hostname
    port ← port_of parsed.port
    ok (vless_of_parts url parsed uuid server port)

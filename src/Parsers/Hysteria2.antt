-- ===== src/Parsers/Hysteria2.antt =====
-- app/parsers/hysteria2.py
use Prim.Native.Char.{Char, code}
use local_singbox_manager.Common.{
  ℕ, zero, suc, String, Bool, ◌||◌, Option, none, some, List, [], ◌∷◌, ◌==◌, ◌=ℕ◌, truthy, text_or,
  strip, rstrip_by, if◌then◌else◌,
}
use local_singbox_manager.Common.Json.{ℤ}
use local_singbox_manager.Common.Results.{Result, ok, err, ◌>>=◌, ◌>>◌, guard}
use local_singbox_manager.Common.Python.{
  Python, Url, IntOfFloat, value, value_error, overflow_error,
}
use local_singbox_manager.Parsers.Errors.{
  ParseError, invalid_url, unexpected_scheme, missing_auth, missing_server, infinite_rate,
}
use local_singbox_manager.Parsers.Node.{Hysteria2Node}
use local_singbox_manager.Parsers.Vless.{
  param, extra_params, is_on, filled, parsed_or_invalid, tag_of,
}

abbrev known_params : List String
known_params =
    "sni" ∷ "insecure" ∷ "security" ∷ "obfs" ∷ "obfs-password" ∷ "obfsParam" ∷ "up" ∷ "upmbps"
    ∷ "up_mbps" ∷ "down" ∷ "downmbps" ∷ "down_mbps" ∷ []

-- `a or b` on optional texts
infixr 30 ◌or◌
abbrev pub ◌or◌ : Option String → Option String → Option String
a or b = if truthy a then a else b

-- one of the letters of "MBPS"
abbrev is_unit_letter : Char → Bool
is_unit_letter c = let n = code c in n =ℕ b'M' || n =ℕ b'B' || n =ℕ b'P' || n =ℕ b'S'

-- ValueError is caught, OverflowError is not
abbrev rate_of : IntOfFloat → Result ParseError (Option ℤ)
rate_of (value n) = ok (some n)
rate_of value_error = ok none
rate_of overflow_error = err infinite_rate

-- `parsed.port or 443`
abbrev pub port_or_443 : Option (Option ℕ) → Result ParseError ℕ
port_or_443 none = err invalid_url
port_or_443 (some none) = ok 443
port_or_443 (some (some zero)) = ok 443
port_or_443 (some (some (suc n))) = ok (suc n)

module _ ⦃py : Python⦄ where
  unfoldable pub parse_mbps : Option String → Result ParseError (Option ℤ)
  parse_mbps s =
      if truthy s
      then rate_of
          (py.int_of_float (strip (rstrip_by is_unit_letter (py.upper (strip (text_or s ""))))))
      else ok none

  unfoldable pub hysteria2_of_parts :
      String → Url → String → String → ℕ → Option ℤ → Option ℤ → Hysteria2Node
  hysteria2_of_parts url parsed auth server port up down =
      let params = py.parse_qs parsed.query in
      let p = param params in
      record {
        base = record {
          protocol = "hysteria2";
          raw_url = url;
          tag = tag_of "hy2-" parsed server;
          server = server;
          port = port;
          schema_version = 1;
          extra_params = extra_params known_params params;
        };
        auth = auth;
        sni = p "sni";
        insecure = is_on (p "insecure");
        obfs_type = p "obfs";
        obfs_password = p "obfs-password" or p "obfsParam";
        up_mbps = up;
        down_mbps = down;
      }

  unfoldable pub parse_hysteria2 : String → Result ParseError Hysteria2Node
  unfolding parse_mbps
  parse_hysteria2 url = do
    parsed ← parsed_or_invalid (py.urlparse (strip url))
    guard ("hysteria2" == parsed.scheme || "hy2" == parsed.scheme) (unexpected_scheme parsed.scheme)
    let named = parsed.username or parsed.password
    auth ← filled missing_auth (some (py.unquote (text_or named "")))
    server ← filled missing_server parsed.hostname
    port ← port_or_443 parsed.port
    let p = param (py.parse_qs parsed.query)
    up ← parse_mbps (p "up" or p "upmbps" or p "up_mbps")
    down ← parse_mbps (p "down" or p "downmbps" or p "down_mbps")
    ok (hysteria2_of_parts url parsed auth server port up down)

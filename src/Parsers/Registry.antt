-- ===== src/Parsers/Registry.antt =====
-- app/parsers/registry.py and __init__.py: the parsers by URL scheme, in the order of registration.
pub mod Laws
use local_singbox_manager.Common.{String, List, [], ◌∷◌, map, starts_with, strip, if◌then◌else◌}
use local_singbox_manager.Common.Json.{insert}
use local_singbox_manager.Common.Results.{Result, ok, err, ◌>>=◌}
use local_singbox_manager.Common.Python.{Python}
use local_singbox_manager.Common.Sorting.{sort_by}
use local_singbox_manager.Parsers.Errors.{ParseError, unsupported_scheme}
use local_singbox_manager.Parsers.Node.{ParsedNode, vless, hysteria2}
use local_singbox_manager.Parsers.Vless.{parse_vless}
use local_singbox_manager.Parsers.Hysteria2.{parse_hysteria2}

abbrev Registry : Type 0
Registry = List (String × (String → Result ParseError ParsedNode))

-- `@register(*schemes)` on a function
abbrev register : List String → (String → Result ParseError ParsedNode) → Registry → Registry
register [] fn registry = registry
register (scheme ∷ schemes) fn registry = register schemes fn (insert scheme fn registry)

abbrev keys_of : Registry → List String
keys_of [] = []
keys_of ((scheme, _) ∷ registry) = scheme ∷ keys_of registry

abbrev same : String → String
same s = s

-- the loop of `parse_url`, and the error after it
unfoldable pub parse_with : Registry → List String → String → Result ParseError ParsedNode
parse_with [] supported url = err (unsupported_scheme (sort_by same supported))
parse_with ((scheme, parser) ∷ registry) supported url =
    if starts_with url scheme then parser url else parse_with registry supported url

module _ ⦃py : Python⦄ where
  -- the registry after `app.parsers` has been imported: hysteria2 first, then vless
  abbrev registered : Registry
  registered =
      register ("vless://" ∷ []) (λ url. do node ← parse_vless url; ok (vless node))
        (register ("hysteria2://" ∷ "hy2://" ∷ [])
          (λ url. do node ← parse_hysteria2 url; ok (hysteria2 node)) [])

  unfoldable pub parse_url : String → Result ParseError ParsedNode
  unfolding parse_with
  parse_url url = parse_with registered (keys_of registered) (strip url)

  unfoldable pub supported_schemes : List String
  supported_schemes = sort_by same (keys_of registered)

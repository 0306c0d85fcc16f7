-- ===== src/Singbox/Routes.antt =====
-- The functions of app/singbox/routes.py.
use mathlib.Core.Bool.{false≢true}
use local_singbox_manager.Common.{
  String, Option, none, some, List, [], ◌∷◌, ◌++◌, not, is_blank, filter, ◌≡◌, sym, ap, ◌∙◌, true,
  inl, inr, Option-cases,
}
use local_singbox_manager.Common.Json.{
  Json, str, arr, Dict, object, array, texts, of_items, lookup, insert, lookup-insert_self,
  of_items-to_items,
}
use local_singbox_manager.Common.Results.{Result, ok, err, ok-injective}
use local_singbox_manager.Singbox.Presets.{
  dns_hijack_rule, route_guard_rules, RoutePreset, find_route_preset, known_route_preset,
}

-- The `ValueError`s of the generators; the payload is what the message shows.
pub data ConfigError : Type 0 where
  unknown_dns_preset unknown_route_preset unknown_log_level : String → ConfigError
  reality_without_public_key tcp_header_http unsupported_xhttp unsupported_quic : ConfigError
  unsupported_transport unknown_protocol : String → ConfigError
  no_nodes : ConfigError
  duplicate_tags reserved_tags : List String → ConfigError

-- `Optional[Mapping[str, Sequence[str]]]`
abbrev pub ProcessBypass : Type 0
ProcessBypass = Option (List (String × List String))

-- `process_bypass.get(key, [])`, without its empty items
abbrev pub bypass_items : String → List (String × List String) → List String
bypass_items key m = elim (lookup key m) [
  | none ↦ []
  | some items ↦ filter (λ item. not (is_blank item)) items
]

abbrev direct_rule : String → List String → List Json
direct_rule key [] = []
direct_rule key (x ∷ xs) = object ((key, texts (x ∷ xs)) ∷ ("outbound", str "direct") ∷ []) ∷ []

unfoldable pub build_process_bypass_rules : ProcessBypass → List Json
build_process_bypass_rules none = []
build_process_bypass_rules (some m) =
    direct_rule "process_path" (bypass_items "process_path" m)
    ++ direct_rule "process_name" (bypass_items "process_name" m)

abbrev pub items_of : Option Json → List Json
items_of (some (arr xs)) = of_items xs
items_of _ = []

-- `route.get("rules", [])`
abbrev pub rules_of : Dict → List Json
rules_of route = items_of (lookup "rules" route)

abbrev rules_with_guards : ProcessBypass → RoutePreset → List Json
rules_with_guards process_bypass preset =
    build_process_bypass_rules process_bypass
    ++ (dns_hijack_rule ∷ (route_guard_rules ++ rules_of preset.route))

-- the route of a preset with the process rules, the DNS rule and the guards before its own rules
abbrev route_with_guards : ProcessBypass → RoutePreset → Dict
route_with_guards process_bypass preset =
    insert "rules" (array (rules_with_guards process_bypass preset)) preset.route

abbrev route_of_preset : String → ProcessBypass → Option RoutePreset → Result ConfigError Dict
route_of_preset route_preset process_bypass none = err (unknown_route_preset route_preset)
route_of_preset route_preset process_bypass (some preset) =
    ok (route_with_guards process_bypass preset)

unfoldable pub build_route_config : String → ProcessBypass → Result ConfigError Dict
build_route_config route_preset process_bypass =
    route_of_preset route_preset process_bypass (find_route_preset route_preset)

-- A known preset always gives a route.
pub build_route_config_total :
    (preset : String) (bypass : ProcessBypass)
    → known_route_preset preset ≡ true
    → (route : Dict) × (build_route_config preset bypass ≡ ok route)
unfolding build_route_config known_route_preset
build_route_config_total preset bypass h = elim (Option-cases (find_route_preset preset)) [
  | inl e ↦ absurd (false≢true (rw e at h))
  | inr (p, e) ↦ (route_with_guards bypass p, rw e)
]

rules_of-route_with_guards :
    (bypass : ProcessBypass) (p : RoutePreset)
    → rules_of (route_with_guards bypass p)
      ≡ build_process_bypass_rules bypass
        ++ (dns_hijack_rule ∷ (route_guard_rules ++ rules_of p.route))
rules_of-route_with_guards bypass p =
    rw (lookup-insert_self "rules" (array (rules_with_guards bypass p)) p.route)
      (of_items-to_items (rules_with_guards bypass p))

-- The rules of a route with a process bypass are the process rules, then the rules without it.
pub build_route_config-rules :
    (preset : String) (bypass : ProcessBypass) {r r0 : Dict}
    → build_route_config preset bypass ≡ ok r
    → build_route_config preset none ≡ ok r0
    → rules_of r ≡ build_process_bypass_rules bypass ++ rules_of r0
unfolding build_route_config build_process_bypass_rules
build_route_config-rules preset bypass e e0 = elim (Option-cases (find_route_preset preset)) [
  | inl missing ↦ cc (rw missing at e)
  | inr (p, found) ↦
      rw (← ok-injective (rw found at e), ← ok-injective (rw found at e0))
        (rules_of-route_with_guards bypass p
          ∙ ap (λ rs. build_process_bypass_rules bypass ++ rs)
              (sym (rules_of-route_with_guards none p)))
]

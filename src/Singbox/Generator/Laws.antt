-- ===== src/Singbox/Generator/Laws.antt =====
-- The configuration of this host: its outbounds, where traffic goes in the end, and the place of
-- the process rules.
use local_singbox_manager.Common.{
  String, ◌≡◌, refl, sym, ◌∙◌, ap, ◌↔◌, true, false, Option, none, some, List, [], ◌∷◌, ◌++◌, map,
  arith, eq_iff, member, Distinct,
}
use local_singbox_manager.Common.Json.{
  Json, str, obj, Dict, lookup, insert, lookup-insert_self, lookup-insert_ne, object, of_fields,
  of_fields-to_fields, of_items-to_items,
}
use local_singbox_manager.Common.Results.{ok, ok-injective, >>=-eq-ok, guard->>-eq-ok}
use local_singbox_manager.Common.Python.{Python}
use local_singbox_manager.Parsers.Node.{ParsedNode, base_of}
use local_singbox_manager.Singbox.Presets.{known_dns_preset, known_route_preset}
use local_singbox_manager.Singbox.Routes.{
  unknown_dns_preset, unknown_route_preset, unknown_log_level, ProcessBypass, items_of, rules_of,
  build_process_bypass_rules, build_route_config, build_route_config_total,
  build_route_config-rules,
}
use local_singbox_manager.Singbox.Outbounds.{build_outbound}
use local_singbox_manager.Singbox.Outbounds.Laws.{build_outbound-tag}
use local_singbox_manager.Singbox.Generator.{
  log_levels, direct_and_block, config_dict, tag_value, generate_config,
}

-- what sing-box reads as the tag of one outbound
abbrev text_value : Option Json → String
text_value (some (str s)) = s
text_value _ = ""

abbrev pub outbound_tag : Json → String
outbound_tag (obj fs) = text_value (lookup "tag" (of_fields fs))
outbound_tag _ = ""

abbrev pub outbounds_of : Dict → List Json
outbounds_of config = items_of (lookup "outbounds" config)

-- the tags of the outbounds of a configuration, and its "route"
abbrev pub outbound_tags : Dict → List String
outbound_tags config = map outbound_tag (outbounds_of config)

abbrev pub route_of : Dict → Dict
route_of config = elim (lookup "route" config) [ some (obj fs) ↦ of_fields fs | _ ↦ [] ]

pub outbound_tag-object :
    (d : Dict) {s : String} → lookup "tag" d ≡ some (str s) → outbound_tag (object d) ≡ s
outbound_tag-object d e = rw (of_fields-to_fields d) (rw e)

pub route_of-config_dict :
    (level dns : String) (route : Dict) (outs : List Json)
    → route_of (config_dict level dns route outs) ≡ route
route_of-config_dict level dns route outs = of_fields-to_fields route

pub outbounds_of-config_dict :
    (level dns : String) (route : Dict) (outs : List Json)
    → outbounds_of (config_dict level dns route outs) ≡ outs
outbounds_of-config_dict level dns route outs = of_items-to_items outs

rules_of-final : (v : Json) (route : Dict) → rules_of (insert "final" v route) ≡ rules_of route
rules_of-final v route = ap items_of (lookup-insert_ne "final" "rules" v route refl)

module _ ⦃py : Python⦄ (node : ParsedNode) (dns preset level : String)
    (bypass : ProcessBypass) where
  -- what is known of a configuration that was generated
  record Generated (c : Dict) : Type 0 where
    active : Dict
    route : Dict
    dns_known : known_dns_preset dns ≡ true
    preset_known : known_route_preset preset ≡ true
    level_known : member level log_levels ≡ true
    built : build_outbound node ≡ ok active
    routed : build_route_config preset bypass ≡ ok route
    shape :
        c
        ≡ config_dict level dns
            (insert "final" (tag_value active) route)
            (object active ∷ direct_and_block)

  generate_config-Generated :
      {c : Dict} → generate_config node dns preset level bypass ≡ ok c → Generated c
  unfolding generate_config
  generate_config-Generated e =
      let (d, e1) = guard->>-eq-ok (known_dns_preset dns) (unknown_dns_preset dns) _ e in
      let (p, e2) = guard->>-eq-ok (known_route_preset preset) (unknown_route_preset preset) _ e1 in
      let (active, built, e3) = >>=-eq-ok (build_outbound node) _ e2 in
      let (route, routed, e4) = >>=-eq-ok (build_route_config preset bypass) _ e3 in
      let (l, e5) = guard->>-eq-ok (member level log_levels) (unknown_log_level level) _ e4 in
      record {
        active = active;
        route = route;
        dns_known = d;
        preset_known = p;
        level_known = l;
        built = built;
        routed = routed;
        shape = sym (ok-injective e5);
      }

  -- A generated configuration has three outbounds, the one of the node first, and the traffic that
  -- no rule takes goes to the node's outbound.
  pub generate_config-outbounds :
      {c : Dict}
      → generate_config node dns preset level bypass ≡ ok c
      → (outbound_tags c ≡ (base_of node).tag ∷ "direct" ∷ "block" ∷ [])
        × (lookup "final" (route_of c) ≡ some (str (base_of node).tag))
  generate_config-outbounds e =
      let g = generate_config-Generated e in
      let tagged = build_outbound-tag node g.built in
      rw g.shape (
        ap (map outbound_tag) (of_items-to_items (object g.active ∷ direct_and_block))
            ∙ ap (λ t. t ∷ "direct" ∷ "block" ∷ []) (outbound_tag-object g.active tagged),
        rw (of_fields-to_fields (insert "final" (tag_value g.active) g.route))
            (lookup-insert_self "final" (tag_value g.active) g.route ∙ rw (tagged, tag_value)),
      )

  -- The outbound tags of a generated configuration are distinct exactly when the node is not
  -- tagged "direct" or "block", which the generator does not test.
  pub generate_config-Distinct_iff :
      {c : Dict}
      → generate_config node dns preset level bypass ≡ ok c
      → Distinct (outbound_tags c) ↔ (member (base_of node).tag ("direct" ∷ "block" ∷ []) ≡ false)
  generate_config-Distinct_iff e =
      rw (generate_config-outbounds e).0
        (ground (arith, eq_iff "direct" (base_of node).tag, eq_iff "block" (base_of node).tag))

  -- The generator returns a configuration exactly when both presets and the log level are known
  -- and an outbound can be built for the node.
  pub generate_config-ok_iff :
      ((c : Dict) × (generate_config node dns preset level bypass ≡ ok c)) ↔ (
        (known_dns_preset dns ≡ true)
        × (known_route_preset preset ≡ true)
        × (member level log_levels ≡ true)
        × ((out : Dict) × (build_outbound node ≡ ok out)))
  unfolding generate_config
  generate_config-ok_iff = (
    λ (c, e).
        let g = generate_config-Generated e in
        (g.dns_known, g.preset_known, g.level_known, (g.active, g.built)),
    λ (d, p, l, (out, built)).
        let (route, routed) = build_route_config_total preset bypass p in
        (
          config_dict level dns (insert "final" (tag_value out) route)
              (object out ∷ direct_and_block),
          rw (d, p, built, routed, l),
        ),
  )

module _ ⦃py : Python⦄ (node : ParsedNode) (dns preset level : String)
    (bypass : ProcessBypass) where
  -- With a process bypass a configuration has the process rules first, and then the rules that it
  -- has without one.
  pub generate_config-rules :
      {c c0 : Dict}
      → generate_config node dns preset level bypass ≡ ok c
      → generate_config node dns preset level none ≡ ok c0
      → rules_of (route_of c) ≡ build_process_bypass_rules bypass ++ rules_of (route_of c0)
  generate_config-rules e e0 =
      let g = generate_config-Generated node dns preset level bypass e in
      let g0 = generate_config-Generated node dns preset level none e0 in
      rw
        (
          g.shape,
          g0.shape,
          of_fields-to_fields (insert "final" (tag_value g.active) g.route),
          of_fields-to_fields (insert "final" (tag_value g0.active) g0.route),
        )
        (rw
          (
            rules_of-final (tag_value g.active) g.route,
            rules_of-final (tag_value g0.active) g0.route,
          )
          (build_route_config-rules preset bypass g.routed g0.routed))

-- ===== src/Tests/Configs.antt =====
-- Tests of the generators of configurations.
use local_singbox_manager.Common.{
  String, ◌≡◌, refl, true, false, some, [], ◌∷◌, Distinct, All, member, map, ◌↔◌, strip, lstrip,
  rstrip, is_space,
}
use local_singbox_manager.Common.Json.{Dict, str, lookup}
use local_singbox_manager.Common.Results.{ok}
use local_singbox_manager.Common.Sorting.{sort_by, insert_by, text_leb}
use local_singbox_manager.Parsers.Node.{ParsedNode, vless}
use local_singbox_manager.Singbox.Presets.{
  find_dns_preset, find_route_preset, known_dns_preset, known_route_preset,
}
use local_singbox_manager.Singbox.Routes.{
  ProcessBypass, build_process_bypass_rules, build_route_config,
}
use local_singbox_manager.Singbox.Outbounds.{
  split_hosts, first_host, insert_vless_tls, build_vless_transport, build_vless_outbound,
  build_outbound,
}
use local_singbox_manager.Singbox.Generator.{generate_config, log_levels}
use local_singbox_manager.Singbox.Generator.Laws.{
  outbound_tags, route_of, generate_config-outbounds, generate_config-Distinct_iff,
  generate_config-ok_iff,
}
use local_singbox_manager.Singbox.ClientGenerator.{
  generate_client_config, validate_node_tags, duplicates_from, node_tag,
}
use local_singbox_manager.Singbox.ClientGenerator.Laws.{generate_client_config_sound}
use local_singbox_manager.Tests.Samples.{sample_python, sample_vless, result_or}

abbrev node : ParsedNode
node = vless sample_vless

abbrev bypass : ProcessBypass
bypass = some (("process_name", "ssh" ∷ []) ∷ [])

abbrev config : Dict
config = result_or [] (generate_config node "quad9_tls" "full_tunnel" "warn" bypass)

generated : generate_config node "quad9_tls" "full_tunnel" "warn" bypass ≡ ok config
unfolding generate_config known_dns_preset known_route_preset find_dns_preset find_route_preset
    build_route_config build_process_bypass_rules build_outbound build_vless_outbound
    insert_vless_tls build_vless_transport strip lstrip rstrip is_space split_hosts first_host
generated = refl

generate_config-outbounds_example :
    (outbound_tags config ≡ "web" ∷ "direct" ∷ "block" ∷ [])
    × (lookup "final" (route_of config) ≡ some (str "web"))
generate_config-outbounds_example =
    generate_config-outbounds node "quad9_tls" "full_tunnel" "warn" bypass generated

generate_config-Distinct_iff_example :
    Distinct (outbound_tags config) ↔ (member "web" ("direct" ∷ "block" ∷ []) ≡ false)
generate_config-Distinct_iff_example =
    generate_config-Distinct_iff node "quad9_tls" "full_tunnel" "warn" bypass generated

generate_config-ok_iff_example :
    ((c : Dict) × (generate_config node "quad9_tls" "full_tunnel" "warn" bypass ≡ ok c)) ↔ (
      (known_dns_preset "quad9_tls" ≡ true)
      × (known_route_preset "full_tunnel" ≡ true)
      × (member "warn" log_levels ≡ true)
      × ((out : Dict) × (build_outbound node ≡ ok out)))
generate_config-ok_iff_example = generate_config-ok_iff node "quad9_tls" "full_tunnel" "warn" bypass

abbrev client_config : Dict
client_config = result_or [] (generate_client_config (node ∷ []) "full_tunnel" "quad9_tls" "warn")

generated_client :
    generate_client_config (node ∷ []) "full_tunnel" "quad9_tls" "warn" ≡ ok client_config
unfolding generate_client_config validate_node_tags duplicates_from sort_by insert_by text_leb
    known_dns_preset known_route_preset find_dns_preset find_route_preset build_route_config
    build_process_bypass_rules build_outbound build_vless_outbound insert_vless_tls
    build_vless_transport strip lstrip rstrip is_space split_hosts first_host
generated_client = refl

generate_client_config_sound_example :
    Distinct (outbound_tags client_config)
    × ((f : String) × (lookup "final" (route_of client_config) ≡ some (str f))
        × (member f (outbound_tags client_config) ≡ true))
    × All (λ s. member s (outbound_tags client_config) ≡ true) (map node_tag (node ∷ []))
generate_client_config_sound_example =
    generate_client_config_sound (node ∷ []) "full_tunnel" "quad9_tls" "warn" client_config
      generated_client

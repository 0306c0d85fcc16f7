-- ===== src/Singbox/Generator.antt =====
-- `generate_config` of app/singbox/generator.py: the configuration of this host.
pub mod Laws
use local_singbox_manager.Common.{
  String, Bool, true, false, Option, none, some, List, [], ◌∷◌, member, if◌then◌else◌,
}
use local_singbox_manager.Common.Json.{Json, bool, str, null, Dict, object, array, lookup, insert}
use local_singbox_manager.Common.Results.{Result, ok, err, ◌>>=◌, ◌>>◌, guard}
use local_singbox_manager.Common.Python.{Python}
use local_singbox_manager.Parsers.Node.{ParsedNode}
use local_singbox_manager.Singbox.Presets.{
  find_dns_preset, known_dns_preset, known_route_preset, tun_inbound,
}
use local_singbox_manager.Singbox.Routes.{
  ConfigError, unknown_dns_preset, unknown_route_preset, unknown_log_level, ProcessBypass,
  build_route_config,
}
use local_singbox_manager.Singbox.Outbounds.{build_outbound}

abbrev pub log_levels : List String
log_levels = "error" ∷ "warn" ∷ "info" ∷ "debug" ∷ []

abbrev pub direct_and_block : List Json
direct_and_block =
    object (("type", str "direct") ∷ ("tag", str "direct") ∷ [])
    ∷ object (("type", str "block") ∷ ("tag", str "block") ∷ [])
    ∷ []

-- `DNS_PRESETS[name]["config"]`, for a name that was checked
abbrev pub dns_config_of : String → Dict
dns_config_of name = elim (find_dns_preset name) [ none ↦ [] | some preset ↦ preset.config ]

-- `active["tag"]`
abbrev tag_value : Dict → Json
tag_value out = elim (lookup "tag" out) [ none ↦ null | some v ↦ v ]

-- the dictionary that both generators return
abbrev pub config_dict : String → String → Dict → List Json → Dict
config_dict log_level dns_preset route outbounds =
    ("log", object (("level", str log_level) ∷ ("timestamp", bool true) ∷ []))
    ∷ ("dns", object (dns_config_of dns_preset))
    ∷ ("inbounds", array (object tun_inbound ∷ []))
    ∷ ("route", object route)
    ∷ ("outbounds", array outbounds)
    ∷ []

module _ ⦃py : Python⦄ where
  unfoldable pub generate_config :
      ParsedNode → String → String → String → ProcessBypass → Result ConfigError Dict
  generate_config node dns_preset route_preset log_level process_bypass = do
    guard (known_dns_preset dns_preset) (unknown_dns_preset dns_preset)
    guard (known_route_preset route_preset) (unknown_route_preset route_preset)
    active ← build_outbound node
    route ← build_route_config route_preset process_bypass
    let final = insert "final" (tag_value active) route
    guard (member log_level log_levels) (unknown_log_level log_level)
    ok (config_dict log_level dns_preset final (object active ∷ direct_and_block))

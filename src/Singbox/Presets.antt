-- ===== src/Singbox/Presets.antt =====
-- app/singbox/dns.py, inbounds.py and the constants of routes.py. `copy.deepcopy` of a constant is
-- the constant: values of the model are not shared.
use local_singbox_manager.Common.{String, Bool, true, Option, is_some, List, [], ◌∷◌}
use local_singbox_manager.Common.Json.{
  Json, bool, nat, str, arr, nil, Dict, object, array, texts, lookup,
}

pub record DnsPreset : Type 0 where
  pub label : String
  pub description : String
  pub config : Dict

pub record RoutePreset : Type 0 where
  pub label : String
  pub description : String
  pub route : Dict

abbrev pub default_dns_preset : String
default_dns_preset = "quad9_tls"

abbrev pub default_route_preset : String
default_route_preset = "full_tunnel"

-- the value of "config" for one resolver
abbrev dns_config : String → String → Dict
dns_config tag server =
    (
      "servers",
      array (
          object (
            ("type", str "tls")
            ∷ ("tag", str tag)
            ∷ ("server", str server)
            ∷ ("server_port", nat 853)
            ∷ [])
          ∷ []),
    )
    ∷ ("final", str tag)
    ∷ []

abbrev pub dns_presets : List (String × DnsPreset)
dns_presets =
    (
      "quad9_tls",
      record {
        label = "Quad9 (DoT)";
        description = "Privacy-focused, blocks malware domains";
        config = dns_config "quad9" "9.9.9.9";
      },
    )
    ∷ (
      "cloudflare_tls",
      record {
        label = "Cloudflare (DoT)";
        description = "Fast global resolver";
        config = dns_config "cf" "1.1.1.1";
      },
    )
    ∷ (
      "google_tls",
      record {
        label = "Google (DoT)";
        description = "Google Public DNS over TLS";
        config = dns_config "google" "8.8.8.8";
      },
    )
    ∷ []

abbrev pub tun_inbound : Dict
tun_inbound =
    ("type", str "tun")
    ∷ ("tag", str "tun-in")
    ∷ ("interface_name", str "singtun0")
    ∷ ("address", texts ("172.19.0.1/30" ∷ []))
    ∷ ("mtu", nat 1400)
    ∷ ("auto_route", bool true)
    ∷ ("strict_route", bool true)
    ∷ ("auto_redirect", bool true)
    ∷ ("stack", str "gvisor")
    ∷ []

abbrev pub dns_hijack_rule : Json
dns_hijack_rule = object (("port", nat 53) ∷ ("action", str "hijack-dns") ∷ [])

abbrev pub route_guard_rules : List Json
route_guard_rules =
    object
      (("domain", texts ("api.oneme.ru" ∷ "calls.okcdn.ru" ∷ [])) ∷ ("outbound", str "block") ∷ [])
    ∷ object (
        (
          "domain",
          texts (
              "ifconfig.me" ∷ "api.ipify.org" ∷ "checkip.amazonaws.com" ∷ "icanhazip.com"
              ∷ "wtfismyip.com" ∷ []),
        )
        ∷ ("outbound", str "block")
        ∷ [])
    ∷ object (
        ("domain_suffix", texts (".ru" ∷ ".su" ∷ []))
        ∷ ("domain", texts ("gosuslugi.ru" ∷ []))
        ∷ ("outbound", str "direct")
        ∷ [])
    ∷ []

-- one entry of "rule_set"
abbrev rule_set : String → String → Json
rule_set tag url = object (
    ("tag", str tag)
    ∷ ("type", str "remote")
    ∷ ("format", str "binary")
    ∷ ("url", str url)
    ∷ ("download_detour", str "direct")
    ∷ ("update_interval", str "7d")
    ∷ [])

abbrev private_direct_rule : Json
private_direct_rule = object (("ip_is_private", bool true) ∷ ("outbound", str "direct") ∷ [])

abbrev pub route_presets : List (String × RoutePreset)
route_presets =
    (
      "full_tunnel",
      record {
        label = "Full Tunnel";
        description = "All traffic through VPN";
        route = ("rules", arr nil) ∷ ("auto_detect_interface", bool true) ∷ [];
      },
    )
    ∷ (
      "bypass_lan",
      record {
        label = "Bypass LAN";
        description = "LAN / RFC1918 addresses go direct; everything else through VPN";
        route =
            ("rules", array (private_direct_rule ∷ [])) ∷ ("auto_detect_interface", bool true) ∷ [];
      },
    )
    ∷ (
      "bypass_ru",
      record {
        label = "Bypass Russia";
        description =
            "Russian IPs and domains go direct; everything else through VPN. Rule sets are downloaded by sing-box on first use (~10 MB, cached).";
        route =
            (
              "rule_set",
              array (
                  rule_set "geoip-ru"
                    "https://raw.githubusercontent.com/SagerNet/sing-geoip/rule-set/geoip-ru.srs"
                  ∷ rule_set "geosite-ru"
                      "https://raw.githubusercontent.com/SagerNet/sing-geosite/rule-set/geosite-ru.srs"
                  ∷ []),
            )
            ∷ (
              "rules",
              array (
                  object (
                    ("rule_set", texts ("geoip-ru" ∷ "geosite-ru" ∷ []))
                    ∷ ("outbound", str "direct")
                    ∷ [])
                  ∷ private_direct_rule
                  ∷ []),
            )
            ∷ ("auto_detect_interface", bool true)
            ∷ [];
      },
    )
    ∷ []

-- `DNS_PRESETS.get(name)` and `ROUTE_PRESETS.get(name)`
unfoldable pub find_dns_preset : String → Option DnsPreset
find_dns_preset name = lookup name dns_presets

unfoldable pub find_route_preset : String → Option RoutePreset
find_route_preset name = lookup name route_presets

-- `name in DNS_PRESETS` and `name in ROUTE_PRESETS`
unfoldable pub known_dns_preset : String → Bool
known_dns_preset name = is_some (find_dns_preset name)

unfoldable pub known_route_preset : String → Bool
known_route_preset name = is_some (find_route_preset name)

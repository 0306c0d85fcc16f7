-- ===== src/Tests/Parsers.antt =====
-- Tests of Parsers.
use local_singbox_manager.Common.{none, String, ◌≡◌, refl, strip, lstrip, rstrip, is_space}
use local_singbox_manager.Common.Results.{ok}
use local_singbox_manager.Parsers.Node.{vless, base_of}
use local_singbox_manager.Parsers.Vless.{parse_vless, vless_of_parts, normalize_transport_type}
use local_singbox_manager.Parsers.Registry.{parse_url, parse_with}
use local_singbox_manager.Parsers.Registry.Laws.{
  IsComplete, HasScheme, parse_url_sound, parse_url-raw_url,
}
use local_singbox_manager.Tests.Samples.{sample_python, sample_vless}

abbrev url : String
url = "vless://uuid@server:443#web"

parsed : parse_url url ≡ ok (vless (record sample_vless { flow = none }))
unfolding parse_url parse_with parse_vless vless_of_parts normalize_transport_type strip lstrip
    rstrip is_space
parsed = refl

parse_url_sound_example :
    IsComplete (vless (record sample_vless { flow = none }))
    × ((base_of (vless (record sample_vless { flow = none }))).raw_url ≡ strip url)
    × HasScheme (strip url) (vless (record sample_vless { flow = none }))
parse_url_sound_example = parse_url_sound url parsed

parse_url-raw_url_example :
    parse_url (base_of (vless (record sample_vless { flow = none }))).raw_url
    ≡ ok (vless (record sample_vless { flow = none }))
parse_url-raw_url_example = parse_url-raw_url url parsed

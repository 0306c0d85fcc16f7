-- ===== src/Tests/Data.antt =====
-- Tests of Config, of Services.Servers, and of what reads forms, logs and rows of nodes.
use mathlib.Core.Bool.{false≢true}
use local_singbox_manager.Common.{
  String, ◌≡◌, ◌≤◌, refl, sym, ap, true, none, some, List, [], ◌∷◌, arith, All, Distinct, member,
  any, length, split_on, replace_char, strip, lstrip, rstrip, is_space, is_file_char, is_control,
  ◌==◌,
}
use local_singbox_manager.Common.Json.{pos}
use local_singbox_manager.Common.Results.{ok}
use local_singbox_manager.Common.Integers.{has_int}
use local_singbox_manager.Common.Pairwise.{Pairwise}
use local_singbox_manager.Config.{TelegramSettings, code_of_comma, code_of_semicolon, admin_ids}
use local_singbox_manager.Config.Laws.{names, admin_ids-has}
use local_singbox_manager.Singbox.Host.{completed}
use local_singbox_manager.Services.Servers.{allowed_aliases}
use local_singbox_manager.Services.Servers.Probe.{Remote, probe_server}
use local_singbox_manager.Services.Servers.Laws.{IsTold, probe_server-IsTold}
use local_singbox_manager.Services.LogInsights.{Patterns, buckets_of, parse_line}
use local_singbox_manager.Services.LogInsights.Laws.{
  total_where, lines_where, passes, is_kind, kind_of_line, Differ, buckets_of-counted_lines,
}
use local_singbox_manager.Services.AppBypass.{
  BypassEntry, clean_process, parse_process_match, is_valid_app_id,
}
use local_singbox_manager.Services.AppBypass.Form.{
  DesktopApp, max_entries, catalog_app, selected_entry, custom_entries, form_entries,
  build_entries_from_form,
}
use local_singbox_manager.Services.AppBypass.Form.Laws.{ids_of, build_entries_from_form_sound}
use local_singbox_manager.Services.Nodes.{add_or_update_node}
use local_singbox_manager.Services.Nodes.Keys.{HaveKeys}
use local_singbox_manager.Services.Nodes.Lookup.{no_geo}
use local_singbox_manager.Services.Nodes.Steps.{added, NodeStep-HaveKeys}
use local_singbox_manager.Tests.Bots.{sample_pydantic}
use local_singbox_manager.Tests.Samples.{sample_python, sample_python-IsFresh, sample_db, result_or}

abbrev telegram_settings : TelegramSettings
telegram_settings = record {
  bot_token = "";
  chat_id = "";
  admin_ids_raw = "aa, b; ";
  admin_bot_enabled = true;
}

admin_ids-has_example :
    has_int (pos 2) (admin_ids telegram_settings)
    ≡ any (names (pos 2)) (split_on code_of_comma (replace_char code_of_semicolon "," "aa, b; "))
admin_ids-has_example = admin_ids-has (pos 2) telegram_settings

abbrev remote : Remote
remote = record {
  ssh = λ alias. completed 0 "[]" "";
  splitlines = λ s. s ∷ [];
  is_alias = λ s. true;
  is_listen = λ s. true;
  is_bandwidth = λ s. true;
}

probe_server-IsTold_example :
    IsTold (probe_server remote "aeza").0
    × All (λ (a : String). member a allowed_aliases ≡ true) (probe_server remote "aeza").1
probe_server-IsTold_example = probe_server-IsTold remote "aeza"

abbrev patterns : Patterns
patterns = record {
  open_connection = λ line. none;
  closed_reason = λ line. none;
  dial_timeout = λ line. none;
  dns = λ line. none;
  unsupported_udp = λ line. some "web";
}

buckets_of-counted_lines_example :
    (total_where (λ k. k.0 == "dns") (buckets_of patterns ("a" ∷ "b" ∷ []) [])
      ≡ lines_where patterns
          (λ line. passes (λ k. k.0 == "dns") (parse_line patterns line))
          ("a" ∷ "b" ∷ []))
    × (total_where (λ k. k.0 == "routing") (buckets_of patterns ("a" ∷ "b" ∷ []) [])
        ≡ lines_where patterns
            (λ line. is_kind "routing" (kind_of_line patterns line))
            ("a" ∷ "b" ∷ []))
    × Pairwise Differ (buckets_of patterns ("a" ∷ "b" ∷ []) [])
buckets_of-counted_lines_example =
    buckets_of-counted_lines patterns (λ k. k.0 == "dns") "routing" ("a" ∷ "b" ∷ [])

abbrev app : DesktopApp
app = record { app_id = "usr:x.desktop"; name = "X"; process_name = "x"; process_path = none }

abbrev entries : List BypassEntry
entries =
    result_or [] (build_entries_from_form ("usr:x.desktop" ∷ []) [] ("ssh" ∷ "ssh" ∷ []) (app ∷ []))

builds :
    build_entries_from_form ("usr:x.desktop" ∷ []) [] ("ssh" ∷ "ssh" ∷ []) (app ∷ []) ≡ ok entries
unfolding build_entries_from_form form_entries custom_entries selected_entry catalog_app
    parse_process_match is_valid_app_id clean_process strip lstrip rstrip is_space is_file_char
    is_control
builds = refl

build_entries_from_form_sound_example : Distinct (ids_of entries) × (length entries ≤ max_entries)
build_entries_from_form_sound_example =
    build_entries_from_form_sound ("usr:x.desktop" ∷ []) [] ("ssh" ∷ "ssh" ∷ []) (app ∷ []) builds

sample_nodes-HaveKeys : HaveKeys sample_db.nodes
sample_nodes-HaveKeys = (
  (((λ e. omega (arith, e)), (λ e. false≢true (ap (λ (s : String). s == "web") (sym e)))), tt),
  (tt, tt),
)

NodeStep-HaveKeys_example :
    HaveKeys
      (add_or_update_node sample_pydantic
        (λ s. no_geo)
        (λ e. "")
        sample_db
        "vless://uuid@server").0.nodes
NodeStep-HaveKeys_example =
    NodeStep-HaveKeys sample_pydantic (λ s. no_geo) (λ e. "") (λ s. s) sample_python-IsFresh
      (added sample_db "vless://uuid@server") sample_nodes-HaveKeys

-- ===== src/Tests/Telegram.antt =====
-- Tests of the Telegram bot and of the files that it sends.
use Prim.Native.Nat.{◌<◌, ◌≤◌}
use local_singbox_manager.Common.{
  String, ◌≡◌, ◌↔◌, refl, arith, subst, false, none, some, List, [], ◌∷◌, map, All, Distinct,
  text_length, is_empty, strip, lstrip, rstrip, is_space, Option,
}
use local_singbox_manager.Common.Json.{ℤ, Dict}
use local_singbox_manager.Common.Results.{ok, ok-injective}
use local_singbox_manager.Common.Sorting.{sort_by, insert_by, text_leb}
use local_singbox_manager.Singbox.Presets.{
  find_dns_preset, find_route_preset, known_dns_preset, known_route_preset,
}
use local_singbox_manager.Singbox.Routes.{build_process_bypass_rules, build_route_config}
use local_singbox_manager.Singbox.Outbounds.{
  split_hosts, first_host, insert_vless_tls, build_vless_transport, build_vless_outbound,
  build_outbound,
}
use local_singbox_manager.Singbox.ClientGenerator.{
  generate_client_config, validate_node_tags, duplicates_from,
}
use local_singbox_manager.Store.Models.{Database}
use local_singbox_manager.Store.Users as UserRows
use local_singbox_manager.Store.Nodes as NodeRows
use local_singbox_manager.Store.Audit.{add_admin_action}
use local_singbox_manager.Singbox.Generator.{generate_config}
use local_singbox_manager.Singbox.Host.{validate_config, run, run_helper, is_active, result_of}
use local_singbox_manager.Singbox.Deployer.{
  deploy_with_rollback, run_deploy, wait_service_active, config_hash, user_message,
}
use local_singbox_manager.Services.Settings.{get_setting, presets, singbox_log_level}
use local_singbox_manager.Services.AppBypass.{
  process_bypass_for_config, load_bypass_entries, entries_from_json,
}
use local_singbox_manager.Services.Deploy.{activate_node, record_result, add_log, mark_active}
use local_singbox_manager.Services.NodeTags.{decode_node_tags}
use local_singbox_manager.Services.Nodes.{deserialize_node, normalize_vless_payload}
use local_singbox_manager.Services.Distribution.{
  get_user_assignment, assignment_from_group, nodes_of_tags, count_distinct, delivery_count,
  effective_refresh_limit,
}
use local_singbox_manager.Services.ClientConfigs.{
  ClientConfigDocument, tag_of, profile_name, profile_of, sbclient_profiles,
  build_client_config_document,
}
use local_singbox_manager.Services.ClientConfigs.Laws.{IsUsable, sbclient_profiles-ok_iff}
use local_singbox_manager.Telegram.Types.{ParsedCommand, BotResponse}
use local_singbox_manager.Telegram.Client.{message_limit, message_chunks}
use local_singbox_manager.Telegram.Client.Laws.{joined, message_chunks-joined}
use local_singbox_manager.Telegram.Users.{name_or_unknown, actor_of, handle_user}
use local_singbox_manager.Telegram.Users.Laws.{IsLogged, handle_user-IsLogged}
use local_singbox_manager.Telegram.Users.Window.{within}
use local_singbox_manager.Telegram.Users.Limit.{Arrival, file_times, file_times_bounded}
use local_singbox_manager.Telegram.Users.Delivery.{file_answer, handle_user-config}
use local_singbox_manager.Telegram.Dispatcher.{handle}
use local_singbox_manager.Telegram.Dispatcher.Laws.{IsHarmless, handle-IsHarmless}
use local_singbox_manager.Telegram.Admins.{default_admin_deps, handle_admin}
use local_singbox_manager.Telegram.Admins.Laws.{Effect, handle_admin-Effect}
use local_singbox_manager.Telegram.Runner.{run_polls, Answers}
use local_singbox_manager.Telegram.Runner.Laws.{
  NoRepeat, Ascending, offset_after, IsAnswer, run_polls-NoRepeat,
}
use local_singbox_manager.Tests.Samples.{sample_python, sample_db, result_or}
use local_singbox_manager.Tests.Bots.{
  sample_pydantic, sample_env, sample_probes, sample_message, error_name, sample_bot, sample_api,
  sample_runner, sample_answers,
}

abbrev command : ParsedCommand
command = record { name = "/config"; arg = "" }

handle_user-IsLogged_example :
    IsLogged sample_db
      (actor_of sample_message)
      (name_or_unknown command)
      (get_user_assignment sample_db (actor_of sample_message))
      (handle_user sample_pydantic error_name sample_db sample_message command)
handle_user-IsLogged_example =
    handle_user-IsLogged sample_pydantic error_name sample_db sample_message command

abbrev arrivals : List (Arrival sample_pydantic error_name)
arrivals = (1, (sample_message, command)) ∷ (2, (sample_message, command)) ∷ []

file_times_bounded_example :
    within 0 (file_times sample_pydantic error_name sample_db "7" arrivals)
    ≤ (get_user_assignment sample_db "7").refresh_limit_per_hour
file_times_bounded_example =
    file_times_bounded sample_pydantic error_name arrivals sample_db "7" 0
      (omega arith, (omega arith, tt))

clean : (get_user_assignment sample_db (actor_of sample_message)).error ≡ ""
unfolding get_user_assignment assignment_from_group UserRows.get_user_by_telegram_id
    UserRows.get_group decode_node_tags nodes_of_tags count_distinct sort_by insert_by text_leb
    known_route_preset find_route_preset strip lstrip rstrip is_space actor_of
clean = refl

below :
    delivery_count sample_db (actor_of sample_message) 0
    < (get_user_assignment sample_db (actor_of sample_message)).refresh_limit_per_hour
unfolding get_user_assignment assignment_from_group UserRows.get_user_by_telegram_id
    UserRows.get_group decode_node_tags nodes_of_tags count_distinct sort_by insert_by text_leb
    known_route_preset find_route_preset strip lstrip rstrip is_space actor_of delivery_count
    effective_refresh_limit
below = omega arith

abbrev no_document : ClientConfigDocument
no_document = record { filename = ""; content = ""; mime_type = ""; caption = "" }

abbrev file : ClientConfigDocument
file = result_or no_document (
    build_client_config_document sample_pydantic
      (get_user_assignment sample_db (actor_of sample_message)))

file_made :
    build_client_config_document sample_pydantic
      (get_user_assignment sample_db (actor_of sample_message))
    ≡ ok file
unfolding get_user_assignment assignment_from_group UserRows.get_user_by_telegram_id
    UserRows.get_group decode_node_tags nodes_of_tags count_distinct sort_by insert_by text_leb
    known_route_preset find_route_preset strip lstrip rstrip is_space actor_of
    build_client_config_document deserialize_node normalize_vless_payload generate_client_config
    validate_node_tags duplicates_from known_dns_preset find_dns_preset build_route_config
    build_process_bypass_rules build_outbound build_vless_outbound insert_vless_tls
    build_vless_transport split_hosts first_host
file_made = refl

handle_user-config_example :
    (handle_user sample_pydantic error_name sample_db sample_message command).1
    ≡ file_answer sample_pydantic error_name
        (get_user_assignment sample_db (actor_of sample_message))
        file
handle_user-config_example =
    handle_user-config sample_pydantic error_name sample_db sample_message command file refl clean
      below file_made

sbclient_profiles-ok_iff_example :
    (sbclient_profiles sample_pydantic (get_user_assignment sample_db "7") ≡ ok []) ↔ (
      All (IsUsable sample_pydantic) (sort_by tag_of (get_user_assignment sample_db "7").nodes)
      × Distinct (map profile_name (sort_by tag_of (get_user_assignment sample_db "7").nodes))
      × ([]
          ≡ map
              (profile_of (get_user_assignment sample_db "7").route_preset)
              (sort_by tag_of (get_user_assignment sample_db "7").nodes)))
sbclient_profiles-ok_iff_example =
    sbclient_profiles-ok_iff sample_pydantic (get_user_assignment sample_db "7") []

handle-IsHarmless_example :
    IsHarmless sample_bot sample_db sample_message []
      (handle sample_bot sample_db sample_message [])
handle-IsHarmless_example = handle-IsHarmless sample_bot sample_db sample_message [] refl

message_chunks-joined_example :
    (joined (message_chunks "hello") ≡ "hello")
    × All (λ (chunk : String). text_length chunk ≤ message_limit) (message_chunks "hello")
    × (is_empty (message_chunks "hello") ≡ false)
message_chunks-joined_example = message_chunks-joined "hello"

-- the same type for the answers and for what follows
on_same :
    (updates : List Dict)
    → sample_answers none ≡ ok updates
    → IsAnswer sample_bot sample_api none updates
on_same updates e =
    subst (λ (us : List Dict). IsAnswer sample_bot sample_api none us) (ok-injective e)
      (tt, (omega arith, tt))

on_next :
    (offset : ℤ) (updates : List Dict)
    → sample_answers (some offset) ≡ ok updates
    → IsAnswer sample_bot sample_api (some offset) updates
on_next offset updates e =
    subst (λ (us : List Dict). IsAnswer sample_bot sample_api (some offset) us) (ok-injective e) tt

for_offset :
    (offset : Option ℤ) (updates : List Dict)
    → sample_answers offset ≡ ok updates
    → IsAnswer sample_bot sample_api offset updates
for_offset none updates e = on_same updates e
for_offset (some offset) updates e = on_next offset updates e

abbrev turns : List Answers
turns = sample_answers ∷ sample_answers ∷ []

run_polls-NoRepeat_example :
    NoRepeat (run_polls sample_bot sample_api turns sample_runner).1
    × Ascending none (run_polls sample_bot sample_api turns sample_runner).1
    × ((run_polls sample_bot sample_api turns sample_runner).0.offset
        ≡ offset_after none (run_polls sample_bot sample_api turns sample_runner).1)
run_polls-NoRepeat_example =
    run_polls-NoRepeat sample_bot sample_api turns sample_runner (for_offset, (for_offset, tt))

abbrev activate_command : ParsedCommand
activate_command = record { name = "/activate"; arg = "a" }

abbrev no_answer : Database × BotResponse
no_answer = (sample_db, record { accepted = false; text = ""; document = none })

abbrev activated : Database × BotResponse
activated =
    result_or no_answer
      (handle_admin (default_admin_deps sample_env sample_probes) sample_db sample_message
        activate_command []).0

admin_returns :
    (handle_admin
      (default_admin_deps sample_env sample_probes)
      sample_db
      sample_message
      activate_command
      []).0
    ≡ ok (activated.0, activated.1)
unfolding handle_admin default_admin_deps NodeRows.find_by_id_or_tag NodeRows.get_by_id
    NodeRows.get_by_tag add_admin_action activate_node deserialize_node normalize_vless_payload
    generate_config known_dns_preset known_route_preset find_dns_preset find_route_preset
    build_route_config build_process_bypass_rules build_outbound build_vless_outbound
    insert_vless_tls build_vless_transport strip lstrip rstrip is_space split_hosts first_host
    presets singbox_log_level get_setting process_bypass_for_config load_bypass_entries
    entries_from_json deploy_with_rollback run_deploy wait_service_active config_hash
    validate_config run_helper run is_active result_of record_result add_log mark_active
    user_message
admin_returns = refl

handle_admin-Effect_example :
    Effect sample_db (actor_of sample_message) activate_command activated.0 activated.1
handle_admin-Effect_example =
    handle_admin-Effect sample_env sample_probes sample_db sample_message activate_command []
      activated.0 activated.1 admin_returns

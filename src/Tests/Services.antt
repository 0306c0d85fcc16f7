-- ===== src/Tests/Services.antt =====
-- Tests of Services.
use local_singbox_manager.Common.{
  String, ◌≡◌, refl, true, false, none, List, [], ◌∷◌, Distinct, All, ◌==◌, if◌then◌else◌, strip,
  lstrip, rstrip, is_space, is_blank,
}
use local_singbox_manager.Common.Results.{ok}
use local_singbox_manager.Common.Sorting.{sort_by, insert_by, text_leb}
use local_singbox_manager.Singbox.Presets.{
  find_dns_preset, find_route_preset, known_dns_preset, known_route_preset,
}
use local_singbox_manager.Singbox.Routes.{build_process_bypass_rules, build_route_config}
use local_singbox_manager.Singbox.Outbounds.{
  split_hosts, first_host, insert_vless_tls, build_vless_transport, build_vless_outbound,
  build_outbound,
}
use local_singbox_manager.Singbox.Generator.{generate_config}
use local_singbox_manager.Singbox.Host.{validate_config, run, run_helper, is_active, result_of}
use local_singbox_manager.Singbox.Deployer.{
  deploy_with_rollback, run_deploy, wait_service_active, config_hash, user_message,
}
use local_singbox_manager.Store.Models.{Database}
use local_singbox_manager.Store.Nodes as NodeRows
use local_singbox_manager.Store.Profiles as ProfileRows
use local_singbox_manager.Store.Users as UserRows
use local_singbox_manager.Services.NodeTags.{listed, parse_node_tags, decode_node_tags}
use local_singbox_manager.Services.NodeTags.Laws.{IsClean, parse_node_tags_sound}
use local_singbox_manager.Services.Settings.{get_setting, set_setting, presets, singbox_log_level}
use local_singbox_manager.Services.Settings.Laws.{get_setting-set_setting}
use local_singbox_manager.Services.AppBypass.{
  process_bypass_for_config, load_bypass_entries, entries_from_json,
}
use local_singbox_manager.Services.AppBypass.Laws.{process_bypass_for_config-clean}
use local_singbox_manager.Services.Nodes.{deserialize_node, normalize_vless_payload}
use local_singbox_manager.Services.Deploy.{
  ActivationResult, activate_node, record_result, add_log, mark_active,
}
use local_singbox_manager.Services.Deploy.Laws.{Activated, activate_node-Activated}
use local_singbox_manager.Services.Profiles.{ProfileMutationResult, refused, activate_profile}
use local_singbox_manager.Services.Profiles.Laws.{
  ProfileActivated, activate_profile-ProfileActivated,
}
use local_singbox_manager.Services.Distribution.{
  get_user_assignment, assignment_from_group, nodes_of_tags, count_distinct,
}
use local_singbox_manager.Services.Distribution.Laws.{IsEntitled, get_user_assignment-IsEntitled}
use local_singbox_manager.Tests.Bots.{sample_env}
use local_singbox_manager.Tests.Samples.{sample_python, sample_node, sample_db, result_or}

parse_node_tags_sound_example :
    All IsClean (parse_node_tags (listed (" a " ∷ "a" ∷ "" ∷ [])))
    × Distinct (parse_node_tags (listed (" a " ∷ "a" ∷ "" ∷ [])))
parse_node_tags_sound_example = parse_node_tags_sound (listed (" a " ∷ "a" ∷ "" ∷ []))

get_setting-set_setting_example :
    get_setting "a" "d" (set_setting "a" "1" sample_db)
    ≡ (if "a" == "a" then "1" else get_setting "a" "d" sample_db)
get_setting-set_setting_example = get_setting-set_setting "a" "a" "1" "d" sample_db

process_bypass_for_config-clean_example :
    (names : List String) × (paths : List String) × (process_bypass_for_config sample_db
      ≡ ("process_name", names) ∷ ("process_path", paths) ∷ [])
    × Distinct names
    × All (λ x. is_blank x ≡ false) names
    × Distinct paths
    × All (λ x. is_blank x ≡ false) paths
process_bypass_for_config-clean_example = process_bypass_for_config-clean sample_db

served : (get_user_assignment sample_db "7").error ≡ ""
unfolding get_user_assignment assignment_from_group UserRows.get_user_by_telegram_id
    UserRows.get_group decode_node_tags nodes_of_tags count_distinct sort_by insert_by text_leb
    known_route_preset find_route_preset strip lstrip rstrip is_space
served = refl

get_user_assignment-IsEntitled_example :
    IsEntitled sample_db "7" (get_user_assignment sample_db "7")
get_user_assignment-IsEntitled_example = get_user_assignment-IsEntitled sample_db "7" served

abbrev no_result : ActivationResult
no_result = record { accepted = false; message = ""; deploy_result = none }

abbrev activation : Database × ActivationResult
activation =
    result_or (sample_db, no_result) (activate_node sample_env sample_db sample_node none []).0

activation_returns :
    (activate_node sample_env sample_db sample_node none []).0 ≡ ok (activation.0, activation.1)
unfolding activate_node deserialize_node normalize_vless_payload generate_config known_dns_preset
    known_route_preset find_dns_preset find_route_preset build_route_config
    build_process_bypass_rules build_outbound build_vless_outbound insert_vless_tls
    build_vless_transport strip lstrip rstrip is_space split_hosts first_host presets
    singbox_log_level get_setting process_bypass_for_config load_bypass_entries entries_from_json
    deploy_with_rollback run_deploy wait_service_active config_hash validate_config run_helper run
    is_active result_of record_result add_log mark_active user_message
activation_returns = refl

activate_node-Activated_example : Activated sample_db sample_node none activation.0 activation.1
activate_node-Activated_example =
    activate_node-Activated sample_env sample_db sample_node none [] activation.0 activation.1
      activation_returns

abbrev profile_activation : Database × ProfileMutationResult
profile_activation =
    result_or (sample_db, refused "") (activate_profile sample_env sample_db 1 []).0

profile_returns :
    (activate_profile sample_env sample_db 1 []).0 ≡ ok (profile_activation.0, profile_activation.1)
unfolding activate_profile ProfileRows.get_by_id NodeRows.get_by_tag set_setting activate_node
    deserialize_node normalize_vless_payload generate_config known_dns_preset known_route_preset
    find_dns_preset find_route_preset build_route_config build_process_bypass_rules build_outbound
    build_vless_outbound insert_vless_tls build_vless_transport strip lstrip rstrip is_space
    split_hosts first_host presets singbox_log_level get_setting process_bypass_for_config
    load_bypass_entries entries_from_json deploy_with_rollback run_deploy wait_service_active
    config_hash validate_config run_helper run is_active result_of record_result add_log mark_active
    user_message
profile_returns = refl

profile_accepted : profile_activation.1.accepted ≡ true
unfolding activate_profile ProfileRows.get_by_id NodeRows.get_by_tag set_setting activate_node
    deserialize_node normalize_vless_payload generate_config known_dns_preset known_route_preset
    find_dns_preset find_route_preset build_route_config build_process_bypass_rules build_outbound
    build_vless_outbound insert_vless_tls build_vless_transport strip lstrip rstrip is_space
    split_hosts first_host presets singbox_log_level get_setting process_bypass_for_config
    load_bypass_entries entries_from_json deploy_with_rollback run_deploy wait_service_active
    config_hash validate_config run_helper run is_active result_of record_result add_log mark_active
    user_message
profile_accepted = refl

activate_profile-ProfileActivated_example : ProfileActivated sample_db 1 profile_activation.0
activate_profile-ProfileActivated_example =
    activate_profile-ProfileActivated sample_env sample_db 1 [] profile_activation.0
      profile_activation.1 profile_returns profile_accepted

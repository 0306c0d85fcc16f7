-- ===== src/Tests/Users.antt =====
-- Tests of Services.Users.
use local_singbox_manager.Common.{
  ◌≡◌, refl, true, false, some, [], ◌∷◌, All, member, strip, lstrip, rstrip, is_space,
}
use local_singbox_manager.Common.Results.{ok}
use local_singbox_manager.Singbox.Presets.{find_route_preset, known_route_preset}
use local_singbox_manager.Singbox.ClientGenerator.{reserved_client_outbound_tags}
use local_singbox_manager.Store.Models.{Database}
use local_singbox_manager.Store.Users as Rows
use local_singbox_manager.Services.NodeTags.{
  listed, parse_node_tags, decode_node_tags, encode_node_tags, collect,
}
use local_singbox_manager.Services.Distribution.{delivery_count, get_user_assignment}
use local_singbox_manager.Services.Users.Forms.{
  MutationResult, ConfigGroupInput, ManagedUserInput, finish, has_node, validated_node_tags,
  validated_route_preset, checked_route_preset, parse_optional_positive_int, parse_group_id,
}
use local_singbox_manager.Services.Users.Forms.Laws.{validated_node_tags_sound}
use local_singbox_manager.Services.Users.Notify.{Telegram, sent}
use local_singbox_manager.Services.Users.Groups.{
  create_group, update_group, delete_group, checked_group, updated_group, config_changed,
  sets_differ, next_version,
}
use local_singbox_manager.Services.Users.Groups.Laws as Groups
use local_singbox_manager.Services.Users.Groups.Effects.{
  delete_group-assignment, update_group-delivery_count,
}
use local_singbox_manager.Services.Users.Accounts.{create_user, checked_user}
use local_singbox_manager.Services.Users.Accounts.Laws as Accounts
use local_singbox_manager.Tests.Samples.{
  sample_python, sample_python-IsFresh, sample_group, sample_user, sample_db, result_or,
}

abbrev form : ConfigGroupInput
form = record {
  name = " family ";
  description = "";
  node_tags = some ("web" ∷ []);
  route_preset = "";
  refresh_limit_per_hour = "111";
  notes = "";
  enabled = false;
}

abbrev empty_db : Database
empty_db = record sample_db { groups = []; users = [] }

abbrev no_mutation : MutationResult
no_mutation = record { accepted = false; message = "" }

abbrev created : Database × MutationResult
created = result_or (empty_db, no_mutation) (create_group empty_db form)

creates : create_group empty_db form ≡ ok (created.0, created.1)
unfolding create_group finish checked_group validated_node_tags parse_node_tags collect
    checked_route_preset validated_route_preset known_route_preset find_route_preset
    parse_optional_positive_int encode_node_tags Rows.get_group_by_name strip lstrip rstrip is_space
creates = refl

GroupStep-AreValid_example : Groups.AreValid created.0.groups
GroupStep-AreValid_example =
    Groups.GroupStep-AreValid sample_python-IsFresh
      (Groups.created empty_db form created.0 created.1 creates)
      (record { differ = tt; usable = tt })

abbrev user_form : ManagedUserInput
user_form = record {
  telegram_id = " 7 ";
  display_name = "";
  config_group_id = "1";
  refresh_limit_per_hour = "";
  notes = "";
  enabled = true;
}

abbrev created_user : Database × MutationResult
created_user = result_or (empty_db, no_mutation) (create_user empty_db user_form)

creates_user : create_user empty_db user_form ≡ ok (created_user.0, created_user.1)
unfolding create_user finish checked_user parse_optional_positive_int parse_group_id
    Rows.get_user_by_telegram_id strip lstrip rstrip is_space
creates_user = refl

UserStep-AreValid_example : Accounts.AreValid created_user.0.users
UserStep-AreValid_example =
    Accounts.UserStep-AreValid sample_python-IsFresh
      (Accounts.created empty_db user_form created_user.0 created_user.1 creates_user)
      (record { differ = tt; usable = tt })

group_found : Rows.get_group 1 sample_db ≡ some sample_group
unfolding Rows.get_group
group_found = refl

user_found : Rows.get_user_by_telegram_id "7" sample_db ≡ some sample_user
unfolding Rows.get_user_by_telegram_id
user_found = refl

delete_group-assignment_example :
    (get_user_assignment (delete_group sample_db 1).0 "7").error ≡ "No config group assigned."
delete_group-assignment_example =
    delete_group-assignment sample_db 1 sample_group "7" sample_user group_found user_found refl
      refl

abbrev bot : Telegram
bot = record { configured = true; send = λ chat message. sent }

abbrev updated : Database × MutationResult
updated = result_or (sample_db, no_mutation) (update_group bot sample_db 1 form)

updates : update_group bot sample_db 1 form ≡ ok (updated.0, updated.1)
unfolding update_group Rows.get_group Rows.get_group_name_duplicate updated_group config_changed
    sets_differ next_version decode_node_tags finish checked_group validated_node_tags
    parse_node_tags collect checked_route_preset validated_route_preset known_route_preset
    find_route_preset parse_optional_positive_int encode_node_tags strip lstrip rstrip is_space
updates = refl

update_group-delivery_count_example :
    delivery_count updated.0 "7" 5 ≡ delivery_count sample_db "7" 5
update_group-delivery_count_example =
    update_group-delivery_count bot sample_db 1 form updated.0 updated.1 "7" 5 updates

web_valid : validated_node_tags sample_db ("web" ∷ []) ≡ ok ("web" ∷ [])
unfolding validated_node_tags parse_node_tags collect strip lstrip rstrip is_space
web_valid = refl

validated_node_tags_sound_example :
    ("web" ∷ [] ≡ parse_node_tags (listed ("web" ∷ [])))
    × All (λ tag. has_node sample_db tag ≡ true) ("web" ∷ [])
    × All (λ tag. member tag reserved_client_outbound_tags ≡ false) ("web" ∷ [])
validated_node_tags_sound_example = validated_node_tags_sound sample_db ("web" ∷ []) web_valid

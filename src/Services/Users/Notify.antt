-- ===== src/Services/Users/Notify.antt =====
-- `notify_group_config_changed` of app/services/users.py: one message and one row for each user.
use local_singbox_manager.Common.{
  String, Bool, true, false, Option, none, some, List, [], ◌∷◌, ◌++◌, ◌⧺◌, map, is_empty, or_none,
  if◌then◌else◌,
}
use local_singbox_manager.Common.Json.{ℤ}
use local_singbox_manager.Common.Python.{Python}
use local_singbox_manager.Store.Models.{
  current_timestamp, Node, ConfigGroup, ManagedUser, ConfigDeliveryLog, Database,
}
use local_singbox_manager.Store.Users
use local_singbox_manager.Services.NodeTags.{decode_node_tags}
use local_singbox_manager.Services.Distribution.{config_fingerprint, nodes_of_tags, preset_of}

-- what `TelegramApiClient.send_message` does: it returns, raises TypeError or ValueError, or raises
-- another exception, whose type has this name
pub data Sent : Type 0 where
  sent : Sent
  bad_value : Sent
  failed : String → Sent

-- the bot: whether its token is set, and its answer to a message for a chat
pub record Telegram : Type 0 where
  pub configured : Bool
  pub send : ℤ → String → Sent

module _ ⦃py : Python⦄ (bot : Telegram) where
  abbrev attempt : Option ℤ → String → Sent
  attempt none message = bad_value
  attempt (some chat) message = bot.send chat message

  abbrev outcome : Sent → Bool × String
  outcome sent = (true, "config change notification sent")
  outcome bad_value = (false, "invalid Telegram ID")
  outcome (failed name) = (false, "notification failed: " ⧺ name)

  unfoldable pub notify_user : String → ManagedUser → Bool × String
  notify_user message user =
      if bot.configured
      then outcome (attempt (py.int_of user.telegram_id) message)
      else (false, "Telegram bot token is not configured")

  abbrev pub delivery_row :
      Database → ConfigGroup → String → String → ManagedUser → ConfigDeliveryLog
  delivery_row db group fingerprint message user =
      let (success, detail) = notify_user message user in
      record {
        id = py.new_id (map (λ (l : ConfigDeliveryLog). l.id) db.deliveries);
        created_at = current_timestamp db.now;
        managed_user_id = some user.id;
        telegram_id = user.telegram_id;
        config_group_id = some group.id;
        action = "notify_config_changed";
        success = success;
        config_version = some group.config_version;
        config_fingerprint = or_none fingerprint;
        detail = some detail;
      }

  -- `for user in users: …; db.add(…)`
  unfoldable pub notify_users :
      ConfigGroup → String → String → List ManagedUser → Database → Database
  notify_users group fingerprint message [] db = db
  notify_users group fingerprint message (user ∷ users) db =
      notify_users group fingerprint message users (record db {
        deliveries = db.deliveries ++ delivery_row db group fingerprint message user ∷ [];
      })

  abbrev pub change_message : ConfigGroup → String
  change_message group =
      "Assigned config changed for group '" ⧺ group.name
      ⧺ "'.\nUse /refresh to get the latest config."

  abbrev fingerprint_of : List Node → String → String
  fingerprint_of nodes preset = if is_empty nodes then "" else config_fingerprint nodes preset

  unfoldable pub notify_group_config_changed : ConfigGroup → Database → Database
  notify_group_config_changed group db =
      notify_users group
        (fingerprint_of (nodes_of_tags (decode_node_tags group.node_tags_json) db)
          (preset_of group))
        (change_message group) (Users.list_enabled_users_for_group group.id db) db

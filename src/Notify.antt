-- ===== src/Notify.antt =====
-- app/notify.py: which channels a notification goes to, and what is sent.
pub mod Laws
use local_singbox_manager.Common.{
  ℕ, String, Bool, true, false, not, ◌&&◌, ◌||◌, Option, none, some, List, [], ◌∷◌, ◌++◌, ◌⧺◌, ◌==◌,
  is_blank, is_code, rstrip_by, if◌then◌else◌,
}
use local_singbox_manager.Common.Json.{lookup}
use local_singbox_manager.Config.{AppSettings}

-- what is sent: a desktop notification, a message of Telegram, a message to an ntfy topic
pub data Sent : Type 0 where
  notify_send : String → String → String → Sent
  telegram : String → String → String → Sent
  ntfy : String → String → String → String → String → Sent

abbrev pub or_default : String → String → List (String × String) → String
or_default key default m = elim (lookup key m) [ none ↦ default | some v ↦ v ]

abbrev pub ntfy_priority : List (String × String)
ntfy_priority = ("info", "default") ∷ ("warning", "high") ∷ ("critical", "urgent") ∷ []

abbrev pub send_urgency : List (String × String)
send_urgency = ("info", "normal") ∷ ("warning", "normal") ∷ ("critical", "critical") ∷ []

abbrev pub ntfy_tags : List (String × String)
ntfy_tags =
    ("info", "white_check_mark") ∷ ("warning", "warning") ∷ ("critical", "rotating_light") ∷ []

module _ (settings : AppSettings) where
  -- `bool(TELEGRAM_BOT_TOKEN and TELEGRAM_CHAT_ID)`
  abbrev pub telegram_ready : Bool
  telegram_ready =
      not (is_blank settings.telegram.bot_token) && not (is_blank settings.telegram.chat_id)

  abbrev pub ntfy_ready : Bool
  ntfy_ready = not (is_blank settings.notifications.ntfy_topic)

  unfoldable pub send_desktop : String → String → String → List Sent
  send_desktop title body level =
      notify_send (or_default level "normal" send_urgency) title body ∷ []

  unfoldable pub send_telegram : String → String → List Sent
  send_telegram title body =
      if telegram_ready
      then telegram settings.telegram.bot_token settings.telegram.chat_id
          ("<b>" ⧺ title ⧺ "</b>\n" ⧺ body)
        ∷ []
      else []

  abbrev pub ntfy_url : String
  ntfy_url =
      rstrip_by (is_code 47) settings.notifications.ntfy_server
      ⧺ "/"
      ⧺ settings.notifications.ntfy_topic

  unfoldable pub send_ntfy : String → String → String → List Sent
  send_ntfy title body level =
      if ntfy_ready
      then ntfy ntfy_url title body (or_default level "default" ntfy_priority)
          (or_default level "bell" ntfy_tags)
        ∷ []
      else []

  -- `_dispatch`; an exception of a channel does not reach the others
  unfoldable pub dispatch : String → String → String → List Sent
  unfolding send_desktop send_telegram send_ntfy
  dispatch title body level =
      send_desktop title body level ++ send_telegram title body ++ send_ntfy title body level

  -- `fire`, with whether an event loop runs
  unfoldable pub fire : Bool → String → String → String → List Sent
  unfolding dispatch
  fire running title body level = if running then dispatch title body level else []

  pub record ChannelsStatus : Type 0 where
    pub desktop : Bool
    pub telegram_on : Bool
    pub telegram_chat_id : String
    pub ntfy_on : Bool
    pub ntfy_server : String
    pub ntfy_topic : String

  -- `channels_status`, with whether `notify-send` is installed
  unfoldable pub channels_status : Bool → ChannelsStatus
  channels_status installed = record {
    desktop = installed;
    telegram_on = telegram_ready;
    telegram_chat_id = if telegram_ready then settings.telegram.chat_id else "";
    ntfy_on = ntfy_ready;
    ntfy_server = if ntfy_ready then settings.notifications.ntfy_server else "";
    ntfy_topic = settings.notifications.ntfy_topic;
  }

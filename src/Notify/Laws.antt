-- ===== src/Notify/Laws.antt =====
-- The channels that a notification goes to.
use local_singbox_manager.Common.{
  ◌≡◌, refl, String, Bool, List, [], ◌∷◌, ◌++◌, map, Bool-cases, inl, inr, if◌then◌else◌,
}
use local_singbox_manager.Config.{AppSettings}
use local_singbox_manager.Notify.{
  Sent, notify_send, telegram, ntfy, telegram_ready, ntfy_ready, send_desktop, send_telegram,
  send_ntfy, dispatch, channels_status,
}

abbrev pub channel_of : Sent → String
channel_of (notify_send urgency title body) = "notify-send"
channel_of (telegram token chat_id text) = "telegram"
channel_of (ntfy url title body priority tags) = "ntfy"

-- the channels that the settings page shows as configured
abbrev pub shown : AppSettings → Bool → List String
shown settings installed =
    let status = channels_status settings installed in
    (if status.telegram_on then "telegram" ∷ [] else [])
    ++ (if status.ntfy_on then "ntfy" ∷ [] else [])

-- A notification goes to the desktop and to exactly those channels that the status shows as configured.
pub dispatch-channels_status :
    (settings : AppSettings) (installed : Bool) (title body level : String)
    → map channel_of (dispatch settings title body level) ≡ "notify-send" ∷ shown settings installed
unfolding dispatch channels_status send_desktop send_telegram send_ntfy
dispatch-channels_status settings installed title body level =
    elim (Bool-cases (telegram_ready settings)) [
      | inl t ↦ elim (Bool-cases (ntfy_ready settings)) [
        | inl n ↦ rw (t, n) refl
        | inr n ↦ rw (t, n) refl
      ]
      | inr t ↦ elim (Bool-cases (ntfy_ready settings)) [
        | inl n ↦ rw (t, n) refl
        | inr n ↦ rw (t, n) refl
      ]
    ]

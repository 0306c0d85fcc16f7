-- ===== src/Telegram/Client.antt =====
-- app/telegram/client.py: what is posted to Telegram's API.
pub mod Laws
use local_singbox_manager.Common.{
  ℕ, zero, suc, String, Bool, true, false, List, [], ◌∷◌, is_blank, take_text, drop_text,
  text_length, if◌then◌else◌,
}
use local_singbox_manager.Common.Json.{ℤ}
use local_singbox_manager.Telegram.Types.{TelegramDocument}

-- `sendMessage` and `sendDocument` with their payloads
pub data Post : Type 0 where
  message : ℤ → String → Post
  document : ℤ → String → String → String → String → Post

-- Telegram: whether a post succeeds, or raises, after those before it, newest first
abbrev pub Api : Type 0
Api = List Post → Post → Bool

abbrev pub message_limit : ℕ
message_limit = 3900

abbrev pub caption_limit : ℕ
caption_limit = 1024

-- `[text[i:i + 3900] for i in range(0, len(text), 3900)]`, in at most `fuel` pieces
unfoldable pub pieces : ℕ → String → List String
pieces zero s = []
pieces (suc fuel) s =
    let rest = pieces fuel (drop_text message_limit s) in
    if is_blank s then [] else take_text message_limit s ∷ rest

abbrev pub or_empty : List String → List String
or_empty [] = "" ∷ []
or_empty (chunk ∷ chunks) = chunk ∷ chunks

unfoldable pub message_chunks : String → List String
unfolding pieces
message_chunks text = or_empty (pieces (text_length text) text)

-- the posts of the chunks, up to the first that raises, and whether none did
unfoldable pub post_chunks : Api → ℤ → List String → List Post → Bool × List Post
post_chunks api chat_id [] posts = (true, posts)
post_chunks api chat_id (chunk ∷ chunks) posts =
    let post = message chat_id chunk in
    let rest = post_chunks api chat_id chunks (post ∷ posts) in
    if api posts post then rest else (false, post ∷ posts)

unfoldable pub send_message : Api → ℤ → String → List Post → Bool × List Post
unfolding message_chunks post_chunks
send_message api chat_id text posts = post_chunks api chat_id (message_chunks text) posts

unfoldable pub send_document : Api → ℤ → TelegramDocument → List Post → Bool × List Post
send_document api chat_id d posts =
    let post =
      document chat_id d.filename d.content d.mime_type (take_text caption_limit d.caption) in
    (api posts post, post ∷ posts)

-- ===== src/Telegram/Runner.antt =====
-- `TelegramBotRunner` of app/telegram/bot.py: polling for updates, and answering each.
pub mod Laws
use local_singbox_manager.Common.{
  ℕ, zero, suc, ◌+◌, String, Bool, true, false, Option, none, some, List, [], ◌∷◌, ◌++◌, is_blank,
  if◌then◌else◌,
}
use local_singbox_manager.Common.Json.{ℤ, pos, negsuc, Json, Dict, lookup, obj, of_fields}
use local_singbox_manager.Common.Integers.{int_of_found}
use local_singbox_manager.Common.Python.{Python}
use local_singbox_manager.Common.Results.{Result, ok, err}
use local_singbox_manager.Store.Models.{Database}
use local_singbox_manager.Singbox.Host.{Event}
use local_singbox_manager.Services.AppBypass.{falsy}
use local_singbox_manager.Telegram.Types.{
  TelegramMessage, TelegramDocument, BotResponse, from_api_message,
}
use local_singbox_manager.Telegram.Admins.{HandlerCrash}
use local_singbox_manager.Telegram.Client.{Post, Api, send_message, send_document}
use local_singbox_manager.Telegram.Dispatcher.{Bot, handle}

-- what the runner and its handlers keep between updates; events and posts newest first
pub record Runner : Type 0 where
  pub offset : Option ℤ
  pub db : Database
  pub past : List Event
  pub posts : List Post

-- the exceptions that end a poll
pub data PollCrash : Type 0 where
  get_updates_failed : String → PollCrash
  no_update_id no_message : PollCrash
  in_handler : HandlerCrash → PollCrash
  send_failed : PollCrash

-- a turn: what is kept, the exception that ended it, and the ids of the updates that were taken up
abbrev pub Turn : Type 0
Turn = Runner × (Option PollCrash × List ℤ)

-- what `getUpdates` gives for an offset, or raises
abbrev pub Answers : Type 0
Answers = Option ℤ → Result String (List Dict)

abbrev pub next_int : ℤ → ℤ
next_int (pos n) = pos (suc n)
next_int (negsuc zero) = pos zero
next_int (negsuc (suc n)) = negsuc n

-- `update.get("message") or {}`; `none` for a value that is no dictionary
abbrev pub message_of : Option Json → Option Dict
message_of none = some []
message_of (some (obj fields)) = some (of_fields fields)
message_of (some j) = if falsy j then some [] else none

abbrev send_text : Api → ℤ → String → List Post → Bool × List Post
send_text api chat_id text posts =
    if is_blank text then (true, posts) else send_message api chat_id text posts

-- a document that is not delivered is only logged
abbrev then_document : Api → ℤ → Option TelegramDocument → Bool × List Post → Bool × List Post
then_document api chat_id none sent = sent
then_document api chat_id (some d) (false, posts) = (false, posts)
then_document api chat_id (some d) (true, posts) = (true, (send_document api chat_id d posts).1)

unfoldable pub send_response : Api → ℤ → BotResponse → List Post → Bool × List Post
unfolding send_message send_document
send_response api chat_id response posts =
    then_document api chat_id response.document (send_text api chat_id response.text posts)

module _ ⦃py : Python⦄ (bot : Bot) (api : Api) where
  abbrev pub sent : Runner → Bool × List Post → Runner × Option PollCrash
  sent r (true, posts) = (record r { posts = posts }, none)
  sent r (false, posts) = (record r { posts = posts }, some send_failed)

  abbrev pub responded :
      Runner
      → ℤ
      → Result HandlerCrash (Database × Option BotResponse) × List Event
      → Runner × Option PollCrash
  responded r chat_id (err e, next) = (record r { past = next }, some (in_handler e))
  responded r chat_id (ok (db, none), next) = (record r { db = db; past = next }, none)
  responded r chat_id (ok (db, some response), next) =
      sent (record r { db = db; past = next }) (send_response api chat_id response r.posts)

  abbrev pub in_chat : Runner → TelegramMessage → Option ℤ → Runner × Option PollCrash
  in_chat r m none = (r, none)
  in_chat r m (some chat_id) = responded r chat_id (handle bot r.db m r.past)

  abbrev pub with_message : Runner → Option Dict → Runner × Option PollCrash
  with_message r none = (r, some no_message)
  with_message r (some raw) = let m = from_api_message raw in in_chat r m m.chat_id

  abbrev pub after_update : ℤ → Turn → Runner × Option PollCrash → Turn
  after_update id rest (r, some e) = (r, (some e, id ∷ []))
  after_update id (r', (e, ids)) (r, none) = (r', (e, id ∷ ids))

  -- one update whose id is known
  unfoldable pub take_update : Runner → ℤ → Dict → Runner × Option PollCrash
  unfolding from_api_message handle send_response
  take_update r id update =
      with_message (record r { offset = some (next_int id) }) (message_of (lookup "message" update))

  abbrev pub update_id : Dict → Option ℤ
  update_id update = int_of_found (lookup "update_id" update)

  -- `int(update["update_id"])`, which may raise
  abbrev pub with_id : Runner → Option ℤ → (ℤ → Turn) → Turn
  with_id r none next = (r, (some no_update_id, []))
  with_id r (some id) next = next id

  -- the loop of `poll_once`; an exception leaves the rest of the updates
  unfoldable pub take_updates : Runner → List Dict → Turn
  unfolding take_update
  take_updates r [] = (r, (none, []))
  take_updates r (update ∷ updates) = with_id r (update_id update) λ id.
      after_update id (take_updates (take_update r id update).0 updates) (take_update r id update)

  abbrev pub polled : Runner → Result String (List Dict) → Turn
  polled r (err text) = (r, (some (get_updates_failed text), []))
  polled r (ok updates) = take_updates r updates

  unfoldable pub poll_once : Answers → Runner → Turn
  unfolding take_updates
  poll_once answers r = polled r (answers r.offset)

  -- the turns of `run_forever`, which goes on after an exception
  unfoldable pub run_polls : List Answers → Runner → Runner × List ℤ
  unfolding poll_once
  run_polls [] r = (r, [])
  run_polls (answers ∷ later) r =
      let (r1, (e, ids)) = poll_once answers r in
      let (r2, others) = run_polls later r1 in (r2, ids ++ others)

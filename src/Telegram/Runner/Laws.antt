-- ===== src/Telegram/Runner/Laws.antt =====
-- Which updates the runner takes up.
use local_singbox_manager.Common.{
  zero, suc, ◌≡◌, ◌≢◌, refl, sym, ap, subst, ◌∙◌, arith, Bool, String, true, false, ◌≤◌, Option,
  none, some, List, [], ◌∷◌, ◌++◌, All, All-map,
}
use local_singbox_manager.Common.Json.{ℤ, pos, negsuc, Dict, lookup}
use local_singbox_manager.Common.Python.{Python}
use local_singbox_manager.Common.Results.{Result, ok, err}
use local_singbox_manager.Telegram.Types.{TelegramMessage, BotResponse, from_api_message}
use local_singbox_manager.Telegram.Client.{Post, Api}
use local_singbox_manager.Telegram.Dispatcher.{Bot, handle}
use local_singbox_manager.Telegram.Admins.{HandlerCrash}
use local_singbox_manager.Singbox.Host.{Event}
use local_singbox_manager.Store.Models.{Database}
use local_singbox_manager.Telegram.Runner.{
  Runner, PollCrash, Turn, Answers, next_int, message_of, sent, responded, in_chat, with_message,
  with_id, after_update, take_update, update_id, take_updates, polled, poll_once, run_polls,
}

-- the order of integers
abbrev pub IsLe : ℤ → ℤ → Type 0
IsLe (pos a) (pos b) = a ≤ b
IsLe (pos a) (negsuc b) = ⊥
IsLe (negsuc a) (pos b) = Unit {0}
IsLe (negsuc a) (negsuc b) = b ≤ a

IsLe-trans : (a b c : ℤ) → IsLe a b → IsLe b c → IsLe a c
IsLe-trans (pos a) (pos b) (pos c) h k = omega arith
IsLe-trans (pos a) (pos b) (negsuc c) h k = k
IsLe-trans (pos a) (negsuc b) c h k = absurd h
IsLe-trans (negsuc a) (pos b) (pos c) h k = tt
IsLe-trans (negsuc a) (pos b) (negsuc c) h k = absurd k
IsLe-trans (negsuc a) (negsuc b) (pos c) h k = tt
IsLe-trans (negsuc a) (negsuc b) (negsuc c) h k = omega arith

le_next : (a b : ℤ) → IsLe (next_int a) b → IsLe a b
le_next (pos a) (pos b) h = omega arith
le_next (pos a) (negsuc b) h = h
le_next (negsuc a) (pos b) h = tt
le_next (negsuc zero) (negsuc b) h = absurd h
le_next (negsuc (suc a)) (negsuc b) h = omega arith

not_next : (a : ℤ) → IsLe (next_int a) a → ⊥
not_next (pos a) h = omega arith
not_next (negsuc zero) h = h
not_next (negsuc (suc a)) h = omega arith

-- not before the offset, where there is one
abbrev pub AtLeast : Option ℤ → ℤ → Type 0
AtLeast none id = Unit {0}
AtLeast (some offset) id = IsLe offset id

-- ids from the offset on, each after the one before
abbrev pub Ascending : Option ℤ → List ℤ → Type 0
Ascending offset [] = Unit {0}
Ascending offset (id ∷ ids) = AtLeast offset id × Ascending (some (next_int id)) ids

-- no two ids agree
abbrev pub NoRepeat : List ℤ → Type 0
NoRepeat [] = Unit {0}
NoRepeat (id ∷ ids) = All (λ (later : ℤ). id ≢ later) ids × NoRepeat ids

abbrev pub offset_after : Option ℤ → List ℤ → Option ℤ
offset_after offset [] = offset
offset_after offset (id ∷ ids) = offset_after (some (next_int id)) ids

Ascending-All :
    (offset : ℤ) (ids : List ℤ) → Ascending (some offset) ids → All (λ (id : ℤ). IsLe offset id) ids
Ascending-All offset [] h = tt
Ascending-All offset (id ∷ ids) (at, h) = (
  at,
  All-map (λ later k. IsLe-trans offset id later at (le_next id later k)) ids
      (Ascending-All (next_int id) ids h),
)

Ascending-NoRepeat : (offset : Option ℤ) (ids : List ℤ) → Ascending offset ids → NoRepeat ids
Ascending-NoRepeat offset [] h = tt
Ascending-NoRepeat offset (id ∷ ids) (at, h) = (
  All-map (λ later k e. not_next id (subst (λ (x : ℤ). IsLe (next_int id) x) (sym e) k)) ids
      (Ascending-All (next_int id) ids h),
  Ascending-NoRepeat (some (next_int id)) ids h,
)

Ascending-append :
    (offset : Option ℤ) (xs ys : List ℤ)
    → Ascending offset xs
    → Ascending (offset_after offset xs) ys
    → Ascending offset (xs ++ ys)
Ascending-append offset [] ys h k = k
Ascending-append offset (x ∷ xs) ys (at, h) k = (at, Ascending-append (some (next_int x)) xs ys h k)

offset_after-append :
    (offset : Option ℤ) (xs ys : List ℤ)
    → offset_after offset (xs ++ ys) ≡ offset_after (offset_after offset xs) ys
offset_after-append offset [] ys = refl
offset_after-append offset (x ∷ xs) ys = offset_after-append (some (next_int x)) xs ys

module _ ⦃py : Python⦄ (bot : Bot) (api : Api) where
  sent-offset : (r : Runner) (out : Bool × List Post) → (sent bot api r out).0.offset ≡ r.offset
  sent-offset r (true, posts) = refl
  sent-offset r (false, posts) = refl

  responded-offset :
      (r : Runner) (chat_id : ℤ)
      (out : Result HandlerCrash (Database × Option BotResponse) × List Event)
      → (responded bot api r chat_id out).0.offset ≡ r.offset
  responded-offset r chat_id (err e, next) = refl
  responded-offset r chat_id (ok (db, none), next) = refl
  responded-offset r chat_id (ok (db, some response), next) =
      sent-offset (record r { db = db; past = next }) _

  in_chat-offset :
      (r : Runner) (m : TelegramMessage) (chat : Option ℤ)
      → (in_chat bot api r m chat).0.offset ≡ r.offset
  in_chat-offset r m none = refl
  in_chat-offset r m (some chat_id) = responded-offset r chat_id (handle bot r.db m r.past)

  with_message-offset :
      (r : Runner) (raw : Option Dict) → (with_message bot api r raw).0.offset ≡ r.offset
  with_message-offset r none = refl
  with_message-offset r (some raw) = in_chat-offset r (from_api_message raw) _

  take_update-offset :
      (r : Runner) (id : ℤ) (update : Dict)
      → (take_update bot api r id update).0.offset ≡ some (next_int id)
  unfolding take_update
  take_update-offset r id update =
      with_message-offset (record r { offset = some (next_int id) })
        (message_of (lookup "message" update))

  -- an id is not before the offset, and the rest follows it; without an id the updates are not read further
  abbrev pub Continues : Option ℤ → Option ℤ → (ℤ → Type 0) → Type 0
  Continues offset none rest = Unit {0}
  Continues offset (some id) rest = AtLeast offset id × rest id

  -- updates as Telegram gives them for an offset: none before it, with increasing ids
  abbrev pub IsAnswer : Option ℤ → List Dict → Type 0
  IsAnswer offset [] = Unit {0}
  IsAnswer offset (update ∷ updates) =
      Continues offset (update_id bot api update) λ id. IsAnswer (some (next_int id)) updates

  abbrev IsTaken : Option ℤ → Turn → Type 0
  IsTaken offset (r, (e, ids)) = Ascending offset ids × (r.offset ≡ offset_after offset ids)

  after_update-IsTaken :
      (offset : Option ℤ) (id : ℤ) (rest : Turn) (out : Runner × Option PollCrash)
      → AtLeast offset id
      → out.0.offset ≡ some (next_int id)
      → IsTaken (some (next_int id)) rest
      → IsTaken offset (after_update bot api id rest out)
  after_update-IsTaken offset id rest (r, some e) at o t = ((at, tt), o)
  after_update-IsTaken offset id (r', (e, ids)) (r, none) at o (ascending, last) =
      ((at, ascending), last)

  take_updates-IsTaken :
      (r : Runner) (updates : List Dict)
      → IsAnswer r.offset updates
      → IsTaken r.offset (take_updates bot api r updates)
  unfolding take_updates
  take_updates-IsTaken r [] h = (tt, refl)
  take_updates-IsTaken r (update ∷ updates) h = by_id (update_id bot api update) h (λ id at later.
      let out = take_update bot api r id update in
      let o = take_update-offset r id update in
      after_update-IsTaken r.offset id (take_updates bot api out.0 updates) out at o (
        subst (λ (x : Option ℤ). IsTaken x (take_updates bot api out.0 updates)) o
          (take_updates-IsTaken out.0 updates
            (subst (λ (x : Option ℤ). IsAnswer x updates) (sym o) later))))
    where
      by_id :
          (o : Option ℤ)
          → Continues r.offset o (λ id. IsAnswer (some (next_int id)) updates)
          → ((id : ℤ)
              → AtLeast r.offset id
              → IsAnswer (some (next_int id)) updates
              → IsTaken r.offset (
                  after_update bot api id
                    (take_updates bot api (take_update bot api r id update).0 updates)
                    (take_update bot api r id update)))
          → IsTaken r.offset (
              with_id bot api r o λ id.
                after_update bot api id
                  (take_updates bot api (take_update bot api r id update).0 updates)
                  (take_update bot api r id update))
      by_id none k f = (tt, refl)
      by_id (some id) (at, later) f = f id at later

  -- Telegram answers every offset in this way.
  abbrev pub AreAnswers : List Answers → Type 0
  AreAnswers [] = Unit {0}
  AreAnswers (answers ∷ later) =
      ((offset : Option ℤ) (updates : List Dict)
        → answers offset ≡ ok updates
        → IsAnswer offset updates)
      × AreAnswers later

  polled-IsTaken :
      (r : Runner) (m : Result String (List Dict))
      → ((updates : List Dict) → m ≡ ok updates → IsAnswer r.offset updates)
      → IsTaken r.offset (polled bot api r m)
  polled-IsTaken r (err text) h = (tt, refl)
  polled-IsTaken r (ok updates) h = take_updates-IsTaken r updates (h updates refl)

  run_polls-IsTaken :
      (turns : List Answers) (r : Runner)
      → AreAnswers turns
      → Ascending r.offset (run_polls bot api turns r).1
        × ((run_polls bot api turns r).0.offset
            ≡ offset_after r.offset (run_polls bot api turns r).1)
  unfolding run_polls poll_once
  run_polls-IsTaken [] r h = (tt, refl)
  run_polls-IsTaken (answers ∷ later) r (a, h) =
      let turn = polled bot api r (answers r.offset) in
      let (ascending, last) = polled-IsTaken r (answers r.offset) (a r.offset) in
      let (others, end) = run_polls-IsTaken later turn.0 h in
      (
        Ascending-append r.offset turn.1.1 _ ascending
            (subst (λ (x : Option ℤ). Ascending x (run_polls bot api later turn.0).1) last others),
        end
            ∙ ap (λ (x : Option ℤ). offset_after x (run_polls bot api later turn.0).1) last
            ∙ sym (offset_after-append r.offset turn.1.1 _),
      )

  -- If Telegram answers each offset with updates from it on and in the order of their ids, then over any
  -- number of polls, whether they end in an exception or not, the updates taken up have increasing ids, so that none
  -- is taken up twice, and the offset kept is just after the last of them.
  pub run_polls-NoRepeat :
      (turns : List Answers) (r : Runner)
      → AreAnswers turns
      → NoRepeat (run_polls bot api turns r).1
        × Ascending r.offset (run_polls bot api turns r).1
        × ((run_polls bot api turns r).0.offset
            ≡ offset_after r.offset (run_polls bot api turns r).1)
  run_polls-NoRepeat turns r h =
      let (ascending, last) = run_polls-IsTaken turns r h in
      (Ascending-NoRepeat r.offset _ ascending, ascending, last)

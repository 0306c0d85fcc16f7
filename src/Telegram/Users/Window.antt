-- ===== src/Telegram/Users/Window.antt =====
-- Times in a window, and the deliveries that count in it.
use local_singbox_manager.Common.{
  ℕ, ◌*◌, ◌/◌, ltb, eq_refl, ◌+◌, ◌≤◌, ◌<◌, ◌≡◌, refl, ap, ◌∙◌, arith, String, Bool, true, false,
  ◌&&◌, some, List, [], ◌∷◌, ◌++◌, leb, length, length-append, filter, member, if◌then◌else◌,
}
use local_singbox_manager.Store.Models.{
  second, current_timestamp, ManagedUser, ConfigDeliveryLog, Database,
}
use local_singbox_manager.Services.Distribution.{
  UserAssignment, hour, delivery_actions, counts, over_limit, delivery_count,
  refresh_limit_exceeded,
}
use local_singbox_manager.Services.Distribution.Laws.{filter-append}

pub below : (limit n : ℕ) → leb limit n ≡ false → n < limit
below limit n e = ground arith

pub exceeded :
    (db : Database) (who : String) (a : UserAssignment) (u : ManagedUser)
    → a.user ≡ some u
    → u.telegram_id ≡ who
    → refresh_limit_exceeded db a db.now
      ≡ leb a.refresh_limit_per_hour (delivery_count db who db.now)
unfolding refresh_limit_exceeded
exceeded db who a u f g =
    ap (over_limit db a.refresh_limit_per_hour db.now) f
    ∙ ap (λ (x : String). leb a.refresh_limit_per_hour (delivery_count db x db.now)) g

-- the times that are at most 3599 seconds after `start`, and not before it
abbrev pub in_window : ℕ → ℕ → Bool
in_window start time = leb start time && leb time (start + 3599 * 1000000)

abbrev pub within : ℕ → List ℕ → ℕ
within start times = length (filter (in_window start) times)

pub within-cons :
    (start now : ℕ) (times : List ℕ) (b : Bool)
    → within start (if b then now ∷ times else times)
      ≡ (if b && in_window start now then 1 else 0) + within start times
within-cons start now times true = ground arith
within-cons start now times false = omega arith

pub count-append :
    (db : Database) (who : String) (later : ℕ) (row : ConfigDeliveryLog)
    → delivery_count (record db { deliveries = db.deliveries ++ row ∷ [] }) who later
      ≡ delivery_count db who later + (if counts who later row then 1 else 0)
unfolding delivery_count
count-append db who later row =
    ap length (filter-append (counts who later) db.deliveries (row ∷ []))
    ∙ length-append (filter (counts who later) db.deliveries) _
    ∙ ap (λ (n : ℕ). length (filter (counts who later) db.deliveries) + n) (length-last row)
  where
    length-last :
        (r : ConfigDeliveryLog)
        → length (filter (counts who later) (r ∷ [])) ≡ (if counts who later r then 1 else 0)
    length-last r = ground arith

-- a delivery counts for 3599 seconds at least
pub still_counts :
    (row : ConfigDeliveryLog) (who : String) (now start later : ℕ)
    → row.telegram_id ≡ who
    → member row.action delivery_actions ≡ true
    → row.created_at ≡ current_timestamp now
    → start ≤ now
    → later ≤ start + 3599 * 1000000
    → counts who later row ≡ true
still_counts row who now start later mine counted at h k =
    rw (mine, eq_refl who, counted) (recent row.created_at at)
  where
    recent : (c : ℕ) → c ≡ current_timestamp now → ltb (later / second) ((c + hour) / second) ≡ true
    recent c e = ground arith

pub and-parts : (b c : Bool) → (b && c) ≡ true → (b ≡ true) × (c ≡ true)
and-parts b c e = (ground arith, ground arith)

pub trans_le : {a b c : ℕ} → a ≤ b → b ≤ c → a ≤ c
trans_le h k = omega arith

-- one more file, if it is in the window
pub one_more :
    (b : Bool) (n count limit : ℕ)
    → n ≤ limit
    → (b ≡ true → n ≤ count)
    → (b ≡ true → count < limit)
    → n + (if b then 1 else 0) ≤ limit
one_more true n count limit h k f = omega (arith, f refl, k refl)
one_more false n count limit h k f = omega arith

pub one_counted :
    (b c : Bool) (n count : ℕ)
    → n ≤ count
    → (b ≡ true → c ≡ true)
    → n + (if b then 1 else 0) ≤ count + (if c then 1 else 0)
one_counted true true n count h k = omega arith
one_counted true false n count h k = absurd (ground (arith, k refl))
one_counted false c n count h k = ground arith

pub regroup : (n one w t limit : ℕ) → t ≡ one + w → (n + one) + w ≤ limit → n + t ≤ limit
regroup n one w t limit e h = omega arith

pub window-parts :
    (start now : ℕ) → in_window start now ≡ true → (start ≤ now) × (now ≤ start + 3599 * 1000000)
window-parts start now e = (ground arith, ground arith)

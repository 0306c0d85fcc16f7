-- ===== src/Health/Loop/Laws.antt =====
-- What the turns of the health loop store and report.
use local_singbox_manager.Common.{
  ℕ, ◌≡◌, refl, sym, ap, subst, ◌∙◌, ◌+◌, ◌*◌, leb, arith, String, Bool, true, false, not, ◌||◌,
  Option, List, [], ◌∷◌, ◌++◌, append-nil, map, filter, All, ◌==◌, if◌then◌else◌,
}
use local_singbox_manager.Common.Python.{Python}
use local_singbox_manager.Common.Results.{Result, ok, err}
use local_singbox_manager.Store.Models.{HealthCheckLog, Database}
use local_singbox_manager.Singbox.Host.{Event, notified}
use local_singbox_manager.Services.Distribution.Laws.{filter-append}
use local_singbox_manager.Health.{CheckResult, HealthReport, overall_of}
use local_singbox_manager.Health.Loop.{
  is_old, log_row, add_rows, store_report, notify_health_change, active_node_tag, health_turn,
  health_turns,
}

-- a row of the last 604800 seconds
abbrev pub is_recent : ℕ → HealthCheckLog → Bool
is_recent now row = leb now (row.checked_at + 604800 * 1000000)

kept-recent : (now : ℕ) (row : HealthCheckLog) → not (is_old now row) ≡ is_recent now row
kept-recent now row = ground arith

filter-same {ℓ} :
    {A : Type ℓ} (p q : A → Bool) (xs : List A) → ((x : A) → p x ≡ q x) → filter p xs ≡ filter q xs
filter-same p q [] h = refl
filter-same p q (x ∷ xs) h = rw (h x, filter-same p q xs h) refl

-- the row of a check, at the time of the turn
abbrev pub IsRowOf : ℕ → CheckResult → HealthCheckLog → Type 0
IsRowOf now check row =
    (row.checked_at ≡ now) × (row.check_name ≡ check.name) × (row.ok ≡ check.passed)

-- the rows of the checks, one for each
abbrev pub AreRowsOf : ℕ → List CheckResult → List HealthCheckLog → Type 0
AreRowsOf now [] [] = Unit {0}
AreRowsOf now [] (row ∷ rows) = ⊥
AreRowsOf now (check ∷ checks) [] = ⊥
AreRowsOf now (check ∷ checks) (row ∷ rows) = IsRowOf now check row × AreRowsOf now checks rows

append_assoc {ℓ} : {A : Type ℓ} (xs ys zs : List A) → (xs ++ ys) ++ zs ≡ xs ++ (ys ++ zs)
append_assoc [] ys zs = refl
append_assoc (x ∷ xs) ys zs = cc (append_assoc xs ys zs)

kept_now : (now : ℕ) (row : HealthCheckLog) → row.checked_at ≡ now → is_recent now row ≡ true
kept_now now row at = ground arith

if-true {ℓ} : {A : Type ℓ} (b : Bool) (x y : A) → b ≡ true → (if b then x else y) ≡ x
if-true true x y e = refl
if-true false x y e = absurd (ground arith)

filter-AreRowsOf :
    (now : ℕ) (checks : List CheckResult) (rows : List HealthCheckLog)
    → AreRowsOf now checks rows
    → filter (is_recent now) rows ≡ rows
filter-AreRowsOf now [] [] h = refl
filter-AreRowsOf now [] (row ∷ rows) h = absurd h
filter-AreRowsOf now (check ∷ checks) [] h = absurd h
filter-AreRowsOf now (check ∷ checks) (row ∷ rows) ((at, named, tested), hs) =
    if-true (is_recent now row) _ _ (kept_now now row at)
    ∙ ap (λ rs. row ∷ rs) (filter-AreRowsOf now checks rows hs)

All-if {ℓ κ} :
    {A : Type ℓ} (P : A → Type κ) (b : Bool) (x : A) (xs : List A)
    → (b ≡ true → P x)
    → All P xs
    → All P (if b then x ∷ xs else xs)
All-if P true x xs h k = (h refl, k)
All-if P false x xs h k = k

filter-All {ℓ} : {A : Type ℓ} (p : A → Bool) (xs : List A) → All (λ x. p x ≡ true) (filter p xs)
filter-All p [] = tt
filter-All p (x ∷ xs) = All-if (λ x. p x ≡ true) (p x) x (filter p xs) (λ e. e) (filter-All p xs)

module _ ⦃py : Python⦄ where
  add_rows-lem :
      (now : ℕ) (node_tag : Option String) (checks : List CheckResult) (rows : List HealthCheckLog)
      → (added : List HealthCheckLog) × (add_rows now node_tag checks rows ≡ rows ++ added)
        × AreRowsOf now checks added
  unfolding add_rows
  add_rows-lem now node_tag [] rows = ([], sym (append-nil rows), tt)
  add_rows-lem now node_tag (check ∷ checks) rows =
      let row = log_row now node_tag rows check in
      let (added, same, all) = add_rows-lem now node_tag checks (rows ++ row ∷ []) in
      (row ∷ added, same ∙ append_assoc rows (row ∷ []) added, ((refl, refl, refl), all))

  -- Storing a report at time `now` keeps exactly the rows of the last seven days, in their order, and puts after
  -- them one row for each check of the report, with its name and outcome and that time; every row
  -- that is then stored is of the last seven days.
  pub store_report-health_logs :
      (now : ℕ) (node_tag : Option String) (report : HealthReport) (db : Database)
      → (added : List HealthCheckLog) × ((store_report now node_tag report db).health_logs
          ≡ filter (is_recent now) db.health_logs ++ added)
        × AreRowsOf now report.checks added
        × All
            (λ (row : HealthCheckLog). is_recent now row ≡ true)
            (store_report now node_tag report db).health_logs
  unfolding store_report
  store_report-health_logs now node_tag report db =
      let (added, same, rows) = add_rows-lem now node_tag report.checks db.health_logs in
      (
        added,
        filter-same _ _ _ (kept-recent now)
            ∙ ap (filter (is_recent now)) same
            ∙ filter-append (is_recent now) db.health_logs added
            ∙ ap (λ (rs : List HealthCheckLog). filter (is_recent now) db.health_logs ++ rs)
                (filter-AreRowsOf now report.checks added rows),
        rows,
        subst (All (λ (row : HealthCheckLog). is_recent now row ≡ true))
            (sym (filter-same _ _ _ (kept-recent now))) (filter-All (is_recent now) _),
      )

-- the overall states of the turns that got a report
abbrev pub verdicts : List (ℕ × Result String HealthReport) → List String
verdicts [] = []
verdicts ((now, err text) ∷ turns) = verdicts turns
verdicts ((now, ok report) ∷ turns) = report.overall ∷ verdicts turns

-- the states that differ from the one before, where that is known
unfoldable pub changes : String → List String → List String
changes prev [] = []
changes prev (current ∷ states) =
    let rest = changes current states in
    if prev == current || prev == "unknown" then rest else current ∷ rest

abbrev pub last_state : String → List String → String
last_state s [] = s
last_state s (x ∷ xs) = last_state x xs

-- how urgent the news of a state is
abbrev pub level_of : String → String
level_of state =
    if state == "connected" then "info" else if state == "degraded" then "warning" else "critical"

abbrev pub event_level : Event → String
event_level (notified title body level) = level
event_level _ = ""

-- reports with the verdict of their checks
abbrev pub AreJudged : List (ℕ × Result String HealthReport) → Type 0
AreJudged [] = Unit {0}
AreJudged ((now, err text) ∷ turns) = AreJudged turns
AreJudged ((now, ok report) ∷ turns) = (report.overall ≡ overall_of report.checks) × AreJudged turns

notify-levels :
    (prev : String) (report : HealthReport) (b c : Bool)
    → report.overall ≡ (if b then "connected" else if c then "degraded" else "failed")
    → map event_level (notify_health_change prev report.overall report)
      ≡ (if prev == report.overall || prev == "unknown" then [] else level_of report.overall ∷ [])
unfolding notify_health_change
notify-levels prev report true c e = rw e (ground arith)
notify-levels prev report false true e = rw e (ground arith)
notify-levels prev report false false e = rw e (ground arith)

judged-levels :
    (prev : String) (report : HealthReport)
    → report.overall ≡ overall_of report.checks
    → map event_level (notify_health_change prev report.overall report)
      ≡ (if prev == report.overall || prev == "unknown" then [] else level_of report.overall ∷ [])
unfolding overall_of
judged-levels prev report e = notify-levels prev report _ _ e

map-append {ℓ κ} :
    {A : Type ℓ} {B : Type κ} (f : A → B) (xs ys : List A) → map f (xs ++ ys) ≡ map f xs ++ map f ys
map-append f [] ys = refl
map-append f (x ∷ xs) ys = cc (map-append f xs ys)

levels_join :
    (b : Bool) (state : String) (states : List String) {xs ys : List String}
    → xs ≡ (if b then [] else level_of state ∷ [])
    → ys ≡ map level_of states
    → xs ++ ys ≡ map level_of (if b then states else state ∷ states)
levels_join true state states e f = cc
levels_join false state states e f = cc

module _ ⦃py : Python⦄ where
  -- Over any sequence of turns whose reports have the verdict of their checks, the notifications are exactly
  -- one for each known state that is followed by a different one, in order and with the level of the
  -- new state; turns whose checks raise add none, and the state kept is the last one reported.
  pub health_turns-changes :
      (turns : List (ℕ × Result String HealthReport)) (db : Database) (state : String)
      → AreJudged turns
      → (map event_level (health_turns turns (db, state)).1
          ≡ map level_of (changes state (verdicts turns)))
        × ((health_turns turns (db, state)).0.1 ≡ last_state state (verdicts turns))
  unfolding health_turns health_turn changes
  health_turns-changes [] db state j = (refl, refl)
  health_turns-changes ((now, err text) ∷ turns) db state j = health_turns-changes turns db state j
  health_turns-changes ((now, ok report) ∷ turns) db state (e, j) =
      let db' = store_report now (active_node_tag db) report db in
      let (levels, kept) = health_turns-changes turns db' report.overall j in
      (
        map-append event_level (notify_health_change state report.overall report) _
            ∙ levels_join (state == report.overall || state == "unknown") _ _
                (judged-levels state report e) levels,
        kept,
      )

-- ===== src/Common/Keyed.antt =====
-- Rows with a number and a text that no two of them share: adding, replacing and removing a row.
use mathlib.Core.Bool.{false≢true}
use mathlib.Core.Path.{◌≡◌, refl, sym, ◌∙◌, subst}
use mathlib.Core.Logic.{◌≢◌, inl, inr}
use mathlib.Core.List.{List, [], ◌∷◌, ◌++◌, map}
use mathlib.Core.Bool.{Bool, true, false, not, ◌&&◌}
use mathlib.Core.Option.{none, some}
use Prim.Native.Nat.{ℕ}
use Prim.Native.String.{String}
use native.Mathlib.Omega.{arith}
use text.Mathlib.Text.{◌==◌}
use text.Mathlib.TextEquality.{eq_iff}
use local_singbox_manager.Common.Python.{Python}
use local_singbox_manager.Common.Tests.{if◌then◌else◌, ◌=ℕ◌, =ℕ_iff, Bool-cases}
use local_singbox_manager.Common.Lists.{All, filter, find}
use local_singbox_manager.Common.Pairwise.{
  Pairwise, Pairwise-last, Pairwise-map, All-of_find, All-zip,
}

pub name-differs : (a b : String) → (a == b) ≡ false → a ≢ b
name-differs a b e same = ground (arith, eq_iff a b)

and-false : (p q : Bool) → (p && not q) ≡ false → q ≡ false → p ≡ false
and-false true true a b = b
and-false true false a b = a
and-false false q a b = refl

pub find-holds {ℓ} :
    {A : Type ℓ} (p : A → Bool) (xs : List A) {x : A} → find p xs ≡ some x → p x ≡ true
find-holds p [] e = cc
find-holds p (y ∷ xs) e = elim (Bool-cases (p y)) [
  | inl t ↦ (let same = rw t at e in subst (λ z. p z ≡ true) (cc) t)
  | inr t ↦ find-holds p xs (rw t at e)
]

-- a change of rows that the test does not see
pub find-map {ℓ} :
    {A : Type ℓ} (p : A → Bool) (f : A → A)
    → ((x : A) → p (f x) ≡ p x)
    → (xs : List A) {u : A} → find p xs ≡ some u
    → find p (map f xs) ≡ some (f u)
find-map p f same [] e = cc
find-map p f same (x ∷ xs) e = elim (Bool-cases (p x)) [
  | inl t ↦ (let found = rw t at e in rw (same x, t) (cc))
  | inr t ↦ rw (same x, t) (find-map p f same xs (rw t at e))
]

module _ {ℓ} {A : Type ℓ} (id : A → ℕ) (name : A → String) where
  -- what two rows may not share
  abbrev pub Differ : A → A → Type 0
  Differ g h = (id g ≢ id h) × (name g ≢ name h)

  -- a row of another id has another name
  abbrev Apart : ℕ → String → A → Type 0
  Apart n text g = (name g == text && not (id g =ℕ n)) ≡ false

  All-of_ids : (n : ℕ) (rows : List A) → All (λ i. i ≢ n) (map id rows) → All (λ g. id g ≢ n) rows
  All-of_ids n [] h = tt
  All-of_ids n (g ∷ rows) (p, h) = (p, All-of_ids n rows h)

  pub Pairwise-Differ-add :
      (rows : List A) (new : A)
      → Pairwise Differ rows
      → All (λ i. i ≢ id new) (map id rows)
      → find (λ g. name g == name new) rows ≡ none
      → Pairwise Differ (rows ++ new ∷ [])
  Pairwise-Differ-add rows new v fresh free = Pairwise-last Differ rows new v (
      All-zip (λ g i e. (i, name-differs (name g) (name new) e)) rows
        (All-of_ids (id new) rows fresh) (All-of_find _ rows free))

  Apart-differs :
      (n : ℕ) (new h : A) → id new ≡ n → Apart n (name new) h → (id h =ℕ n) ≡ false → Differ h new
  Apart-differs n new h same b y = (
    λ e. false≢true (sym y ∙ (=ℕ_iff _ _).1 (e ∙ same)),
    name-differs (name h) (name new) (and-false _ _ b y),
  )

  pick_step :
      (x y : Bool) (new g h : A)
      → (x ≡ true → y ≡ true → id g ≡ id h)
      → (x ≡ false → Differ g new)
      → (y ≡ false → Differ h new)
      → Differ g h
      → Differ (if x then new else g) (if y then new else h)
  pick_step true true new g h both left right d = absurd (d.0 (both refl refl))
  pick_step true false new g h both left right d =
      let (i, m) = right refl in (λ e. i (sym e), λ e. m (sym e))
  pick_step false true new g h both left right d = left refl
  pick_step false false new g h both left right d = d

  put_step :
      (n : ℕ) (new : A)
      → id new ≡ n
      → (g h : A) → Apart n (name new) g
      → Apart n (name new) h
      → Differ g h
      → Differ (if id g =ℕ n then new else g) (if id h =ℕ n then new else h)
  put_step n new same g h a b d =
      pick_step (id g =ℕ n) (id h =ℕ n) new g h (λ x y. (=ℕ_iff _ _).0 x ∙ sym ((=ℕ_iff _ _).0 y))
        (Apart-differs n new g same a) (Apart-differs n new h same b) d

  pub Pairwise-Differ-put :
      (n : ℕ) (new : A) (rows : List A)
      → Pairwise Differ rows
      → id new ≡ n
      → find (λ g. name g == name new && not (id g =ℕ n)) rows ≡ none
      → Pairwise Differ (map (λ g. if id g =ℕ n then new else g) rows)
  Pairwise-Differ-put n new rows v same free =
      Pairwise-map Differ (Apart n (name new)) (λ g. if id g =ℕ n then new else g)
        (put_step n new same) rows (All-of_find _ rows free) v

module _ {ℓ κ} {A : Type ℓ} (P : A → Type κ) where
  pub All-filter : (p : A → Bool) (xs : List A) → All P xs → All P (filter p xs)
  All-filter p [] h = tt
  All-filter p (x ∷ xs) (u, h) = elim (Bool-cases (p x)) [
    | inl e ↦ rw e (u, All-filter p xs h)
    | inr e ↦ rw e (All-filter p xs h)
  ]

  pick-All : (b : Bool) (new x : A) → P new → P x → P (if b then new else x)
  pick-All true new x u v = u
  pick-All false new x u v = v

  pub All-put :
      (test : A → Bool) (new : A) (xs : List A)
      → P new
      → All P xs
      → All P (map (λ x. if test x then new else x) xs)
  All-put test new [] u h = tt
  All-put test new (x ∷ xs) u (p, h) = (pick-All (test x) new x u p, All-put test new xs u h)

-- a key that the database gives to a new row is not in use
abbrev pub IsFresh : Python → Type 0
IsFresh py = (ids : List ℕ) → All (λ i. i ≢ py.new_id ids) ids

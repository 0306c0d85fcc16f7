-- ===== src/Common/Unique.antt =====
-- Rows with different numbers and texts, one of which is found and changed in place.
use mathlib.Core.Path.{◌≡◌, refl, sym, ◌∙◌, subst}
use mathlib.Core.Logic.{inl, inr}
use mathlib.Core.List.{List, [], ◌∷◌, map}
use mathlib.Core.Bool.{Bool, true, false}
use mathlib.Core.Option.{none, some}
use Prim.Native.Nat.{ℕ}
use Prim.Native.String.{String}
use native.Mathlib.Omega.{arith}
use text.Mathlib.Text.{◌==◌}
use text.Mathlib.TextEquality.{eq_iff}
use local_singbox_manager.Common.Tests.{if◌then◌else◌, ◌=ℕ◌, =ℕ_iff, Bool-cases}
use local_singbox_manager.Common.Lists.{All, All-map, find, member}
use local_singbox_manager.Common.Pairwise.{Pairwise, Pairwise-map}
use local_singbox_manager.Common.Keyed.{Differ}

pub All-find {ℓ κ} :
    {A : Type ℓ} (P : A → Type κ) (p : A → Bool) (xs : List A) {x : A}
    → All P xs
    → find p xs ≡ some x
    → P x
All-find P p [] h e = cc
All-find P p (y ∷ xs) (u, h) e = elim (Bool-cases (p y)) [
  | inl t ↦ (let same = rw t at e in subst P (cc) u)
  | inr t ↦ All-find P p xs h (rw t at e)
]

module _ {ℓ} {A : Type ℓ} (id : A → ℕ) (name : A → String) where
  -- of rows that differ, only the found one has its number
  pub All-same :
      (p : A → Bool) (rows : List A) {x : A}
      → Pairwise (Differ id name) rows
      → find p rows ≡ some x
      → All (λ g. id g ≡ id x → name g ≡ name x) rows
  All-same p [] v e = tt
  All-same p (y ∷ rows) {x} (d, v) e = elim (Bool-cases (p y)) [
    | inl t ↦
        let found = rw t at e in
        subst (λ (z : A). All (λ g. id g ≡ id z → name g ≡ name z) (y ∷ rows)) (cc)
          ((λ k. refl), All-map (λ g (i, n) k. absurd (i (sym k))) rows d)
    | inr t ↦
        let found = rw t at e in
        (
          (λ k. absurd ((All-find (λ g. Differ id name y g) p rows d found).0 k)),
          All-same p rows v found,
        )
  ]

  -- the found row, changed, in its place
  module _ (new : A) where
    put : A → A
    put g = if id g =ℕ id new then new else g

    Kept : A → Type 0
    Kept g = (id (put g) ≡ id g) × (name (put g) ≡ name g)

    kept_step :
        (b : Bool) (g : A)
        → (b ≡ true → (id g ≡ id new) × (name g ≡ name new))
        → (id (if b then new else g) ≡ id g) × (name (if b then new else g) ≡ name g)
    kept_step true g f = (sym (f refl).0, sym (f refl).1)
    kept_step false g f = (refl, refl)

    kept :
        (p : A → Bool) (rows : List A) {x : A}
        → Pairwise (Differ id name) rows
        → find p rows ≡ some x
        → id new ≡ id x
        → name new ≡ name x
        → All Kept rows
    unfolding Kept put
    kept p rows {x} v e i n =
        All-map
          (λ g same.
            kept_step (id g =ℕ id new) g
              λ t. let k = (=ℕ_iff (id g) (id new)).0 t in (k, same (k ∙ i) ∙ sym n))
          rows (All-same p rows v e)

    Kept-Differ : (g h : A) → Kept g → Kept h → Differ id name g h → Differ id name (put g) (put h)
    unfolding Kept
    Kept-Differ g h (i, n) (j, m) (d, f) = ((λ e. d (sym i ∙ e ∙ j)), (λ e. f (sym n ∙ e ∙ m)))

    map-Kept : (rows : List A) → All Kept rows → map name (map put rows) ≡ map name rows
    unfolding Kept
    map-Kept [] h = refl
    map-Kept (g ∷ rows) ((i, n), h) = cc (n, map-Kept rows h)

    -- The rows still differ, and their texts are the same.
    pub Pairwise-Differ-replace :
        (p : A → Bool) (rows : List A) {x : A}
        → Pairwise (Differ id name) rows
        → find p rows ≡ some x
        → id new ≡ id x
        → name new ≡ name x
        → Pairwise (Differ id name) (map (λ g. if id g =ℕ id new then new else g) rows)
          × (map name (map (λ g. if id g =ℕ id new then new else g) rows) ≡ map name rows)
    unfolding put
    Pairwise-Differ-replace p rows v e i n =
        let k = kept p rows v e i n in
        (Pairwise-map (Differ id name) Kept put Kept-Differ rows k v, map-Kept rows k)

  -- a text that no row has is not found
  pub find_of_member :
      (s : String) (rows : List A)
      → member s (map name rows) ≡ false
      → find (λ g. name g == s) rows ≡ none
  find_of_member s [] h = refl
  find_of_member s (g ∷ rows) h = elim (Bool-cases (name g == s)) [
    | inl e ↦ absurd (ground (arith, eq_iff (name g) s, eq_iff s (name g)))
    | inr e ↦ rw e (find_of_member s rows (rw e at h))
  ]

  pub member_of_find :
      (s : String) (rows : List A)
      → find (λ g. name g == s) rows ≡ none
      → member s (map name rows) ≡ false
  member_of_find s [] h = refl
  member_of_find s (g ∷ rows) h = elim (Bool-cases (name g == s)) [
    | inl e ↦ (let bad = rw e at h in cc)
    | inr e ↦ rw e (member_of_find s rows (rw e at h))
  ]

-- ===== src/Common/Pairwise.antt =====
-- Lists in which every two elements are related, and what `find` says of the rows it does not find.
use mathlib.Core.Path.{◌≡◌}
use mathlib.Core.List.{List, [], ◌∷◌, ◌++◌, map}
use mathlib.Core.Bool.{Bool, false}
use mathlib.Core.Logic.{inl, inr}
use mathlib.Core.Option.{none}
use local_singbox_manager.Common.Tests.{Bool-cases}
use local_singbox_manager.Common.Lists.{All, filter, find}

module _ {ℓ κ} {A : Type ℓ} (R : A → A → Type κ) where
  abbrev pub Pairwise : List A → Type κ
  Pairwise [] = Unit
  Pairwise (x ∷ xs) = All (R x) xs × Pairwise xs

module _ {ℓ κ} {A : Type ℓ} (R : A → A → Type κ) where
  All-last : (x y : A) (xs : List A) → All (R x) xs → R x y → All (R x) (xs ++ y ∷ [])
  All-last x y [] h r = (r, tt)
  All-last x y (z ∷ xs) (p, h) r = (p, All-last x y xs h r)

  pub Pairwise-last :
      (xs : List A) (y : A) → Pairwise R xs → All (λ x. R x y) xs → Pairwise R (xs ++ y ∷ [])
  Pairwise-last [] y h k = (tt, tt)
  Pairwise-last (x ∷ xs) y (a, h) (r, k) = (All-last x y xs a r, Pairwise-last xs y h k)

  All-filter : (x : A) (p : A → Bool) (xs : List A) → All (R x) xs → All (R x) (filter p xs)
  All-filter x p [] h = tt
  All-filter x p (y ∷ xs) (r, h) = elim (Bool-cases (p y)) [
    | inl e ↦ rw e (r, All-filter x p xs h)
    | inr e ↦ rw e (All-filter x p xs h)
  ]

  pub Pairwise-filter : (p : A → Bool) (xs : List A) → Pairwise R xs → Pairwise R (filter p xs)
  Pairwise-filter p [] h = tt
  Pairwise-filter p (x ∷ xs) (a, h) = elim (Bool-cases (p x)) [
    | inl e ↦ rw e (All-filter x p xs a, Pairwise-filter p xs h)
    | inr e ↦ rw e (Pairwise-filter p xs h)
  ]

module _ {ℓ κ ι} {A : Type ℓ} (R : A → A → Type κ) (Good : A → Type ι) (f : A → A)
    (step : (x y : A) → Good x → Good y → R x y → R (f x) (f y)) where
  All-mapped :
      (x : A) (xs : List A) → Good x → All Good xs → All (R x) xs → All (R (f x)) (map f xs)
  All-mapped x [] g gs h = tt
  All-mapped x (y ∷ xs) g (g', gs) (r, h) = (step x y g g' r, All-mapped x xs g gs h)

  pub Pairwise-map : (xs : List A) → All Good xs → Pairwise R xs → Pairwise R (map f xs)
  Pairwise-map [] gs h = tt
  Pairwise-map (x ∷ xs) (g, gs) (a, h) = (All-mapped x xs g gs a, Pairwise-map xs gs h)

pub All-of_find {ℓ} :
    {A : Type ℓ} (p : A → Bool) (xs : List A) → find p xs ≡ none → All (λ x. p x ≡ false) xs
All-of_find p [] e = tt
All-of_find p (x ∷ xs) e = elim (Bool-cases (p x)) [
  | inl t ↦ (let bad = rw t at e in cc)
  | inr t ↦ (t, All-of_find p xs (rw t at e))
]

pub All-zip {ℓ κ ι υ} :
    {A : Type ℓ} {P : A → Type κ} {Q : A → Type ι} {S : A → Type υ} (f : (x : A) → P x → Q x → S x)
    (xs : List A)
    → All P xs
    → All Q xs
    → All S xs
All-zip f [] h k = tt
All-zip f (x ∷ xs) (p, h) (q, k) = (f x p q, All-zip f xs h k)

-- ===== src/Common/Sorting.antt =====
-- `sorted(xs, key=…)` on a text key: a stable insertion sort by code points.
use Prim.Native.Char.{code}
use Prim.Native.String.{String}
use mathlib.Core.Path.{◌≡◌, refl}
use mathlib.Core.Bool.{Bool, true, false, ◌&&◌, ◌||◌}
use mathlib.Core.Logic.{inl, inr, ◌≢◌}
use mathlib.Core.List.{List, [], ◌∷◌, map}
use native.Mathlib.Omega.{arith}
use text.Mathlib.Text.{◌==◌}
use local_singbox_manager.Common.Tests.{ltb, ◌=ℕ◌, if◌then◌else◌, Bool-cases}
use local_singbox_manager.Common.Lists.{All, All-map, member}

-- Python's `<=` on texts
unfoldable pub text_leb : String → String → Bool
text_leb String.[] t = true
text_leb (String.◌∷◌ c s) String.[] = false
text_leb (String.◌∷◌ c s) (String.◌∷◌ d t) =
    ltb (code c) (code d) || code c =ℕ code d && text_leb s t

pub text_leb_total : (s t : String) → text_leb s t ≡ false → text_leb t s ≡ true
unfolding text_leb
text_leb_total String.[] t h = cc
text_leb_total (String.◌∷◌ c s) String.[] h = refl
text_leb_total (String.◌∷◌ c s) (String.◌∷◌ d t) h = ground (arith, text_leb_total s t)

pub text_leb_trans :
    (s t u : String) → text_leb s t ≡ true → text_leb t u ≡ true → text_leb s u ≡ true
unfolding text_leb
text_leb_trans String.[] t u h k = refl
text_leb_trans (String.◌∷◌ c s) String.[] u h k = cc
text_leb_trans (String.◌∷◌ c s) (String.◌∷◌ d t) String.[] h k = cc
text_leb_trans (String.◌∷◌ c s) (String.◌∷◌ d t) (String.◌∷◌ e u) h k =
    ground (arith, text_leb_trans s t u)

module _ {ℓ} {A : Type ℓ} (key : A → String) where
  unfoldable pub insert_by : A → List A → List A
  insert_by x [] = x ∷ []
  insert_by x (y ∷ ys) =
      let later = y ∷ insert_by x ys in if text_leb (key x) (key y) then x ∷ y ∷ ys else later

  unfoldable pub sort_by : List A → List A
  unfolding insert_by text_leb
  sort_by [] = []
  sort_by (x ∷ xs) = insert_by x (sort_by xs)

-- `order_by` with the order given by a test: a stable insertion sort
module _ {ℓ} {A : Type ℓ} (before : A → A → Bool) where
  unfoldable pub insert_with : A → List A → List A
  insert_with x [] = x ∷ []
  insert_with x (y ∷ ys) =
      let later = y ∷ insert_with x ys in if before x y then x ∷ y ∷ ys else later

  unfoldable pub sort_with : List A → List A
  unfolding insert_with
  sort_with [] = []
  sort_with (x ∷ xs) = insert_with x (sort_with xs)

-- each text is at most every later one
abbrev pub IsSorted : List String → Type 0
IsSorted [] = Unit {0}
IsSorted (x ∷ xs) = All (λ y. text_leb x y ≡ true) xs × IsSorted xs

module _ {ℓ} {A : Type ℓ} (key : A → String) where
  insert_by-ne-nil : (x : A) (ys : List A) → insert_by key x ys ≢ []
  unfolding insert_by
  insert_by-ne-nil x [] e = cc
  insert_by-ne-nil x (y ∷ ys) e = ground arith

  sort_by-ne-nil : (x : A) (xs : List A) → sort_by key (x ∷ xs) ≢ []
  unfolding sort_by
  sort_by-ne-nil x xs e = insert_by-ne-nil x (sort_by key xs) e

  map-ne-nil : (xs : List A) → xs ≢ [] → map key xs ≢ []
  map-ne-nil [] h e = h refl
  map-ne-nil (x ∷ xs) h e = cc

  pub keys-sort_by-ne-nil : (x : A) (xs : List A) → map key (sort_by key (x ∷ xs)) ≢ []
  keys-sort_by-ne-nil x xs = map-ne-nil _ (sort_by-ne-nil x xs)

  member-insert_by :
      (s : String) (x : A) (ys : List A)
      → member s (map key (insert_by key x ys)) ≡ (key x == s || member s (map key ys))
  unfolding insert_by
  member-insert_by s x [] = refl
  member-insert_by s x (y ∷ ys) = ground (arith, member-insert_by s x ys)

  -- Sorting keeps the keys.
  pub member-sort_by :
      (s : String) (xs : List A) → member s (map key (sort_by key xs)) ≡ member s (map key xs)
  unfolding sort_by
  member-sort_by s [] = refl
  member-sort_by s (x ∷ xs) =
      ground (arith, member-insert_by s x (sort_by key xs), member-sort_by s xs)

  All-insert_by :
      (t : String) (x : A) (ys : List A)
      → text_leb t (key x) ≡ true
      → All (λ y. text_leb t y ≡ true) (map key ys)
      → All (λ y. text_leb t y ≡ true) (map key (insert_by key x ys))
  unfolding insert_by
  All-insert_by t x [] p h = (p, tt)
  All-insert_by t x (y ∷ ys) p (q, h) = ground (arith, All-insert_by t x ys p h)

  insert_by-IsSorted :
      (x : A) (ys : List A) → IsSorted (map key ys) → IsSorted (map key (insert_by key x ys))
  unfolding insert_by
  insert_by-IsSorted x [] h = (tt, tt)
  insert_by-IsSorted x (y ∷ ys) (below, h) = elim (Bool-cases (text_leb (key x) (key y))) [
    | inl le ↦ rw le (
      (le, All-map (λ z k. text_leb_trans (key x) (key y) z le k) (map key ys) below),
      (below, h),
    )
    | inr gt ↦ rw gt (
      All-insert_by (key y) x ys (text_leb_total (key x) (key y) gt) below,
      insert_by-IsSorted x ys h,
    )
  ]

  pub sort_by-IsSorted : (xs : List A) → IsSorted (map key (sort_by key xs))
  unfolding sort_by
  sort_by-IsSorted [] = tt
  sort_by-IsSorted (x ∷ xs) = insert_by-IsSorted x (sort_by key xs) (sort_by-IsSorted xs)

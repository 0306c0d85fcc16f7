-- ===== src/Common/Json.antt =====
-- JSON values, and Python's dictionaries as lists of pairs in insertion order.
use Prim.Native.Nat.{ℕ}
use Prim.Native.String.{String}
use mathlib.Core.Path.{◌≡◌, refl}
use mathlib.Core.Bool.{Bool, true, false}
use mathlib.Core.List.{List, [], ◌∷◌}
use mathlib.Core.Option.{Option, none, some}
use native.Mathlib.Omega.{arith}
use text.Mathlib.Text.{◌==◌}
use text.Mathlib.TextEquality.{eq_iff}
use text.Mathlib.TextPositions.{eq_refl}
use local_singbox_manager.Common.Tests.{if◌then◌else◌}

-- integers; `negsuc n` is -(n + 1)
pub data ℤ : Type 0 where
  pos : ℕ → ℤ
  negsuc : ℕ → ℤ

mutual
  pub data Json : Type 0 where
    null : Json
    bool : Bool → Json
    num : ℤ → Json
    str : String → Json
    arr : Items → Json
    obj : Fields → Json

  pub data Items : Type 0 where
    nil : Items
    cons : Json → Items → Items

  pub data Fields : Type 0 where
    end : Fields
    field : String → Json → Fields → Fields

abbrev pub nat : ℕ → Json
nat n = num (pos n)

-- a Python `dict` with text keys
abbrev pub Dict : Type 0
Dict = List (String × Json)

abbrev pub to_items : List Json → Items
to_items [] = nil
to_items (x ∷ xs) = cons x (to_items xs)

abbrev pub of_items : Items → List Json
of_items nil = []
of_items (cons x xs) = x ∷ of_items xs

abbrev pub to_fields : Dict → Fields
to_fields [] = end
to_fields ((k, v) ∷ d) = field k v (to_fields d)

abbrev pub of_fields : Fields → Dict
of_fields end = []
of_fields (field k v fs) = (k, v) ∷ of_fields fs

abbrev pub array : List Json → Json
array xs = arr (to_items xs)

abbrev pub object : Dict → Json
object d = obj (to_fields d)

abbrev pub text_items : List String → Items
text_items [] = nil
text_items (s ∷ xs) = cons (str s) (text_items xs)

-- a JSON array of texts
abbrev pub texts : List String → Json
texts xs = arr (text_items xs)

module _ {ℓ} {V : Type ℓ} where
  -- `d.get(k)`
  abbrev pub lookup : String → List (String × V) → Option V
  lookup k [] = none
  lookup k ((j, v) ∷ d) = if j == k then some v else lookup k d

  -- `d[k] = v`
  abbrev pub insert : String → V → List (String × V) → List (String × V)
  insert k v [] = (k, v) ∷ []
  insert k v ((j, w) ∷ d) = if j == k then (j, v) ∷ d else (j, w) ∷ insert k v d

  -- `k in d`
  abbrev pub has_key : String → List (String × V) → Bool
  has_key k d = elim (lookup k d) [ none ↦ false | some v ↦ true ]

  pub lookup-insert :
      (k j : String) (v : V) (d : List (String × V))
      → lookup j (insert k v d) ≡ (if k == j then some v else lookup j d)
  lookup-insert k j v [] = refl
  lookup-insert k j v ((i, w) ∷ d) =
      ground (arith, eq_iff k j, eq_iff i k, eq_iff i j, lookup-insert k j v d)

pub lookup-insert_ne {ℓ} :
    {V : Type ℓ} (k j : String) (v : V) (d : List (String × V))
    → (k == j) ≡ false
    → lookup j (insert k v d) ≡ lookup j d
lookup-insert_ne k j v d h = rw (lookup-insert k j v d) (rw h)

pub lookup-insert_self {ℓ} :
    {V : Type ℓ} (k : String) (v : V) (d : List (String × V)) → lookup k (insert k v d) ≡ some v
lookup-insert_self k v d = rw (lookup-insert k k v d) (rw (eq_refl k))

pub of_items-to_items : (xs : List Json) → of_items (to_items xs) ≡ xs
of_items-to_items [] = refl
of_items-to_items (x ∷ xs) = cc (of_items-to_items xs)

pub of_fields-to_fields : (d : Dict) → of_fields (to_fields d) ≡ d
of_fields-to_fields [] = refl
of_fields-to_fields ((k, v) ∷ d) = cc (of_fields-to_fields d)

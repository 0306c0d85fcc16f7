-- ===== src/Common/Integers.antt =====
-- Integers as members of sets that are kept as lists without repetitions.
use mathlib.Core.Path.{◌≡◌, ap}
use mathlib.Core.List.{List, [], ◌∷◌}
use mathlib.Core.Bool.{Bool, true, false, ◌||◌}
use local_singbox_manager.Common.Tests.{if◌then◌else◌, ◌=ℕ◌, =ℕ_iff}
use mathlib.Core.Option.{Option, none, some}
use local_singbox_manager.Common.Python.{Python}
use local_singbox_manager.Common.Json.{ℤ, pos, negsuc, Json, num, bool, str}

-- `==` of integers
abbrev pub same_int : ℤ → ℤ → Bool
same_int (pos a) (pos b) = a =ℕ b
same_int (negsuc a) (negsuc b) = a =ℕ b
same_int _ _ = false

-- `n in ids`
abbrev pub has_int : ℤ → List ℤ → Bool
has_int n [] = false
has_int n (id ∷ ids) = same_int id n || has_int n ids

-- `ids.add(n)`
abbrev pub add_int : ℤ → List ℤ → List ℤ
add_int n ids = if has_int n ids then ids else n ∷ ids

pub same_int-eq : (a b : ℤ) → same_int a b ≡ true → a ≡ b
same_int-eq (pos a) (pos b) e = ap pos ((=ℕ_iff a b).0 e)
same_int-eq (pos a) (negsuc b) e = cc
same_int-eq (negsuc a) (pos b) e = cc
same_int-eq (negsuc a) (negsuc b) e = ap negsuc ((=ℕ_iff a b).0 e)

module _ ⦃py : Python⦄ where
  -- `int(value)`; anything but a number or a text raises TypeError
  abbrev pub int_of_json : Json → Option ℤ
  int_of_json (num n) = some n
  int_of_json (bool true) = some (pos 1)
  int_of_json (bool false) = some (pos 0)
  int_of_json (str s) = py.int_of s
  int_of_json _ = none

  abbrev pub int_of_found : Option Json → Option ℤ
  int_of_found none = none
  int_of_found (some j) = int_of_json j

-- ===== src/Common/Results.antt =====
-- A value or an exception. `E` is what the exception carries.
use mathlib.Core.Path.{◌≡◌, refl}
use mathlib.Core.List.{List, [], ◌∷◌}
use mathlib.Core.Bool.{Bool, true, false}

pub data Result {ℓ κ} (E : Type κ) (A : Type ℓ) : Type (ℓ ⊔ κ) where
  ok : A → Result E A
  err : E → Result E A

pub ok-injective {ℓ κ} :
    {E : Type κ} {A : Type ℓ} {a b : A} → ◌≡◌ {A = Result E A} (ok a) (ok b) → a ≡ b
ok-injective e = cc

module _ {ℓ κ ι} {E : Type ℓ} {A : Type κ} {B : Type ι} where
  infixl 5 ◌>>=◌
  abbrev pub ◌>>=◌ : Result E A → (A → Result E B) → Result E B
  err failure >>= next = err failure
  ok value >>= next = next value

  pub >>=-eq-ok :
      (first : Result E A) (next : A → Result E B) {final : B}
      → first >>= next ≡ ok final
      → (value : A) × (first ≡ ok value) × (next value ≡ ok final)
  >>=-eq-ok (err failure) next returns = cc
  >>=-eq-ok (ok value) next returns = (value, refl, returns)

-- `if not b: raise e`
abbrev pub guard {ℓ} : {E : Type ℓ} → Bool → E → Result E (Unit {0})
guard false failure = err failure
guard true failure = ok tt

module _ {ℓ κ} {E : Type ℓ} {B : Type κ} where
  infixl 5 ◌>>◌
  abbrev pub ◌>>◌ : Result E (Unit {0}) → Result E B → Result E B
  err failure >> rest = err failure
  ok done >> rest = rest

  pub guard->>-eq-ok :
      (test : Bool) (failure : E) (rest : Result E B) {final : B}
      → (guard test failure >> rest) ≡ ok final
      → (test ≡ true) × (rest ≡ ok final)
  guard->>-eq-ok false failure rest returns = cc
  guard->>-eq-ok true failure rest returns = (refl, returns)

  pub >>-eq-ok :
      (first : Result E (Unit {0})) (rest : Result E B) {final : B}
      → (first >> rest) ≡ ok final
      → (first ≡ ok tt) × (rest ≡ ok final)
  >>-eq-ok (err failure) rest returns = cc
  >>-eq-ok (ok tt) rest returns = (refl, returns)

abbrev cons_ok {ℓ κ} : {E : Type ℓ} {B : Type κ} → B → Result E (List B) → Result E (List B)
cons_ok y (ok ys) = ok (y ∷ ys)
cons_ok y (err e) = err e

cons_ok-eq-ok {ℓ κ} :
    {E : Type ℓ} {B : Type κ} (y : B) (r : Result E (List B)) {ys : List B}
    → cons_ok y r ≡ ok ys
    → (zs : List B) × (r ≡ ok zs) × (ys ≡ y ∷ zs)
cons_ok-eq-ok y (ok zs) e = (zs, refl, cc)
cons_ok-eq-ok y (err x) e = cc

module _ {ℓ κ ι} {E : Type ℓ} {A : Type κ} {B : Type ι} where
  -- `[f(x) for x in xs]`, where `f` may raise
  abbrev pub traverse : (A → Result E B) → List A → Result E (List B)
  traverse f [] = ok []
  traverse f (x ∷ xs) = let rest = traverse f xs in f x >>= λ y. cons_ok y rest

  pub traverse-cons-eq-ok :
      (f : A → Result E B) (x : A) (xs : List A) {ys : List B}
      → traverse f (x ∷ xs) ≡ ok ys
      → (y : B) × (zs : List B) × (f x ≡ ok y) × (traverse f xs ≡ ok zs) × (ys ≡ y ∷ zs)
  traverse-cons-eq-ok f x xs e =
      let (y, first, e') = >>=-eq-ok (f x) (λ y. cons_ok y (traverse f xs)) e in
      let (zs, rest, same) = cons_ok-eq-ok y (traverse f xs) e' in (y, zs, first, rest, same)

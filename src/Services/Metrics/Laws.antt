-- ===== src/Services/Metrics/Laws.antt =====
-- The place of the 95th percentile, and the bound on the hours.
use local_singbox_manager.Common.{
  ℕ, zero, suc, ◌≤◌, ◌<◌, ◌≡◌, refl, sym, ap, ◌∙◌, arith, true, List, [], ◌∷◌, length, is_some, ltb,
  leb, Bool-cases, inl, inr, subst,
}
use local_singbox_manager.Common.Sorting.{sort_with, insert_with}
use local_singbox_manager.Services.Metrics.{bounded_hours, item_at, p95_place, p95_item}

-- At least one hour and at most a week is looked at.
pub bounded_hours_range : (hours : ℕ) → (1 ≤ bounded_hours hours) × (bounded_hours hours ≤ 168)
unfolding bounded_hours
bounded_hours_range hours = (ground arith, ground arith)

item_at_some : (n : ℕ) (xs : List ℕ) → n < length xs → is_some (item_at n xs) ≡ true
item_at_some n [] h = absurd (omega arith)
item_at_some zero (x ∷ xs) h = refl
item_at_some (suc n) (x ∷ xs) h = item_at_some n xs (omega arith)

place_below : (n : ℕ) → 1 ≤ n → p95_place n < n
place_below n h = omega arith

length-insert_with : (x : ℕ) (xs : List ℕ) → length (insert_with leb x xs) ≡ suc (length xs)
unfolding insert_with
length-insert_with x [] = refl
length-insert_with x (y ∷ xs) = ground (arith, length-insert_with x xs)

length-sort_with : (xs : List ℕ) → length (sort_with leb xs) ≡ length xs
unfolding sort_with
length-sort_with [] = refl
length-sort_with (x ∷ xs) = length-insert_with x (sort_with leb xs) ∙ ap suc (length-sort_with xs)

-- The 95th percentile is there exactly for two latencies or more: its place is never out of range.
pub p95_item_some : (ms : List ℕ) → is_some (p95_item ms) ≡ leb 2 (length ms)
unfolding p95_item
p95_item_some ms = elim (Bool-cases (ltb (length ms) 2)) [
  | inl e ↦ rw e (ground arith)
  | inr e ↦ rw e (
      item_at_some (p95_place (length ms)) (sort_with leb ms) (
        subst (λ (n : ℕ). p95_place (length ms) < n) (sym (length-sort_with ms))
          (place_below (length ms) (ground arith)))
      ∙ ground arith)
]

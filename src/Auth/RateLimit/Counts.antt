-- ===== src/Auth/RateLimit/Counts.antt =====
-- How many attempts of an address count, before and after an attempt.
use local_singbox_manager.Common.{
  ℕ, ◌+◌, ◌≤◌, String, ◌≡◌, refl, sym, ap, ◌∙◌, Bool, true, false, List, [], ◌∷◌, ◌++◌, ◌==◌, ◌&&◌,
  ◌||◌, ltb, leb, any, filter, length, map, member, Distinct, arith, eq_iff, Bool-cases, inl, inr,
  if◌then◌else◌,
}
use local_singbox_manager.Auth.RateLimit.{
  Attempts, rate_max, cleanup_threshold, is_recent, times_of, put_times, cleaned, cleanup_if,
  record_attempt,
}

pub times_of-put_times :
    (ip other : String) (times : List ℕ) (attempts : Attempts)
    → times_of other (put_times ip times attempts)
      ≡ (if ip == other then times else times_of other attempts)
times_of-put_times ip other times [] = refl
times_of-put_times ip other times ((key, old) ∷ rest) = ground (
  arith,
  times_of-put_times ip other times rest,
  eq_iff key ip,
  eq_iff key other,
  eq_iff ip other,
)

-- how many of these times still count at time `t`
unfoldable pub count : ℕ → ℕ → List ℕ → ℕ
count window t xs = length (filter (is_recent window t) xs)

-- what was too old before is too old later
pub count-filter :
    (window now t : ℕ) (xs : List ℕ)
    → now ≤ t
    → count window t (filter (is_recent window now) xs) ≡ count window t xs
unfolding count
count-filter window now t [] h = refl
count-filter window now t (x ∷ xs) h = ground (arith, count-filter window now t xs h)

pub count-last :
    (window t now : ℕ) (xs : List ℕ)
    → count window t (xs ++ now ∷ [])
      ≡ count window t xs + (if is_recent window t now then 1 else 0)
unfolding count
count-last window t now [] = ground arith
count-last window t now (x ∷ xs) = ground (arith, count-last window t now xs)

pub count-later :
    (window now t : ℕ) (xs : List ℕ) → now ≤ t → count window t xs ≤ count window now xs
unfolding count
count-later window now t [] h = omega arith
count-later window now t (x ∷ xs) h = ground (arith, count-later window now t xs h)

pub count-nil : (window t : ℕ) → count window t [] ≡ 0
unfolding count
count-nil window t = refl

pub count-none :
    (window now t : ℕ) (xs : List ℕ)
    → now ≤ t
    → any (is_recent window now) xs ≡ false
    → count window t xs ≡ 0
unfolding count
count-none window now t [] h e = refl
count-none window now t (x ∷ xs) h e = ground (arith, count-none window now t xs h)

abbrev pub addresses : Attempts → List String
addresses attempts = map (λ (e : String × List ℕ). e.0) attempts

-- an address without attempts
pub times_of-none :
    (ip : String) (attempts : Attempts)
    → member ip (addresses attempts) ≡ false
    → times_of ip attempts ≡ []
times_of-none ip [] e = refl
times_of-none ip ((key, times) ∷ rest) e = ground (arith, times_of-none ip rest, eq_iff key ip)

pub member-cleaned :
    (window now : ℕ) (ip : String) (attempts : Attempts)
    → member ip (addresses attempts) ≡ false
    → member ip (addresses (cleaned window now attempts)) ≡ false
unfolding cleaned
member-cleaned window now ip [] e = refl
member-cleaned window now ip ((key, times) ∷ rest) e =
    elim (Bool-cases (any (is_recent window now) times)) [
      | inl k ↦ rw k (ground (arith, member-cleaned window now ip rest))
      | inr k ↦ rw k (member-cleaned window now ip rest (ground arith))
    ]

pub Distinct-cleaned :
    (window now : ℕ) (attempts : Attempts)
    → Distinct (addresses attempts)
    → Distinct (addresses (cleaned window now attempts))
unfolding cleaned
Distinct-cleaned window now [] d = tt
Distinct-cleaned window now ((key, times) ∷ rest) (new, d) =
    elim (Bool-cases (any (is_recent window now) times)) [
      | inl k ↦ rw k (member-cleaned window now key rest new, Distinct-cleaned window now rest d)
      | inr k ↦ rw k (Distinct-cleaned window now rest d)
    ]

pub pick_same :
    (b : Bool) (window t : ℕ) (times xs ys : List ℕ)
    → count window t xs ≡ count window t ys
    → count window t (if b then times else xs) ≡ count window t (if b then times else ys)
pick_same true window t times xs ys e = refl
pick_same false window t times xs ys e = e

-- the cleanup drops no attempt that still counts
pub count-cleaned :
    (window now t : ℕ) (ip : String) (attempts : Attempts)
    → now ≤ t
    → Distinct (addresses attempts)
    → count window t (times_of ip (cleaned window now attempts))
      ≡ count window t (times_of ip attempts)
unfolding cleaned
count-cleaned window now t ip [] h d = refl
count-cleaned window now t ip ((key, times) ∷ rest) h (new, d) =
    elim (Bool-cases (any (is_recent window now) times)) [
      | inl k ↦
          rw k (pick_same (key == ip) window t times _ _ (count-cleaned window now t ip rest h d))
      | inr k ↦ rw k (elim (Bool-cases (key == ip)) [
        | inl e ↦ rw e (
            count-cleaned window now t ip rest h d
            ∙ ap (count window t) (times_of-none ip rest (rw (← (eq_iff key ip).0 e) new))
            ∙ count-nil window t
            ∙ sym (count-none window now t times h k))
        | inr e ↦ rw e (count-cleaned window now t ip rest h d)
      ])
    ]

pub member-put_times :
    (other ip : String) (times : List ℕ) (attempts : Attempts)
    → member other (addresses (put_times ip times attempts))
      ≡ (ip == other || member other (addresses attempts))
member-put_times other ip times [] = refl
member-put_times other ip times ((key, old) ∷ rest) =
    ground (
      arith,
      member-put_times other ip times rest,
      eq_iff key ip,
      eq_iff key other,
      eq_iff ip other,
    )

pub Distinct-put_times :
    (ip : String) (times : List ℕ) (attempts : Attempts)
    → Distinct (addresses attempts)
    → Distinct (addresses (put_times ip times attempts))
Distinct-put_times ip times [] d = (refl, tt)
Distinct-put_times ip times ((key, old) ∷ rest) (new, d) = elim (Bool-cases (key == ip)) [
  | inl e ↦ rw e (new, d)
  | inr e ↦ rw e (
    member-put_times key ip times rest ∙ ground (arith, eq_iff key ip, eq_iff ip key),
    Distinct-put_times ip times rest d,
  )
]

pub cleanup_if-same :
    (window now t : ℕ) (ip : String) (s : Attempts)
    → now ≤ t
    → Distinct (addresses s)
    → count window t (times_of ip (cleanup_if window now s)) ≡ count window t (times_of ip s)
cleanup_if-same window now t ip s h d = elim (Bool-cases (ltb cleanup_threshold (length s))) [
  | inl e ↦ rw e (count-cleaned window now t ip s h d)
  | inr e ↦ rw e refl
]

pub cleanup_if-Distinct :
    (window now : ℕ) (s : Attempts)
    → Distinct (addresses s)
    → Distinct (addresses (cleanup_if window now s))
cleanup_if-Distinct window now s d = elim (Bool-cases (ltb cleanup_threshold (length s))) [
  | inl e ↦ rw e (Distinct-cleaned window now s d)
  | inr e ↦ rw e d
]

pub record_attempt-accepted :
    (window now : ℕ) (ip : String) (s : Attempts)
    → (record_attempt window now ip s).0 ≡ ltb (count window now (times_of ip s)) rate_max
unfolding record_attempt count
record_attempt-accepted window now ip s =
    elim (Bool-cases (leb rate_max (length (filter (is_recent window now) (times_of ip s))))) [
      | inl e ↦ rw e (ground arith)
      | inr e ↦ rw e (ground arith)
    ]

-- one more attempt counts if it is accepted, of this address, and not yet too old
abbrev pub added : Bool → Bool → Bool → ℕ
added accepted same recent = if accepted && (same && recent) then 1 else 0

pub record_attempt-count :
    (window now t : ℕ) (ip other : String) (s : Attempts)
    → now ≤ t
    → count window t (times_of other (record_attempt window now ip s).1)
      ≡ count window t (times_of other s)
        + added (record_attempt window now ip s).0 (ip == other) (is_recent window t now)
unfolding record_attempt
record_attempt-count window now t ip other s h =
    let old = filter (is_recent window now) (times_of ip s) in
    elim (Bool-cases (leb rate_max (length old))) [
      | inl e ↦
          rw (e, times_of-put_times ip other old s)
            (elim (Bool-cases (ip == other)) [
              | inl k ↦ rw k (
                  count-filter window now t (times_of ip s) h
                  ∙ ap (λ x. count window t (times_of x s)) ((eq_iff ip other).0 k)
                  ∙ omega arith)
              | inr k ↦ rw k (omega arith)
            ])
      | inr e ↦
          rw (e, times_of-put_times ip other (old ++ now ∷ []) s)
            (elim (Bool-cases (ip == other)) [
              | inl k ↦ rw k (
                  count-last window t now old
                  ∙ ap (λ (n : ℕ). n + (if is_recent window t now then 1 else 0))
                      (count-filter window now t (times_of ip s) h
                        ∙ ap (λ x. count window t (times_of x s)) ((eq_iff ip other).0 k)))
              | inr k ↦ rw k (omega arith)
            ])
    ]

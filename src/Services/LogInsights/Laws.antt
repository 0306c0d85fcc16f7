-- ===== src/Services/LogInsights/Laws.antt =====
-- What the buckets count.
use mathlib.Core.Bool.{false≢true}
use local_singbox_manager.Common.{
  ℕ, suc, ◌+◌, ◌≡◌, ◌≢◌, refl, sym, ap, eq_iff, eq_refl, ◌==◌, ◌&&◌, ◌||◌, ◌∙◌, arith, String, Bool,
  true, false, Option, none, some, List, [], ◌∷◌, All, Bool-cases, inl, inr, is_some, if◌then◌else◌,
}
use local_singbox_manager.Common.Python.{Python}
use local_singbox_manager.Common.Pairwise.{Pairwise}
use local_singbox_manager.Services.LogInsights.{
  LogInsight, OpenConnection, Patterns, parse_udp, parse_dns, parse_closed, parse_open, same_option,
  same_key, add_insight, parse_line, add_line, buckets_of,
}

-- the kind, protocol, outbound, target and reason of a problem
abbrev pub Key : Type 0
Key = String × (Option String × (Option String × (Option String × String)))

abbrev pub key_of : LogInsight → Key
key_of p = (p.kind, (p.protocol, (p.outbound_tag, (p.target, p.reason))))

-- the counts of the buckets whose key passes a test
abbrev pub total_where : (Key → Bool) → List LogInsight → ℕ
total_where test [] = 0
total_where test (bucket ∷ buckets) =
    (if test (key_of bucket) then bucket.count else 0) + total_where test buckets

abbrev Apart : LogInsight → LogInsight → Type 0
Apart a b = same_key a b ≡ false

-- two buckets have different keys
abbrev pub Differ : LogInsight → LogInsight → Type 0
Differ a b = key_of a ≢ key_of b

same_option-eq : (a b : Option String) → same_option a b ≡ true → a ≡ b
same_option-eq none none e = refl
same_option-eq none (some t) e = absurd (ground arith)
same_option-eq (some s) none e = absurd (ground arith)
same_option-eq (some s) (some t) e = ap some ((eq_iff s t).0 e)

same_option_refl : (a : Option String) → same_option a a ≡ true
same_option_refl none = refl
same_option_refl (some s) = eq_refl s

and-parts : (b c : Bool) → (b && c) ≡ true → (b ≡ true) × (c ≡ true)
and-parts true c e = (refl, e)
and-parts false c e = absurd (ground arith)

same_key-eq : (a b : LogInsight) → same_key a b ≡ true → key_of a ≡ key_of b
same_key-eq a b e =
    let (kind, e1) = and-parts (a.kind == b.kind) _ e in
    let (protocol, e2) = and-parts (same_option a.protocol b.protocol) _ e1 in
    let (tag, e3) = and-parts (same_option a.outbound_tag b.outbound_tag) _ e2 in
    let (target, reason) = and-parts (same_option a.target b.target) _ e3 in
    let k = (eq_iff a.kind b.kind).0 kind in
    let p = same_option-eq a.protocol b.protocol protocol in
    let o = same_option-eq a.outbound_tag b.outbound_tag tag in
    let t = same_option-eq a.target b.target target in
    let r = (eq_iff a.reason b.reason).0 reason in cc (k, p, o, t, r)

same_key_refl : (a : LogInsight) → same_key a a ≡ true
same_key_refl a =
    rw
      (
        eq_refl a.kind,
        same_option_refl a.protocol,
        same_option_refl a.outbound_tag,
        same_option_refl a.target,
        eq_refl a.reason,
      )
      refl

abbrev same_parts : Key → Key → Bool
same_parts (k, (p, (o, (t, r)))) (k', (p', (o', (t', r')))) =
    k == k' && (same_option p p' && (same_option o o' && (same_option t t' && r == r')))

Apart-Differ : (a b : LogInsight) → Apart a b → Differ a b
Apart-Differ a b e same =
    false≢true (sym e ∙ ap (λ (k : Key). same_parts (key_of a) k) (sym same) ∙ same_key_refl a)

add_step :
    (b : Bool) (n one t : ℕ)
    → one ≡ 1
    → (if b then suc n else 0) + t ≡ (if b then one else 0) + ((if b then n else 0) + t)
add_step true n one t e = omega arith
add_step false n one t e = omega arith

total_where-add_insight :
    (test : Key → Bool) (parsed : LogInsight) (buckets : List LogInsight)
    → parsed.count ≡ 1
    → total_where test (add_insight parsed buckets)
      ≡ (if test (key_of parsed) then 1 else 0) + total_where test buckets
unfolding add_insight
total_where-add_insight test parsed [] one = rw one refl
total_where-add_insight test parsed (bucket ∷ buckets) one =
    elim (Bool-cases (same_key bucket parsed)) [
      | inl e ↦ rw e (
          add_step (test (key_of bucket)) bucket.count 1 (total_where test buckets) refl
          ∙ ap
              (λ (k : Key).
                (if test k then 1 else 0)
                + ((if test (key_of bucket) then bucket.count else 0) + total_where test buckets))
              (same_key-eq bucket parsed e))
      | inr e ↦ rw e (omega (arith, total_where-add_insight test parsed buckets one))
    ]

Apart-add_insight :
    (b parsed : LogInsight) (buckets : List LogInsight)
    → Apart b parsed
    → All (Apart b) buckets
    → All (Apart b) (add_insight parsed buckets)
unfolding add_insight
Apart-add_insight b parsed [] a h = (a, tt)
Apart-add_insight b parsed (bucket ∷ buckets) a (k, h) =
    elim (Bool-cases (same_key bucket parsed)) [
      | inl e ↦ rw e (k, h)
      | inr e ↦ rw e (k, Apart-add_insight b parsed buckets a h)
    ]

Pairwise-add_insight :
    (parsed : LogInsight) (buckets : List LogInsight)
    → Pairwise Apart buckets
    → Pairwise Apart (add_insight parsed buckets)
unfolding add_insight
Pairwise-add_insight parsed [] h = (tt, tt)
Pairwise-add_insight parsed (bucket ∷ buckets) (a, h) = elim (Bool-cases (same_key bucket parsed)) [
  | inl e ↦ rw e (a, h)
  | inr e ↦
      rw e (Apart-add_insight bucket parsed buckets e a, Pairwise-add_insight parsed buckets h)
]

Pairwise-Differ : (buckets : List LogInsight) → Pairwise Apart buckets → Pairwise Differ buckets
Pairwise-Differ [] h = tt
Pairwise-Differ (bucket ∷ buckets) (a, h) = (differ_all buckets a, Pairwise-Differ buckets h)
  where
    differ_all : (bs : List LogInsight) → All (Apart bucket) bs → All (Differ bucket) bs
    differ_all [] k = tt
    differ_all (b ∷ bs) (k, ks) = (Apart-Differ bucket b k, differ_all bs ks)

-- whether a line has a problem, and its key passes a test
abbrev pub passes : (Key → Bool) → Option LogInsight → Bool
passes test none = false
passes test (some parsed) = test (key_of parsed)

abbrev pub is_kind : String → Option String → Bool
is_kind kind none = false
is_kind kind (some k) = k == kind

module _ ⦃py : Python⦄ (re : Patterns) where
  -- the kind of a line, by the first pattern that finds something in it
  abbrev pub kind_of_line : String → Option String
  kind_of_line line =
      if is_some (re.open_connection line) || is_some (re.closed_reason line)
      then some "connection"
      else if is_some (re.dns line)
      then some "dns"
      else if is_some (re.unsupported_udp line)
      then some "routing"
      else none

  -- the lines of which this holds
  abbrev pub lines_where : (String → Bool) → List String → ℕ
  lines_where holds [] = 0
  lines_where holds (line ∷ lines) = (if holds line then 1 else 0) + lines_where holds lines

  -- the first problem of a line has the kind of the line, and is counted once
  IsOf : String → Option LogInsight → Type 0
  IsOf line none = kind_of_line line ≡ none
  IsOf line (some parsed) = (parsed.count ≡ 1) × (kind_of_line line ≡ some parsed.kind)

  line-IsOf : (line : String) → IsOf line (parse_line re line)
  unfolding IsOf parse_line
  line-IsOf line = by_open (re.open_connection line) refl
    where
      by_udp :
          (o : Option String)
          → re.open_connection line ≡ none
          → re.closed_reason line ≡ none
          → re.dns line ≡ none
          → re.unsupported_udp line ≡ o
          → IsOf line (parse_udp re line o)
      by_udp none e f g h = rw (e, f, g, h) refl
      by_udp (some tag) e f g h = (refl, rw (e, f, g, h) refl)

      by_dns :
          (o : Option (String × String))
          → re.open_connection line ≡ none
          → re.closed_reason line ≡ none
          → re.dns line ≡ o
          → IsOf line (parse_dns re line o)
      by_dns none e f g = by_udp (re.unsupported_udp line) e f g refl
      by_dns (some (target, reason)) e f g = (refl, rw (e, f, g) refl)

      by_closed :
          (o : Option String)
          → re.open_connection line ≡ none
          → re.closed_reason line ≡ o
          → IsOf line (parse_closed re line o)
      by_closed none e f = by_dns (re.dns line) e f refl
      by_closed (some reason) e f = (refl, rw (e, f) refl)

      by_open :
          (o : Option OpenConnection)
          → re.open_connection line ≡ o
          → IsOf line (parse_open re line o)
      by_open none e = by_closed (re.closed_reason line) e refl
      by_open (some c) e = (refl, rw e refl)

  add_line-total_where :
      (test : Key → Bool) (line : String) (o : Option LogInsight) (buckets : List LogInsight)
      → IsOf line o
      → Pairwise Apart buckets
      → (total_where test (add_line re o buckets)
          ≡ (if passes test o then 1 else 0) + total_where test buckets)
        × Pairwise Apart (add_line re o buckets)
  unfolding IsOf
  add_line-total_where test line none buckets one h = (omega arith, h)
  add_line-total_where test line (some parsed) buckets (one, kind) h =
      (total_where-add_insight test parsed buckets one, Pairwise-add_insight parsed buckets h)

  sum_step : (a b n t : ℕ) → t ≡ a + b → n + t ≡ (a + n) + b
  sum_step a b n t e = omega arith

  buckets_of-total_where :
      (test : Key → Bool) (lines : List String) (buckets : List LogInsight)
      → Pairwise Apart buckets
      → (total_where test (buckets_of re lines buckets)
          ≡ lines_where (λ line. passes test (parse_line re line)) lines + total_where test buckets)
        × Pairwise Apart (buckets_of re lines buckets)
  unfolding buckets_of
  buckets_of-total_where test [] buckets h = (omega arith, h)
  buckets_of-total_where test (line ∷ lines) buckets h =
      let (one, apart) =
        add_line-total_where test line (parse_line re line) buckets (line-IsOf line) h in
      let (all, kept) =
        buckets_of-total_where test lines (add_line re (parse_line re line) buckets) apart in
      (all ∙ sum_step _ _ _ _ one, kept)

  of_kind :
      (kind line : String)
      → passes (λ (k : Key). k.0 == kind) (parse_line re line) ≡ is_kind kind (kind_of_line line)
  unfolding IsOf
  of_kind kind line = by_problem (parse_line re line) (line-IsOf line)
    where
      by_problem :
          (o : Option LogInsight)
          → IsOf line o
          → passes (λ (k : Key). k.0 == kind) o ≡ is_kind kind (kind_of_line line)
      by_problem none e = rw e refl
      by_problem (some parsed) (one, e) = rw e refl

  lines_same :
      (p q : String → Bool) (lines : List String)
      → ((line : String) → p line ≡ q line)
      → lines_where p lines ≡ lines_where q lines
  lines_same p q [] h = refl
  lines_same p q (line ∷ lines) h = rw (h line, lines_same p q lines h) refl

  -- For every test on keys (kind, protocol, outbound, target and reason), the counts of the problems whose key
  -- passes it add up to the number of lines whose own key does; the counts of a kind add up to the number of lines
  -- of that kind, which the first pattern that finds something in a line decides, in the order open
  -- connection, closed connection, DNS, UDP; and no two problems have the same key.
  pub buckets_of-counted_lines :
      (test : Key → Bool) (kind : String) (lines : List String)
      → (total_where test (buckets_of re lines [])
          ≡ lines_where (λ line. passes test (parse_line re line)) lines)
        × (total_where (λ (k : Key). k.0 == kind) (buckets_of re lines [])
            ≡ lines_where (λ line. is_kind kind (kind_of_line line)) lines)
        × Pairwise Differ (buckets_of re lines [])
  buckets_of-counted_lines test kind lines =
      let (all, apart) = buckets_of-total_where test lines [] tt in
      let (kinds, again) = buckets_of-total_where (λ (k : Key). k.0 == kind) lines [] tt in
      (
        all ∙ omega arith,
        kinds ∙ omega arith ∙ lines_same _ _ lines (of_kind kind),
        Pairwise-Differ _ apart,
      )

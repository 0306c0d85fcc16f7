-- ===== src/Services/NodeTags/Laws.antt =====
-- Parsed tags, and tags that were stored.
use local_singbox_manager.Common.{
  String, ◌≡◌, refl, ap, false, not, ◌&&◌, some, List, [], ◌∷◌, arith, is_blank, strip, strip_idem,
  member, All, Distinct, member_of_ne, Bool-cases, inl, inr, ◌==◌, eq_iff,
}
use local_singbox_manager.Common.Json.{Json, str, texts}
use local_singbox_manager.Common.Python.{Python}
use local_singbox_manager.Services.NodeTags.{
  RawTags, listed, joined, collect, parse_node_tags, encode_node_tags, decode_node_tags, decoded,
}

-- a tag without blanks around it that is not empty
abbrev pub IsClean : String → Type 0
IsClean tag = (strip tag ≡ tag) × (is_blank tag ≡ false)

collect_sound :
    (seen parts : List String)
    → All IsClean (collect seen parts)
      × All (λ t. member t seen ≡ false) (collect seen parts)
      × Distinct (collect seen parts)
unfolding collect
collect_sound seen [] = (tt, tt, tt)
collect_sound seen (part ∷ parts) =
    elim (Bool-cases (not (is_blank (strip part)) && not (member (strip part) seen))) [
      | inr skip ↦ rw skip (collect_sound seen parts)
      | inl keep ↦
          let (clean, unseen, distinct) = collect_sound (strip part ∷ seen) parts in
          rw keep (
            ((strip_idem part, ground arith), clean),
            (ground arith, weaken (strip part) seen _ unseen),
            (member_of_ne (strip part) _ (apart (strip part) seen _ unseen), distinct),
          )
    ]
  where
    weaken :
        (t : String) (seen tags : List String)
        → All (λ s. member s (t ∷ seen) ≡ false) tags
        → All (λ s. member s seen ≡ false) tags
    weaken t seen [] h = tt
    weaken t seen (s ∷ tags) (p, h) = (ground arith, weaken t seen tags h)

    apart :
        (t : String) (seen tags : List String)
        → All (λ s. member s (t ∷ seen) ≡ false) tags
        → All (λ s. (t == s) ≡ false) tags
    apart t seen [] h = tt
    apart t seen (s ∷ tags) (p, h) = (ground arith, apart t seen tags h)

-- Parsed tags are stripped, not empty, and pairwise distinct, whatever the form sends.
pub parse_node_tags_sound :
    (raw : RawTags) → All IsClean (parse_node_tags raw) × Distinct (parse_node_tags raw)
unfolding parse_node_tags
parse_node_tags_sound (listed parts) = let (c, _, d) = collect_sound [] parts in (c, d)
parse_node_tags_sound (joined raw) = let (c, _, d) = collect_sound [] _ in (c, d)

collect_clean :
    (seen tags : List String)
    → All IsClean tags
    → All (λ t. member t seen ≡ false) tags
    → Distinct tags
    → collect seen tags ≡ tags
unfolding collect
collect_clean seen [] c u d = refl
collect_clean seen (tag ∷ tags) ((s, f), c) (n, u) (dn, d) =
    rw (s, f, n)
      (ap (λ ts. tag ∷ ts) (collect_clean (tag ∷ seen) tags c (both tag seen tags dn u) d))
  where
    both :
        (t : String) (seen tags : List String)
        → member t tags ≡ false
        → All (λ s. member s seen ≡ false) tags
        → All (λ s. member s (t ∷ seen) ≡ false) tags
    both t seen [] h k = tt
    both t seen (s ∷ tags) h (p, k) =
        (ground (arith, eq_iff t s, eq_iff s t), both t seen tags (ground arith) k)

nothing_seen : (tags : List String) → All (λ t. member t [] ≡ false) tags
nothing_seen [] = tt
nothing_seen (t ∷ tags) = (refl, nothing_seen tags)

-- Parsing tags that were parsed changes nothing.
pub parse_node_tags_idem :
    (raw : RawTags) → parse_node_tags (listed (parse_node_tags raw)) ≡ parse_node_tags raw
unfolding parse_node_tags
parse_node_tags_idem raw =
    let (clean, distinct) = parse_node_tags_sound raw in
    collect_clean [] _ clean (nothing_seen _) distinct

-- what is documented of `json` on texts
pub record JsonLaws (py : Python) : Type 0 where
  pub loads-dumps : (j : Json) → py.loads (py.dumps j) ≡ some j
  pub dumps_filled : (j : Json) → is_blank (py.dumps j) ≡ false
  pub str_of-str : (s : String) → py.str_of (str s) ≡ s

read_back :
    ⦃py : Python⦄
    → JsonLaws py
    → (tags : List String) → All IsClean tags
    → decoded (some (texts tags)) ≡ tags
read_back laws [] c = refl
read_back laws (tag ∷ tags) ((s, f), c) =
    rw (laws.str_of-str tag, s, f)
      (rw (laws.str_of-str tag) (ap (λ ts. tag ∷ ts) (read_back laws tags c)))

-- Clean tags are read back from the text that they are stored as.
pub decode-encode :
    ⦃py : Python⦄
    → JsonLaws py
    → (tags : List String) → All IsClean tags
    → decode_node_tags (encode_node_tags tags) ≡ tags
unfolding decode_node_tags encode_node_tags
decode-encode ⦃py⦄ laws tags c =
    rw (laws.dumps_filled (texts tags), laws.loads-dumps (texts tags)) (read_back laws tags c)

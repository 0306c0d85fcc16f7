-- ===== src/Singbox/ClientGenerator/Laws.antt =====
-- The configuration of a user: its outbound tags and its final outbound.
use local_singbox_manager.Common.{
  String, ◌≡◌, ◌≢◌, refl, ◌∙◌, Bool, true, false, none, some, List, [], ◌∷◌, ◌++◌, ◌==◌, map, arith,
  eq_refl, member, Distinct, Distinct-append, member_of_ne, member-append, All, All-map, filter,
  inl, inr, Bool-cases, if◌then◌else◌,
}
use mathlib.Core.List.{map-append, append_assoc}
use local_singbox_manager.Common.Json.{
  str, Dict, lookup, insert, lookup-insert_self, object, of_items-to_items, of_fields-to_fields,
}
use local_singbox_manager.Common.Results.{
  ok, traverse, ok-injective, traverse-cons-eq-ok, >>=-eq-ok, >>-eq-ok, guard->>-eq-ok,
}
use local_singbox_manager.Common.Sorting.{sort_by, keys-sort_by-ne-nil, member-sort_by}
use local_singbox_manager.Common.Python.{Python}
use local_singbox_manager.Parsers.Node.{ParsedNode}
use local_singbox_manager.Singbox.Presets.{known_dns_preset, known_route_preset}
use local_singbox_manager.Singbox.Routes.{
  unknown_dns_preset, unknown_route_preset, unknown_log_level, build_route_config,
}
use local_singbox_manager.Singbox.Outbounds.{build_outbound}
use local_singbox_manager.Singbox.Outbounds.Laws.{build_outbound-tag}
use local_singbox_manager.Singbox.Generator.{log_levels, direct_and_block}
use local_singbox_manager.Singbox.Generator.Laws.{
  outbound_tag, outbound_tag-object, outbound_tags, route_of,
}
use local_singbox_manager.Singbox.ClientGenerator.{
  reserved_client_outbound_tags, add_text, duplicates_from, validate_node_tags, node_tag,
  refuse_duplicates, refuse_reserved, with_selector, generate_client_config,
}

-- what an empty result of the duplicate search says
duplicates_from-eq-nil :
    (seen dups tags : List String)
    → duplicates_from seen dups tags ≡ []
    → (dups ≡ []) × All (λ t. member t seen ≡ false) tags × Distinct tags
unfolding duplicates_from
duplicates_from-eq-nil seen dups [] e = (e, tt, tt)
duplicates_from-eq-nil seen dups (tag ∷ tags) e =
    let (none_yet, fresh, distinct) =
      duplicates_from-eq-nil (add_text tag seen)
        (if member tag seen then add_text tag dups else dups) tags e in
    let (unseen, empty) = first_unseen tag seen dups none_yet in
    (
      empty,
      (unseen, later tag seen tags unseen fresh),
      (member_of_ne tag tags (apart tag seen tags unseen fresh), distinct),
    )
  where
    first_unseen :
        (tag : String) (seen dups : List String)
        → (if member tag seen then add_text tag dups else dups) ≡ []
        → (member tag seen ≡ false) × (dups ≡ [])
    first_unseen tag seen [] h = ground arith
    first_unseen tag seen (d ∷ ds) h = ground arith

    later :
        (tag : String) (seen tags : List String)
        → member tag seen ≡ false
        → All (λ t. member t (add_text tag seen) ≡ false) tags
        → All (λ t. member t seen ≡ false) tags
    later tag seen [] n h = tt
    later tag seen (t ∷ ts) n (p, h) = (ground arith, later tag seen ts n h)

    apart :
        (tag : String) (seen tags : List String)
        → member tag seen ≡ false
        → All (λ t. member t (add_text tag seen) ≡ false) tags
        → All (λ t. (tag == t) ≡ false) tags
    apart tag seen [] n h = tt
    apart tag seen (t ∷ ts) n (p, h) = (ground arith, apart tag seen ts n h)

filter-eq-nil :
    (p : String → Bool) (xs : List String) → filter p xs ≡ [] → All (λ x. p x ≡ false) xs
filter-eq-nil p [] h = tt
filter-eq-nil p (x ∷ xs) h = elim (Bool-cases (p x)) [
  | inl e ↦ cc (rw (e, filter) at h)
  | inr e ↦ (e, filter-eq-nil p xs (rw (e, filter) at h))
]

refuse_duplicates-ok : (ds : List String) → refuse_duplicates ds ≡ ok tt → ds ≡ []
refuse_duplicates-ok [] e = refl
refuse_duplicates-ok (d ∷ ds) e = cc

refuse_reserved-ok : (rs : List String) → refuse_reserved rs ≡ ok tt → rs ≡ []
refuse_reserved-ok [] e = refl
refuse_reserved-ok (r ∷ rs) e = cc

-- Tags that pass the validation are distinct and not reserved.
pub validate_node_tags-ok :
    (tags : List String)
    → validate_node_tags tags ≡ ok tt
    → Distinct tags × All (λ t. member t reserved_client_outbound_tags ≡ false) tags
unfolding validate_node_tags
validate_node_tags-ok tags e =
    let (d, r) = >>-eq-ok (refuse_duplicates (duplicates_from [] [] tags)) _ e in
    let (_, _, distinct) = duplicates_from-eq-nil [] [] tags (refuse_duplicates-ok _ d) in
    (distinct, filter-eq-nil _ tags (refuse_reserved-ok _ r))

tags-traverse :
    ⦃py : Python⦄ (nodes : List ParsedNode) {outs : List Dict}
    → traverse build_outbound nodes ≡ ok outs
    → map outbound_tag (map object outs) ≡ map node_tag nodes
tags-traverse [] e = rw (← ok-injective e)
tags-traverse (n ∷ ns) e =
    let (out, outs, built, rest, same) = traverse-cons-eq-ok build_outbound n ns e in
    rw same (cc (outbound_tag-object out (build_outbound-tag n built), tags-traverse ns rest))

abbrev IsFree : String → Type 0
IsFree t = member t reserved_client_outbound_tags ≡ false

tags_of : List Dict → List String → List String
tags_of outs tags = map outbound_tag ((with_selector outs tags).0 ++ direct_and_block)

-- the tags of a configuration in the end
abbrev closing : List String → List String
closing tags = tags ++ "direct" ∷ "block" ∷ []

closing_sound : (tags : List String) → Distinct tags → All IsFree tags → Distinct (closing tags)
closing_sound tags d free =
    Distinct-append tags ("direct" ∷ "block" ∷ []) d (refl, (refl, tt))
      (All-map (λ t f. ground arith) tags free)

IsFree-closing_proxy :
    (tags : List String)
    → Distinct tags
    → All IsFree tags
    → Distinct (closing (tags ++ "proxy" ∷ []))
IsFree-closing_proxy tags d free = rw (append_assoc tags ("proxy" ∷ []) ("direct" ∷ "block" ∷ [])) (
    Distinct-append tags ("proxy" ∷ "direct" ∷ "block" ∷ []) d (refl, (refl, (refl, tt)))
      (All-map (λ t f. ground arith) tags free))

member-closing :
    (s : String) (tags more : List String) → member s tags ≡ true → member s (tags ++ more) ≡ true
member-closing s tags more h = rw (member-append s tags more) (rw h)

-- The outbounds with their selector have distinct tags, that of the final outbound among them.
with_selector_sound :
    (outs : List Dict) (tags : List String)
    → map outbound_tag (map object outs) ≡ tags
    → tags ≢ []
    → Distinct tags
    → All IsFree tags
    → Distinct (tags_of outs tags)
      × (member (with_selector outs tags).1 (tags_of outs tags) ≡ true)
      × ((s : String) → member s tags ≡ true → member s (tags_of outs tags) ≡ true)
unfolding tags_of
with_selector_sound outs [] same filled d free = absurd (filled refl)
with_selector_sound outs (t ∷ []) same filled d free =
    rw (map-append, same)
      (
        closing_sound (t ∷ []) d free,
        rw (eq_refl t),
        λ s h. member-closing s (t ∷ []) ("direct" ∷ "block" ∷ []) h,
      )
with_selector_sound outs (t ∷ u ∷ ts) same filled d free =
    rw (map-append, map-append, same)
      (
        IsFree-closing_proxy (t ∷ u ∷ ts) d free,
        member-closing "proxy" ((t ∷ u ∷ ts) ++ "proxy" ∷ []) ("direct" ∷ "block" ∷ [])
            (ground (arith, member-append "proxy" (t ∷ u ∷ ts) ("proxy" ∷ []))),
        λ s h.
            member-closing s ((t ∷ u ∷ ts) ++ "proxy" ∷ []) ("direct" ∷ "block" ∷ [])
              (member-closing s (t ∷ u ∷ ts) ("proxy" ∷ []) h),
      )

All-of_member :
    (ys xs : List String)
    → ((s : String) → member s xs ≡ true → member s ys ≡ true)
    → All (λ s. member s ys ≡ true) xs
All-of_member ys [] f = tt
All-of_member ys (x ∷ xs) f =
    (f x (ground (arith, eq_refl x)), All-of_member ys xs (λ s h. f s (ground (arith, eq_refl s))))

module _ ⦃py : Python⦄ where
  generate_client_config-parts :
      (nodes : List ParsedNode) (preset dns level : String) {c : Dict}
      → generate_client_config nodes preset dns level ≡ ok c
      → Distinct (outbound_tags c)
        × ((f : String) × (lookup "final" (route_of c) ≡ some (str f))
            × (member f (outbound_tags c) ≡ true))
        × ((s : String) → member s (map node_tag nodes) ≡ true → member s (outbound_tags c) ≡ true)
  unfolding generate_client_config tags_of
  generate_client_config-parts [] preset dns level e = cc
  generate_client_config-parts (n ∷ ns) preset dns level e =
      let sorted = sort_by node_tag (n ∷ ns) in
      let tags = map node_tag sorted in
      let (_, e1) = guard->>-eq-ok (known_dns_preset dns) (unknown_dns_preset dns) _ e in
      let (_, e2) = guard->>-eq-ok (known_route_preset preset) (unknown_route_preset preset) _ e1 in
      let (_, e3) = guard->>-eq-ok (member level log_levels) (unknown_log_level level) _ e2 in
      let (valid, e4) = >>-eq-ok (validate_node_tags tags) _ e3 in
      let (outs, built, e5) = >>=-eq-ok (traverse build_outbound sorted) _ e4 in
      let (route, routed, e6) = >>=-eq-ok (build_route_config preset none) _ e5 in
      let (distinct, free) = validate_node_tags-ok tags valid in
      let (sound, final, kept) =
        with_selector_sound outs tags (tags-traverse sorted built)
          (keys-sort_by-ne-nil node_tag n ns) distinct free in
      let chosen = with_selector outs tags in
      let with_final = insert "final" (str chosen.1) route in
      rw
        (
          ← ok-injective e6,
          of_items-to_items (chosen.0 ++ direct_and_block),
          of_fields-to_fields with_final,
        )
        (
          sound,
          (chosen.1, lookup-insert_self "final" (str chosen.1) route, final),
          λ s h. kept s (member-sort_by node_tag s (n ∷ ns) ∙ h),
        )

  -- A configuration for a user: its outbound tags are distinct, every node has its outbound, and
  -- the traffic that no rule takes goes to an outbound that exists.
  pub generate_client_config_sound :
      (nodes : List ParsedNode) (preset dns level : String) (c : Dict)
      → generate_client_config nodes preset dns level ≡ ok c
      → Distinct (outbound_tags c)
        × ((f : String) × (lookup "final" (route_of c) ≡ some (str f))
            × (member f (outbound_tags c) ≡ true))
        × All (λ s. member s (outbound_tags c) ≡ true) (map node_tag nodes)
  generate_client_config_sound nodes preset dns level c e =
      let (distinct, final, served) = generate_client_config-parts nodes preset dns level e in
      (distinct, final, All-of_member (outbound_tags c) (map node_tag nodes) served)

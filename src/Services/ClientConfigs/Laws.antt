-- ===== src/Services/ClientConfigs/Laws.antt =====
-- The profiles of a bundle.
use local_singbox_manager.Common.{
  String, ◌≡◌, refl, sym, ap, ◌∙◌, Bool, true, false, not, List, [], ◌∷◌, map, arith, leb, is_blank,
  All, Distinct, member, All-unseen, text_length, eq_iff, ◌↔◌,
}
use local_singbox_manager.Common.Json.{Dict}
use local_singbox_manager.Common.Python.{Python}
use local_singbox_manager.Common.Results.{
  ok, guard, >>=-eq-ok, >>-eq-ok, guard->>-eq-ok, ok-injective,
}
use local_singbox_manager.Common.Sorting.{sort_by}
use local_singbox_manager.Parsers.Node.{ParsedNode}
use local_singbox_manager.Singbox.Outbounds.{build_outbound}
use local_singbox_manager.Store.Models.{Node}
use local_singbox_manager.Services.Distribution.{UserAssignment}
use local_singbox_manager.Services.Nodes.{Pydantic, deserialize_node}
use local_singbox_manager.Services.ClientConfigs.{
  DocumentError, loading, configuring, max_sbclient_profile_name_length, profile_name, tag_of,
  profile_of, check_profile, profiles_from, sbclient_profiles,
}

module _ ⦃py : Python⦄ (pydantic : Pydantic) where
  -- a node that a profile can be made of
  pub record IsUsable (node : Node) : Type 0 where
    pub parsed : ParsedNode
    pub out : Dict
    pub loads : loading (deserialize_node pydantic node) ≡ ok parsed
    pub builds : configuring (build_outbound parsed) ≡ ok out
    pub named : is_blank (profile_name node) ≡ false
    pub short : leb (text_length (profile_name node)) max_sbclient_profile_name_length ≡ true

  not-true : (b : Bool) → not b ≡ true → b ≡ false
  not-true true e = sym e
  not-true false e = refl

  guard-last : (b : Bool) (e : DocumentError) → guard b e ≡ ok tt → b ≡ true
  guard-last true e h = refl
  guard-last false e h = cc

  check_profile_sound :
      (seen_names : List String) (node : Node)
      → check_profile pydantic seen_names node ≡ ok tt
      → IsUsable node × (member (profile_name node) seen_names ≡ false)
  unfolding check_profile
  check_profile_sound seen_names node h =
      let (parsed, loads, h1) = >>=-eq-ok (loading (deserialize_node pydantic node)) _ h in
      let (out, builds, h2) = >>=-eq-ok (configuring (build_outbound parsed)) _ h1 in
      let (named, h3) = guard->>-eq-ok (not (is_blank (profile_name node))) _ _ h2 in
      let (short, h4) =
        guard->>-eq-ok (leb (text_length (profile_name node)) max_sbclient_profile_name_length) _ _
          h3 in
      (
        record {
          parsed = parsed;
          out = out;
          loads = loads;
          builds = builds;
          named = not-true _ named;
          short = short;
        },
        not-true _ (guard-last _ _ h4),
      )

  check_profile_complete :
      (seen_names : List String) (node : Node)
      → IsUsable node
      → member (profile_name node) seen_names ≡ false
      → check_profile pydantic seen_names node ≡ ok tt
  unfolding check_profile
  check_profile_complete seen_names node u new = simp (u.loads, u.builds, u.named, u.short, new)

  -- the profiles that the loop makes, and when it makes them
  pub profiles_from_sound :
      (seen_names : List String) (route_preset : String) (nodes : List Node) {profiles : List Dict}
      → profiles_from pydantic seen_names route_preset nodes ≡ ok profiles
      → (profiles ≡ map (profile_of route_preset) nodes)
        × All IsUsable nodes
        × Distinct (map profile_name nodes)
        × All (λ (name : String). member name seen_names ≡ false) (map profile_name nodes)
  unfolding profiles_from
  profiles_from_sound seen_names route_preset [] h = (sym (ok-injective h), tt, tt, tt)
  profiles_from_sound seen_names route_preset (node ∷ nodes) h =
      let (checked, h1) = >>-eq-ok (check_profile pydantic seen_names node) _ h in
      let (usable, new) = check_profile_sound seen_names node checked in
      let (made, rest, h2) =
        >>=-eq-ok (profiles_from pydantic (profile_name node ∷ seen_names) route_preset nodes) _
          h1 in
      let (same, others, distinct, fresh) =
        profiles_from_sound (profile_name node ∷ seen_names) route_preset nodes rest in
      let (other, unseen) =
        All-unseen (profile_name node) seen_names (map profile_name nodes) fresh in
      (
        sym (ok-injective h2) ∙ ap (λ ps. profile_of route_preset node ∷ ps) same,
        (usable, others),
        (other, distinct),
        (new, unseen),
      )

  All-or :
      (s : String) (seen_names names : List String)
      → member s names ≡ false
      → All (λ (name : String). member name seen_names ≡ false) names
      → All (λ (name : String). member name (s ∷ seen_names) ≡ false) names
  All-or s seen_names [] h k = tt
  All-or s seen_names (name ∷ names) h (e, k) =
      (ground (arith, eq_iff s name, eq_iff name s), All-or s seen_names names (ground arith) k)

  pub profiles_from_complete :
      (seen_names : List String) (route_preset : String) (nodes : List Node)
      → All IsUsable nodes
      → Distinct (map profile_name nodes)
      → All (λ (name : String). member name seen_names ≡ false) (map profile_name nodes)
      → profiles_from pydantic seen_names route_preset nodes
        ≡ ok (map (profile_of route_preset) nodes)
  unfolding profiles_from
  profiles_from_complete seen_names route_preset [] u d f = refl
  profiles_from_complete seen_names route_preset (node ∷ nodes) (u, us) (new, d) (f, fs) = simp (
    check_profile_complete seen_names node u f,
    profiles_from_complete (profile_name node ∷ seen_names) route_preset nodes us d
        (All-or (profile_name node) seen_names _ new fs),
  )

  nothing_seen : (names : List String) → All (λ (name : String). member name [] ≡ false) names
  nothing_seen [] = tt
  nothing_seen (name ∷ names) = (refl, nothing_seen names)

  -- The profiles of a bundle are made exactly when every assigned node can be loaded and turned into an
  -- outbound, its tag without white space at its ends is not empty and has at most 80 characters, and
  -- no two of these names agree; they are then one for each node, in the order of the tags.
  pub sbclient_profiles-ok_iff :
      (a : UserAssignment) (profiles : List Dict)
      → (sbclient_profiles pydantic a ≡ ok profiles) ↔ (
          All IsUsable (sort_by tag_of a.nodes)
          × Distinct (map profile_name (sort_by tag_of a.nodes))
          × (profiles ≡ map (profile_of a.route_preset) (sort_by tag_of a.nodes)))
  unfolding sbclient_profiles
  sbclient_profiles-ok_iff a profiles = (
    λ h.
        let (same, usable, distinct, fresh) =
          profiles_from_sound [] a.route_preset (sort_by tag_of a.nodes) h in
        (usable, distinct, same),
    λ (usable, distinct, same).
        profiles_from_complete [] a.route_preset (sort_by tag_of a.nodes) usable distinct
          (nothing_seen _)
        ∙ ap ok (sym same),
  )

-- ===== src/Services/Users/Forms/Laws.antt =====
-- What the checks of the forms let pass.
use mathlib.Core.Bool.{false≢true}
use local_singbox_manager.Common.{
  ℕ, zero, suc, String, ◌≡◌, refl, sym, ap, Bool, true, false, not, Option, none, some, List, [],
  ◌∷◌, is_blank, strip, is_some, Bool-cases, inl, inr, if◌then◌else◌, All, All-map, subst, ◌⊎◌,
  filter, member,
}
use local_singbox_manager.Common.Json.{ℤ, pos, negsuc}
use local_singbox_manager.Common.Python.{Python}
use local_singbox_manager.Common.Results.{Result, ok, err, ok-injective, >>-eq-ok}
use local_singbox_manager.Singbox.ClientGenerator.{reserved_client_outbound_tags}
use local_singbox_manager.Singbox.Presets.{known_route_preset}
use local_singbox_manager.Store.Models.{Database}
use local_singbox_manager.Services.NodeTags.{listed, parse_node_tags}
use local_singbox_manager.Services.Distribution.{positive_int_or_none}
use local_singbox_manager.Services.Users.Forms.{
  Exit, refused, crashed, finish, has_node, no_tags, above_zero, validated_route_preset,
  preset_or_exit, checked_route_preset, parse_optional_positive_int, validated_node_tags,
  MutationResult,
}

pub not-true : (b : Bool) → not b ≡ true → b ≡ false
not-true true e = sym e
not-true false e = refl

pub is_some-false {ℓ} : {A : Type ℓ} (o : Option A) → not (is_some o) ≡ true → o ≡ none
is_some-false none e = refl
is_some-false (some a) e = absurd (false≢true e)

-- an accepted change comes from a body that returned
pub finish-accepted :
    (db : Database) (m : Result Exit (Database × String)) {db' : Database} {r : MutationResult}
    → finish db m ≡ ok (db', r)
    → (db' ≡ db) ⊎ ((message : String) × (m ≡ ok (db', message)))
unfolding finish
finish-accepted db (ok (d, message)) e =
    inr (message, ap (λ x. ok (x, message)) (ap (λ x. x.0) (ok-injective e)))
finish-accepted db (err (refused message)) e = inl (sym (ap (λ x. x.0) (ok-injective e)))
finish-accepted db (err (crashed c)) e = cc

preset_lem :
    (value : String) {preset : String}
    → (if known_route_preset value then some value else none) ≡ some preset
    → known_route_preset preset ≡ true
preset_lem value e = elim (Bool-cases (known_route_preset value)) [
  | inl known ↦
      (let same = rw known at e in subst (λ (x : String). known_route_preset x ≡ true) (cc) known)
  | inr unknown ↦ (let bad = rw unknown at e in cc)
]

preset_or_exit-known :
    (o : Option String) {preset : String} → preset_or_exit o ≡ ok preset → o ≡ some preset
preset_or_exit-known none e = cc
preset_or_exit-known (some p) e = ap some (ok-injective e)

pub checked_route_preset-known :
    (raw : String) {preset : String}
    → checked_route_preset raw ≡ ok preset
    → known_route_preset preset ≡ true
unfolding checked_route_preset validated_route_preset
checked_route_preset-known raw e = preset_lem _ (preset_or_exit-known _ e)

above_zero-positive :
    (label : String) (o : Option ℤ) {limit : Option ℕ}
    → above_zero label o ≡ ok limit
    → positive_int_or_none limit ≡ limit
unfolding positive_int_or_none
above_zero-positive label none e = cc
above_zero-positive label (some (pos zero)) e = cc
above_zero-positive label (some (negsuc n)) e = cc
above_zero-positive label (some (pos (suc n))) e =
    subst (λ (x : Option ℕ). positive_int_or_none x ≡ x) (ok-injective e) refl

limit_lem :
    (blank digits : Bool) (label : String) (m : Result Exit (Option ℕ)) {limit : Option ℕ}
    → ((x : Option ℕ) → m ≡ ok x → positive_int_or_none x ≡ x)
    → (if blank then ok none else if not digits then err (refused label) else m) ≡ ok limit
    → positive_int_or_none limit ≡ limit
unfolding positive_int_or_none
limit_lem true digits label m h e =
    subst (λ (x : Option ℕ). positive_int_or_none x ≡ x) (ok-injective e) refl
limit_lem false true label m h e = h _ e
limit_lem false false label m h e = cc

pub parse_optional_positive_int-positive :
    ⦃py : Python⦄ (raw label : String) {limit : Option ℕ}
    → parse_optional_positive_int raw label ≡ ok limit
    → positive_int_or_none limit ≡ limit
unfolding parse_optional_positive_int
parse_optional_positive_int-positive ⦃py⦄ raw label e =
    limit_lem (is_blank (strip raw)) (py.isdigit (strip raw)) _
      (above_zero label (py.int_of (strip raw)))
      (λ x h. above_zero-positive label (py.int_of (strip raw)) h) e

no_tags-none : (label : String) (tags : List String) → no_tags label tags ≡ ok tt → tags ≡ []
no_tags-none label [] e = refl
no_tags-none label (tag ∷ tags) e = cc

-- nothing that a test lets pass
filter-none :
    (p : String → Bool) (tags : List String) → filter p tags ≡ [] → All (λ tag. p tag ≡ false) tags
filter-none p [] e = tt
filter-none p (tag ∷ tags) e = elim (Bool-cases (p tag)) [
  | inl t ↦ (let bad = rw t at e in cc)
  | inr t ↦ (t, filter-none p tags (rw t at e))
]

not-false : (b : Bool) → not b ≡ false → b ≡ true
not-false true e = refl
not-false false e = sym e

-- Node tags that pass the check are the parsed ones, each the tag of a stored node and none of them
-- reserved.
pub validated_node_tags_sound :
    (db : Database) (raw_tags : List String) {tags : List String}
    → validated_node_tags db raw_tags ≡ ok tags
    → (tags ≡ parse_node_tags (listed raw_tags))
      × All (λ tag. has_node db tag ≡ true) tags
      × All (λ tag. member tag reserved_client_outbound_tags ≡ false) tags
unfolding validated_node_tags
validated_node_tags_sound db raw_tags e =
    let tags = parse_node_tags (listed raw_tags) in
    let (known, e') =
      >>-eq-ok (no_tags "Unknown node tag(s): " (filter (λ tag. not (has_node db tag)) tags)) _ e in
    let (free, e'') =
      >>-eq-ok
        (no_tags "Reserved node tag(s): "
          (filter (λ tag. member tag reserved_client_outbound_tags) tags))
        _ e' in
    let same = ok-injective e'' in
    (
      sym same,
      subst (λ (x : List String). All (λ tag. has_node db tag ≡ true) x) same
          (All-map (λ tag h. not-false _ h) tags (filter-none _ tags (no_tags-none _ _ known))),
      subst (λ (x : List String). All (λ tag. member tag reserved_client_outbound_tags ≡ false) x)
          same (filter-none _ tags (no_tags-none _ _ free)),
    )

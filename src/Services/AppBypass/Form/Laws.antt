-- ===== src/Services/AppBypass/Form/Laws.antt =====
-- The entries that a form makes.
use local_singbox_manager.Common.{
  ℕ, suc, ◌+◌, ◌≤◌, ◌≡◌, refl, sym, ap, subst, ◌∙◌, arith, String, false, Option, none, some, List,
  [], ◌∷◌, map, length, All, Distinct, member, All-unseen, ltb, is_blank, strip, Bool-cases, inl,
  inr, if-true, if-false, ◌==◌, eq_iff,
}
use local_singbox_manager.Common.Python.{Python}
use local_singbox_manager.Common.Results.{Result, ok, err, >>=-eq-ok, ok-injective}
use local_singbox_manager.Services.AppBypass.{BypassEntry, is_valid_app_id, parse_process_match}
use local_singbox_manager.Services.AppBypass.Form.{
  DesktopApp, FormError, max_entries, max_custom_lines, later_app, catalog_app, matching, available,
  match_of, selected_entry, consed, custom_entry, custom_entries, form_entries,
  build_entries_from_form,
}

abbrev pub ids_of : List BypassEntry → List String
ids_of entries = map (λ (e : BypassEntry). e.app_id) entries

-- entries with different ids, none of which was seen
abbrev AreFresh : List String → List BypassEntry → Type 0
AreFresh seen entries =
    All (λ (id : String). member id seen ≡ false) (ids_of entries) × Distinct (ids_of entries)

AreFresh-cons :
    (seen : List String) (entry : BypassEntry) (entries : List BypassEntry)
    → member entry.app_id seen ≡ false
    → AreFresh (entry.app_id ∷ seen) entries
    → AreFresh seen (entry ∷ entries)
AreFresh-cons seen entry entries new (all, distinct) =
    let (other, rest) = All-unseen entry.app_id seen (ids_of entries) all in
    ((new, rest), (other, distinct))

later_app-id :
    (app_id : String) (app : DesktopApp) (o : Option DesktopApp) {found : DesktopApp}
    → ((a : DesktopApp) → o ≡ some a → a.app_id ≡ app_id)
    → later_app app_id app o ≡ some found
    → found.app_id ≡ app_id
later_app-id app_id app (some a) f e = f _ e
later_app-id app_id app none f e = elim (Bool-cases (app.app_id == app_id)) [
  | inl t ↦
      subst (λ (a : DesktopApp). a.app_id ≡ app_id) (some-same (rw t at e))
        ((eq_iff app.app_id app_id).0 t)
  | inr t ↦ (let bad = rw t at e in cc)
]
  where
    some-same : {a b : DesktopApp} → ◌≡◌ {A = Option DesktopApp} (some a) (some b) → a ≡ b
    some-same h = cc

catalog_app-id :
    (app_id : String) (apps : List DesktopApp) (found : DesktopApp)
    → catalog_app app_id apps ≡ some found
    → found.app_id ≡ app_id
unfolding catalog_app
catalog_app-id app_id [] found e = cc
catalog_app-id app_id (app ∷ apps) found e =
    later_app-id app_id app (catalog_app app_id apps) (catalog_app-id app_id apps) e

not-ok :
    {error : FormError} {entries : List BypassEntry}
    → ◌≡◌ {A = Result FormError (List BypassEntry)} (err error) (ok entries)
    → ⊥
not-ok h = cc

module _ ⦃py : Python⦄ where
  consed-ok :
      (entry : BypassEntry) (m : Result FormError (List BypassEntry)) {entries : List BypassEntry}
      → consed entry m ≡ ok entries
      → (rest : List BypassEntry) × (m ≡ ok rest) × (entry ∷ rest ≡ entries)
  consed-ok entry (err e) h = cc
  consed-ok entry (ok rest) h = (rest, refl, ok-injective h)

  custom_entries-AreFresh :
      (seen : List String) (count : ℕ) (lines : List String) {entries : List BypassEntry}
      → custom_entries seen count lines ≡ ok entries
      → AreFresh seen entries
        × (count ≤ max_custom_lines → count + length entries ≤ max_custom_lines)
  unfolding custom_entries
  custom_entries-AreFresh seen count [] e =
      subst
        (λ (es : List BypassEntry).
          AreFresh seen es × (count ≤ max_custom_lines → count + length es ≤ max_custom_lines))
        (ok-injective e) ((tt, tt), (λ h. omega arith))
  custom_entries-AreFresh seen count (line ∷ lines) e = elim (Bool-cases (is_blank (strip line))) [
    | inl b ↦ custom_entries-AreFresh seen count lines (if-true _ _ _ b e)
    | inr b ↦
        let (m, matched, e1) =
          >>=-eq-ok (matching (parse_process_match line)) _ (if-false _ _ _ b e) in
        elim (Bool-cases (member (custom_entry m).app_id seen)) [
          | inl k ↦ custom_entries-AreFresh seen count lines (if-true _ _ _ k e1)
          | inr k ↦ elim (Bool-cases (ltb max_custom_lines (suc count))) [
            | inl l ↦ absurd (not-ok (if-true _ _ _ l (if-false _ _ _ k e1)))
            | inr l ↦
                let (rest, made, same) =
                  consed-ok (custom_entry m) _ (if-false _ _ _ l (if-false _ _ _ k e1)) in
                let (fresh, few) =
                  custom_entries-AreFresh ((custom_entry m).app_id ∷ seen) (suc count) lines made in
                subst
                  (λ (es : List BypassEntry).
                    AreFresh seen es
                    × (count ≤ max_custom_lines → count + length es ≤ max_custom_lines))
                  same
                  (
                    AreFresh-cons seen (custom_entry m) rest k fresh,
                    (λ h. omega (arith, few (ground arith))),
                  )
          ]
        ]
  ]

  selected_entry-id :
      (apps : List DesktopApp) (overrides : List (String × String)) (app_id : String)
      {entry : BypassEntry}
      → selected_entry apps overrides app_id ≡ ok entry
      → entry.app_id ≡ app_id
  unfolding selected_entry
  selected_entry-id apps overrides app_id e =
      let (app, there, e1) = >>=-eq-ok (available app_id (catalog_app app_id apps)) _ e in
      let (m, matched, e2) =
        >>=-eq-ok (matching (parse_process_match (match_of app_id overrides app))) _ e1 in
      ap (λ (x : BypassEntry). x.app_id) (sym (ok-injective e2))
      ∙ by_app (catalog_app app_id apps) app (catalog_app-id app_id apps) there
    where
      by_app :
          (o : Option DesktopApp) (app : DesktopApp)
          → ((a : DesktopApp) → o ≡ some a → a.app_id ≡ app_id)
          → available app_id o ≡ ok app
          → app.app_id ≡ app_id
      by_app none app f h = cc
      by_app (some a) app f h = elim (Bool-cases (is_valid_app_id app_id)) [
        | inl t ↦
            subst (λ (x : DesktopApp). x.app_id ≡ app_id) (ok-injective (if-true _ _ _ t h))
              (f a refl)
        | inr t ↦ (let bad = if-false _ _ _ t h in cc)
      ]

  form_entries-AreFresh :
      (apps : List DesktopApp) (overrides : List (String × String)) (lines seen ids : List String)
      {entries : List BypassEntry}
      → form_entries apps overrides lines seen ids ≡ ok entries
      → AreFresh seen entries
  unfolding form_entries
  form_entries-AreFresh apps overrides lines seen [] e = (custom_entries-AreFresh seen 0 lines e).0
  form_entries-AreFresh apps overrides lines seen (app_id ∷ ids) e =
      elim (Bool-cases (member app_id seen)) [
        | inl k ↦ form_entries-AreFresh apps overrides lines seen ids (if-true _ _ _ k e)
        | inr k ↦
            let (entry, made, e1) =
              >>=-eq-ok (selected_entry apps overrides app_id) _ (if-false _ _ _ k e) in
            let (rest, others, same) = consed-ok entry _ e1 in
            let named = selected_entry-id apps overrides app_id made in
            let fresh = form_entries-AreFresh apps overrides lines (app_id ∷ seen) ids others in
            subst (AreFresh seen) same (
              AreFresh-cons seen entry rest
                (subst (λ (x : String). member x seen ≡ false) (sym named) k)
                (subst (λ (x : String). AreFresh (x ∷ seen) rest) (sym named) fresh))
      ]

  -- A form that is accepted makes entries with different ids, 200 at most.
  pub build_entries_from_form_sound :
      (selected_ids : List String) (overrides : List (String × String)) (lines : List String)
      (apps : List DesktopApp) {entries : List BypassEntry}
      → build_entries_from_form selected_ids overrides lines apps ≡ ok entries
      → Distinct (ids_of entries) × (length entries ≤ max_entries)
  unfolding build_entries_from_form
  build_entries_from_form_sound selected_ids overrides lines apps e =
      let (made, first, e1) = >>=-eq-ok (form_entries apps overrides lines [] selected_ids) _ e in
      elim (Bool-cases (ltb max_entries (length made))) [
        | inl t ↦ absurd (not-ok (if-true _ _ _ t e1))
        | inr t ↦
            subst (λ (es : List BypassEntry). Distinct (ids_of es) × (length es ≤ max_entries))
              (ok-injective (if-false _ _ _ t e1))
              ((form_entries-AreFresh apps overrides lines [] selected_ids first).1, ground arith)
      ]

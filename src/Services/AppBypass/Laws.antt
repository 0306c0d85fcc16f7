-- ===== src/Services/AppBypass/Laws.antt =====
-- The names and paths that go around the tunnel.
use mathlib.Core.Bool.{false≢true}
use local_singbox_manager.Common.Python.{Python}
use local_singbox_manager.Store.Models.{Database}
use local_singbox_manager.Common.{
  String, ◌≡◌, refl, sym, Bool, true, false, not, ◌&&◌, List, [], ◌∷◌, is_blank, text_or, member,
  Distinct, All, All-map, member_of_ne, arith, eq_iff, ◌==◌, ◌||◌, if◌then◌else◌,
}
use local_singbox_manager.Services.AppBypass.{
  load_bypass_entries, process_bypass_for_config, BypassEntry, split_entries,
}

-- not blank, not seen before, and without repetitions
abbrev IsClean : List String → List String → Type 0
IsClean seen xs = Distinct xs × All (λ x. (is_blank x ≡ false) × (member x seen ≡ false)) xs

or-right : (p q : Bool) → (p || q) ≡ false → (p ≡ false) × (q ≡ false)
or-right true q e = (e, absurd (false≢true (sym e)))
or-right false q e = (refl, e)

not-true : (b : Bool) → not b ≡ true → b ≡ false
not-true true e = sym e
not-true false e = refl

and-true : (p q : Bool) → (p && q) ≡ true → (p ≡ true) × (q ≡ true)
and-true true q e = (refl, e)
and-true false q e = absurd (false≢true e)

eq_sym_false : (s t : String) → (s == t) ≡ false → (t == s) ≡ false
eq_sym_false s t e = ground (arith, eq_iff s t, eq_iff t s)

-- the texts collected after `x` was seen
cons-IsClean :
    (x : String) (seen xs : List String)
    → is_blank x ≡ false
    → member x seen ≡ false
    → IsClean (x ∷ seen) xs
    → IsClean seen (x ∷ xs)
cons-IsClean x seen xs full new (distinct, clean) = (
  (
    member_of_ne x xs
        (All-map (λ y h. eq_sym_false y x (eq_sym_false x y (or-right (x == y) _ h.1).0)) xs clean),
    distinct,
  ),
  ((full, new), All-map (λ y h. (h.0, (or-right (x == y) _ h.1).1)) xs clean),
)

abbrev AreClean : List String → List String → List String × List String → Type 0
AreClean names paths r = IsClean names r.0 × IsClean paths r.1

pick-AreClean :
    (b : Bool) (names paths : List String) (r s : List String × List String)
    → (b ≡ true → AreClean names paths r)
    → (b ≡ false → AreClean names paths s)
    → AreClean names paths (if b then r else s)
pick-AreClean true names paths r s f g = f refl
pick-AreClean false names paths r s f g = g refl

split_entries-AreClean :
    (entries : List BypassEntry) (names paths : List String)
    → AreClean names paths (split_entries entries names paths)
split_entries-AreClean [] names paths = ((tt, tt), (tt, tt))
split_entries-AreClean (entry ∷ entries) names paths =
    let path = text_or entry.process_path "" in
    let name = entry.process_name in
    let skip = split_entries-AreClean entries names paths in
    let as_path = split_entries-AreClean entries names (path ∷ paths) in
    let as_name = split_entries-AreClean entries (name ∷ names) paths in
    pick-AreClean (not (is_blank path)) names paths _ _
      (λ full.
        pick-AreClean (not (member path paths)) names paths _ _
          (λ new.
            (as_path.0, cons-IsClean path paths _ (not-true _ full) (not-true _ new) as_path.1))
          (λ old. skip))
      (λ blank.
        pick-AreClean (not (is_blank name) && not (member name names)) names paths _ _
          (λ ok.
            let (full, new) = and-true _ _ ok in
            (cons-IsClean name names _ (not-true _ full) (not-true _ new) as_name.0, as_name.1))
          (λ old. skip))

-- The names and the paths that the settings send around the tunnel are not blank and have no
-- repetitions, whatever text the setting holds.
pub process_bypass_for_config-clean :
    ⦃py : Python⦄ (db : Database)
    → (names : List String) × (paths : List String) × (process_bypass_for_config db
        ≡ ("process_name", names) ∷ ("process_path", paths) ∷ [])
      × Distinct names
      × All (λ x. is_blank x ≡ false) names
      × Distinct paths
      × All (λ x. is_blank x ≡ false) paths
unfolding process_bypass_for_config
process_bypass_for_config-clean db =
    let entries = load_bypass_entries db in
    let (names, paths) = split_entries-AreClean entries [] [] in
    (
      (split_entries entries [] []).0,
      (split_entries entries [] []).1,
      refl,
      names.0,
      All-map (λ x h. h.0) _ names.1,
      paths.0,
      All-map (λ x h. h.0) _ paths.1,
    )

-- ===== src/Config/Laws.antt =====
-- The ids that the environment lists.
use local_singbox_manager.Common.{
  ◌≡◌, refl, subst, ◌∙◌, arith, String, Bool, true, false, not, ◌&&◌, ◌||◌, Option, none, some,
  List, [], ◌∷◌, any, is_blank, strip, split_on, replace_char, Bool-cases, inl, inr, if◌then◌else◌,
}
use local_singbox_manager.Common.Json.{ℤ}
use local_singbox_manager.Common.Python.{Python}
use local_singbox_manager.Common.Integers.{same_int, has_int, add_int, same_int-eq}
use local_singbox_manager.Config.{
  TelegramSettings, code_of_comma, code_of_semicolon, ids_from, add_parsed, parse_id_set, admin_ids,
}

has_int-same :
    (m n : ℤ) (ids : List ℤ) → same_int m n ≡ true → has_int m ids ≡ true → has_int n ids ≡ true
has_int-same m n ids e h = subst (λ (k : ℤ). has_int k ids ≡ true) (same_int-eq m n e) h

or_present : (b c : Bool) → (b ≡ true → c ≡ true) → c ≡ (b || c)
or_present true c f = f refl
or_present false c f = refl

has_int-add : (m n : ℤ) (ids : List ℤ) → has_int n (add_int m ids) ≡ (same_int m n || has_int n ids)
has_int-add m n ids = elim (Bool-cases (has_int m ids)) [
  | inl e ↦ rw e (or_present (same_int m n) (has_int n ids) (λ s. has_int-same m n ids s e))
  | inr e ↦ rw e refl
]

abbrev is_int : ℤ → Option ℤ → Bool
is_int n none = false
is_int n (some m) = same_int m n

or_swap : (a b c d : Bool) → a ≡ (b || c) → (a || d) ≡ (c || (b || d))
or_swap a b c d e = ground arith

module _ ⦃py : Python⦄ where
  -- a part that is the number `n`, white space at its ends left out
  abbrev pub names : ℤ → String → Bool
  names n part = not (is_blank (strip part)) && is_int n (py.int_of (strip part))

  add_parsed-has :
      (n : ℤ) (o : Option ℤ) (ids : List ℤ)
      → has_int n (add_parsed o ids) ≡ (is_int n o || has_int n ids)
  add_parsed-has n none ids = refl
  add_parsed-has n (some m) ids = has_int-add m n ids

  step-has :
      (n : ℤ) (part : String) (ids : List ℤ)
      → has_int n (if is_blank (strip part) then ids else add_parsed (py.int_of (strip part)) ids)
        ≡ (names n part || has_int n ids)
  step-has n part ids = elim (Bool-cases (is_blank (strip part))) [
    | inl e ↦ rw e refl
    | inr e ↦ rw e (add_parsed-has n (py.int_of (strip part)) ids)
  ]

  ids_from-has :
      (n : ℤ) (parts : List String) (ids : List ℤ)
      → has_int n (ids_from parts ids) ≡ (has_int n ids || any (names n) parts)
  unfolding ids_from
  ids_from-has n [] ids = ground arith
  ids_from-has n (part ∷ parts) ids = ids_from-has n parts _ ∙ or_swap _ _ _ _ (step-has n part ids)

  -- A number is one of the administrators exactly if it is one of the parts of the setting, which commas and
  -- semicolons separate; parts that are no numbers are left out.
  pub admin_ids-has :
      (n : ℤ) (settings : TelegramSettings)
      → has_int n (admin_ids settings)
        ≡ any
            (names n)
            (split_on code_of_comma (replace_char code_of_semicolon "," settings.admin_ids_raw))
  unfolding admin_ids parse_id_set
  admin_ids-has n settings = ids_from-has n _ []

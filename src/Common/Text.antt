-- ===== src/Common/Text.antt =====
-- The operations of `str` that the program uses: `strip`, `split` on a character, `isspace`.
use Prim.Native.Nat.{ℕ, ◌+◌}
use Prim.Native.Char.{Char, code}
use Prim.Native.String
use Prim.Native.String.{String}
use mathlib.Core.Path.{◌≡◌, refl, sym, ap, ◌∙◌}
use mathlib.Core.Bool.{Bool, true, false, false≢true, not, ◌&&◌, ◌||◌}
use mathlib.Core.List.{List, [], ◌∷◌}
use mathlib.Core.Option.{Option, none, some}
use native.Mathlib.Omega.{arith}
use text.Mathlib.Text.{◌==◌, starts_with}
use local_singbox_manager.Common.Tests.{leb, ltb, ◌=ℕ◌, if◌then◌else◌}
use mathlib.Core.Logic.{◌≢◌}

infixr 65 ◌⧺◌
-- `+` on texts
abbrev pub ◌⧺◌ : String → String → String
s ⧺ t = String.◌++◌ s t

abbrev pub is_blank : String → Bool
is_blank String.[] = true
is_blank (String.◌∷◌ c s) = false

-- `str.isspace` of one character
unfoldable pub is_space : Char → Bool
is_space c =
    let n = code c in
    leb 9 n && leb n 13
    || leb 28 n && leb n 32
    || n =ℕ 133
    || n =ℕ 160
    || n =ℕ 5760
    || leb 8192 n && leb n 8202
    || leb 8232 n && leb n 8233
    || n =ℕ 8239
    || n =ℕ 8287
    || n =ℕ 12288

unfoldable pub lstrip : String → String
lstrip String.[] = String.[]
lstrip (String.◌∷◌ c s) = let rest = lstrip s in if is_space c then rest else String.◌∷◌ c s

unfoldable pub rstrip : String → String
rstrip String.[] = String.[]
rstrip (String.◌∷◌ c s) =
    let rest = rstrip s in if is_blank rest && is_space c then String.[] else String.◌∷◌ c rest

-- `str.rstrip(chars)`, the characters given by a test
unfoldable pub rstrip_by : (Char → Bool) → String → String
rstrip_by p String.[] = String.[]
rstrip_by p (String.◌∷◌ c s) =
    let rest = rstrip_by p s in if is_blank rest && p c then String.[] else String.◌∷◌ c rest

-- `str.strip()`
unfoldable pub strip : String → String
unfolding lstrip rstrip is_space
strip s = rstrip (lstrip s)

rstrip_idem : (s : String) → rstrip (rstrip s) ≡ rstrip s
unfolding rstrip
rstrip_idem String.[] = refl
rstrip_idem (String.◌∷◌ c s) = ground (arith, rstrip_idem s)

lstrip-rstrip-lstrip : (s : String) → lstrip (rstrip (lstrip s)) ≡ rstrip (lstrip s)
unfolding lstrip rstrip
lstrip-rstrip-lstrip String.[] = refl
lstrip-rstrip-lstrip (String.◌∷◌ c s) = ground (arith, lstrip-rstrip-lstrip s)

-- Stripping a second time changes nothing.
pub strip_idem : (s : String) → strip (strip s) ≡ strip s
strip_idem s = unfold strip in rw (lstrip-rstrip-lstrip s) (rstrip_idem (lstrip s))

-- an error text that is not empty
pub not_blank : (s : String) → is_blank s ≡ false → s ≢ ""
not_blank s f e = false≢true (sym f ∙ ap is_blank e)

-- Python's truth value of an optional text, and `value or default`
abbrev pub truthy : Option String → Bool
truthy none = false
truthy (some s) = not (is_blank s)

abbrev pub text_or : Option String → String → String
text_or none d = d
text_or (some s) d = if is_blank s then d else s

-- `s or None`
abbrev pub or_none : String → Option String
or_none s = if is_blank s then none else some s

abbrev onto_first : Char → List String → List String
onto_first c [] = (String.◌∷◌ c String.[]) ∷ []
onto_first c (x ∷ xs) = (String.◌∷◌ c x) ∷ xs

-- `s.split(sep)` for a separator of one character, given by its code point
unfoldable pub split_on : ℕ → String → List String
split_on sep String.[] = String.[] ∷ []
split_on sep (String.◌∷◌ c s) =
    let rest = split_on sep s in if code c =ℕ sep then String.[] ∷ rest else onto_first c rest

-- `sep.join(xs)`
abbrev pub join : String → List String → String
join sep [] = ""
join sep (x ∷ []) = x
join sep (x ∷ y ∷ xs) = x ⧺ sep ⧺ join sep (y ∷ xs)

abbrev pub code_of_newline : ℕ
code_of_newline = 10

-- `s.replace(c, new)` for a character given by its code point
unfoldable pub replace_char : ℕ → String → String → String
replace_char old new String.[] = String.[]
replace_char old new (String.◌∷◌ c s) =
    let rest = replace_char old new s in if code c =ℕ old then new ⧺ rest else String.◌∷◌ c rest

-- `len(s)`
abbrev pub text_length : String → ℕ
text_length String.[] = 0
text_length (String.◌∷◌ c s) = 1 + text_length s

-- `all(p(ch) for ch in s)` and `any(p(ch) for ch in s)`
abbrev pub all_chars : (Char → Bool) → String → Bool
all_chars p String.[] = true
all_chars p (String.◌∷◌ c s) = p c && all_chars p s

abbrev pub any_char : (Char → Bool) → String → Bool
any_char p String.[] = false
any_char p (String.◌∷◌ c s) = p c || any_char p s

-- `s[:n]`
abbrev pub take_text : ℕ → String → String
take_text ℕ.zero s = String.[]
take_text (ℕ.suc n) String.[] = String.[]
take_text (ℕ.suc n) (String.◌∷◌ c s) = String.◌∷◌ c (take_text n s)

-- `s[n:]`
abbrev pub drop_text : ℕ → String → String
drop_text ℕ.zero s = s
drop_text (ℕ.suc n) String.[] = String.[]
drop_text (ℕ.suc n) (String.◌∷◌ c s) = drop_text n s

-- `s.endswith(t)`
abbrev pub ends_with : String → String → Bool
ends_with String.[] t = is_blank t
ends_with (String.◌∷◌ c s) t = String.◌∷◌ c s == t || ends_with s t

-- `s.partition(c)[0]`, which is `s.split(c, 1)[0]`, for a character given by its code point
unfoldable pub before : ℕ → String → String
before c String.[] = String.[]
before c (String.◌∷◌ a s) =
    let rest = before c s in if code a =ℕ c then String.[] else String.◌∷◌ a rest

-- `s.partition(c)[2]`
unfoldable pub after : ℕ → String → String
after c String.[] = String.[]
after c (String.◌∷◌ a s) = let rest = after c s in if code a =ℕ c then s else rest

-- `t in s`
abbrev pub contains : String → String → Bool
contains String.[] t = is_blank t
contains (String.◌∷◌ c s) t = starts_with (String.◌∷◌ c s) t || contains s t

-- `ord(ch) < 32 or ord(ch) == 127`
unfoldable pub is_control : Char → Bool
is_control c = ltb (code c) 32 || code c =ℕ 127

-- the test that a character is this one
abbrev pub is_code : ℕ → Char → Bool
is_code n c = code c =ℕ n

abbrev between : ℕ → ℕ → ℕ → Bool
between low high n = leb low n && leb n high

-- `[A-Za-z0-9_.+-]`
unfoldable pub is_file_char : Char → Bool
is_file_char c =
    let n = code c in
    between 65 90 n
    || between 97 122 n
    || between 48 57 n
    || n =ℕ 95
    || n =ℕ 46
    || n =ℕ 43
    || n =ℕ 45

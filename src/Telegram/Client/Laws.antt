-- ===== src/Telegram/Client/Laws.antt =====
-- The pieces of a long message.
use text.Mathlib.TextLemmas.{cons-append, nil-append}
use local_singbox_manager.Common.{
  ℕ, zero, suc, ◌≤◌, ◌≡◌, refl, ap, ◌∙◌, arith, String, false, List, [], ◌∷◌, ◌⧺◌, All, is_empty,
  take_text, drop_text, text_length,
}
use local_singbox_manager.Telegram.Client.{message_limit, or_empty, pieces, message_chunks}

-- `"".join(chunks)`
abbrev pub joined : List String → String
joined [] = ""
joined (chunk ∷ chunks) = chunk ⧺ joined chunks

take-drop : (n : ℕ) (s : String) → take_text n s ⧺ drop_text n s ≡ s
take-drop zero s = nil-append s
take-drop (suc n) String.[] = refl
take-drop (suc n) (String.◌∷◌ c s) =
    cons-append c (take_text n s) (drop_text n s) ∙ ap (String.◌∷◌ c) (take-drop n s)

text_length-take : (n : ℕ) (s : String) → text_length (take_text n s) ≤ n
text_length-take zero s = omega arith
text_length-take (suc n) String.[] = omega arith
text_length-take (suc n) (String.◌∷◌ c s) = omega (arith, text_length-take n s)

text_length-drop : (n : ℕ) (s : String) → text_length (drop_text n s) ≤ text_length s
text_length-drop zero s = omega arith
text_length-drop (suc n) String.[] = omega arith
text_length-drop (suc n) (String.◌∷◌ c s) = omega (arith, text_length-drop n s)

drop_shorter :
    (n k : ℕ) (s : String) → text_length s ≤ suc k → text_length (drop_text (suc n) s) ≤ k
drop_shorter n k String.[] h = omega arith
drop_shorter n k (String.◌∷◌ c s) h = omega (arith, text_length-drop n s)

-- enough fuel gives all of the text
joined-pieces : (fuel : ℕ) (s : String) → text_length s ≤ fuel → joined (pieces fuel s) ≡ s
unfolding pieces
joined-pieces zero String.[] h = refl
joined-pieces zero (String.◌∷◌ c s) h = absurd (omega arith)
joined-pieces (suc fuel) String.[] h = refl
joined-pieces (suc fuel) (String.◌∷◌ c s) h =
    ap (λ (t : String). take_text message_limit (String.◌∷◌ c s) ⧺ t)
      (joined-pieces fuel (drop_text message_limit (String.◌∷◌ c s))
        (drop_shorter 3899 fuel (String.◌∷◌ c s) h))
    ∙ take-drop message_limit (String.◌∷◌ c s)

pieces-All :
    (fuel : ℕ) (s : String)
    → All (λ (chunk : String). text_length chunk ≤ message_limit) (pieces fuel s)
unfolding pieces
pieces-All zero s = tt
pieces-All (suc fuel) String.[] = tt
pieces-All (suc fuel) (String.◌∷◌ c s) = (
  text_length-take message_limit (String.◌∷◌ c s),
  pieces-All fuel (drop_text message_limit (String.◌∷◌ c s)),
)

IsCut : String → List String → Type 0
IsCut text chunks =
    (joined chunks ≡ text)
    × All (λ (chunk : String). text_length chunk ≤ message_limit) chunks
    × (is_empty chunks ≡ false)

or_empty-IsCut :
    (text : String) (chunks : List String)
    → joined chunks ≡ text
    → All (λ (chunk : String). text_length chunk ≤ message_limit) chunks
    → IsCut text (or_empty chunks)
unfolding IsCut
or_empty-IsCut text [] e h = (e, (omega arith, tt), refl)
or_empty-IsCut text (chunk ∷ chunks) e h = (e, h, refl)

-- A message of any length is cut into at least one chunk, each of at most 3900 characters, and the chunks make
-- up the whole text, in order.
pub message_chunks-joined :
    (text : String)
    → (joined (message_chunks text) ≡ text)
      × All (λ (chunk : String). text_length chunk ≤ message_limit) (message_chunks text)
      × (is_empty (message_chunks text) ≡ false)
unfolding message_chunks IsCut
message_chunks-joined text =
    or_empty-IsCut text (pieces (text_length text) text)
      (joined-pieces (text_length text) text (omega arith)) (pieces-All (text_length text) text)

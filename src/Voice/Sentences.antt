-- ===== src/Voice/Sentences.antt =====
-- voice/speakable.go: `splitSentences`.
pub mod Order
pub mod Lossless
use aikido.Prelude.{
  ℕ, zero, suc, ◌+◌, ◌-◌, Bool, true, false, not, ◌&&◌, ◌||◌, Option, none, some, List, [], ◌∷◌,
  Bytes, codes, length, is_empty, take, drop, ltb, ◌==◌, if◌then◌else◌, ◌≡◌, refl,
}
use aikido.Prelude.Runes.{decode_rune, range, range_from, runes, is_rune_space}
use aikido.Llm.Vocabulary.{span}
use aikido.Openrouter.Content.{trim_left, trim_right}

abbrev pub min_sentence_runes : ℕ
min_sentence_runes = 12

-- the bytes of a rune that ends a sentence in front of white space, and 0 for all others
unfoldable pub terminator : ℕ → ℕ
terminator r = if r == b'.' || r == b'!' || r == b'?' then 1 else if r == 0x2026 then 3 else 0

-- `end`, where the rune at the byte is a boundary
unfoldable pub boundary : Bytes → ℕ → ℕ → Option ℕ
unfolding terminator decode_rune
boundary buf i r =
    let next = i + terminator r in
    if r == b'\n'
    then some (i + 1)
    else if ltb 0 (terminator r)
        && ltb next (length buf)
        && is_rune_space (decode_rune (drop next buf)).0
    then some next
    else none

-- the runes of `strings.TrimSpace`
unfoldable pub trimmed : Bytes → List ℕ
unfolding trim_left trim_right range_from
trimmed s = trim_right is_rune_space (trim_left is_rune_space (runes s))

-- a piece that goes on with the next one
unfoldable pub is_held : Bytes → ℕ → Bool
unfolding trimmed
is_held s r = ltb (length (trimmed s)) min_sentence_runes && not (r == b'\n')

abbrev pub Split : Type 0
Split = List Bytes × Bytes

abbrev pub add_sentence : Bytes → Option Split → Option Split
add_sentence s none = none
add_sentence s (some (sentences, rest)) =
    some (if is_empty (trimmed s) then sentences else s ∷ sentences, rest)

abbrev pub unfinished : Option Bytes → Option Split
unfinished none = none
unfinished (some rest) = some ([], rest)

-- the body of the loop behind `end`: `on` goes on from the same start, `cut` from the end
abbrev pub choose : ℕ → Option Bytes → Option Split → Option Split → Option Split
choose r none on cut = none
choose r (some s) on cut = if is_held s r then on else add_sentence s cut

-- the loop over the runes that are left, from `start`; none is a slice out of range, a panic
unfoldable pub split_from : Bytes → ℕ → List (ℕ × ℕ) → Option Split
unfolding boundary is_held trimmed
split_from buf start [] = unfinished (span buf start (length buf))
split_from buf start ((i, r) ∷ rs) =
    let on = split_from buf start rs in
    elim (boundary buf i r) [
      | none ↦ on
      | some end ↦ choose r (span buf start end) on (split_from buf end rs)
    ]

unfoldable pub split_sentences : Bytes → Option Split
unfolding split_from
split_sentences buf = split_from buf 0 (range buf)

two_sentences :
    split_sentences (codes "It is 3.5 Euro. Ja. Then\n\nmore!")
    ≡ some (codes "It is 3.5 Euro." ∷ codes " Ja. Then\n" ∷ [], codes "more!")
unfolding split_sentences range_from
two_sentences = refl

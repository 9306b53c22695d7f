-- ===== src/Voice/Sentences/Order.antt =====
-- Where the runes of a text stand that `splitSentences` of voice/speakable.go walks over.
use mathlib.Core.Path.{subst}
use aikido.Prelude.{
  ℕ, zero, suc, ◌+◌, ◌-◌, ◌*◌, ◌≤◌, ◌<◌, Option, none, some, List, [], ◌∷◌, Bytes, length, leb,
  ◌==◌, if_cases, ◌≡◌, sym, arith, inl, inr, ◌⊎◌, ◌≢◌,
}
use aikido.Prelude.Runes.{
  Expect, any_next, within, lead, lead_bits, decode_tail, decode_rune, range_from, rune_error,
}
use aikido.Voice.Sentences.{terminator}

abbrev ellipsis : ℕ
ellipsis = 0x2026

-- how many bytes must follow the first one
data Led (c : ℕ) : Option Expect → Type 0 where
  alone : c ≤ 0x7F → Led c (some (any_next 0))
  paired : c ≤ 0xDF → Led c (some (any_next 1))
  long : {x : Expect} → 2 ≤ x.due → Led c (some x)
  invalid : Led c none

lead-Led : (c : ℕ) → Led c (lead c)
unfolding lead
lead-Led c =
    if_cases (Led c) (leb c 0x7F) (λ e. alone (ground (arith, e)))
      (λ _.
        if_cases (Led c) (within 0xC2 0xDF c) (λ e. paired (ground (arith, e)))
          (λ _.
            if_cases (Led c) (c == 0xE0) (λ _. long (omega arith))
              (λ _.
                if_cases (Led c) (c == 0xED) (λ _. long (omega arith))
                  (λ _.
                    if_cases (Led c) (within 0xE1 0xEF c) (λ _. long (omega arith))
                      (λ _.
                        if_cases (Led c) (c == 0xF0) (λ _. long (omega arith))
                          (λ _.
                            if_cases (Led c) (within 0xF1 0xF3 c) (λ _. long (omega arith))
                              (λ _.
                                if_cases (Led c) (c == 0xF4) (λ _. long (omega arith))
                                  (λ _. invalid))))))))

-- a rune that is read whole has all its bytes
decode_tail-whole :
    (d : ℕ) (x : Expect) (bits n : ℕ) (s : Bytes)
    → (decode_tail d x bits n s).0 ≡ ellipsis
    → (decode_tail d x bits n s).1 ≡ n + d
unfolding decode_tail
decode_tail-whole zero x bits n s h = omega arith
decode_tail-whole (suc d) x bits n [] h = absurd (omega (arith, h))
decode_tail-whole (suc d) x bits n (c ∷ s) h =
    if_cases (λ (p : ℕ × ℕ). p.0 ≡ ellipsis → p.1 ≡ n + suc d) (within x.low x.high c)
      (λ e h. omega (arith, decode_tail-whole d (any_next d) (bits * 64 + (c - 0x80)) (n + 1) s h))
      (λ e h. absurd (omega (arith, h))) h

-- `decode_rune` of a text, where its first byte asks for this
abbrev decode_as : ℕ → Bytes → Option Expect → ℕ × ℕ
decode_as c s o = elim o [ none ↦ (rune_error, 1) | some x ↦ decode_tail x.due x (lead_bits c) 1 s ]

lead_bits_small : (c : ℕ) → c ≤ 0xDF → lead_bits c ≤ 0x7F
lead_bits_small c h = ground (arith, h)

-- two bytes give less than an ellipsis
paired-small :
    (bits : ℕ) (s : Bytes) → bits ≤ 0x7F → (decode_tail 1 (any_next 1) bits 1 s).0 ≢ ellipsis
unfolding decode_tail
paired-small bits [] l = λ h. omega (arith, h)
paired-small bits (b ∷ s) l =
    if_cases (λ (p : ℕ × ℕ). p.0 ≢ ellipsis) (within 0x80 0xBF b)
      (λ e h. above b (ground (arith, e)) h) (λ e h. omega (arith, h))
  where
    above : (b : ℕ) → b ≤ 0xBF → bits * 64 + (b - 0x80) ≢ ellipsis
    above b g = λ h. omega (arith, g, h, l)

alone-bits :
    (c : ℕ) (s : Bytes)
    → (decode_tail 0 (any_next 0) (lead_bits c) 1 s).0 ≡ ellipsis
    → lead_bits c ≡ ellipsis
unfolding decode_tail
alone-bits c s h = h

decode_as-wide :
    (c : ℕ) (s : Bytes) (o : Option Expect)
    → Led c o
    → (decode_as c s o).0 ≡ ellipsis
    → 3 ≤ (decode_as c s o).1
decode_as-wide c s _ (alone l) h =
    absurd (omega (arith, lead_bits_small c (omega (arith, l)), alone-bits c s h))
decode_as-wide c s _ (paired l) h = absurd (paired-small (lead_bits c) s (lead_bits_small c l) h)
decode_as-wide c s _ (long {x} l) h =
    omega (arith, l, decode_tail-whole x.due x (lead_bits c) 1 s h)
decode_as-wide c s _ invalid h = absurd (omega (arith, h))

ellipsis-wide :
    (c : ℕ) (s : Bytes) → (decode_rune (c ∷ s)).0 ≡ ellipsis → 3 ≤ (decode_rune (c ∷ s)).1
unfolding decode_rune
ellipsis-wide c s = decode_as-wide c s (lead c) (lead-Led c)

terminator_cases : (r : ℕ) → (terminator r ≤ 1) ⊎ (r ≡ ellipsis)
unfolding terminator
terminator_cases r = ground arith

wide_enough : (w : ℕ) → 3 ≤ w → terminator ellipsis ≤ suc (w - 1)
unfolding terminator
wide_enough w h = omega (arith, h)

terminator-width :
    (c : ℕ) (s : Bytes) → terminator (decode_rune (c ∷ s)).0 ≤ suc ((decode_rune (c ∷ s)).1 - 1)
terminator-width c s = elim (terminator_cases (decode_rune (c ∷ s)).0) [
  | inl h ↦ omega (arith, h)
  | inr h ↦
      subst (λ r. terminator r ≤ suc ((decode_rune (c ∷ s)).1 - 1)) (sym h)
        (wide_enough _ (ellipsis-wide c s h))
]

-- runes from a byte on, in order and within the text
pub data Spaced (n : ℕ) : ℕ → List (ℕ × ℕ) → Type 0 where
  none_left : {low : ℕ} → Spaced n low []
  next :
      {low i r high : ℕ} {rs : List (ℕ × ℕ)}
      → low ≤ i
      → i < n
      → i + 1 ≤ high
      → i + terminator r ≤ high
      → Spaced n high rs
      → Spaced n low ((i, r) ∷ rs)

pub range_from-Spaced :
    (n i skip : ℕ) (s : Bytes) → n ≡ i + length s → Spaced n (i + skip) (range_from i skip s)
unfolding range_from
range_from-Spaced n i skip [] h = none_left
range_from-Spaced n i (suc k) (c ∷ s) h =
    subst (λ low. Spaced n low (range_from (suc i) k s)) (omega arith)
      (range_from-Spaced n (suc i) k s (omega (arith, h)))
range_from-Spaced n i zero (c ∷ s) h =
    next (omega arith) (omega (arith, h)) (omega arith) (omega (arith, terminator-width c s))
      (range_from-Spaced n (suc i) ((decode_rune (c ∷ s)).1 - 1) s (omega (arith, h)))

pub weaken-Spaced :
    (n low high : ℕ) (rs : List (ℕ × ℕ)) → low ≤ high → Spaced n high rs → Spaced n low rs
weaken-Spaced n low high _ h none_left = none_left
weaken-Spaced n low high _ h (next a b c d t) = next (omega (arith, h, a)) b c d t

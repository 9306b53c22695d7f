-- ===== src/Llm/Vocabulary/Correction/Order.antt =====
-- `tokenize` of llm/vocabulary.go: the tokens follow one another within the text.
use aikido.Prelude.{
  ℕ, zero, suc, ◌+◌, ◌≤◌, ◌<◌, Option, none, some, List, [], ◌∷◌, ◌≡◌, refl, arith, Bytes, length,
  drop, get_elem?, Bool-cases, inl, inr,
}
use aikido.Prelude.Runes.{range_from}
use aikido.Llm.Vocabulary.{Unicode, Token, is_word, tokens_from, tokenize}

-- tokens between `low` and `high`, none empty, each behind the one before
abbrev pub Spans : ℕ → ℕ → List Token → Type 0
Spans low high [] = low ≤ high
Spans low high (t ∷ toks) = (low ≤ t.start) × (t.start < t.stop) × Spans t.stop high toks

abbrev Ascends : ℕ → ℕ → List (ℕ × ℕ) → Type 0
Ascends low high [] = low ≤ high
Ascends low high ((i, r) ∷ rs) = (low ≤ i) × Ascends (suc i) high rs

pub Spans-lower :
    (toks : List Token) (low low' high : ℕ)
    → low ≤ low'
    → Spans low' high toks
    → Spans low high toks
Spans-lower [] low low' high h s = omega (arith, h, s)
Spans-lower (t ∷ toks) low low' high h s = (omega (arith, h, s.0), s.1, s.2)

pub Spans-bound : (toks : List Token) (low high : ℕ) → Spans low high toks → low ≤ high
Spans-bound [] low high s = s
Spans-bound (t ∷ toks) low high s = omega (arith, s.0, s.1, Spans-bound toks t.stop high s.2)

pub Spans-get :
    (toks : List Token) (n low high : ℕ)
    → suc n ≤ length toks
    → Spans low high toks
    → (e : Token) × (get_elem? toks n ≡ some e) × Spans e.stop high (drop (suc n) toks)
Spans-get [] n low high h s = absurd (omega (arith, h))
Spans-get (t ∷ toks) zero low high h s = (t, refl, s.2)
Spans-get (t ∷ toks) (suc n) low high h s = Spans-get toks n t.stop high (omega (arith, h)) s.2

Ascends-lower :
    (rs : List (ℕ × ℕ)) (low low' high : ℕ)
    → low ≤ low'
    → Ascends low' high rs
    → Ascends low high rs
Ascends-lower [] low low' high h s = omega (arith, h, s)
Ascends-lower ((i, r) ∷ rs) low low' high h s = (omega (arith, h, s.0), s.1)

range_from-Ascends :
    (i skip high : ℕ) (s : Bytes) → i + length s ≡ high → Ascends i high (range_from i skip s)
unfolding range_from
range_from-Ascends i skip high [] h = omega arith
range_from-Ascends i (suc k) high (c ∷ s) h =
    Ascends-lower (range_from (suc i) k s) i (suc i) high (omega arith)
      (range_from-Ascends (suc i) k high s (omega arith))
range_from-Ascends i zero high (c ∷ s) h =
    (omega arith, range_from-Ascends (suc i) _ high s (omega arith))

module _ (u : Unicode) (text : Bytes) where
  -- where the next token can begin
  abbrev begins : Option ℕ → ℕ → ℕ
  begins none low = low
  begins (some from) low = from

  abbrev Below : Option ℕ → ℕ → Type 0
  Below none low = Unit
  Below (some from) low = from < low

  tokens_from-Spans :
      (o : Option ℕ) (low : ℕ) (rs : List (ℕ × ℕ))
      → Below o low
      → Ascends low (length text) rs
      → Spans (begins o low) (length text) (tokens_from u text o rs)
  unfolding tokens_from
  tokens_from-Spans none low [] b s = s
  tokens_from-Spans (some from) low [] b s = (omega arith, omega (arith, b, s), omega arith)
  tokens_from-Spans none low ((i, r) ∷ rs) b s = elim (Bool-cases (is_word u r)) [
    | inl e ↦
        rw (e, tokens_from)
          (Spans-lower _ low i (length text) s.0
            (tokens_from-Spans (some i) (suc i) rs (omega arith) s.1))
    | inr e ↦
        rw (e, tokens_from)
          (Spans-lower _ low (suc i) (length text) (omega (arith, s.0))
            (tokens_from-Spans none (suc i) rs tt s.1))
  ]
  tokens_from-Spans (some from) low ((i, r) ∷ rs) b s = elim (Bool-cases (is_word u r)) [
    | inl e ↦ rw e (tokens_from-Spans (some from) (suc i) rs (omega (arith, b, s.0)) s.1)
    | inr e ↦ rw e (
      omega arith,
      omega (arith, b, s.0),
      Spans-lower _ i (suc i) (length text) (omega arith)
          (tokens_from-Spans none (suc i) rs tt s.1),
    )
  ]

pub tokenize-Spans : (u : Unicode) (text : Bytes) → Spans 0 (length text) (tokenize u text)
unfolding tokenize
tokenize-Spans u text =
    tokens_from-Spans u text none 0 _ tt (range_from-Ascends 0 0 (length text) text (omega arith))

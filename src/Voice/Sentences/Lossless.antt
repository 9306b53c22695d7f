-- ===== src/Voice/Sentences/Lossless.antt =====
-- What `splitSentences` of voice/speakable.go gives back.
use mathlib.Core.Path.{subst}
use aikido.Prelude.{
  ℕ, zero, suc, ◌+◌, ◌-◌, ◌≤◌, ◌<◌, true, false, Option, none, some, List, [], ◌∷◌, ◌++◌, Bytes,
  length, is_empty, take, drop, if_cases, ◌≡◌, refl, sym, ap, ◌∙◌, arith, inl, inr, ◌⊎◌,
  length-drop, take_all, take-append-drop,
}
use aikido.Prelude.Runes.{range}
use aikido.Llm.Vocabulary.{span}
use aikido.Voice.Sentences.Order.{Spaced, next, range_from-Spaced, weaken-Spaced}
use aikido.Voice.Sentences.{
  trimmed, terminator, boundary, is_held, Split, add_sentence, choose, split_from, split_sentences,
}

-- a text is cut into sentences that are no white space, pieces of white space that are left out,
-- and the rest
pub data Cuts : Bytes → List Bytes → Bytes → Type 0 where
  rest : {r : Bytes} → Cuts r [] r
  sentence :
      (s : Bytes) {t r : Bytes} {ss : List Bytes}
      → is_empty (trimmed s) ≡ false
      → Cuts t ss r
      → Cuts (s ++ t) (s ∷ ss) r
  blank :
      (s : Bytes) {t r : Bytes} {ss : List Bytes}
      → is_empty (trimmed s) ≡ true
      → Cuts t ss r
      → Cuts (s ++ t) ss r

drop-drop : (m n k : ℕ) (s : Bytes) → k ≡ m + n → drop n (drop m s) ≡ drop k s
drop-drop zero n k s h = ap (λ j. drop j s) (omega (arith, h))
drop-drop (suc m) n zero s h = absurd (omega (arith, h))
drop-drop (suc m) zero (suc k) [] h = refl
drop-drop (suc m) (suc n) (suc k) [] h = refl
drop-drop (suc m) n (suc k) (x ∷ s) h = drop-drop m n k s (omega (arith, h))

piece-drop :
    (start end : ℕ) (s : Bytes)
    → start ≤ end
    → take (end - start) (drop start s) ++ drop end s ≡ drop start s
piece-drop start end s h =
    ap (λ t. take (end - start) (drop start s) ++ t)
      (sym (drop-drop start (end - start) end s (omega (arith, h))))
    ∙ take-append-drop (end - start) (drop start s)

boundary_lem :
    (buf : Bytes) (i r end : ℕ)
    → boundary buf i r ≡ some end
    → i < length buf
    → (i ≤ end) × (end ≤ length buf) × ((end ≡ i + 1) ⊎ (end ≡ i + terminator r))
unfolding boundary
boundary_lem buf i r end h l = ground (arith, h, l)

module _ (buf : Bytes) where
  abbrev Gives : ℕ → Option Split → Type 0
  Gives start o = (ss : List Bytes) × (r : Bytes) × (o ≡ some (ss, r)) × Cuts (drop start buf) ss r

  add-Gives :
      (start end : ℕ) (o : Option Split)
      → start ≤ end
      → Gives end o
      → Gives start (add_sentence (take (end - start) (drop start buf)) o)
  add-Gives start end o h (ss, r, e, c) = rw e (
      if_cases (λ (l : List Bytes). Gives start (some (l, r))) (is_empty (trimmed s))
        (λ b. (ss, r, refl, joined (blank s b c)))
        (λ b. (s ∷ ss, r, refl, joined (sentence s b c))))
    where
      s : Bytes
      s = take (end - start) (drop start buf)

      joined : {l : List Bytes} → Cuts (s ++ drop end buf) l r → Cuts (drop start buf) l r
      joined {l} k = subst (λ t. Cuts t l r) (piece-drop start end buf h) k

  span-some :
      (start end : ℕ)
      → start ≤ end
      → end ≤ length buf
      → span buf start end ≡ some (take (end - start) (drop start buf))
  span-some start end h l = ground (arith, h, l)

  choose-Gives :
      (start end r : ℕ) (on cut : Option Split)
      → start ≤ end
      → end ≤ length buf
      → Gives start on
      → Gives end cut
      → Gives start (choose r (span buf start end) on cut)
  choose-Gives start end r on cut h l a b =
      subst (λ o. Gives start (choose r o on cut)) (sym (span-some start end h l))
        (if_cases (Gives start) (is_held (take (end - start) (drop start buf)) r) (λ _. a)
          (λ _. add-Gives start end cut h b))

  -- the loop's body, where each boundary is behind the start and the rest is known from there on
  step-Gives :
      (start : ℕ) (r : ℕ) (on : Option Split) (cut : ℕ → Option Split) (o : Option ℕ)
      → ((end : ℕ) → o ≡ some end → (start ≤ end) × (end ≤ length buf) × Gives end (cut end))
      → Gives start on
      → Gives start (elim o [ none ↦ on | some end ↦ choose r (span buf start end) on (cut end) ])
  step-Gives start r on cut none h a = a
  step-Gives start r on cut (some end) h a =
      let (low, high, b) = h end refl in choose-Gives start end r on (cut end) low high a b

  split_from-Gives :
      (start : ℕ) (rs : List (ℕ × ℕ))
      → start ≤ length buf
      → Spaced (length buf) start rs
      → Gives start (split_from buf start rs)
  unfolding split_from
  split_from-Gives start [] h t = rw (span-some start (length buf) h (omega arith)) (
    [],
    drop start buf,
    ap (λ r. some ([], r)) (take_all _ _ (omega (arith, length-drop start buf))),
    rest,
  )
  split_from-Gives start ((i, r) ∷ rs) h (next {high} a b c d t) =
      step-Gives start r (split_from buf start rs) (λ end. split_from buf end rs) (boundary buf i r)
        (λ end e.
          let (low, top, which) = boundary_lem buf i r end e b in
          (
            omega (arith, a, low),
            top,
            split_from-Gives end rs top (weaken-Spaced _ end high rs (behind end which) t),
          ))
        (split_from-Gives start rs h (weaken-Spaced _ start high rs (omega (arith, a, c)) t))
    where
      behind : (end : ℕ) → (end ≡ i + 1) ⊎ (end ≡ i + terminator r) → end ≤ high
      behind end (inl e) = omega (arith, e, c)
      behind end (inr e) = omega (arith, e, d)

  -- `splitSentences` never slices out of range. Its sentences and the rest, in order, are the text
  -- but for pieces that are white space, which stand between them and are left out; no sentence is
  -- white space.
  pub split_sentences-Cuts :
      (ss : List Bytes) × (r : Bytes) × (split_sentences buf ≡ some (ss, r)) × Cuts buf ss r
  unfolding split_sentences
  split_sentences-Cuts =
      split_from-Gives 0 (range buf) (omega arith)
        (range_from-Spaced (length buf) 0 0 buf (omega arith))

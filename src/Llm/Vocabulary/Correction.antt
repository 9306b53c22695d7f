-- ===== src/Llm/Vocabulary/Correction.antt =====
-- `Correct` of llm/vocabulary.go: what it does to a text.
mod Order
use mathlib.Core.List.{Memᴰ, Permᴰ}
use mathlib.Core.List.Memᴰ
use mathlib.Core.Path.{subst}
use aikido.Prelude.{
  ℕ, zero, suc, ◌+◌, ◌-◌, ◌≤◌, ◌<◌, Bool, true, false, not, ◌&&◌, Option, none, some, List, [], ◌∷◌,
  ◌++◌, map, ◌≡◌, refl, sym, ap, ◌∙◌, ◌⊎◌, inl, inr, arith, Bytes, length, take, drop, get_elem?,
  take_all, length-drop, All, leb, is_empty, Bool-cases, if_cases, if◌then◌else◌,
}
use aikido.Prelude.Assoc.{Assoc}
use aikido.Prelude.Sort.{sort_by, All-sort_by}
use aikido.Llm.Vocabulary.{
  Unicode, Vocabulary, Token, Rule, rep_key, term_key, match_at, span, splice, last_of, rewrite_at,
  correct_from, tokenize, reps_of, terms_of, correct,
}
use aikido.Llm.Vocabulary.Matching.{Matched, nothing, match, Justified, match_at-Matched}
use Order.{Spans, Spans-lower, Spans-bound, Spans-get, tokenize-Spans}

-- what becomes of the text from `last` on: each token is kept with what stands before it, or the
-- first tokens that are left become one spelling, as `matchAt` says
pub data Rewrites (text : Bytes) (reps terms : List Rule) : List Token → ℕ → Bytes → Type 0 where
  finish : {last : ℕ} → last ≤ length text → Rewrites text reps terms [] last (drop last text)
  keep :
      {t : Token} {toks : List Token} {last : ℕ} {out : Bytes}
      → Matched (t ∷ toks) reps terms (0, [])
      → Rewrites text reps terms toks last out
      → Rewrites text reps terms (t ∷ toks) last out
  change :
      {t e : Token} {toks : List Token} {last n : ℕ} {canon out : Bytes}
      → Matched (t ∷ toks) reps terms (suc n, canon)
      → get_elem? (t ∷ toks) n ≡ some e
      → last ≤ t.start
      → t.stop ≤ length text
      → Rewrites text reps terms (drop n toks) e.stop out
      → Rewrites text reps terms
          (t ∷ toks)
          last
          (take (t.start - last) (drop last text) ++ canon ++ out)

module _ (text : Bytes) (reps terms : List Rule) where
  abbrev Gives : List Token → ℕ → Option Bytes → Type 0
  Gives toks last o = (out : Bytes) × (o ≡ some out) × Rewrites text reps terms toks last out

  finish-Gives : (last : ℕ) → last ≤ length text → Gives [] last (span text last (length text))
  finish-Gives last h = (
    drop last text,
    (ground (
      arith,
      h,
      take_all (length text - last) (drop last text) (omega (arith, length-drop last text)),
    )),
    finish h,
  )

  spliced :
      (t e : Token) (toks : List Token) (last n : ℕ) (canon : Bytes) (o : Option Bytes)
      → Matched (t ∷ toks) reps terms (suc n, canon)
      → get_elem? (t ∷ toks) n ≡ some e
      → last ≤ t.start
      → t.start ≤ t.stop
      → t.stop ≤ length text
      → Gives (drop n toks) e.stop o
      → Gives (t ∷ toks) last (splice canon (span text last t.start) o)
  spliced t e toks last n canon o m g low mid high (out, eq, r) = (
    take (t.start - last) (drop last text) ++ canon ++ out,
    ground (arith, low, mid, high, eq),
    change m g low high r,
  )

  advance :
      (t : Token) (toks : List Token) (last : ℕ) (m : ℕ × Bytes) (rest : ℕ → Option Bytes)
      → Matched (t ∷ toks) reps terms m
      → Spans last (length text) (t ∷ toks)
      → ((last' : ℕ)
          → Spans last' (length text) (drop (last_of m.0) toks)
          → Gives (drop (last_of m.0) toks) last' (rest last'))
      → Gives (t ∷ toks) last (rewrite_at text t last m (get_elem? (t ∷ toks) (last_of m.0)) rest)
  advance t toks last m rest (nothing f g) s next =
      let r =
        next last (Spans-lower toks last t.stop (length text) (omega (arith, s.0, s.1)) s.2) in
      (r.0, r.1, keep (nothing f g) r.2)
  advance t toks last m rest (match {n = zero} low high j) s next = absurd (omega (arith, low))
  advance t toks last m rest (match {n = suc n} {canon = canon} low high j) s next =
      let (e, at, behind) = Spans-get (t ∷ toks) n last (length text) (omega (arith, high)) s in
      rw at (
        spliced t e toks last n canon (rest e.stop) (match low high j) at s.0 (omega (arith, s.1))
          (Spans-bound toks t.stop (length text) s.2) (next e.stop behind))

  correct_from-Gives :
      ((r : Rule) → Memᴰ r reps → 1 ≤ length r.words)
      → (skip last : ℕ) (toks : List Token) → Spans last (length text) (drop skip toks)
      → Gives (drop skip toks) last (correct_from text reps terms skip last toks)
  unfolding correct_from
  correct_from-Gives f zero last [] s = finish-Gives last s
  correct_from-Gives f (suc k) last [] s = finish-Gives last s
  correct_from-Gives f (suc k) last (t ∷ toks) s = correct_from-Gives f k last toks s
  correct_from-Gives f zero last (t ∷ toks) s =
      advance t toks last (match_at (t ∷ toks) reps terms) _
        (match_at-Matched (t ∷ toks) reps terms f) s
        (λ last' s'.
          correct_from-Gives f (last_of (match_at (t ∷ toks) reps terms).0) last' toks s')

All-Mem {ℓ} : {A : Type ℓ} (P : A → Type 0) (x : A) (l : List A) → All P l → Memᴰ x l → P x
All-Mem P x [] h m = absurd (Memᴰ.not-nil m)
All-Mem P x (y ∷ l) h (Memᴰ.head e) = subst P (sym e) h.0
All-Mem P x (y ∷ l) h (Memᴰ.tail m) = All-Mem P x l h.1 m

abbrev HasWords : Rule → Type 0
HasWords r = 1 ≤ length r.words

words_of : {A : Type 0} (ws : List A) (b : Bool) → (not (is_empty ws) && b) ≡ true → 1 ≤ length ws
words_of [] b h = absurd (cc h)
words_of (w ∷ ws) b h = omega arith

reps_of-HasWords : (u : Unicode) (m : Assoc Bytes) → All HasWords (reps_of u m)
unfolding reps_of
reps_of-HasWords u [] = tt
reps_of-HasWords u ((heard, canon) ∷ m) =
    if_cases (All HasWords)
      (not (is_empty (map (λ t. t.norm) (tokenize u heard))) && not (is_empty canon))
      (λ h. (words_of _ _ h, reps_of-HasWords u m)) (λ h. reps_of-HasWords u m)

-- `Correct` never slices out of range. It keeps every token of the text, with what stands around
-- it, unless the tokens from there on match the vocabulary: these become the spelling of the match,
-- and it goes on behind them.
pub correct_lem :
    (u : Unicode) (v : Vocabulary) (text : Bytes)
    → is_empty text ≡ false
    → (out : Bytes) × (correct u (some v) text ≡ some out)
      × Rewrites text
          (sort_by rep_key (reps_of u v.replacements))
          (sort_by term_key (terms_of u v.fuzzy v.terms))
          (tokenize u text)
          0
          out
unfolding correct
correct_lem u v text h = rw h (
    correct_from-Gives text (sort_by rep_key (reps_of u v.replacements))
      (sort_by term_key (terms_of u v.fuzzy v.terms))
      (λ r m.
        All-Mem HasWords r (sort_by rep_key (reps_of u v.replacements))
          (All-sort_by rep_key HasWords (reps_of u v.replacements)
            (reps_of-HasWords u v.replacements))
          m)
      0 0 (tokenize u text) (tokenize-Spans u text))

-- ===== src/Llm/Vocabulary/Matching.antt =====
-- `matchAt` of llm/vocabulary.go: what it takes for a match.
use mathlib.Core.List.{Memᴰ}
use mathlib.Core.List.Memᴰ
use aikido.Prelude.{
  ℕ, zero, suc, ◌≤◌, min, Bool, true, false, ◌&&◌, Option, none, some, List, [], ◌∷◌, map, ◌≡◌, ◌≢◌,
  refl, sym, ap, ◌∙◌, inl, inr, arith, Bytes, text_eq, text_eq_iff, length, take, any, leb, leb→le,
  ◌==◌, if_cases, Bool-cases,
}
use aikido.Prelude.Runes.{runes}
use aikido.Llm.Levenshtein.{levenshtein}
use aikido.Llm.Levenshtein.Least.{Edits, levenshtein_lem}
use aikido.Llm.Vocabulary.{
  Token, Rule, join_norm, words_match, match_reps, find_term, spelled, match_exact, match_fuzzy,
  max_dist, is_near, is_short, or_else, found, match_at, max_term_window, max_fuzzy_window,
}

-- why the first `n` tokens are spelled as `canon`
pub data Justified (toks : List Token) (reps terms : List Rule) : ℕ → Bytes → Type 0 where
  -- they are the words of a variant
  heard_variant :
      {r : Rule}
      → Memᴰ r reps
      → map (λ t. t.norm) (take (length r.words) toks) ≡ r.words
      → Justified toks reps terms (length r.words) r.canon
  -- they are a term but for case and separators
  heard_term :
      {n : ℕ} {t : Rule}
      → Memᴰ t terms
      → n ≤ max_term_window
      → join_norm (take n toks) ≡ t.key
      → Justified toks reps terms n t.canon
  -- they are a few edits from a term, and none of them is short
  heard_nearly :
      {n d : ℕ} {t : Rule}
      → Memᴰ t terms
      → n ≤ max_fuzzy_window
      → t.fuzzy ≡ true
      → any is_short (take n toks) ≡ false
      → Edits (runes (join_norm (take n toks))) (runes t.key) d
      → d ≤ max_dist (runes t.key)
      → Justified toks reps terms n t.canon

-- what `matchAt` gives: a justified match of at least one token, or nothing, where no variant's
-- words and no term's letters stand at the front
pub data Matched (toks : List Token) (reps terms : List Rule) : ℕ × Bytes → Type 0 where
  nothing :
      ((r : Rule) → Memᴰ r reps → words_match r.words toks ≡ false)
      → ((t : Rule) (n : ℕ)
          → Memᴰ t terms
          → 1 ≤ n
          → n ≤ min max_term_window (length toks)
          → join_norm (take n toks) ≢ t.key)
      → Matched toks reps terms (0, [])
  match :
      {n : ℕ} {canon : Bytes}
      → 1 ≤ n
      → n ≤ length toks
      → Justified toks reps terms n canon
      → Matched toks reps terms (n, canon)

words_match_lem :
    (ws : List Bytes) (toks : List Token)
    → words_match ws toks ≡ true
    → (length ws ≤ length toks) × (map (λ t. t.norm) (take (length ws) toks) ≡ ws)
unfolding words_match
words_match_lem [] toks h = (omega arith, refl)
words_match_lem (w ∷ ws) [] h = absurd (cc h)
words_match_lem (w ∷ ws) (t ∷ toks) h =
    let both : (text_eq t.norm w ≡ true) × (words_match ws toks ≡ true) = ground arith in
    let rest = words_match_lem ws toks both.1 in
    (
      omega (arith, rest.0),
      ap (λ v. v ∷ map (λ t. t.norm) (take (length ws) toks)) ((text_eq_iff t.norm w).0 both.0)
          ∙ ap (λ vs. w ∷ vs) rest.1,
    )

abbrev Nowhere : (Rule → Bool) → List Rule → Type 0
Nowhere fits l = (t : Rule) → Memᴰ t l → fits t ≡ false

nowhere :
    (fits : Rule → Bool) (x : Rule) (l : List Rule)
    → fits x ≡ false
    → Nowhere fits l
    → Nowhere fits (x ∷ l)
nowhere fits x l h k t (Memᴰ.head e) = ap fits e ∙ h
nowhere fits x l h k t (Memᴰ.tail m) = k t m

data Finds (fits : Rule → Bool) (l : List Rule) : Option Bytes → Type 0 where
  nobody : Nowhere fits l → Finds fits l none
  somebody : {t : Rule} → Memᴰ t l → fits t ≡ true → Finds fits l (some t.canon)

behind :
    (fits : Rule → Bool) (x : Rule) (l : List Rule) (o : Option Bytes)
    → fits x ≡ false
    → Finds fits l o
    → Finds fits (x ∷ l) o
behind fits x l o h (nobody k) = nobody (nowhere fits x l h k)
behind fits x l o h (somebody m g) = somebody (Memᴰ.tail m) g

find_term-Finds : (fits : Rule → Bool) (l : List Rule) → Finds fits l (find_term fits l)
unfolding find_term
find_term-Finds fits [] = nobody (λ t m. absurd (Memᴰ.not-nil m))
find_term-Finds fits (x ∷ l) = elim (Bool-cases (fits x)) [
  | inl h ↦ rw h (somebody (Memᴰ.head refl) h)
  | inr h ↦ rw h (behind fits x l (find_term fits l) h (find_term-Finds fits l))
]

module _ (toks : List Token) (reps terms : List Rule) where
  -- a justified match of at most `n` tokens, or nothing, where `Missed` says why
  data Tried (n : ℕ) (Missed : Type 0) : Option (ℕ × Bytes) → Type 0 where
    missed : Missed → Tried n Missed none
    hit :
        {k : ℕ} {canon : Bytes}
        → 1 ≤ k
        → k ≤ n
        → Justified toks reps terms k canon
        → Tried n Missed (some (k, canon))

  widen :
      {n m : ℕ} {M M' : Type 0} (o : Option (ℕ × Bytes))
      → n ≤ m
      → (M → M')
      → Tried n M o
      → Tried m M' o
  widen o h f (missed w) = missed (f w)
  widen o h f (hit low high j) = hit low (omega (arith, high, h)) j

  spelled-Tried :
      {M M' : Type 0} (n : ℕ) (fits : Rule → Bool) (o : Option Bytes) (rest : Option (ℕ × Bytes))
      → Finds fits terms o
      → (Nowhere fits terms → M → M')
      → ((t : Rule) → Memᴰ t terms → fits t ≡ true → Justified toks reps terms (suc n) t.canon)
      → Tried n M rest
      → Tried (suc n) M' (spelled (suc n) o rest)
  spelled-Tried n fits o rest (nobody k) f g h = widen rest (omega arith) (f k) h
  spelled-Tried n fits o rest (somebody {t} m e) f g h = hit (omega arith) (omega arith) (g t m e)

  -- no term is `k` tokens, for any `k` up to `n`
  abbrev NoTerm : ℕ → Type 0
  NoTerm n = (t : Rule) (k : ℕ) → Memᴰ t terms → 1 ≤ k → k ≤ n → join_norm (take k toks) ≢ t.key

  more_missed :
      (n : ℕ)
      → Nowhere (λ t. text_eq (join_norm (take (suc n) toks)) t.key) terms
      → NoTerm n
      → NoTerm (suc n)
  more_missed n here below t k m low high e = elim (Bool-cases (k == suc n)) [
    | inl h ↦
        let same : k ≡ suc n = ground arith in
        absurd (
          cc (
            here t m,
            (text_eq_iff (join_norm (take (suc n) toks)) t.key).1
                (ap (λ i. join_norm (take i toks)) (sym same) ∙ e),
          ))
    | inr h ↦ below t k m low (ground arith) e
  ]

  match_exact-Tried : (n : ℕ) → n ≤ max_term_window → Tried n (NoTerm n) (match_exact n toks terms)
  unfolding match_exact
  match_exact-Tried zero h = missed (λ t k m low high e. absurd (omega arith))
  match_exact-Tried (suc n) h =
      spelled-Tried n (λ t. text_eq (join_norm (take (suc n) toks)) t.key) _ _
        (find_term-Finds (λ t. text_eq (join_norm (take (suc n) toks)) t.key) terms) (more_missed n)
        (λ t m e. heard_term m h ((text_eq_iff (join_norm (take (suc n) toks)) t.key).0 e))
        (match_exact-Tried n (omega arith))

  nearly :
      (n : ℕ) (t : Rule)
      → suc n ≤ max_fuzzy_window
      → any is_short (take (suc n) toks) ≡ false
      → Memᴰ t terms
      → (t.fuzzy && is_near (runes (join_norm (take (suc n) toks))) (runes t.key)) ≡ true
      → Justified toks reps terms (suc n) t.canon
  nearly n t h long m e =
      let heard = runes (join_norm (take (suc n) toks)) in
      let both : (t.fuzzy ≡ true)
          × (leb (levenshtein heard (runes t.key)) (max_dist (runes t.key)) ≡ true) =
        ground arith in
      heard_nearly m h both.0 long (levenshtein_lem heard (runes t.key)).0 (leb→le _ _ both.1)

  match_fuzzy-Tried : (n : ℕ) → n ≤ max_fuzzy_window → Tried n Unit (match_fuzzy n toks terms)
  unfolding match_fuzzy
  match_fuzzy-Tried zero h = missed tt
  match_fuzzy-Tried (suc n) h =
      if_cases (Tried (suc n) Unit) (any is_short (take (suc n) toks))
        (λ e. widen _ (omega arith) (λ w. w) (match_fuzzy-Tried n (omega arith)))
        (λ e.
          spelled-Tried n
            (λ t. t.fuzzy && is_near (runes (join_norm (take (suc n) toks))) (runes t.key)) _ _
            (find_term-Finds _ terms) (λ w v. v) (λ t m g. nearly n t h e m g)
            (match_fuzzy-Tried n (omega arith)))

module _ (toks : List Token) (reps terms : List Rule) where
  abbrev NoVariant : List Rule → Type 0
  NoVariant l = (r : Rule) → Memᴰ r l → words_match r.words toks ≡ false

  match_reps-Tried :
      (l : List Rule)
      → ((r : Rule) → Memᴰ r l → 1 ≤ length r.words)
      → ((r : Rule) → Memᴰ r l → Memᴰ r reps)
      → Tried toks reps terms (length toks) (NoVariant l) (match_reps toks l)
  unfolding match_reps
  match_reps-Tried [] f g = missed (λ r m. absurd (Memᴰ.not-nil m))
  match_reps-Tried (r ∷ l) f g = elim (Bool-cases (words_match r.words toks)) [
    | inl h ↦
        rw h
          (variant r (words_match_lem r.words toks h) (f r (Memᴰ.head refl)) (g r (Memᴰ.head refl)))
    | inr h ↦ rw h (
        widen toks reps terms _ (omega arith) (nowhere (λ s. words_match s.words toks) r l h)
          (match_reps-Tried l (λ s m. f s (Memᴰ.tail m)) (λ s m. g s (Memᴰ.tail m))))
  ]
    where
      variant :
          {M : Type 0} (r : Rule)
          → (length r.words ≤ length toks)
            × (map (λ t. t.norm) (take (length r.words) toks) ≡ r.words)
          → 1 ≤ length r.words
          → Memᴰ r reps
          → Tried toks reps terms (length toks) M (some (length r.words, r.canon))
      variant r e h m = hit h e.0 (heard_variant m e.1)

  fuzzy-Matched :
      (o : Option (ℕ × Bytes))
      → NoVariant reps
      → NoTerm toks reps terms (min max_term_window (length toks))
      → Tried toks reps terms (min max_fuzzy_window (length toks)) Unit o
      → Matched toks reps terms (found o)
  fuzzy-Matched o f g (missed w) = nothing f (λ t n m low high. g t n m low high)
  fuzzy-Matched o f g (hit low high j) = match low (omega (arith, high)) j

  exact-Matched :
      (o o' : Option (ℕ × Bytes))
      → NoVariant reps
      → Tried toks reps terms
          (min max_term_window (length toks))
          (NoTerm toks reps terms (min max_term_window (length toks)))
          o
      → Tried toks reps terms (min max_fuzzy_window (length toks)) Unit o'
      → Matched toks reps terms (found (or_else o o'))
  exact-Matched o o' f (missed w) h = fuzzy-Matched o' f w h
  exact-Matched o o' f (hit low high j) h = match low (omega (arith, high)) j

  reps-Matched :
      (o o' o'' : Option (ℕ × Bytes))
      → Tried toks reps terms (length toks) (NoVariant reps) o
      → Tried toks reps terms
          (min max_term_window (length toks))
          (NoTerm toks reps terms (min max_term_window (length toks)))
          o'
      → Tried toks reps terms (min max_fuzzy_window (length toks)) Unit o''
      → Matched toks reps terms (found (or_else o (or_else o' o'')))
  reps-Matched o o' o'' (missed f) g h = exact-Matched o' o'' f g h
  reps-Matched o o' o'' (hit low high j) g h = match low high j

-- Where no variant is without words, `matchAt` gives no token only if neither the words of a
-- variant nor the letters of a term (in a window of six tokens) stand at the front; otherwise it
-- gives between one token and all of them, and they are the words of the variant whose spelling it
-- gives, or the letters of the term, or at most two edits from a fuzzy term, as long as its length
-- allows, without a word shorter than four letters.
pub match_at-Matched :
    (toks : List Token) (reps terms : List Rule)
    → ((r : Rule) → Memᴰ r reps → 1 ≤ length r.words)
    → Matched toks reps terms (match_at toks reps terms)
unfolding match_at
match_at-Matched toks reps terms f =
    reps-Matched toks reps terms _ _ _ (match_reps-Tried toks reps terms reps f (λ r m. m))
      (match_exact-Tried toks reps terms _ (omega arith))
      (match_fuzzy-Tried toks reps terms _ (omega arith))

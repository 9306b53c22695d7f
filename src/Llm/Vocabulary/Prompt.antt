-- ===== src/Llm/Vocabulary/Prompt.antt =====
-- `promptLine` of llm/vocabulary.go: which terms go into the transcription prompt.
use mathlib.Core.Path.{subst}
use aikido.Prelude.{
  ℕ, zero, suc, ◌+◌, ◌≤◌, ◌<◌, Bool, false, not, ◌&&◌, ◌||◌, Option, none, some, List, [], ◌∷◌,
  ◌++◌, append_assoc, ◌≡◌, refl, sym, ap, ◌∙◌, ◌⊎◌, inl, inr, arith, Bytes, codes, is_empty, length,
  length-append, ltb, ◌==◌, Bool-cases, if◌then◌else◌,
}
use aikido.Llm.Vocabulary.{Vocabulary, Unicode}

abbrev pub max_prompt_terms : ℕ
max_prompt_terms = 200

abbrev pub max_prompt_bytes : ℕ
max_prompt_bytes = 3000

abbrev pub heading : Bytes
heading = codes "Expected terms; when you hear one, spell it exactly like this: "

-- `if n > 0 { b.WriteString(", ") }; b.WriteString(t)`
unfoldable pub extended : ℕ → Bytes → Bytes → Bytes
extended zero b t = b ++ t
extended (suc n) b t = b ++ b',' ∷ b' ' ∷ t

-- no more terms fit behind `n` terms that are `b`
abbrev pub is_full : ℕ → Bytes → Bytes → Bool
is_full n b t = n == max_prompt_terms || ltb max_prompt_bytes (length b + length t + 2)

module _ (u : Unicode) where
  -- the loop, with `n` and the builder
  unfoldable pub prompt_from : ℕ → Bytes → List Bytes → ℕ × Bytes
  unfolding extended
  prompt_from n b [] = (n, b)
  prompt_from n b (s ∷ ts) =
      let t = u.trim_space s in
      let skip = is_empty t in
      let rest = prompt_from (if skip then n else suc n) (if skip then b else extended n b t) ts in
      if not skip && is_full n b t then (n, b) else rest

  abbrev pub line_of : ℕ × Bytes → Bytes
  line_of r = if r.0 == 0 then [] else heading ++ r.1 ++ b'.' ∷ []

  unfoldable pub prompt_line : Option Vocabulary → Bytes
  unfolding prompt_from
  prompt_line none = []
  prompt_line (some v) = line_of (prompt_from 0 [] v.terms)

-- texts with a comma and a space between them
abbrev pub comma_joined : List Bytes → Bytes
comma_joined [] = []
comma_joined (t ∷ []) = t
comma_joined (t ∷ s ∷ ts) = t ++ b',' ∷ b' ' ∷ comma_joined (s ∷ ts)

-- the trimmed terms that are not empty
abbrev pub spoken : (Bytes → Bytes) → List Bytes → List Bytes
spoken trim [] = []
spoken trim (t ∷ ts) = if is_empty (trim t) then spoken trim ts else trim t ∷ spoken trim ts

-- the next term would break a cap
abbrev pub Stops : List Bytes → List Bytes → Type 0
Stops taken [] = Unit
Stops taken (t ∷ ts) =
    (length taken ≡ max_prompt_terms)
    ⊎ (max_prompt_bytes < length (comma_joined taken) + length t + 2)

-- `terms` are cut into those in the prompt and those left out.
pub record Prompted (terms : List Bytes) (r : ℕ × Bytes) : Type 0 where
  pub taken : List Bytes
  pub left : List Bytes
  pub parts : terms ≡ taken ++ left
  pub result : r ≡ (length taken, comma_joined taken)
  pub few : length taken ≤ max_prompt_terms
  pub short : length (comma_joined taken) ≤ max_prompt_bytes
  pub most : Stops taken left

comma_joined-snoc :
    (l : List Bytes) (t : Bytes)
    → comma_joined (l ++ t ∷ []) ≡ extended (length l) (comma_joined l) t
unfolding extended
comma_joined-snoc [] t = refl
comma_joined-snoc (s ∷ []) t = refl
comma_joined-snoc (s ∷ r ∷ l) t =
    ap (λ (b : Bytes). s ++ b',' ∷ b' ' ∷ b) (comma_joined-snoc (r ∷ l) t)
    ∙ sym (append_assoc s (b',' ∷ b' ' ∷ comma_joined (r ∷ l)) (b',' ∷ b' ' ∷ t))

length-extended : (n : ℕ) (b t : Bytes) → length (extended n b t) ≤ length b + length t + 2
unfolding extended
length-extended zero b t = omega (arith, length-append b t)
length-extended (suc n) b t = omega (arith, length-append b (b',' ∷ b' ' ∷ t))

module _ (u : Unicode) where
  moved :
      {l l' : List Bytes} {n n' : ℕ} {b b' : Bytes} (ts : List Bytes)
      → l ≡ l'
      → n ≡ n'
      → b ≡ b'
      → Prompted l (prompt_from u n b ts)
      → Prompted l' (prompt_from u n' b' ts)
  moved {l' = l'} {n} {n' = n'} {b} ts e f g h =
      subst (λ c. Prompted l' (prompt_from u n' c ts)) g
        (subst (λ k. Prompted l' (prompt_from u k b ts)) f
          (subst (λ k. Prompted k (prompt_from u n b ts)) e h))

  prompt_from-Prompted :
      (pre ts : List Bytes)
      → length pre ≤ max_prompt_terms
      → length (comma_joined pre) ≤ max_prompt_bytes
      → Prompted (pre ++ spoken u.trim_space ts) (prompt_from u (length pre) (comma_joined pre) ts)
  unfolding prompt_from
  prompt_from-Prompted pre [] few short = record {
    taken = pre;
    left = [];
    parts = refl;
    result = refl;
    few = few;
    short = short;
    most = tt;
  }
  prompt_from-Prompted pre (s ∷ ts) few short = elim (Bool-cases (is_empty (u.trim_space s))) [
    | inl e ↦ rw e (prompt_from-Prompted pre ts few short)
    | inr e ↦ rw e (elim (Bool-cases (is_full (length pre) (comma_joined pre) (u.trim_space s))) [
      | inl full ↦ rw full (record {
        taken = pre;
        left = u.trim_space s ∷ spoken u.trim_space ts;
        parts = refl;
        result = refl;
        few = few;
        short = short;
        most = ground arith;
      })
      | inr room ↦ rw room (
          next pre (u.trim_space s) ts few room
            (prompt_from-Prompted (pre ++ u.trim_space s ∷ []) ts))
    ])
  ]
    where
      next :
          (pre : List Bytes) (t : Bytes) (ts : List Bytes)
          → length pre ≤ max_prompt_terms
          → is_full (length pre) (comma_joined pre) t ≡ false
          → (length (pre ++ t ∷ []) ≤ max_prompt_terms
              → length (comma_joined (pre ++ t ∷ [])) ≤ max_prompt_bytes
              → Prompted
                  ((pre ++ t ∷ []) ++ spoken u.trim_space ts)
                  (prompt_from u (length (pre ++ t ∷ [])) (comma_joined (pre ++ t ∷ [])) ts))
          → Prompted
              (pre ++ t ∷ spoken u.trim_space ts)
              (prompt_from u (suc (length pre)) (extended (length pre) (comma_joined pre) t) ts)
      next pre t ts few room h =
          let counted : length (pre ++ t ∷ []) ≡ suc (length pre) =
            omega (arith, length-append pre (t ∷ [])) in
          let joined = comma_joined-snoc pre t in
          moved ts (append_assoc pre (t ∷ []) (spoken u.trim_space ts)) counted joined (
            h (ground arith) (
              ground (
                arith,
                ap (λ (b : Bytes). length b) joined,
                length-extended (length pre) (comma_joined pre) t,
              )))

-- The prompt of a vocabulary names its trimmed terms that are not empty, from the first on, in one
-- line: at most 200 terms and 3000 bytes with the commas, no line at all for none, and the terms
-- stop only where there are 200 or the next one would break the cap of bytes.
pub prompt_line_lem :
    (u : Unicode) (v : Vocabulary)
    → (r : ℕ × Bytes) × (prompt_line u (some v) ≡ line_of u r)
      × Prompted (spoken u.trim_space v.terms) r
unfolding prompt_line
prompt_line_lem u v = (
  prompt_from u 0 [] v.terms,
  refl,
  prompt_from-Prompted u [] v.terms (omega arith) (omega arith),
)

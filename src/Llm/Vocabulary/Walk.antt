-- ===== src/Llm/Vocabulary/Walk.antt =====
-- `Correct` of llm/vocabulary.go walks a map: where this does not decide.
use mathlib.Core.List.{Permᴰ}
use mathlib.Core.List.Permᴰ
use mathlib.Core.Path.{subst}
use aikido.Prelude.{
  Bool, true, false, not, ◌&&◌, some, List, [], ◌∷◌, map, ◌≡◌, refl, ap, Bytes, is_empty,
  if◌then◌else◌,
}
use aikido.Prelude.Assoc.{Assoc}
use aikido.Prelude.Sort.{sort_by, Distinct, sort_by-perm}
use aikido.Llm.Vocabulary.{
  Unicode, Vocabulary, Rule, rep_key, term_key, correct_from, tokenize, reps_of, terms_of, correct,
}

abbrev added : Bool → Rule → List Rule → List Rule
added b r rest = if b then r ∷ rest else rest

added-perm : (b : Bool) (r : Rule) {l m : List Rule} → Permᴰ l m → Permᴰ (added b r l) (added b r m)
added-perm true r p = Permᴰ.cons refl p
added-perm false r p = p

added-swap :
    (b c : Bool) (r s : Rule) (l : List Rule)
    → Permᴰ (added b r (added c s l)) (added c s (added b r l))
added-swap true true r s l = Permᴰ.swap refl refl
added-swap true false r s l = Permᴰ.refl (r ∷ l)
added-swap false true r s l = Permᴰ.refl (s ∷ l)
added-swap false false r s l = Permᴰ.refl l

module _ (u : Unicode) where
  abbrev counts : Bytes × Bytes → Bool
  counts e = not (is_empty (map (λ t. t.norm) (tokenize u e.0))) && not (is_empty e.1)

  abbrev rep_of : Bytes × Bytes → Rule
  rep_of e = record {
    words = map (λ t. t.norm) (tokenize u e.0);
    key = [];
    canon = e.1;
    fuzzy = false;
  }

  reps_of-perm : {m m' : Assoc Bytes} → Permᴰ m m' → Permᴰ (reps_of u m) (reps_of u m')
  unfolding reps_of
  reps_of-perm Permᴰ.nil = Permᴰ.nil
  reps_of-perm (Permᴰ.cons {a} {b} {l₁} {l₂} e p) =
      subst (λ (y : Bytes × Bytes). Permᴰ (reps_of u (a ∷ l₁)) (reps_of u (y ∷ l₂))) e
        (added-perm (counts a) (rep_of a) (reps_of-perm p))
  reps_of-perm (Permᴰ.swap {a} {b} {a' = a'} {b' = b'} {l = l} e f) =
      subst (λ (y : Bytes × Bytes). Permᴰ (reps_of u (a ∷ b ∷ l)) (reps_of u (a' ∷ y ∷ l))) e
        (subst (λ (y : Bytes × Bytes). Permᴰ (reps_of u (a ∷ b ∷ l)) (reps_of u (y ∷ a ∷ l))) f
          (added-swap (counts a) (counts b) (rep_of a) (rep_of b) (reps_of u l)))
  reps_of-perm (Permᴰ.trans p q) = Permᴰ.trans (reps_of-perm p) (reps_of-perm q)

-- What `Correct` gives does not depend on the order in which the map of replacements is walked,
-- where no two variants are the same words: then the sort leaves nothing to the map.
pub correct-perm :
    (u : Unicode) (v w : Vocabulary) (text : Bytes)
    → v.terms ≡ w.terms
    → v.fuzzy ≡ w.fuzzy
    → Permᴰ v.replacements w.replacements
    → Distinct rep_key (reps_of u v.replacements)
    → correct u (some v) text ≡ correct u (some w) text
unfolding correct
correct-perm u v w text e f p d = rw e (
    rw f (
      ap
        (λ (reps : List Rule).
          if is_empty text
          then some text
          else correct_from text reps (sort_by term_key (terms_of u w.fuzzy w.terms)) 0 0
              (tokenize u text))
        (sort_by-perm rep_key (reps_of-perm u p) d)))

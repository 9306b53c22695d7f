-- ===== src/Examples/OfVocabulary.antt =====
-- The theorems on the vocabulary, with the ASCII part of Unicode.
use mathlib.Core.List.{Memᴰ, Permᴰ}
use mathlib.Core.List.Memᴰ
use aikido.Prelude.{
  ℕ, ◌≤◌, true, false, ◌&&◌, some, List, [], ◌∷◌, map, ◌≡◌, refl, arith, Bytes, codes, is_empty,
  leb, lower, ◌==◌, if◌then◌else◌, text_eq, length,
}
use aikido.Prelude.Sort.{sort_by, text_lt}
use aikido.Llm.Levenshtein.{levenshtein}
use aikido.Llm.Levenshtein.Least.{Edits, levenshtein_lem}
use aikido.Llm.Vocabulary.{
  Unicode, Vocabulary, Token, Rule, rep_key, term_key, match_at, find_term, words_match, tokenize,
  reps_of, terms_of, correct,
}
use aikido.Llm.Vocabulary.Prompt.{prompt_line, line_of, Prompted, spoken, prompt_line_lem}
use aikido.Llm.Vocabulary.Matching.{Matched, match_at-Matched}
use aikido.Llm.Vocabulary.Correction.{Rewrites, correct_lem}
use aikido.Llm.Vocabulary.Walk.{correct-perm}

abbrev trim_left : Bytes → Bytes
trim_left [] = []
trim_left (c ∷ s) = let rest = trim_left s in if c == b' ' then rest else c ∷ s

abbrev trim_right : Bytes → Bytes
trim_right [] = []
trim_right (c ∷ s) = let rest = trim_right s in if is_empty rest && c == b' ' then [] else c ∷ rest

abbrev ascii : Unicode
ascii = record {
  is_letter = λ c. leb b'a' (lower c) && leb (lower c) b'z';
  is_digit = λ c. leb b'0' c && leb c b'9';
  to_lower = λ s. map lower s;
  trim_space = λ s. trim_right (trim_left s);
}

abbrev sanitary : Vocabulary
sanitary = record {
  terms = codes " LIV60G" ∷ codes "Duschtasse" ∷ [];
  replacements = (codes "pfeifer und mai", codes "PFEIFFER & MAY") ∷ [];
  fuzzy = true;
}

corrected :
    correct ascii (some sanitary) (codes "Liv 60 g, eine Duschtase von Pfeifer und Mai.")
    ≡ some (codes "LIV60G, eine Duschtasse von PFEIFFER & MAY.")
unfolding correct lower sort_by words_match text_eq find_term text_lt levenshtein
corrected = refl

prompted :
    prompt_line ascii (some sanitary)
    ≡ codes "Expected terms; when you hear one, spell it exactly like this: LIV60G, Duschtasse."
unfolding prompt_line
prompted = refl

-- two variants with the same words
abbrev two_ways : Bytes → Bytes → Vocabulary
two_ways a b = record {
  terms = [];
  replacements = (a, codes "A") ∷ (b, codes "B") ∷ [];
  fuzzy = false;
}

one_walk :
    correct ascii (some (two_ways (codes "Foo-Bar") (codes "foo bar"))) (codes "foo bar")
    ≡ some (codes "A")
unfolding correct lower sort_by words_match text_eq find_term text_lt levenshtein
one_walk = refl

other_walk :
    correct ascii
      (some (record (two_ways [] []) {
        replacements = (codes "foo bar", codes "B") ∷ (codes "Foo-Bar", codes "A") ∷ [];
      }))
      (codes "foo bar")
    ≡ some (codes "B")
unfolding correct lower sort_by words_match text_eq find_term text_lt levenshtein
other_walk = refl

levenshtein_lem_example :
    Edits (codes "tase") (codes "tasse") (levenshtein (codes "tase") (codes "tasse"))
    × ((n : ℕ)
        → Edits (codes "tase") (codes "tasse") n
        → levenshtein (codes "tase") (codes "tasse") ≤ n)
levenshtein_lem_example = levenshtein_lem (codes "tase") (codes "tasse")

prompt_line_lem_example :
    (r : ℕ × Bytes) × (prompt_line ascii (some sanitary) ≡ line_of ascii r)
    × Prompted (spoken ascii.trim_space sanitary.terms) r
prompt_line_lem_example = prompt_line_lem ascii sanitary

abbrev heard_tokens : List Token
heard_tokens =
    record { start = 0; stop = 3; norm = codes "liv" }
    ∷ record { start = 4; stop = 8; norm = codes "60g" }
    ∷ []

abbrev variants : List Rule
variants = record { words = codes "liv" ∷ []; key = []; canon = codes "LIV"; fuzzy = false } ∷ []

abbrev variants_have_words : (r : Rule) → Memᴰ r variants → 1 ≤ length r.words
variants_have_words r (Memᴰ.head e) = rw e (omega arith)
variants_have_words r (Memᴰ.tail m) = absurd (Memᴰ.not-nil m)

match_at-Matched_example : Matched heard_tokens variants [] (match_at heard_tokens variants [])
match_at-Matched_example = match_at-Matched heard_tokens variants [] variants_have_words

correct_lem_example :
    (out : Bytes) × (correct ascii (some sanitary) (codes "liv 60 g") ≡ some out)
    × Rewrites
        (codes "liv 60 g")
        (sort_by rep_key (reps_of ascii sanitary.replacements))
        (sort_by term_key (terms_of ascii sanitary.fuzzy sanitary.terms))
        (tokenize ascii (codes "liv 60 g"))
        0
        out
correct_lem_example = correct_lem ascii sanitary (codes "liv 60 g") refl

correct-perm_example :
    correct ascii (some (two_ways (codes "a") (codes "b"))) (codes "b a")
    ≡ correct ascii
        (some (record (two_ways [] []) {
          replacements = (codes "b", codes "B") ∷ (codes "a", codes "A") ∷ [];
        }))
        (codes "b a")
unfolding reps_of text_eq lower
correct-perm_example =
    correct-perm ascii (two_ways (codes "a") (codes "b"))
      (record (two_ways [] []) {
        replacements = (codes "b", codes "B") ∷ (codes "a", codes "A") ∷ [];
      })
      (codes "b a") refl refl (Permᴰ.swap refl refl) ((refl, tt), (tt, tt))

-- ===== src/Llm/Vocabulary.antt =====
-- llm/vocabulary.go: the terms that a transcription should spell in one way. The tables of `unicode`
-- and of `strings.ToLower` and `strings.TrimSpace` are the record `Unicode`.
pub mod Prompt
pub mod Matching
pub mod Correction
pub mod Walk
use aikido.Prelude.{
  ℕ, zero, suc, ◌+◌, ◌-◌, ◌≤◌, min, Bool, true, false, not, ◌&&◌, ◌||◌, Option, none, some, List,
  [], ◌∷◌, ◌++◌, map, Bytes, codes, text_eq, is_empty, length, take, drop, get_elem?, concat, any,
  leb, ltb, ◌==◌, if◌then◌else◌,
}
use aikido.Prelude.Assoc.{Assoc}
use aikido.Prelude.Int.{int_limit}
use aikido.Prelude.Runes.{range_from, range, runes, rune_count}
use aikido.Prelude.Sort.{sort_by}
use aikido.Llm.Levenshtein.{levenshtein}

pub record Unicode : Type 0 where
  pub is_letter : ℕ → Bool
  pub is_digit : ℕ → Bool
  pub to_lower : Bytes → Bytes
  pub trim_space : Bytes → Bytes

-- the map of replacements in the order in which `range` walks it
pub record Vocabulary : Type 0 where
  pub terms : List Bytes
  pub replacements : Assoc Bytes
  pub fuzzy : Bool

pub record Token : Type 0 where
  pub start : ℕ
  pub stop : ℕ
  pub norm : Bytes

pub record Rule : Type 0 where
  pub words : List Bytes
  pub key : Bytes
  pub canon : Bytes
  pub fuzzy : Bool

abbrev pub join_norm : List Token → Bytes
join_norm [] = []
join_norm (t ∷ toks) = t.norm ++ join_norm toks

-- `strings.Join(words, " ")`
abbrev pub join_words : List Bytes → Bytes
join_words [] = []
join_words (w ∷ []) = w
join_words (w ∷ v ∷ ws) = w ++ b' ' ∷ join_words (v ∷ ws)

-- `sort` by descending length: a slice is shorter than 2 ^ 63
abbrev pub longest_first : ℕ → ℕ
longest_first n = int_limit - n

abbrev pub rep_key : Rule → Bytes
rep_key r = longest_first (length r.words) ∷ join_words r.words

abbrev pub term_key : Rule → Bytes
term_key r = longest_first (length r.key) ∷ []

-- the longest prefix of the tokens that is tried with the terms (`maxTermWindow`), and with `Fuzzy`
abbrev pub max_term_window : ℕ
max_term_window = 6

abbrev pub max_fuzzy_window : ℕ
max_fuzzy_window = 3

-- every word of the variant is the token at its place
unfoldable pub words_match : List Bytes → List Token → Bool
words_match [] toks = true
words_match (w ∷ ws) [] = false
words_match (w ∷ ws) (t ∷ toks) = text_eq t.norm w && words_match ws toks

unfoldable pub match_reps : List Token → List Rule → Option (ℕ × Bytes)
match_reps toks [] = none
match_reps toks (r ∷ rs) =
    let rest = match_reps toks rs in
    if words_match r.words toks then some (length r.words, r.canon) else rest

-- the canonical spelling of the first term that fits
unfoldable pub find_term : (Rule → Bool) → List Rule → Option Bytes
find_term fits [] = none
find_term fits (t ∷ ts) = let rest = find_term fits ts in if fits t then some t.canon else rest

abbrev pub spelled : ℕ → Option Bytes → Option (ℕ × Bytes) → Option (ℕ × Bytes)
spelled n none rest = rest
spelled n (some canon) rest = some (n, canon)

-- `heard == t.key`, for so many tokens and then for fewer
unfoldable pub match_exact : ℕ → List Token → List Rule → Option (ℕ × Bytes)
match_exact zero toks terms = none
match_exact (suc n) toks terms =
    let rest = match_exact n toks terms in
    spelled (suc n) (find_term (λ t. text_eq (join_norm (take (suc n) toks)) t.key) terms) rest

-- `maxDist`
abbrev pub max_dist : List ℕ → ℕ
max_dist key = if leb 9 (length key) then 2 else 1

-- `heard[0] == key[0]`; neither is empty, since a heard word has 4 runes and a fuzzy key has 6
abbrev pub same_first : List ℕ → List ℕ → Bool
same_first (x ∷ heard) (y ∷ key) = x == y
same_first _ _ = false

-- `abs(len(heard)-len(key)) > maxDist` is denied by both comparisons
abbrev pub is_near : List ℕ → List ℕ → Bool
is_near heard key =
    same_first heard key
    && (leb (length heard) (length key + max_dist key)
        && leb (length key) (length heard + max_dist key))
    && leb (levenshtein heard key) (max_dist key)

abbrev pub is_short : Token → Bool
is_short t = ltb (rune_count t.norm) 4

unfoldable pub match_fuzzy : ℕ → List Token → List Rule → Option (ℕ × Bytes)
match_fuzzy zero toks terms = none
match_fuzzy (suc n) toks terms =
    let rest = match_fuzzy n toks terms in
    let heard = runes (join_norm (take (suc n) toks)) in
    if any is_short (take (suc n) toks)
    then rest
    else spelled (suc n) (find_term (λ t. t.fuzzy && is_near heard (runes t.key)) terms) rest

abbrev pub or_else : Option (ℕ × Bytes) → Option (ℕ × Bytes) → Option (ℕ × Bytes)
or_else none rest = rest
or_else (some m) rest = some m

abbrev pub found : Option (ℕ × Bytes) → ℕ × Bytes
found none = (0, [])
found (some m) = m

unfoldable pub match_at : List Token → List Rule → List Rule → ℕ × Bytes
unfolding match_reps match_exact match_fuzzy
match_at toks reps terms = found (
    or_else (match_reps toks reps) (
      or_else (match_exact (min max_term_window (length toks)) toks terms)
        (match_fuzzy (min max_fuzzy_window (length toks)) toks terms)))

-- `text[from:to]`, where the model panics with `none`
abbrev pub span : Bytes → ℕ → ℕ → Option Bytes
span text from to =
    if leb from to && leb to (length text) then some (take (to - from) (drop from text)) else none

abbrev pub splice : Bytes → Option Bytes → Option Bytes → Option Bytes
splice canon (some gap) (some rest) = some (gap ++ canon ++ rest)
splice canon _ _ = none

-- where the last of `n` tokens stands
abbrev pub last_of : ℕ → ℕ
last_of zero = zero
last_of (suc n) = n

-- the body of `Correct`'s loop at the token `t`, with the last token of the match and what follows
abbrev pub rewrite_at :
    Bytes → Token → ℕ → ℕ × Bytes → Option Token → (ℕ → Option Bytes) → Option Bytes
rewrite_at text t last (zero, canon) e rest = rest last
rewrite_at text t last (suc n, canon) none rest = none
rewrite_at text t last (suc n, canon) (some e) rest =
    splice canon (span text last t.start) (rest e.stop)

-- `Correct`'s loop: the tokens that the last match still covers, `last`, and the tokens from `i` on
unfoldable pub correct_from : Bytes → List Rule → List Rule → ℕ → ℕ → List Token → Option Bytes
unfolding match_at
correct_from text reps terms skip last [] = span text last (length text)
correct_from text reps terms (suc k) last (t ∷ toks) = correct_from text reps terms k last toks
correct_from text reps terms zero last (t ∷ toks) =
    let m = match_at (t ∷ toks) reps terms in
    rewrite_at text t last m (get_elem? (t ∷ toks) (last_of m.0))
      (λ last'. correct_from text reps terms (last_of m.0) last' toks)

module _ (u : Unicode) where
  abbrev pub is_word : ℕ → Bool
  is_word r = u.is_letter r || u.is_digit r

  abbrev pub token_of : Bytes → ℕ → ℕ → Token
  token_of s from to = record {
    start = from;
    stop = to;
    norm = u.to_lower (take (to - from) (drop from s));
  }

  -- the loop of `tokenize`; the first argument is `start`, with `none` for -1
  unfoldable pub tokens_from : Bytes → Option ℕ → List (ℕ × ℕ) → List Token
  tokens_from s none [] = []
  tokens_from s (some from) [] = token_of s from (length s) ∷ []
  tokens_from s none ((i, r) ∷ rs) = tokens_from s (if is_word r then some i else none) rs
  tokens_from s (some from) ((i, r) ∷ rs) =
      let rest = tokens_from s (if is_word r then some from else none) rs in
      if is_word r then rest else token_of s from i ∷ rest

  unfoldable pub tokenize : Bytes → List Token
  unfolding tokens_from range_from
  tokenize s = tokens_from s none (range s)

  -- the rules of the replacements, as the map is walked
  unfoldable pub reps_of : Assoc Bytes → List Rule
  unfolding tokenize
  reps_of [] = []
  reps_of ((heard, canon) ∷ m) =
      let words = map (λ t. t.norm) (tokenize heard) in
      let rest = reps_of m in
      if not (is_empty words) && not (is_empty canon)
      then record { words = words; key = []; canon = canon; fuzzy = false } ∷ rest
      else rest

  unfoldable pub terms_of : Bool → List Bytes → List Rule
  unfolding tokenize
  terms_of fuzzy [] = []
  terms_of fuzzy (t ∷ ts) =
      let key = join_norm (tokenize t) in
      let rest = terms_of fuzzy ts in
      if is_empty key
      then rest
      else record {
        words = [];
        key = key;
        canon = u.trim_space t;
        fuzzy = fuzzy && leb 6 (rune_count key);
      }
        ∷ rest

  -- `Correct`, of a vocabulary that may be nil
  unfoldable pub correct : Option Vocabulary → Bytes → Option Bytes
  unfolding correct_from reps_of terms_of
  correct none text = some text
  correct (some v) text =
      if is_empty text
      then some text
      else correct_from text (sort_by rep_key (reps_of v.replacements))
          (sort_by term_key (terms_of v.fuzzy v.terms)) 0 0 (tokenize text)

-- ===== src/Llm/Levenshtein.antt =====
-- `levenshtein` of llm/vocabulary.go, with the two rows as lists.
pub mod Least
use aikido.Prelude.{ℕ, zero, suc, ◌+◌, min, List, [], ◌∷◌, length, ◌==◌, if◌then◌else◌}

-- `cost`
abbrev pub cost : ℕ → ℕ → ℕ
cost x y = if x == y then 0 else 1

-- The inner loop for the rune `x`: `diagonal` is `prev[j-1]`, `left` is `cur[j-1]`, and the lists are
-- `b` from `j-1` on and `prev` from `j` on; the cells of `cur` from `j` on.
unfoldable pub fill : ℕ → ℕ → ℕ → List ℕ → List ℕ → List ℕ
fill x diagonal left (y ∷ b) (above ∷ prev) =
    let cell = min (min (above + 1) (left + 1)) (diagonal + cost x y) in
    cell ∷ fill x above cell b prev
fill x diagonal left _ _ = []

-- one round of the outer loop; `i` is `cur[0]`
abbrev pub next_row : ℕ → ℕ → List ℕ → List ℕ → List ℕ
next_row i x b [] = []
next_row i x b (first ∷ prev) = i ∷ fill x first i b prev

-- the outer loop from round `i` on
unfoldable pub rows : ℕ → List ℕ → List ℕ → List ℕ → List ℕ
unfolding fill
rows i [] b prev = prev
rows i (x ∷ a) b prev = rows (suc i) a b (next_row i x b prev)

-- `for j := range prev { prev[j] = j }`
unfoldable pub first_row : ℕ → List ℕ → List ℕ
first_row j [] = j ∷ []
first_row j (y ∷ b) = j ∷ first_row (suc j) b

-- `prev[len(b)]`
unfoldable pub last_cell : List ℕ → ℕ
last_cell [] = 0
last_cell (n ∷ []) = n
last_cell (n ∷ m ∷ row) = last_cell (m ∷ row)

unfoldable pub levenshtein : List ℕ → List ℕ → ℕ
unfolding rows first_row last_cell
levenshtein a b = last_cell (rows 1 a b (first_row 0 b))

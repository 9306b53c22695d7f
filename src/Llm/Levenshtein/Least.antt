-- ===== src/Llm/Levenshtein/Least.antt =====
-- The rows compute the least number of edits.
use aikido.Prelude.{
  ℕ, suc, ◌+◌, ◌≤◌, min, List, [], ◌∷◌, ◌++◌, ◌≡◌, refl, sym, ap, ◌∙◌, arith, length, ◌==◌,
  Bool-cases, ==_iff, append-nil, leb, inl, inr,
}
use mathlib.Core.Path.{subst}
use aikido.Llm.Levenshtein.{cost, fill, next_row, rows, first_row, last_cell, levenshtein}

-- `Edits a b n`: `n` insertions, deletions and replacements of one rune make `b` of `a`.
pub data Edits : List ℕ → List ℕ → ℕ → Type 0 where
  done : Edits [] [] 0
  keep : {x : ℕ} {a b : List ℕ} {n : ℕ} → Edits a b n → Edits (x ∷ a) (x ∷ b) n
  replace : {x y : ℕ} {a b : List ℕ} {n : ℕ} → Edits a b n → Edits (x ∷ a) (y ∷ b) (suc n)
  delete : {x : ℕ} {a b : List ℕ} {n : ℕ} → Edits a b n → Edits (x ∷ a) b (suc n)
  insert : {y : ℕ} {a b : List ℕ} {n : ℕ} → Edits a b n → Edits a (y ∷ b) (suc n)

recount : {a b : List ℕ} {n m : ℕ} → n ≡ m → Edits a b n → Edits a b m
recount {a} {b} e h = subst (λ k. Edits a b k) e h

dist : List ℕ → List ℕ → ℕ
dist [] b = length b
dist (x ∷ a) [] = suc (length a)
dist (x ∷ a) (y ∷ b) = min (min (dist a (y ∷ b) + 1) (dist (x ∷ a) b + 1)) (dist a b + cost x y)

Edits-nil : (b : List ℕ) → Edits [] b (length b)
Edits-nil [] = done
Edits-nil (y ∷ b) = insert (Edits-nil b)

nil-Edits : (a : List ℕ) → Edits a [] (length a)
nil-Edits [] = done
nil-Edits (x ∷ a) = delete (nil-Edits a)

replaced : (x y : ℕ) (a b : List ℕ) (n : ℕ) → Edits a b n → Edits (x ∷ a) (y ∷ b) (n + cost x y)
replaced x y a b n h = elim (Bool-cases (x == y)) [
  | inl e ↦
      let same : x ≡ y = (==_iff x y).0 e in
      rw e (subst (λ z. Edits (x ∷ a) (z ∷ b) (n + 0)) same (recount (omega arith) (keep h)))
  | inr e ↦ rw e (recount (omega arith) (replace h))
]

Edits-min : (a b : List ℕ) (n m : ℕ) → Edits a b n → Edits a b m → Edits a b (min n m)
Edits-min a b n m h g = elim (Bool-cases (leb n m)) [
  | inl e ↦ recount (ground arith) h
  | inr e ↦ recount (ground arith) g
]

Edits-dist : (a b : List ℕ) → Edits a b (dist a b)
unfolding dist
Edits-dist [] b = Edits-nil b
Edits-dist (x ∷ a) [] = nil-Edits (x ∷ a)
Edits-dist (x ∷ a) (y ∷ b) =
    Edits-min _ _ _ _
      (Edits-min _ _ _ _ (recount (omega arith) (delete (Edits-dist a (y ∷ b))))
        (recount (omega arith) (insert (Edits-dist (x ∷ a) b))))
      (replaced x y a b (dist a b) (Edits-dist a b))

dist-nil : (a : List ℕ) → dist a [] ≡ length a
unfolding dist
dist-nil [] = refl
dist-nil (x ∷ a) = refl

dist-insert : (a b : List ℕ) (y : ℕ) → dist a (y ∷ b) ≤ suc (dist a b)
unfolding dist
dist-insert [] b y = omega arith
dist-insert (x ∷ a) b y = omega arith

dist-delete : (a b : List ℕ) (x : ℕ) → dist (x ∷ a) b ≤ suc (dist a b)
unfolding dist
dist-delete a [] x = omega (arith, dist-nil a)
dist-delete a (y ∷ b) x = omega arith

dist-keep : (a b : List ℕ) (x : ℕ) → dist (x ∷ a) (x ∷ b) ≤ dist a b
unfolding dist
dist-keep a b x = ground arith

dist-replace : (a b : List ℕ) (x y : ℕ) → dist (x ∷ a) (y ∷ b) ≤ suc (dist a b)
unfolding dist
dist-replace a b x y = ground arith

dist-least : (a b : List ℕ) (n : ℕ) → Edits a b n → dist a b ≤ n
unfolding dist
dist-least _ _ _ done = omega arith
dist-least _ _ _ (keep {x} {a} {b} {n} h) = omega (arith, dist-keep a b x, dist-least a b n h)
dist-least _ _ _ (replace {x} {y} {a} {b} {n} h) =
    omega (arith, dist-replace a b x y, dist-least a b n h)
dist-least _ _ _ (delete {x} {a} {b} {n} h) = omega (arith, dist-delete a b x, dist-least a b n h)
dist-least _ _ _ (insert {y} {a} {b} {n} h) = omega (arith, dist-insert a b y, dist-least a b n h)

-- the reverse of the second list, in front of the first
onto : List ℕ → List ℕ → List ℕ
onto r [] = r
onto r (x ∷ a) = onto (x ∷ r) a

onto-onto : (s r a : List ℕ) → onto s (onto r a) ≡ onto (a ++ s) r
unfolding onto
onto-onto s r [] = refl
onto-onto s r (x ∷ a) = onto-onto s (x ∷ r) a

Edits-onto :
    {a b : List ℕ} {n m : ℕ} (r s : List ℕ)
    → Edits a b n
    → Edits r s m
    → Edits (onto r a) (onto s b) (n + m)
unfolding onto
Edits-onto r s done g = recount (omega arith) g
Edits-onto r s (keep {x} h) g = Edits-onto (x ∷ r) (x ∷ s) h (keep g)
Edits-onto {m} r s (replace {x} {y} {n = n} h) g =
    recount (omega arith) (Edits-onto (x ∷ r) (y ∷ s) h (replace g))
Edits-onto {m} r s (delete {x} {n = n} h) g =
    recount (omega arith) (Edits-onto (x ∷ r) s h (delete g))
Edits-onto {m} r s (insert {y} {n = n} h) g =
    recount (omega arith) (Edits-onto r (y ∷ s) h (insert g))

-- the row behind the runes `r`, read backwards, from the cell behind the runes `s` on
row_of : List ℕ → List ℕ → List ℕ → List ℕ
row_of r s [] = dist r s ∷ []
row_of r s (y ∷ b) = dist r s ∷ row_of r (y ∷ s) b

abbrev tail : List ℕ → List ℕ
tail [] = []
tail (x ∷ l) = l

row_of-cons : (r s b : List ℕ) → row_of r s b ≡ dist r s ∷ tail (row_of r s b)
unfolding row_of
row_of-cons r s [] = refl
row_of-cons r s (y ∷ b) = refl

fill-row_of :
    (x : ℕ) (r s b : List ℕ)
    → fill x (dist r s) (dist (x ∷ r) s) b (tail (row_of r s b)) ≡ tail (row_of (x ∷ r) s b)
unfolding fill row_of dist
fill-row_of x r s [] = refl
fill-row_of x r s (y ∷ b) =
    ap (λ t. fill x (dist r s) (dist (x ∷ r) s) (y ∷ b) t) (row_of-cons r (y ∷ s) b)
    ∙ ap (λ t. dist (x ∷ r) (y ∷ s) ∷ t) (fill-row_of x r (y ∷ s) b)
    ∙ sym (row_of-cons (x ∷ r) (y ∷ s) b)

first_row-row_of : (j : ℕ) (s b : List ℕ) → length s ≡ j → first_row j b ≡ row_of [] s b
unfolding first_row row_of dist
first_row-row_of j s [] h = ap (λ k. k ∷ []) (sym h)
first_row-row_of j s (y ∷ b) h =
    ap (λ t. j ∷ t) (first_row-row_of (suc j) (y ∷ s) b (ap suc h))
    ∙ ap (λ k. k ∷ row_of [] (y ∷ s) b) (sym h)

next_row-row_of :
    (x : ℕ) (r b : List ℕ) → next_row (suc (length r)) x b (row_of r [] b) ≡ row_of (x ∷ r) [] b
unfolding dist
next_row-row_of x r b =
    ap (next_row (suc (length r)) x b) (row_of-cons r [] b)
    ∙ ap (λ t. suc (length r) ∷ t) (fill-row_of x r [] b)
    ∙ sym (row_of-cons (x ∷ r) [] b)

rows-row_of : (r a b : List ℕ) → rows (suc (length r)) a b (row_of r [] b) ≡ row_of (onto r a) [] b
unfolding rows onto
rows-row_of r [] b = refl
rows-row_of r (x ∷ a) b =
    ap (rows (suc (suc (length r))) a b) (next_row-row_of x r b) ∙ rows-row_of (x ∷ r) a b

last_cell-cons : (n : ℕ) (r s b : List ℕ) → last_cell (n ∷ row_of r s b) ≡ last_cell (row_of r s b)
unfolding last_cell row_of
last_cell-cons n r s [] = refl
last_cell-cons n r s (y ∷ b) = refl

last_cell-row_of : (r s b : List ℕ) → last_cell (row_of r s b) ≡ dist r (onto s b)
unfolding last_cell row_of onto
last_cell-row_of r s [] = refl
last_cell-row_of r s (y ∷ b) = last_cell-cons (dist r s) r (y ∷ s) b ∙ last_cell-row_of r (y ∷ s) b

levenshtein-dist : (a b : List ℕ) → levenshtein a b ≡ dist (onto [] a) (onto [] b)
unfolding levenshtein
levenshtein-dist a b =
    ap (λ t. last_cell (rows 1 a b t)) (first_row-row_of 0 [] b refl)
    ∙ ap last_cell (rows-row_of [] a b)
    ∙ last_cell-row_of (onto [] a) [] b

twice : (l : List ℕ) → onto [] (onto [] l) ≡ l
unfolding onto
twice l = onto-onto [] [] l ∙ append-nil l

-- `levenshtein` is the least number of insertions, deletions and replacements of one rune that make
-- the second text of the first: so many do, and no fewer.
pub levenshtein_lem :
    (a b : List ℕ) → Edits a b (levenshtein a b) × ((n : ℕ) → Edits a b n → levenshtein a b ≤ n)
levenshtein_lem a b = (reached, least)
  where
    reached : Edits a b (levenshtein a b)
    reached = recount (omega (arith, levenshtein-dist a b)) (
        subst (λ l. Edits l b (dist (onto [] a) (onto [] b) + 0)) (twice a)
          (subst (λ l. Edits (onto [] (onto [] a)) l (dist (onto [] a) (onto [] b) + 0)) (twice b)
            (Edits-onto [] [] (Edits-dist (onto [] a) (onto [] b)) done)))

    least : (n : ℕ) → Edits a b n → levenshtein a b ≤ n
    least n h = omega (
      arith,
      levenshtein-dist a b,
      dist-least (onto [] a) (onto [] b) (n + 0) (Edits-onto [] [] h done),
    )

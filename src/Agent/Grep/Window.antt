-- ===== src/Agent/Grep/Window.antt =====
-- `grepHandler` of agent/tools_grep.go: which lines of a file the loops over its hits emit.
use aikido.Prelude.{
  ℕ, zero, suc, ◌+◌, ◌-◌, ◌≤◌, ◌<◌, min, max, Bool, false, ◌&&◌, List, [], ◌∷◌, ◌++◌, ◌≡◌, refl,
  sym, ap, ◌∙◌, arith, length, length-append, any, leb, ltb, Bool-cases, inl, inr, if◌then◌else◌,
}

-- `n` line numbers from `j` on
abbrev pub count_from : ℕ → ℕ → List ℕ
count_from zero j = []
count_from (suc n) j = j ∷ count_from n (suc j)

abbrev pub is_near : ℕ → List ℕ → ℕ → Bool
is_near context hits j = any (λ i. leb i (j + context) && leb j (i + context)) hits

-- the line numbers that are at most `context` lines away from a hit
pub near : ℕ → List ℕ → List ℕ → List ℕ
near context hits [] = []
near context hits (j ∷ js) =
    let rest = near context hits js in if is_near context hits j then j ∷ rest else rest

count_from-append :
    (n m total j k : ℕ)
    → total ≡ n + m
    → k ≡ j + n
    → count_from total j ≡ count_from n j ++ count_from m k
count_from-append zero m total j k h g =
    ap (λ t. count_from t j) (omega (arith, h)) ∙ ap (count_from m) (omega (arith, g))
count_from-append (suc n) m zero j k h g = absurd (omega (arith, h))
count_from-append (suc n) m (suc t) j k h g =
    ap (λ l. j ∷ l) (count_from-append n m t (suc j) k (omega (arith, h)) (omega (arith, g)))

near-append :
    (context : ℕ) (hits js ks : List ℕ)
    → near context hits (js ++ ks) ≡ near context hits js ++ near context hits ks
unfolding near
near-append context hits [] ks = refl
near-append context hits (j ∷ js) ks = ground (arith, near-append context hits js ks)

-- hits in ascending order, from `low` on and below `high`
abbrev pub Climbs : ℕ → ℕ → List ℕ → Type 0
Climbs low high [] = Unit
Climbs low high (i ∷ is) = (low ≤ i) × (i < high) × Climbs (suc i) high is

far-below :
    (context k low high : ℕ) (hits : List ℕ)
    → Climbs low high hits
    → k + context < low
    → is_near context hits k ≡ false
far-below context k low high [] c h = refl
far-below context k low high (i ∷ is) (c, d, e) h =
    ground (arith, c, far-below context k (suc i) high is e (omega (arith, c, h)))

near-none :
    (context low high n j : ℕ) (hits : List ℕ)
    → Climbs low high hits
    → j + n + context ≤ low
    → near context hits (count_from n j) ≡ []
unfolding near
near-none context low high zero j hits c h = refl
near-none context low high (suc n) j hits c h =
    rw (far-below context j low high hits c (omega (arith, h)))
      (near-none context low high n (suc j) hits c (omega (arith, h)))

near-all :
    (context i n j : ℕ) (is : List ℕ)
    → i ≤ j + context
    → j + n ≤ suc (i + context)
    → near context (i ∷ is) (count_from n j) ≡ count_from n j
unfolding near
near-all context i zero j is h k = refl
near-all context i (suc n) j is h k =
    ground (arith, near-all context i n (suc j) is (omega (arith, h)) (omega (arith, k)))

near-past :
    (context i n j : ℕ) (is : List ℕ)
    → i + context < j
    → near context (i ∷ is) (count_from n j) ≡ near context is (count_from n j)
unfolding near
near-past context i zero j is h = refl
near-past context i (suc n) j is h =
    ground (arith, h, near-past context i n (suc j) is (omega (arith, h)))

-- the line numbers that the loops go through
unfoldable pub windows : ℕ → ℕ → List ℕ → ℕ → List ℕ
windows context size [] next = []
windows context size (i ∷ is) next =
    let from = max (i - context) next in
    let to = min (i + context) (size - 1) in
    count_from (to + 1 - from) from ++ windows context size is (to + 1)

near-cut :
    (context : ℕ) (hits : List ℕ) (n m total j k : ℕ)
    → total ≡ n + m
    → k ≡ j + n
    → near context hits (count_from total j)
      ≡ near context hits (count_from n j) ++ near context hits (count_from m k)
near-cut context hits n m total j k h g =
    ap (near context hits) (count_from-append n m total j k h g)
    ∙ near-append context hits (count_from n j) (count_from m k)

pub nothing_near : (context : ℕ) (js : List ℕ) → near context [] js ≡ []
unfolding near
nothing_near context [] = refl
nothing_near context (j ∷ js) = nothing_near context js

-- the lines behind the window of a hit: none is left, or they are too far from it
past_window :
    (context i size : ℕ) (is : List ℕ)
    → i < size
    → (to : ℕ) → to ≡ min (i + context) (size - 1)
    → near context (i ∷ is) (count_from (size - (to + 1)) (to + 1))
      ≡ near context is (count_from (size - (to + 1)) (to + 1))
unfolding near
past_window context i size is d to e = elim (Bool-cases (ltb (i + context) (to + 1))) [
  | inl h ↦ near-past context i _ (to + 1) is (ground arith)
  | inr h ↦ let none_left : size - (to + 1) ≡ 0 = ground arith in rw none_left refl
]

-- the lines in front of the window of the first hit
before_window :
    (context i size next : ℕ) (is : List ℕ)
    → i < size
    → Climbs (suc i) size is
    → near context (i ∷ is) (count_from (max (i - context) next - next) next) ≡ []
unfolding near
before_window context i size next is d e = elim (Bool-cases (ltb next (i - context))) [
  | inl h ↦ near-none context i size _ next (i ∷ is) (omega arith, d, e) (ground arith)
  | inr h ↦ let none_left : max (i - context) next - next ≡ 0 = ground arith in rw none_left refl
]

pub windows-near :
    (context size low next : ℕ) (hits : List ℕ)
    → Climbs low size hits
    → next ≤ low + context
    → next ≤ size
    → windows context size hits next ≡ near context hits (count_from (size - next) next)
unfolding windows
windows-near context size low next [] c h k =
    sym (nothing_near context (count_from (size - next) next))
windows-near context size low next (i ∷ is) (c, d, e) h k =
    let from = max (i - context) next in
    let to = min (i + context) (size - 1) in
    sym (
      near-cut context (i ∷ is) (from - next) (size - from) (size - next) next from
        (omega (arith, c, d, h, k)) (omega (arith, c, d, h, k))
      ∙ ap (λ l. l ++ near context (i ∷ is) (count_from (size - from) from))
          (before_window context i size next is d e)
      ∙ near-cut context (i ∷ is) (to + 1 - from) (size - (to + 1)) (size - from) from (to + 1)
          (omega (arith, c, d, h, k)) (omega (arith, c, d, h, k))
      ∙ ap (λ l. l ++ near context (i ∷ is) (count_from (size - (to + 1)) (to + 1)))
          (near-all context i (to + 1 - from) from is (omega (arith, d))
            (omega (arith, c, d, h, k)))
      ∙ ap (λ l. count_from (to + 1 - from) from ++ l)
          (past_window context i size is d to refl
            ∙ sym
                (windows-near context size (suc i) (to + 1) is e (omega arith) (omega (arith, d)))))

length-count_from : (n j : ℕ) → length (count_from n j) ≡ n
length-count_from zero j = refl
length-count_from (suc n) j = ap suc (length-count_from n (suc j))

-- a file with a hit has a line near it
pub near-some :
    (context size i : ℕ) (is : List ℕ)
    → Climbs 0 size (i ∷ is)
    → 1 ≤ length (near context (i ∷ is) (count_from size 0))
unfolding windows
near-some context size i is (c, d, e) =
    let to = min (i + context) (size - 1) in
    let shown = windows-near context size 0 0 (i ∷ is) (c, d, e) (omega arith) (omega arith) in
    omega (
      arith,
      d,
      ap (λ (l : List ℕ). length l) shown,
      ap (λ (n : ℕ). length (near context (i ∷ is) (count_from n 0))) (whole_file size),
      length-append (count_from (to + 1 - max (i - context) 0) (max (i - context) 0))
          (windows context size is (to + 1)),
      length-count_from (to + 1 - max (i - context) 0) (max (i - context) 0),
    )
  where
    whole_file : (n : ℕ) → n - 0 ≡ n
    whole_file n = omega arith

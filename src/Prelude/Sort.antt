-- ===== src/Prelude/Sort.antt =====
-- `sort.Slice` by a string key: the order of Go's strings, insertion sort, and why the result does
-- not depend on the order in which a map was walked.
use mathlib.Core.List.{Permᴰ}
use mathlib.Core.Path.{subst}
use aikido.Prelude.{
  Bool, true, false, ◌||◌, List, [], ◌∷◌, ◌≡◌, refl, ap, ◌∙◌, inl, inr, arith, Bytes, text_eq,
  text_eq_iff, ltb, ◌==◌, if◌then◌else◌, All, any, Bool-cases,
}

-- `a < b` on strings
unfoldable pub text_lt : Bytes → Bytes → Bool
text_lt [] [] = false
text_lt [] (y ∷ ys) = true
text_lt (x ∷ xs) [] = false
text_lt (x ∷ xs) (y ∷ ys) = if x == y then text_lt xs ys else ltb x y

pub text_lt_irrefl : (a : Bytes) → text_lt a a ≡ false
unfolding text_lt
text_lt_irrefl [] = refl
text_lt_irrefl (x ∷ a) = ground (arith, text_lt_irrefl a)

pub text_lt_trans : (a b c : Bytes) → text_lt a b ≡ true → text_lt b c ≡ true → text_lt a c ≡ true
unfolding text_lt
text_lt_trans [] (y ∷ b) (z ∷ c) h k = refl
text_lt_trans (x ∷ a) (y ∷ b) (z ∷ c) h k = ground (arith, text_lt_trans a b c)
text_lt_trans [] [] c h k = cc
text_lt_trans _ _ _ h k = ground arith

pub text_lt_total : (a b : Bytes) → text_eq a b ≡ false → (text_lt a b || text_lt b a) ≡ true
unfolding text_lt text_eq
text_lt_total [] [] h = cc
text_lt_total (x ∷ a) (y ∷ b) h = ground (arith, text_lt_total a b)
text_lt_total _ _ h = ground arith

module _ {ℓ} {A : Type ℓ} (key : A → Bytes) where
  unfoldable pub place : A → List A → List A
  place x [] = x ∷ []
  place x (y ∷ l) = let rest = place x l in if text_lt (key y) (key x) then y ∷ rest else x ∷ y ∷ l

  unfoldable pub sort_by : List A → List A
  unfolding place
  sort_by [] = []
  sort_by (x ∷ l) = place x (sort_by l)

  abbrev pub Differs : A → A → Type 0
  Differs x y = text_eq (key x) (key y) ≡ false

  -- no two elements have one key
  abbrev pub Distinct : List A → Type 0
  Distinct [] = Unit
  Distinct (x ∷ l) = All (Differs x) l × Distinct l

  abbrev pub IsSorted : List A → Type 0
  IsSorted [] = Unit
  IsSorted (x ∷ l) = All (λ y. text_lt (key x) (key y) ≡ true) l × IsSorted l

pub text_lt_asymm : (a b : Bytes) → text_lt a b ≡ true → text_lt b a ≡ false
text_lt_asymm a b h = ground (arith, text_lt_trans a b a h, text_lt_irrefl a)

text_eq_comm : (a b : Bytes) → text_eq a b ≡ false → text_eq b a ≡ false
text_eq_comm a b h = ground (arith, text_eq_iff a b, text_eq_iff b a)

module _ {ℓ} {A : Type ℓ} (key : A → Bytes) where
  place_comm :
      (x y : A) (l : List A)
      → Differs key x y
      → place key x (place key y l) ≡ place key y (place key x l)
  unfolding place
  place_comm x y [] d = ground (
    arith,
    text_lt_total (key x) (key y) d,
    text_lt_asymm (key x) (key y),
    text_lt_asymm (key y) (key x),
  )
  place_comm x y (z ∷ l) d = ground (
    arith,
    place_comm x y l d,
    text_lt_total (key x) (key y) d,
    text_lt_asymm (key x) (key y),
    text_lt_asymm (key y) (key x),
    text_lt_trans (key z) (key x) (key y),
    text_lt_trans (key z) (key y) (key x),
  )

  module _ {κ} (P : A → Type κ) where
    All-place : (x : A) (l : List A) → P x → All P l → All P (place key x l)
    unfolding place
    All-place x [] p h = (p, tt)
    All-place x (y ∷ l) p h = elim (Bool-cases (text_lt (key y) (key x))) [
      | inl e ↦ rw e (h.0, All-place x l p h.1)
      | inr e ↦ rw e (p, h)
    ]

    pub All-sort_by : (l : List A) → All P l → All P (sort_by key l)
    unfolding sort_by
    All-sort_by [] h = tt
    All-sort_by (x ∷ l) h = All-place x (sort_by key l) h.0 (All-sort_by l h.1)

    All-perm : {l m : List A} → Permᴰ l m → All P l → All P m
    All-perm Permᴰ.nil h = tt
    All-perm (Permᴰ.cons e p) h = (rw (← e) h.0, All-perm p h.1)
    All-perm (Permᴰ.swap e f) h = (rw (← f) h.1.0, (rw (← e) h.0, h.1.1))
    All-perm (Permᴰ.trans p q) h = All-perm q (All-perm p h)

  Distinct-perm : {l m : List A} → Permᴰ l m → Distinct key l → Distinct key m
  Distinct-perm Permᴰ.nil d = tt
  Distinct-perm (Permᴰ.cons {a} {b} {l₁} {l₂} e p) d =
      (rw (← e) (All-perm (Differs key a) p d.0), Distinct-perm p d.1)
  Distinct-perm (Permᴰ.swap {a} {b} {b' = b'} {l = l} e f) d =
      subst (λ t. Distinct key (t ∷ b' ∷ l)) f
        (subst (λ t. Distinct key (b ∷ t ∷ l)) e
          ((text_eq_comm (key a) (key b) d.0.0, d.1.0), (d.0.1, d.1.1)))
  Distinct-perm (Permᴰ.trans p q) d = Distinct-perm q (Distinct-perm p d)

  -- Sorting forgets the order in which the elements came, where no two share a key.
  pub sort_by-perm : {l m : List A} → Permᴰ l m → Distinct key l → sort_by key l ≡ sort_by key m
  unfolding sort_by
  sort_by-perm Permᴰ.nil d = refl
  sort_by-perm (Permᴰ.cons {a} e p) d = rw (← e) (ap (place key a) (sort_by-perm p d.1))
  sort_by-perm (Permᴰ.swap {a} {b} {l = l} e f) d =
      rw (← e) (rw (← f) (place_comm a b (sort_by key l) d.0.0))
  sort_by-perm (Permᴰ.trans p q) d = sort_by-perm p d ∙ sort_by-perm q (Distinct-perm p d)

  place-IsSorted :
      (x : A) (l : List A) → All (Differs key x) l → IsSorted key l → IsSorted key (place key x l)
  unfolding place
  place-IsSorted x [] d s = (tt, tt)
  place-IsSorted x (y ∷ l) d s = elim (Bool-cases (text_lt (key y) (key x))) [
    | inl e ↦
        rw e (All-place (λ z. text_lt (key y) (key z) ≡ true) x l e s.0, place-IsSorted x l d.1 s.1)
    | inr e ↦
        let first : text_lt (key x) (key y) ≡ true =
          ground (arith, text_lt_total (key x) (key y) d.0) in
        rw e ((first, below x y l first s.0), s)
  ]
    where
      below :
          (x y : A) (l : List A)
          → text_lt (key x) (key y) ≡ true
          → All (λ z. text_lt (key y) (key z) ≡ true) l
          → All (λ z. text_lt (key x) (key z) ≡ true) l
      below x y [] h a = tt
      below x y (z ∷ l) h a = (text_lt_trans (key x) (key y) (key z) h a.0, below x y l h a.1)

  pub sort_by-IsSorted : (l : List A) → Distinct key l → IsSorted key (sort_by key l)
  unfolding sort_by
  sort_by-IsSorted [] d = tt
  sort_by-IsSorted (x ∷ l) d =
      place-IsSorted x (sort_by key l) (All-sort_by (Differs key x) l d.0) (sort_by-IsSorted l d.1)

  module _ (test : A → Bool) where
    any-place : (x : A) (l : List A) → any test (place key x l) ≡ (test x || any test l)
    unfolding place
    any-place x [] = refl
    any-place x (y ∷ l) = ground (arith, any-place x l)

    pub any-sort_by : (l : List A) → any test (sort_by key l) ≡ any test l
    unfolding sort_by
    any-sort_by [] = refl
    any-sort_by (x ∷ l) = ground (arith, any-place x (sort_by key l), any-sort_by l)

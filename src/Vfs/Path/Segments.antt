-- ===== src/Vfs/Path/Segments.antt =====
-- What an accepted path looks like once it is cut at its slashes.
use aikido.Prelude.{
  ℕ, ◌≤◌, Bool, false, ◌||◌, none, List, [], ◌∷◌, ◌≡◌, ◌≢◌, ◌↔◌, refl, arith, Bytes, length,
  is_empty, any, All, ◌==◌, has_byte, contains, split, onto_first, if◌then◌else◌,
}
use aikido.Vfs.Path.{first_is, last_is, is_parent, validate_path, max_path_bytes, slash}

abbrev tail : List Bytes → List Bytes
tail [] = []
tail (w ∷ ws) = ws

abbrev head_of : List Bytes → Bytes
head_of [] = []
head_of (w ∷ ws) = w

onto_first-tail : (c : ℕ) (ws : List Bytes) → tail (onto_first c ws) ≡ tail ws
onto_first-tail c [] = refl
onto_first-tail c (w ∷ ws) = refl

any-onto_first : (c : ℕ) (ws : List Bytes) → any is_empty (onto_first c ws) ≡ any is_empty (tail ws)
any-onto_first c [] = refl
any-onto_first c (w ∷ ws) = refl

split-head_of : (b : ℕ) (s : Bytes) → is_empty (head_of (split b s)) ≡ (is_empty s || first_is b s)
unfolding split first_is
split-head_of b [] = refl
split-head_of b (c ∷ s) =
    elim (split b s)
      as (λ ws. is_empty (head_of (if c == b then [] ∷ ws else onto_first c ws)) ≡ (c == b)) [
        | [] ↦ ground arith
        | w ∷ ws ↦ ground arith
      ]

any_parts :
    (ws : List Bytes)
    → ws ≢ []
    → any is_empty ws ≡ (is_empty (head_of ws) || any is_empty (tail ws))
any_parts [] h = absurd (h refl)
any_parts (w ∷ ws) h = refl

split-ne-nil : (b : ℕ) (s : Bytes) → split b s ≢ []
unfolding split
split-ne-nil b [] = cc
split-ne-nil b (c ∷ s) =
    elim (split b s) as (λ ws. (if c == b then [] ∷ ws else onto_first c ws) ≢ []) [
      | [] ↦ ground arith
      | w ∷ ws ↦ ground arith
    ]

any-split_parts :
    (b : ℕ) (s : Bytes)
    → any is_empty (split b s) ≡ ((is_empty s || first_is b s) || any is_empty (tail (split b s)))
any-split_parts b s = cc (any_parts (split b s) (split-ne-nil b s), split-head_of b s)

-- A part after the first is empty where the text ends in the separator or holds it twice in a row.
tail-split :
    (b : ℕ) (s : Bytes) → any is_empty (tail (split b s)) ≡ (last_is b s || contains (b ∷ b ∷ []) s)
unfolding split last_is contains first_is
tail-split b [] = refl
tail-split b (c ∷ []) = ground arith
tail-split b (c ∷ d ∷ s) =
    ground
      (arith, tail-split b (d ∷ s), any-split_parts b (d ∷ s), onto_first-tail c (split b (d ∷ s)))

any-split :
    (b : ℕ) (s : Bytes)
    → any is_empty (split b s)
      ≡ ((is_empty s || first_is b s) || (last_is b s || contains (b ∷ b ∷ []) s))
any-split b s = rw any-split_parts (rw tail-split)

module _ {ℓ} {A : Type ℓ} (test : A → Bool) where
  All-of-any : (xs : List A) → any test xs ≡ false → All (λ x. test x ≡ false) xs
  All-of-any [] h = tt
  All-of-any (x ∷ xs) h = (ground arith, All-of-any xs (ground arith))

  any-of-All : (xs : List A) → All (λ x. test x ≡ false) xs → any test xs ≡ false
  any-of-All [] h = refl
  any-of-All (x ∷ xs) (hx, h) = ground (arith, any-of-All xs h)

has_byte-any : (b : ℕ) (s : Bytes) → has_byte b s ≡ any (λ c. c == b) s
unfolding has_byte
has_byte-any b [] = refl
has_byte-any b (c ∷ s) = ground (arith, has_byte-any b s)

-- No byte is NUL, at most 512 bytes, and every part between slashes has a name other than "..".
pub record IsRelative (path : Bytes) : Type 0 where
  pub short : length path ≤ max_path_bytes
  pub no_null : All (λ c. (c == 0) ≡ false) path
  pub named : All (λ seg. is_empty seg ≡ false) (split slash path)
  pub inside : All (λ seg. is_parent seg ≡ false) (split slash path)

validate-IsRelative : (path : Bytes) → validate_path path ≡ none → IsRelative path
unfolding validate_path
validate-IsRelative path h = record {
  short = ground arith;
  no_null = All-of-any (λ c. c == 0) path (ground (arith, has_byte-any 0 path));
  named = All-of-any is_empty (split slash path) (ground (arith, any-split slash path));
  inside = All-of-any is_parent (split slash path) (ground arith);
}

IsRelative-validate : (path : Bytes) → IsRelative path → validate_path path ≡ none
unfolding validate_path
IsRelative-validate path r = ground (
  arith,
  has_byte-any 0 path,
  any-of-All (λ c. c == 0) path r.no_null,
  any-split slash path,
  any-of-All is_empty (split slash path) r.named,
  any-of-All is_parent (split slash path) r.inside,
)

-- `ValidatePath` accepts a path exactly when it has at most 512 bytes, none of them NUL, and is a
-- non-empty sequence of parts between slashes of which none is empty and none is "..".
pub validate_path_iff : (path : Bytes) → (validate_path path ≡ none) ↔ IsRelative path
validate_path_iff path = (validate-IsRelative path, IsRelative-validate path)

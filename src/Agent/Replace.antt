-- ===== src/Agent/Replace.antt =====
-- `strings.Count` and `strings.ReplaceAll` as `edit_file` uses them, with a text to find that is not
-- empty. The first argument is how many bytes of a match are still to be passed over.
pub mod Parts
use aikido.Prelude.{
  ℕ, zero, suc, ◌+◌, ◌-◌, ◌*◌, ◌≤◌, Bool, true, false, ◌&&◌, List, [], ◌∷◌, ◌++◌, append_assoc, ◌≡◌,
  ◌≢◌, refl, ap, ◌∙◌, sym, arith, Bytes, codes, length, length-append, drop, has_prefix, onto_first,
  if◌then◌else◌, ◌==◌, ==_iff, Bool-cases, inl, inr,
}

unfoldable pub count_from : ℕ → Bytes → Bytes → ℕ
unfolding has_prefix
count_from skip old [] = 0
count_from (suc k) old (c ∷ s) = count_from k old s
count_from zero old (c ∷ s) =
    let hit = has_prefix old (c ∷ s) in
    (if hit then 1 else 0) + count_from (if hit then length old - 1 else 0) old s

unfoldable pub replace_from : ℕ → Bytes → Bytes → Bytes → Bytes
unfolding has_prefix
replace_from skip old new [] = []
replace_from (suc k) old new (c ∷ s) = replace_from k old new s
replace_from zero old new (c ∷ s) =
    let hit = has_prefix old (c ∷ s) in
    (if hit then new else c ∷ []) ++ replace_from (if hit then length old - 1 else 0) old new s

-- `strings.Count s old`
unfoldable pub count : Bytes → Bytes → ℕ
unfolding count_from
count s old = count_from 0 old s

-- `strings.ReplaceAll s old new`
unfoldable pub replace_all : Bytes → Bytes → Bytes → Bytes
unfolding replace_from
replace_all s old new = replace_from 0 old new s

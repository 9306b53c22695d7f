-- ===== src/Agent/Lines.antt =====
-- `splitLines` of agent/tools_builtin.go.
use aikido.Prelude.{
  ℕ, true, false, List, [], ◌∷◌, ◌++◌, ◌≡◌, refl, ap, ◌∙◌, arith, Bytes, concat, is_empty, All,
  split_after, onto_first, ◌==◌, if◌then◌else◌, ◌⊎◌, inl, inr, Bool-cases,
}

-- `if lines[len(lines)-1] == "" { lines = lines[:len(lines)-1] }`
unfoldable pub trim_last : List Bytes → List Bytes
trim_last [] = []
trim_last (w ∷ []) = if is_empty w then [] else w ∷ []
trim_last (w ∷ v ∷ ws) = w ∷ trim_last (v ∷ ws)

abbrev pub newline : ℕ
newline = b'\n'

unfoldable pub split_lines : Bytes → List Bytes
unfolding trim_last split_after
split_lines s = trim_last (split_after newline s)

-- The text of a line before its newline, if it ends in one.
pub data IsLine : Bytes → Type 0 where
  ended : IsLine (newline ∷ [])
  last : {c : ℕ} → (c == newline) ≡ false → IsLine (c ∷ [])
  more : {c : ℕ} {s : Bytes} → (c == newline) ≡ false → IsLine s → IsLine (c ∷ s)

concat-onto_first : (c : ℕ) (ws : List Bytes) → concat (onto_first c ws) ≡ c ∷ concat ws
concat-onto_first c [] = refl
concat-onto_first c (w ∷ ws) = refl

concat-split_after : (b : ℕ) (s : Bytes) → concat (split_after b s) ≡ s
unfolding split_after
concat-split_after b [] = refl
concat-split_after b (c ∷ s) =
    ground (arith, concat-split_after b s, concat-onto_first c (split_after b s))

concat-trim_last : (ws : List Bytes) → concat (trim_last ws) ≡ concat ws
unfolding trim_last
concat-trim_last [] = refl
concat-trim_last ([] ∷ []) = refl
concat-trim_last ((c ∷ w) ∷ []) = refl
concat-trim_last (w ∷ v ∷ ws) = ap (λ (r : Bytes). w ++ r) (concat-trim_last (v ∷ ws))

-- every part but the last is a line, and the last is a line or empty
abbrev AreLines : List Bytes → Type 0
AreLines [] = ⊥
AreLines (w ∷ []) = IsLine w ⊎ (w ≡ [])
AreLines (w ∷ v ∷ ws) = IsLine w × AreLines (v ∷ ws)

onto_first-AreLines :
    (c : ℕ) (ws : List Bytes) → (c == newline) ≡ false → AreLines ws → AreLines (onto_first c ws)
onto_first-AreLines c [] h a = absurd a
onto_first-AreLines c (w ∷ []) h (inl l) = inl (more h l)
onto_first-AreLines c (w ∷ []) h (inr e) = rw e (inl (last h))
onto_first-AreLines c (w ∷ v ∷ ws) h a = (more h a.0, a.1)

ended_at : (c : ℕ) → (c == newline) ≡ true → IsLine (c ∷ [])
ended_at c h = let e : c ≡ newline = ground arith in rw e ended

AreLines-cons : (w : Bytes) (ws : List Bytes) → IsLine w → AreLines ws → AreLines (w ∷ ws)
AreLines-cons w [] l a = absurd a
AreLines-cons w (v ∷ ws) l a = (l, a)

split_after-AreLines : (s : Bytes) → AreLines (split_after newline s)
unfolding split_after
split_after-AreLines [] = inr refl
split_after-AreLines (c ∷ s) = elim (Bool-cases (c == newline)) [
  | inl h ↦
      rw h (AreLines-cons (c ∷ []) (split_after newline s) (ended_at c h) (split_after-AreLines s))
  | inr h ↦ rw h (onto_first-AreLines c (split_after newline s) h (split_after-AreLines s))
]

trim_last-All : (ws : List Bytes) → AreLines ws → All IsLine (trim_last ws)
unfolding trim_last
trim_last-All [] a = tt
trim_last-All ([] ∷ []) a = tt
trim_last-All ((c ∷ w) ∷ []) (inl l) = (l, tt)
trim_last-All ((c ∷ w) ∷ []) (inr e) = cc
trim_last-All (w ∷ v ∷ ws) a = (a.0, trim_last-All (v ∷ ws) a.1)

-- Joining the lines of a text gives the text back, and every line is non-empty and has a newline
-- at its end or nowhere.
pub split_lines_lem : (s : Bytes) → (concat (split_lines s) ≡ s) × All IsLine (split_lines s)
unfolding split_lines
split_lines_lem s = (
  concat-trim_last (split_after newline s) ∙ concat-split_after newline s,
  trim_last-All (split_after newline s) (split_after-AreLines s),
)

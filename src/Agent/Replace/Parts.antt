-- ===== src/Agent/Replace/Parts.antt =====
-- A text as the parts between the matches of another: what `Count` counts and `ReplaceAll` replaces.
use aikido.Prelude.{
  ℕ, zero, suc, ◌+◌, ◌-◌, ◌*◌, true, false, List, [], ◌∷◌, ◌++◌, append-nil, ◌≡◌, ◌≢◌, refl, ap,
  ◌∙◌, sym, arith, Bytes, length, length-append, drop, has_prefix, contains, onto_first,
  if◌then◌else◌, Bool-cases, inl, inr, All, concat,
}
use aikido.Agent.Replace.{count_from, replace_from, count, replace_all}

-- The parts of the text between the matches.
parts_from : ℕ → Bytes → Bytes → List Bytes
parts_from skip old [] = [] ∷ []
parts_from (suc k) old (c ∷ s) = parts_from k old s
parts_from zero old (c ∷ s) =
    let rest = parts_from (if has_prefix old (c ∷ s) then length old - 1 else 0) old s in
    if has_prefix old (c ∷ s) then [] ∷ rest else onto_first c rest

-- The parts with `sep` between them.
unfoldable pub join : Bytes → List Bytes → Bytes
join sep [] = []
join sep (p ∷ []) = p
join sep (p ∷ q ∷ ps) = p ++ (sep ++ join sep (q ∷ ps))

join-onto_first :
    (sep : Bytes) (c : ℕ) (ps : List Bytes) → ps ≢ [] → join sep (onto_first c ps) ≡ c ∷ join sep ps
unfolding join
join-onto_first sep c [] h = absurd (h refl)
join-onto_first sep c (p ∷ []) h = refl
join-onto_first sep c (p ∷ q ∷ ps) h = refl

join-cons_nil : (sep : Bytes) (ps : List Bytes) → ps ≢ [] → join sep ([] ∷ ps) ≡ sep ++ join sep ps
unfolding join
join-cons_nil sep [] h = absurd (h refl)
join-cons_nil sep (p ∷ ps) h = refl

length-onto_first : (c : ℕ) (ps : List Bytes) → ps ≢ [] → length (onto_first c ps) ≡ length ps
length-onto_first c [] h = absurd (h refl)
length-onto_first c (p ∷ ps) h = refl

-- a text with a prefix is the prefix and what follows it
prefix-drop : (p s : Bytes) → has_prefix p s ≡ true → s ≡ p ++ drop (length p) s
unfolding has_prefix
prefix-drop [] s h = refl
prefix-drop (p ∷ ps) [] h = cc
prefix-drop (p ∷ ps) (c ∷ s) h = ground (arith, prefix-drop ps s)

has_prefix-append : (p w r : Bytes) → has_prefix p w ≡ true → has_prefix p (w ++ r) ≡ true
unfolding has_prefix
has_prefix-append [] w r h = refl
has_prefix-append (p ∷ ps) [] r h = cc
has_prefix-append (p ∷ ps) (c ∷ w) r h = ground (arith, has_prefix-append ps w r)

onto_first-ne-nil : (c : ℕ) (ps : List Bytes) → onto_first c ps ≢ []
onto_first-ne-nil c [] = cc
onto_first-ne-nil c (p ∷ ps) = cc

-- The text to find is `o ∷ os`, which is not empty.
module _ (o : ℕ) (os : Bytes) where
  abbrev old : Bytes
  old = o ∷ os

  parts-ne-nil : (k : ℕ) (s : Bytes) → parts_from k old s ≢ []
  unfolding parts_from
  parts-ne-nil k [] = cc
  parts-ne-nil (suc k) (c ∷ s) = parts-ne-nil k s
  parts-ne-nil zero (c ∷ s) = elim (Bool-cases (has_prefix old (c ∷ s))) [
    | inl h ↦ rw h (cc)
    | inr h ↦ rw h (onto_first-ne-nil c (parts_from 0 old s))
  ]

  length-parts : (k : ℕ) (s : Bytes) → length (parts_from k old s) ≡ suc (count_from k old s)
  unfolding parts_from count_from
  length-parts k [] = refl
  length-parts (suc k) (c ∷ s) = length-parts k s
  length-parts zero (c ∷ s) = elim (Bool-cases (has_prefix old (c ∷ s))) [
    | inl h ↦ rw h (omega (arith, length-parts (length old - 1) s))
    | inr h ↦ rw h (
        omega
          (arith, length-parts 0 s, length-onto_first c (parts_from 0 old s) (parts-ne-nil 0 s)))
  ]

  join-parts_new :
      (new : Bytes) (k : ℕ) (s : Bytes) → join new (parts_from k old s) ≡ replace_from k old new s
  unfolding parts_from replace_from
  join-parts_new new k [] = unfold join in refl
  join-parts_new new (suc k) (c ∷ s) = join-parts_new new k s
  join-parts_new new zero (c ∷ s) = elim (Bool-cases (has_prefix old (c ∷ s))) [
    | inl h ↦ rw h (
        join-cons_nil new (parts_from (length old - 1) old s) (parts-ne-nil (length old - 1) s)
        ∙ ap (λ (r : Bytes). new ++ r) (join-parts_new new (length old - 1) s))
    | inr h ↦ rw h (
        join-onto_first new c (parts_from 0 old s) (parts-ne-nil 0 s)
        ∙ ap (◌∷◌ c) (join-parts_new new 0 s))
  ]

  join-parts_old : (k : ℕ) (s : Bytes) → join old (parts_from k old s) ≡ drop k s
  unfolding parts_from
  join-parts_old zero [] = unfold join in refl
  join-parts_old (suc k) [] = unfold join in refl
  join-parts_old (suc k) (c ∷ s) = join-parts_old k s
  join-parts_old zero (c ∷ s) = elim (Bool-cases (has_prefix old (c ∷ s))) [
    | inl h ↦ rw h (
        join-cons_nil old (parts_from (length old - 1) old s) (parts-ne-nil (length old - 1) s)
        ∙ ap (λ (r : Bytes). old ++ r) (join-parts_old (length old - 1) s)
        ∙ found c s h)
    | inr h ↦ rw h (
        join-onto_first old c (parts_from 0 old s) (parts-ne-nil 0 s)
        ∙ ap (◌∷◌ c) (join-parts_old 0 s))
  ]
    where
      found :
          (c : ℕ) (s : Bytes)
          → has_prefix old (c ∷ s) ≡ true
          → old ++ drop (length old - 1) s ≡ c ∷ s
      found c s h =
          let e : length old - 1 ≡ length os = omega arith in rw e (sym (prefix-drop old (c ∷ s) h))

  -- no part holds the text to find
  abbrev Free : List Bytes → Type 0
  Free = All (λ (p : Bytes). contains old p ≡ false)

  onto_first-Free :
      (c : ℕ) (s : Bytes) (ps : List Bytes)
      → ps ≢ []
      → has_prefix old (c ∷ s) ≡ false
      → join old ps ≡ s
      → Free ps
      → Free (onto_first c ps)
  unfolding contains
  onto_first-Free c s [] ne h e f = absurd (ne refl)
  onto_first-Free c s (p ∷ ps) ne h e f = (first, f.1)
    where
      rest : (p : Bytes) (ps : List Bytes) → (r : Bytes) × (join old (p ∷ ps) ≡ p ++ r)
      rest p [] = ([], unfold join in sym (append-nil p))
      rest p (q ∷ ps) = (old ++ join old (q ∷ ps), unfold join in refl)

      no_start : has_prefix old (c ∷ p) ≡ false
      no_start = elim (Bool-cases (has_prefix old (c ∷ p))) [
        | inl k ↦
            let (r, g) = rest p ps in
            absurd (ground (arith, h, has_prefix-append old (c ∷ p) r k, ap (◌∷◌ c) (sym g ∙ e)))
        | inr k ↦ k
      ]

      first : contains old (c ∷ p) ≡ false
      first = ground (arith, no_start, f.0)

  parts-Free : (k : ℕ) (s : Bytes) → Free (parts_from k old s)
  unfolding parts_from
  parts-Free zero [] = (unfold contains has_prefix in refl, tt)
  parts-Free (suc k) [] = (unfold contains has_prefix in refl, tt)
  parts-Free (suc k) (c ∷ s) = parts-Free k s
  parts-Free zero (c ∷ s) = elim (Bool-cases (has_prefix old (c ∷ s))) [
    | inl h ↦ rw h (unfold contains has_prefix in refl, parts-Free (length old - 1) s)
    | inr h ↦ rw h (
        onto_first-Free c s (parts_from 0 old s) (parts-ne-nil 0 s) h (join-parts_old 0 s)
          (parts-Free 0 s))
  ]

  -- A text is cut into parts that do not hold the text to find: with that text between them they
  -- are the whole, `Count` is one less than their number, and `ReplaceAll` is the same parts with
  -- the replacement between them.
  pub replace_all_parts :
      (s new : Bytes)
      → (ps : List Bytes) × (join old ps ≡ s)
        × (length ps ≡ suc (count s old))
        × (replace_all s old new ≡ join new ps)
        × Free ps
  unfolding count replace_all
  replace_all_parts s new = (
    parts_from 0 old s,
    join-parts_old 0 s,
    length-parts 0 s,
    sym (join-parts_new new 0 s),
    parts-Free 0 s,
  )

length-join :
    (sep : Bytes) (p : Bytes) (ps : List Bytes)
    → length (join sep (p ∷ ps)) ≡ length (concat (p ∷ ps)) + length ps * length sep
unfolding join
length-join sep p [] = omega (arith, length-append p [])
length-join sep p (q ∷ ps) = omega (
  arith,
  length-append p (sep ++ join sep (q ∷ ps)),
  length-append sep (join sep (q ∷ ps)),
  length-append p (concat (q ∷ ps)),
  length-join sep q ps,
)

-- The size of the result: every match is exchanged for one copy of the replacement.
pub length-replace_all :
    (s old new : Bytes)
    → old ≢ []
    → length (replace_all s old new) + count s old * length old
      ≡ length s + count s old * length new
length-replace_all s [] new h = absurd (h refl)
length-replace_all s (o ∷ os) new h = sized (replace_all_parts o os s new)
  where
    sized :
        (ps : List Bytes) × (join (o ∷ os) ps ≡ s)
          × (length ps ≡ suc (count s (o ∷ os)))
          × (replace_all s (o ∷ os) new ≡ join new ps)
          × All (λ (p : Bytes). contains (o ∷ os) p ≡ false) ps
        → length (replace_all s (o ∷ os) new) + count s (o ∷ os) * length (o ∷ os)
          ≡ length s + count s (o ∷ os) * length new
    sized ([], e, l, r, f) = absurd (omega arith)
    sized (p ∷ ps, e, l, r, f) =
        let n : length ps ≡ count s (o ∷ os) = omega arith in
        omega (
          arith,
          length-join new p ps,
          length-join (o ∷ os) p ps,
          ap (λ (t : Bytes). length t) e,
          ap (λ (t : Bytes). length t) r,
          ap (λ (t : ℕ). t * length new) n,
          ap (λ (t : ℕ). t * length (o ∷ os)) n,
        )

-- ===== src/Openrouter/Assembler/Order.antt =====
-- The assembled calls are those of the fragments, one for each index, in ascending order.
use aikido.Prelude.{
  Bool, true, false, Option, none, some, List, [], ◌∷◌, ◌++◌, ◌≡◌, refl, sym, ap, ◌∙◌, arith, map,
  Bytes, if◌then◌else◌, All, Bool-cases, inl, inr, append_assoc, append-nil, concat,
}
use aikido.Prelude.Int.{ℤ, pos, negsuc}
use aikido.Openrouter.Wire.{ToolCallFragment}
use aikido.Openrouter.Assembler.{
  PartialToolCall, Parts, int_eq, int_less, new_part, keep_or, merge, feed, feed_all, put, sorted,
  finished_call, flush_parts,
}

int_eq_refl : (a : ℤ) → int_eq a a ≡ true
int_eq_refl (pos a) = ground arith
int_eq_refl (negsuc a) = ground arith

int_eq_sound : (a b : ℤ) → int_eq a b ≡ true → a ≡ b
int_eq_sound (pos a) (pos b) h = ap pos (ground arith)
int_eq_sound (negsuc a) (negsuc b) h = ap negsuc (ground arith)
int_eq_sound (pos a) (negsuc b) h = absurd (cc h)
int_eq_sound (negsuc a) (pos b) h = absurd (cc h)

int_eq_flip : (a b : ℤ) → int_eq a b ≡ false → int_eq b a ≡ false
int_eq_flip (pos a) (pos b) h = ground arith
int_eq_flip (negsuc a) (negsuc b) h = ground arith
int_eq_flip (pos a) (negsuc b) h = refl
int_eq_flip (negsuc a) (pos b) h = refl

int_total : (a b : ℤ) → int_less a b ≡ false → int_eq a b ≡ false → int_less b a ≡ true
int_total (pos a) (pos b) h k = ground arith
int_total (negsuc a) (negsuc b) h k = ground arith
int_total (pos a) (negsuc b) h k = refl
int_total (negsuc a) (pos b) h k = absurd (cc h)

int_trans : (a b c : ℤ) → int_less a b ≡ true → int_less b c ≡ true → int_less a c ≡ true
int_trans (pos a) (pos b) (pos c) h k = ground arith
int_trans (negsuc a) (negsuc b) (negsuc c) h k = ground arith
int_trans (negsuc a) (negsuc b) (pos c) h k = refl
int_trans (negsuc a) (pos b) (pos c) h k = refl
int_trans (pos a) (negsuc b) c h k = absurd (cc h)
int_trans (pos a) (pos b) (negsuc c) h k = absurd (cc k)
int_trans (negsuc a) (pos b) (negsuc c) h k = absurd (cc k)

-- the entry of an index
unfoldable pub part_of : ℤ → Parts → Option PartialToolCall
part_of i [] = none
part_of i ((j, p) ∷ parts) = if int_eq j i then some p else part_of i parts

-- the fragments of an index, in order
abbrev pub of_index : ℤ → List ToolCallFragment → List ToolCallFragment
of_index i [] = []
of_index i (frag ∷ frags) =
    let rest = of_index i frags in if int_eq frag.index i then frag ∷ rest else rest

-- the first text that is not empty, or the empty one
abbrev pub first_given : List Bytes → Bytes
first_given [] = []
first_given (t ∷ ts) = keep_or t (first_given ts)

-- the entry that fragments of one index ask for: none without a fragment
abbrev pub assembled : List ToolCallFragment → Option PartialToolCall
assembled [] = none
assembled (frag ∷ frags) = some (record {
  id = first_given (map (λ (g : ToolCallFragment). g.id) (frag ∷ frags));
  name = first_given (map (λ (g : ToolCallFragment). g.name) (frag ∷ frags));
  args = concat (map (λ (g : ToolCallFragment). g.arguments) (frag ∷ frags));
})

abbrev merge_all : PartialToolCall → List ToolCallFragment → PartialToolCall
merge_all p [] = p
merge_all p (frag ∷ frags) = merge_all (merge frag p) frags

abbrev merge_onto : Option PartialToolCall → List ToolCallFragment → Option PartialToolCall
merge_onto p [] = p
merge_onto none (frag ∷ frags) = some (merge_all (merge frag new_part) frags)
merge_onto (some p) (frag ∷ frags) = some (merge_all (merge frag p) frags)

keep_or_assoc : (a b c : Bytes) → keep_or (keep_or a b) c ≡ keep_or a (keep_or b c)
keep_or_assoc [] b c = refl
keep_or_assoc (x ∷ a) b c = refl

keep_or-nil : (a : Bytes) → keep_or a [] ≡ a
keep_or-nil [] = refl
keep_or-nil (x ∷ a) = refl

merge_all_lem :
    (p : PartialToolCall) (frags : List ToolCallFragment)
    → merge_all p frags ≡ record {
      id = keep_or p.id (first_given (map (λ (g : ToolCallFragment). g.id) frags));
      name = keep_or p.name (first_given (map (λ (g : ToolCallFragment). g.name) frags));
      args = p.args ++ concat (map (λ (g : ToolCallFragment). g.arguments) frags);
    }
merge_all_lem p [] = cc (keep_or-nil p.id, keep_or-nil p.name, append-nil p.args)
merge_all_lem p (frag ∷ frags) =
    merge_all_lem (merge frag p) frags
    ∙ cc (
      keep_or_assoc p.id frag.id (first_given (map (λ (g : ToolCallFragment). g.id) frags)),
      keep_or_assoc p.name frag.name (first_given (map (λ (g : ToolCallFragment). g.name) frags)),
      append_assoc p.args frag.arguments
          (concat (map (λ (g : ToolCallFragment). g.arguments) frags)),
    )

merge_onto-none : (frags : List ToolCallFragment) → merge_onto none frags ≡ assembled frags
merge_onto-none [] = refl
merge_onto-none (frag ∷ frags) = ap some (merge_all_lem (merge frag new_part) frags)

other : (j i k : ℤ) → int_eq j k ≡ false → int_eq j i ≡ true → int_eq k i ≡ false
other j i k h e = elim (Bool-cases (int_eq k i)) [
  | inl q ↦ absurd (cc (e, int_eq_sound k i q, h))
  | inr q ↦ q
]

part_of-feed :
    (i : ℤ) (frag : ToolCallFragment) (parts : Parts)
    → part_of i (feed frag parts)
      ≡ (if int_eq frag.index i then merge_onto (part_of i parts) (frag ∷ []) else part_of i parts)
unfolding feed part_of
part_of-feed i frag [] = ground arith
part_of-feed i frag ((j, p) ∷ parts) = elim (Bool-cases (int_eq j frag.index)) [
  | inl h ↦
      let e : j ≡ frag.index = int_eq_sound j frag.index h in
      rw h (elim (Bool-cases (int_eq j i)) [
        | inl k ↦
            let k' : int_eq frag.index i ≡ true = ap (λ (x : ℤ). int_eq x i) (sym e) ∙ k in
            rw k (rw k' refl)
        | inr k ↦
            let k' : int_eq frag.index i ≡ false = ap (λ (x : ℤ). int_eq x i) (sym e) ∙ k in
            rw k (rw k' refl)
      ])
  | inr h ↦ rw h (elim (Bool-cases (int_eq j i)) [
    | inl k ↦ let k' : int_eq frag.index i ≡ false = other j i frag.index h k in rw k (rw k' refl)
    | inr k ↦ rw k (part_of-feed i frag parts)
  ])
]

merge_onto-cons :
    (p : Option PartialToolCall) (frag : ToolCallFragment) (frags : List ToolCallFragment)
    → merge_onto (merge_onto p (frag ∷ [])) frags ≡ merge_onto p (frag ∷ frags)
merge_onto-cons none frag [] = refl
merge_onto-cons none frag (g ∷ frags) = refl
merge_onto-cons (some p) frag [] = refl
merge_onto-cons (some p) frag (g ∷ frags) = refl

part_of-feed_all :
    (i : ℤ) (frags : List ToolCallFragment) (parts : Parts)
    → part_of i (feed_all frags parts) ≡ merge_onto (part_of i parts) (of_index i frags)
unfolding feed_all
part_of-feed_all i [] parts = refl
part_of-feed_all i (frag ∷ frags) parts = elim (Bool-cases (int_eq frag.index i)) [
  | inl h ↦
      let fed : part_of i (feed frag parts) ≡ merge_onto (part_of i parts) (frag ∷ []) =
        part_of-feed i frag parts
        ∙ ap (λ (b : Bool). if b then merge_onto (part_of i parts) (frag ∷ []) else part_of i parts)
            h in
      rw h (
        part_of-feed_all i frags (feed frag parts)
        ∙ ap (λ (p : Option PartialToolCall). merge_onto p (of_index i frags)) fed
        ∙ merge_onto-cons (part_of i parts) frag (of_index i frags))
  | inr h ↦
      let fed : part_of i (feed frag parts) ≡ part_of i parts =
        part_of-feed i frag parts
        ∙ ap (λ (b : Bool). if b then merge_onto (part_of i parts) (frag ∷ []) else part_of i parts)
            h in
      rw h (
        part_of-feed_all i frags (feed frag parts)
        ∙ ap (λ (p : Option PartialToolCall). merge_onto p (of_index i frags)) fed)
]

abbrev Above : ℤ → Parts → Type 0
Above i = All (λ (x : ℤ × PartialToolCall). int_less i x.0 ≡ true)

-- strictly ascending by index
abbrev pub IsAscending : Parts → Type 0
IsAscending [] = Unit
IsAscending ((i, p) ∷ parts) =
    All (λ (x : ℤ × PartialToolCall). int_less i x.0 ≡ true) parts × IsAscending parts

-- each index once
abbrev Once : Parts → Type 0
Once [] = Unit
Once ((i, p) ∷ parts) = (part_of i parts ≡ none) × Once parts

feed-Once : (frag : ToolCallFragment) (parts : Parts) → Once parts → Once (feed frag parts)
unfolding feed part_of
feed-Once frag [] o = (refl, tt)
feed-Once frag ((i, p) ∷ parts) (a, o) = elim (Bool-cases (int_eq i frag.index)) [
  | inl h ↦ rw h (a, o)
  | inr h ↦
      rw h (part_of-feed i frag parts ∙ away (int_eq_flip i frag.index h), feed-Once frag parts o)
]
  where
    away :
        int_eq frag.index i ≡ false
        → (if int_eq frag.index i
            then merge_onto (part_of i parts) (frag ∷ [])
            else part_of i parts)
          ≡ none
    away k = rw k a

feed_all-Once :
    (frags : List ToolCallFragment) (parts : Parts) → Once parts → Once (feed_all frags parts)
unfolding feed_all
feed_all-Once [] parts o = o
feed_all-Once (frag ∷ frags) parts o =
    feed_all-Once frags (feed frag parts) (feed-Once frag parts o)

head_other :
    (i j : ℤ) (q : PartialToolCall) (parts : Parts)
    → part_of i ((j, q) ∷ parts) ≡ none
    → int_eq j i ≡ false
unfolding part_of
head_other i j q parts h = ground (arith, h)

tail_none :
    (i j : ℤ) (q : PartialToolCall) (parts : Parts)
    → part_of i ((j, q) ∷ parts) ≡ none
    → int_eq j i ≡ false
    → part_of i parts ≡ none
unfolding part_of
tail_none i j q parts h e = ground (arith, h, e)

part_of-put :
    (k i : ℤ) (p : PartialToolCall) (parts : Parts)
    → part_of i parts ≡ none
    → part_of k (put i p parts) ≡ (if int_eq i k then some p else part_of k parts)
unfolding put part_of
part_of-put k i p [] h = refl
part_of-put k i p ((j, q) ∷ parts) h = elim (Bool-cases (int_less j i)) [
  | inr l ↦ rw l refl
  | inl l ↦
      let e : int_eq j i ≡ false = head_other i j q parts h in
      rw l (ground (arith, part_of-put k i p parts (tail_none i j q parts h e), other j k i e))
]

put-Above :
    (k i : ℤ) (p : PartialToolCall) (parts : Parts)
    → int_less k i ≡ true
    → Above k parts
    → Above k (put i p parts)
unfolding put
put-Above k i p [] h a = (h, tt)
put-Above k i p ((j, q) ∷ parts) h (b, a) = elim (Bool-cases (int_less j i)) [
  | inl e ↦ rw e (b, put-Above k i p parts h a)
  | inr e ↦ rw e (h, (b, a))
]

Above-trans : (i j : ℤ) (parts : Parts) → int_less i j ≡ true → Above j parts → Above i parts
Above-trans i j [] h a = tt
Above-trans i j ((k, q) ∷ parts) h (b, a) = (int_trans i j k h b, Above-trans i j parts h a)

put-IsAscending :
    (i : ℤ) (p : PartialToolCall) (parts : Parts)
    → part_of i parts ≡ none
    → IsAscending parts
    → IsAscending (put i p parts)
unfolding put part_of
put-IsAscending i p [] h a = (tt, tt)
put-IsAscending i p ((j, q) ∷ parts) h (b, a) = elim (Bool-cases (int_eq j i)) [
  | inl e ↦ absurd (ground (arith, h, e))
  | inr e ↦ elim (Bool-cases (int_less j i)) [
    | inl l ↦
        rw l (put-Above j i p parts l b, put-IsAscending i p parts (tail_none i j q parts h e) a)
    | inr l ↦
        let less : int_less i j ≡ true = int_total j i l e in
        rw l ((less, Above-trans i j parts less b), (b, a))
  ]
]

sorted_lem :
    (parts : Parts)
    → Once parts
    → IsAscending (sorted parts) × ((k : ℤ) → part_of k (sorted parts) ≡ part_of k parts)
unfolding sorted part_of
sorted_lem [] o = (tt, λ k. refl)
sorted_lem ((i, p) ∷ parts) (a, o) =
    let (up, same) = sorted_lem parts o in
    let none_yet : part_of i (sorted parts) ≡ none = same i ∙ a in
    (
      put-IsAscending i p (sorted parts) none_yet up,
      λ k.
          part_of-put k i p (sorted parts) none_yet
          ∙ ap (λ (r : Option PartialToolCall). if int_eq i k then some p else r) (same k),
    )

-- The calls that the assembler gives back for a sequence of fragments come from entries in strictly
-- ascending order of their indexes, one for each index of a fragment. An entry has the first id and
-- the first name of its fragments that are not empty, and their arguments one behind the other,
-- also where the fragments of different calls are mixed. The buffer is then empty.
pub flush_parts_lem :
    (call_id : ℤ → Bytes) (frags : List ToolCallFragment)
    → (parts : Parts) × IsAscending parts
      × ((i : ℤ) → part_of i parts ≡ assembled (of_index i frags))
      × (flush_parts call_id (feed_all frags []) ≡ (map (finished_call call_id) parts, []))
unfolding flush_parts part_of
flush_parts_lem call_id frags =
    let (up, same) = sorted_lem (feed_all frags []) (feed_all-Once frags [] tt) in
    (
      sorted (feed_all frags []),
      up,
      λ i. same i ∙ part_of-feed_all i frags [] ∙ merge_onto-none (of_index i frags),
      refl,
    )

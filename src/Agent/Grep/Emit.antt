-- ===== src/Agent/Grep/Emit.antt =====
-- `grepHandler` of agent/tools_grep.go: what the loops over the hits of a file put into the output.
use mathlib.Core.Path.{subst}
use aikido.Prelude.{
  ℕ, zero, suc, ◌+◌, ◌-◌, ◌≤◌, ◌<◌, min, max, Bool, true, false, List, [], ◌∷◌, ◌++◌, map,
  append-nil, append_assoc, ◌≡◌, refl, sym, ap, ◌∙◌, arith, Bytes, length, take, ◌==◌, if_cases,
  if◌then◌else◌,
}
use aikido.Agent.Grep.{
  Scan, Next, go_on, stop, cut, then_go, grep_line, emit_lines, emit_hits, grep_max_lines,
}
use aikido.Agent.Grep.Window.{count_from, near, Climbs, windows, windows-near}

-- Emits lines by their numbers.
emit_all : (itoa : ℕ → Bytes) (path : Bytes) (lines : List Bytes) (hits js : List ℕ) → Scan → Next
emit_all itoa path lines hits [] sc = go_on sc
emit_all itoa path lines hits (j ∷ js) sc =
    let rest = emit_all itoa path lines hits js (record sc {
      out = sc.out ++ grep_line itoa path lines hits j ∷ [];
      entries = suc sc.entries;
    }) in
    if sc.entries == grep_max_lines then cut sc else rest

then_go_if :
    (b : Bool) (sc : Scan) (n : Next) (f : Scan → Next)
    → then_go (if b then cut sc else n) f ≡ (if b then cut sc else then_go n f)
then_go_if true sc n f = refl
then_go_if false sc n f = refl

then_go_same :
    (n : Next) (f g : Scan → Next) → ((sc : Scan) → f sc ≡ g sc) → then_go n f ≡ then_go n g
then_go_same (go_on sc) f g h = h sc
then_go_same (stop sc) f g h = refl

module _ (itoa : ℕ → Bytes) (path : Bytes) (lines : List Bytes) (hits : List ℕ) where
  emit_all-append :
      (js ks : List ℕ) (sc : Scan)
      → emit_all itoa path lines hits (js ++ ks) sc
        ≡ then_go
            (emit_all itoa path lines hits js sc)
            (λ sc'. emit_all itoa path lines hits ks sc')
  unfolding emit_all
  emit_all-append [] ks sc = refl
  emit_all-append (j ∷ js) ks sc =
      ap (λ rest. if sc.entries == grep_max_lines then cut sc else rest) (emit_all-append js ks _)
      ∙ sym (then_go_if (sc.entries == grep_max_lines) sc _ _)

  emit_lines-emit_all :
      (n j : ℕ) (sc : Scan)
      → emit_lines itoa path lines hits n j sc ≡ emit_all itoa path lines hits (count_from n j) sc
  unfolding emit_lines emit_all
  emit_lines-emit_all zero j sc = refl
  emit_lines-emit_all (suc n) j sc =
      ap (λ rest. if sc.entries == grep_max_lines then cut sc else rest)
        (emit_lines-emit_all n (suc j) _)

  emit_hits-emit_all :
      (context : ℕ) (is : List ℕ) (next : ℕ) (sc : Scan)
      → emit_hits itoa path lines hits context is next sc
        ≡ emit_all itoa path lines hits (windows context (length lines) is next) sc
  unfolding emit_hits emit_all windows
  emit_hits-emit_all context [] next sc = refl
  emit_hits-emit_all context (i ∷ is) next sc =
      let from = max (i - context) next in
      let to = min (i + context) (length lines - 1) in
      ap (λ n. then_go n (λ sc'. emit_hits itoa path lines hits context is (to + 1) sc'))
        (emit_lines-emit_all (to + 1 - from) from sc)
      ∙ then_go_same (emit_all itoa path lines hits (count_from (to + 1 - from) from) sc) _ _
          (λ sc'. emit_hits-emit_all context is (to + 1) sc')
      ∙ sym (
          emit_all-append (count_from (to + 1 - from) from)
            (windows context (length lines) is (to + 1)) sc)

-- what is emitted of the lines `l`: all of them, or what fits below the limit
pub data Emitted (sc : Scan) (l : List Bytes) : Next → Type 0 where
  whole :
      {sc' : Scan}
      → sc.entries + length l ≤ grep_max_lines
      → sc'.out ≡ sc.out ++ l
      → sc'.entries ≡ sc.entries + length l
      → sc'.scanned ≡ sc.scanned
      → sc'.truncated ≡ sc.truncated
      → Emitted sc l (go_on sc')
  partly :
      {sc' : Scan}
      → grep_max_lines < sc.entries + length l
      → sc'.out ≡ sc.out ++ take (grep_max_lines - sc.entries) l
      → sc'.truncated ≡ true
      → Emitted sc l (stop sc')

abbrev with_line : Bytes → Scan → Scan
with_line l sc = record sc { out = sc.out ++ l ∷ []; entries = suc sc.entries }

take-suc : (n m : ℕ) (x : Bytes) (l : List Bytes) → m ≡ suc n → take m (x ∷ l) ≡ x ∷ take n l
take-suc n zero x l h = absurd (omega arith)
take-suc n (suc m) x l h = ap (λ k. x ∷ take k l) (omega arith)

add_line :
    (sc : Scan) (x : Bytes) (l : List Bytes) (n : Next)
    → sc.entries < grep_max_lines
    → Emitted (with_line x sc) l n
    → Emitted sc (x ∷ l) n
add_line sc x l _ h (whole a b c d e) =
    whole (omega (arith, a)) (b ∙ append_assoc sc.out (x ∷ []) l) (omega (arith, c)) d e
add_line sc x l _ h (partly a b c) =
    partly (omega (arith, a))
      (b
        ∙ append_assoc sc.out (x ∷ []) _
        ∙ ap (λ t. sc.out ++ t)
            (sym (take-suc (grep_max_lines - suc sc.entries) _ x l (omega (arith, h)))))
      c

pub take-zero : (n : ℕ) (l : List Bytes) → n ≡ 0 → take n l ≡ []
take-zero zero l h = refl
take-zero (suc n) l h = absurd (omega arith)

cut_off :
    (sc : Scan) (x : Bytes) (l : List Bytes)
    → sc.entries ≡ grep_max_lines
    → Emitted sc (x ∷ l) (cut sc)
cut_off sc x l h =
    partly (omega (arith, h))
      (sym (append-nil sc.out)
        ∙ ap (λ t. sc.out ++ t) (sym (take-zero _ (x ∷ l) (omega (arith, h)))))
      refl

emit_all-Emitted :
    (itoa : ℕ → Bytes) (path : Bytes) (lines : List Bytes) (hits js : List ℕ) (sc : Scan)
    → sc.entries ≤ grep_max_lines
    → Emitted sc (map (grep_line itoa path lines hits) js) (emit_all itoa path lines hits js sc)
unfolding emit_all
emit_all-Emitted itoa path lines hits [] sc h =
    whole (omega (arith, h)) (sym (append-nil sc.out)) (omega arith) refl refl
emit_all-Emitted itoa path lines hits (j ∷ js) sc h =
    if_cases (Emitted sc (map (grep_line itoa path lines hits) (j ∷ js)))
      (sc.entries == grep_max_lines) (λ e. cut_off sc _ _ (ground arith))
      (λ e. add_line sc _ _ _ (ground arith) (
        emit_all-Emitted itoa path lines hits js (with_line (grep_line itoa path lines hits j) sc)
          (ground arith)))

-- The loops over the hits emit the lines near a hit, each once and in order, as far as they fit.
pub emit_hits-Emitted :
    (itoa : ℕ → Bytes) (path : Bytes) (lines : List Bytes) (hits : List ℕ) (context : ℕ) (sc : Scan)
    → Climbs 0 (length lines) hits
    → sc.entries ≤ grep_max_lines
    → Emitted sc
        (map (grep_line itoa path lines hits) (near context hits (count_from (length lines) 0)))
        (emit_hits itoa path lines hits context hits 0 sc)
emit_hits-Emitted itoa path lines hits context sc c h =
    subst
      (λ js.
        Emitted sc (map (grep_line itoa path lines hits) js)
          (emit_hits itoa path lines hits context hits 0 sc))
      (windows-near context (length lines) 0 0 hits c (omega arith) (omega arith)
        ∙ ap (λ n. near context hits (count_from n 0)) (omega arith))
      (subst
        (Emitted sc (map (grep_line itoa path lines hits) (windows context (length lines) hits 0)))
        (sym (emit_hits-emit_all itoa path lines hits context hits 0 sc))
        (emit_all-Emitted itoa path lines hits (windows context (length lines) hits 0) sc h))

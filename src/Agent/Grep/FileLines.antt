-- ===== src/Agent/Grep/FileLines.antt =====
-- `grepHandler` of agent/tools_grep.go: what it emits of one file in its default mode.
use mathlib.Core.Path.{subst}
use aikido.Prelude.{
  ℕ, suc, ◌+◌, ◌≤◌, false, List, [], ◌∷◌, ◌++◌, map, append-nil, ◌≡◌, refl, sym, ap, ◌∙◌, arith,
  Bytes, is_empty, length, ◌==◌, Bool-cases, inl, inr, if_cases, if◌then◌else◌,
}
use aikido.Agent.Lines.{split_lines}
use aikido.Agent.Utf8.{is_binary}
use aikido.Agent.Glob.{Regexps}
use aikido.Agent.Grep.{
  Scan, go_on, cut, content_lines, grep_line, emit_hits, grep_max_lines, hits_from, grep_hits,
  grep_content,
}
use aikido.Agent.Grep.Window.{count_from, near, Climbs, near-some, nothing_near}
use aikido.Agent.Grep.Emit.{Emitted, whole, partly, take-zero, emit_hits-Emitted}

abbrev pub total_size : List (Bytes × Bytes) → ℕ
total_size [] = 0
total_size (f ∷ fs) = length f.1 + total_size fs

module _ {R : Type 0} (re : Regexps R) (itoa : ℕ → Bytes) (context : ℕ) (r : R) where
  -- what `grep` should show of a file: its lines that are at most `context` lines away from a match,
  -- in order
  pub file_lines : Bytes × Bytes → List Bytes
  file_lines (path, content) =
      if is_binary content
      then []
      else map (grep_line itoa path (split_lines content) (hits_from re r 0 (split_lines content)))
          (near context (hits_from re r 0 (split_lines content))
            (count_from (length (split_lines content)) 0))

  abbrev pub all_lines : List (Bytes × Bytes) → List Bytes
  all_lines [] = []
  all_lines (f ∷ fs) = file_lines f ++ all_lines fs

  raised : (low high : ℕ) (is : List ℕ) → Climbs (suc low) high is → Climbs low high is
  raised low high [] c = tt
  raised low high (i ∷ is) (c, d, e) = (omega (arith, c), d, e)

  hits_from-Climbs :
      (i high : ℕ) (ls : List Bytes) → high ≡ i + length ls → Climbs i high (hits_from re r i ls)
  unfolding hits_from
  hits_from-Climbs i high [] h = tt
  hits_from-Climbs i high (l ∷ ls) h =
      if_cases (Climbs i high) (re.match_string r l)
        (λ e. (omega arith, omega (arith, h), hits_from-Climbs (suc i) high ls (omega (arith, h))))
        (λ e. raised i high _ (hits_from-Climbs (suc i) high ls (omega (arith, h))))

  length-map : (f : ℕ → Bytes) (js : List ℕ) → length (map f js) ≡ length js
  length-map f [] = refl
  length-map f (j ∷ js) = ap suc (length-map f js)

  nothing_found : (sc : Scan) → sc.entries ≤ grep_max_lines → Emitted sc [] (go_on sc)
  nothing_found sc h = whole (omega (arith, h)) (sym (append-nil sc.out)) (omega arith) refl refl

  module _ (path : Bytes) (lines : List Bytes) (sc : Scan) (h : sc.entries ≤ grep_max_lines) where
    abbrev shown : List ℕ → List Bytes
    shown hits =
        map (grep_line itoa path lines hits) (near context hits (count_from (length lines) 0))

    too_many :
        (hits : List ℕ)
        → Climbs 0 (length lines) hits
        → is_empty hits ≡ false
        → sc.entries ≡ grep_max_lines
        → Emitted sc (shown hits) (cut sc)
    too_many [] c e full = absurd (cc e)
    too_many (i ∷ is) c e full =
        partly
          (omega (
            arith,
            full,
            length-map (grep_line itoa path lines (i ∷ is))
                (near context (i ∷ is) (count_from (length lines) 0)),
            near-some context (length lines) i is c,
          ))
          (sym (append-nil sc.out)
            ∙ ap (λ t. sc.out ++ t) (sym (take-zero _ (shown (i ∷ is)) (omega (arith, full)))))
          refl

    hits-Emitted :
        (hits : List ℕ)
        → Climbs 0 (length lines) hits
        → Emitted sc (shown hits) (
            if is_empty hits
            then go_on sc
            else if sc.entries == grep_max_lines
            then cut sc
            else emit_hits itoa path lines hits context hits 0 sc)
    hits-Emitted [] c =
        subst (λ js. Emitted sc (map (grep_line itoa path lines []) js) (go_on sc))
          (sym (nothing_near context (count_from (length lines) 0))) (nothing_found sc h)
    hits-Emitted (i ∷ is) c =
        if_cases (Emitted sc (shown (i ∷ is))) (sc.entries == grep_max_lines)
          (λ e. too_many (i ∷ is) c refl (ground arith))
          (λ e. emit_hits-Emitted itoa path lines (i ∷ is) context sc c h)

  pub grep_content-Emitted :
      (path content : Bytes) (sc : Scan)
      → sc.entries ≤ grep_max_lines
      → Emitted
          (record sc { scanned = sc.scanned + length content })
          (file_lines (path, content))
          (grep_content re itoa content_lines context r path content sc)
  unfolding grep_content grep_hits file_lines
  grep_content-Emitted path content sc h = elim (Bool-cases (is_binary content)) [
    | inl e ↦ rw e (nothing_found _ h)
    | inr e ↦ rw e (
        hits-Emitted path (split_lines content) _ h (hits_from re r 0 (split_lines content))
          (hits_from-Climbs 0 _ (split_lines content) (omega arith)))
  ]

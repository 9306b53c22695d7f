-- ===== src/Agent/Grep/Outcome.antt =====
-- The result of `grepHandler` of agent/tools_grep.go in its default mode.
use mathlib.Core.Path.{subst}
use aikido.Prelude.{
  ℕ, zero, suc, ◌+◌, ◌-◌, ◌≤◌, ◌<◌, true, false, not, ◌||◌, Option, some, List, [], ◌∷◌, ◌++◌,
  append-nil, append_assoc, ◌≡◌, refl, sym, ap, ◌∙◌, arith, Bytes, length, length-append, take,
  take_all, leb, ltb, lt→ltb,
}
use aikido.Errors.{Ctx, Result, ok}
use aikido.Vfs.Storage.{FileMeta, Storage}
use aikido.Tools.Handler.{Env}
use aikido.Agent.Policy.{VfsToolOptions, visible}
use aikido.Agent.Glob.{Regexps}
use aikido.Agent.Grep.{
  Scan, new_scan, Next, content_lines, grep_max_lines, grep_scan_budget, grep_content, path_fits,
  go_on_with, grep_files, GrepArgs, case_folded, path_expr, mode_of, context_lines, grep_handler,
  grep_decoded, grep_result,
}
use aikido.Agent.Grep.Emit.{Emitted, whole, partly}
use aikido.Agent.Grep.FileLines.{file_lines, all_lines, total_size, grep_content-Emitted}

take-past :
    (n : ℕ) (xs ys : List Bytes) → length xs ≤ n → take n (xs ++ ys) ≡ xs ++ take (n - length xs) ys
take-past n [] ys h = ap (λ k. take k ys) (omega arith)
take-past zero (x ∷ xs) ys h = absurd (omega arith)
take-past (suc n) (x ∷ xs) ys h =
    ap (λ l. x ∷ l) (take-past n xs ys (omega (arith, h)) ∙ ap (λ k. xs ++ take k ys) (omega arith))

take-within : (n : ℕ) (xs ys : List Bytes) → n ≤ length xs → take n (xs ++ ys) ≡ take n xs
take-within zero xs ys h = refl
take-within (suc n) [] ys h = absurd (omega arith)
take-within (suc n) (x ∷ xs) ys h = ap (λ l. x ∷ l) (take-within n xs ys (omega (arith, h)))

module _ {R : Type 0} (re : Regexps R) (path_re : Option R) {S : Type 0} (st : Storage S)
    (opts : VfsToolOptions) (ctx : Ctx) (s : S) where
  -- the files that the policy and the glob let through, each with what the storage reads
  pub data Searched : List FileMeta → List (Bytes × Bytes) → Type 0 where
    none_left : Searched [] []
    skipped :
        {f : FileMeta} {fs : List FileMeta} {files : List (Bytes × Bytes)}
        → (not (visible opts f.path) || not (path_fits re path_re f.path)) ≡ true
        → Searched fs files
        → Searched (f ∷ fs) files
    searched :
        {f m : FileMeta} {fs : List FileMeta} {files : List (Bytes × Bytes)} {content : Bytes}
        → (not (visible opts f.path) || not (path_fits re path_re f.path)) ≡ false
        → st.read_file ctx f.path s ≡ ok (content, m)
        → Searched fs files
        → Searched (f ∷ fs) ((f.path, content) ∷ files)

module _ {R : Type 0} (re : Regexps R) (itoa : ℕ → Bytes) (context : ℕ) (r : R) (path_re : Option R)
    {S : Type 0} (st : Storage S) (decode : Bytes → Option GrepArgs) (opts : VfsToolOptions)
    (ctx : Ctx) (s : S) where
  -- the scan ends with the first 200 of the lines, and says whether there are more
  abbrev pub Shows : List Bytes → Result Scan → Type 0
  Shows l res =
      (sc : Scan) × (res ≡ ok sc)
      × (sc.out ≡ take grep_max_lines l)
      × (sc.truncated ≡ ltb grep_max_lines (length l))

  -- a scan that has not been cut
  record Open (sc : Scan) (size : ℕ) : Type 0 where
    few : sc.entries ≤ grep_max_lines
    counted : length sc.out ≡ sc.entries
    uncut : sc.truncated ≡ false
    budget : sc.scanned + size < grep_scan_budget

  abbrev has_read : Bytes → Scan → Scan
  has_read content sc = record sc { scanned = sc.scanned + length content }

  go_on-Shows :
      (sc : Scan) (content : Bytes) (l rest : List Bytes) (size : ℕ) (n : Next)
      (f : Scan → Result Scan)
      → Open sc (length content + size)
      → Emitted (has_read content sc) l n
      → ((sc' : Scan) → Open sc' size → Shows (sc'.out ++ rest) (f sc'))
      → Shows ((sc.out ++ l) ++ rest) (go_on_with n f)
  go_on-Shows sc content l rest size _ f o (whole {sc' = sc'} a b c d e) next =
      subst (λ t. Shows (t ++ rest) (f sc')) b
        (next sc' (record {
          few = omega (arith, a, c);
          counted =
              ap (λ (t : List Bytes). length t) b
              ∙ length-append sc.out l
              ∙ omega (arith, o.counted, c);
          uncut = e ∙ o.uncut;
          budget = omega (arith, d, o.budget);
        }))
  go_on-Shows sc content l rest size _ f o (partly {sc' = sc'} a b c) next =
      let long : grep_max_lines < length (sc.out ++ l) =
        omega (arith, a, o.counted, length-append sc.out l) in
      (
        sc',
        refl,
        b
            ∙ ap (λ k. sc.out ++ take (grep_max_lines - k) l) (sym o.counted)
            ∙ sym (take-past grep_max_lines sc.out l (omega (arith, o.few, o.counted)))
            ∙ sym (take-within grep_max_lines (sc.out ++ l) rest (omega (arith, long))),
        c
            ∙ sym (
                lt→ltb grep_max_lines (length ((sc.out ++ l) ++ rest))
                  (omega (arith, long, length-append (sc.out ++ l) rest))),
      )

  abbrev scan : List FileMeta → Scan → Result Scan
  scan = grep_files re itoa st decode opts content_lines context r path_re ctx s

  grep_files-Shows :
      (fs : List FileMeta) (files : List (Bytes × Bytes)) (sc : Scan)
      → Searched re path_re st opts ctx s fs files
      → Open sc (total_size files)
      → Shows (sc.out ++ all_lines re itoa context r files) (scan fs sc)
  unfolding grep_files
  grep_files-Shows _ _ sc none_left o = (
    sc,
    refl,
    sym (
        take_all grep_max_lines (sc.out ++ [])
          (omega (arith, o.few, o.counted, length-append sc.out []))
        ∙ append-nil sc.out),
    o.uncut
        ∙ sym (
            not_over (length (sc.out ++ []))
              (omega (arith, o.few, o.counted, length-append sc.out []))),
  )
    where
      not_over : (n : ℕ) → n ≤ grep_max_lines → ltb grep_max_lines n ≡ false
      not_over n h = ground arith
  grep_files-Shows _ _ sc (skipped {f} {fs} {files} h t) o =
      rw (h, grep_files) (grep_files-Shows fs files sc t o)
  grep_files-Shows _ _ sc (searched {f} {m} {fs} {files} {content} h read t) o =
      let room : leb grep_scan_budget sc.scanned ≡ false = under sc o in
      rw (h, room, read, grep_files)
        (subst
          (λ t. Shows t (
            go_on_with (grep_content re itoa content_lines context r f.path content sc)
              (λ sc'. scan fs sc')))
          (append_assoc sc.out (file_lines re itoa context r (f.path, content))
            (all_lines re itoa context r files))
          (go_on-Shows sc content (file_lines re itoa context r (f.path, content))
            (all_lines re itoa context r files) (total_size files)
            (grep_content re itoa content_lines context r f.path content sc) (λ sc'. scan fs sc') o
            (grep_content-Emitted re itoa context r f.path content sc o.few)
            (λ sc' o'. grep_files-Shows fs files sc' t o')))
    where
      under : (sc : Scan) {n : ℕ} → Open sc n → leb grep_scan_budget sc.scanned ≡ false
      under sc {n} o = ground (arith, o.budget)

  grep_files_lem :
      (fs : List FileMeta) (files : List (Bytes × Bytes))
      → Searched re path_re st opts ctx s fs files
      → total_size files < grep_scan_budget
      → Shows (all_lines re itoa context r files) (scan fs new_scan)
  grep_files_lem fs files t h =
      grep_files-Shows fs files new_scan t
        (record { few = omega arith; counted = refl; uncut = refl; budget = omega (arith, h) })

-- A `grep` in its default mode, whose expressions compile, gives the first 200 of all the lines that
-- are near a match, where the storage reads each file that the policy and the glob let through and
-- these together stay below the scan budget: file by file in the order of the listing, each line
-- once and in order, and none of a binary file. `truncated` is set exactly when there are more.
pub grep_handler_lem :
    {R S : Type 0} (re : Regexps R) (itoa : ℕ → Bytes) (st : Storage S)
    (decode : Bytes → Option GrepArgs) (opts : VfsToolOptions) (ctx : Ctx) (args : Bytes)
    (env : Env) (s : S) (v : GrepArgs) (r : R) (path_re : Option R) (fs : List FileMeta)
    (files : List (Bytes × Bytes))
    → decode args ≡ some v
    → re.compile (case_folded v) ≡ ok r
    → path_expr re v.path_glob ≡ ok path_re
    → mode_of v.output_mode ≡ some content_lines
    → st.list_files ctx s ≡ ok fs
    → Searched re path_re st opts ctx s fs files
    → total_size files < grep_scan_budget
    → (sc : Scan) × (grep_handler re itoa st decode opts ctx args env s
        ≡ (ok (grep_result content_lines sc), s))
      × (sc.out ≡ take grep_max_lines (all_lines re itoa (context_lines v.context) r files))
      × (sc.truncated
          ≡ ltb grep_max_lines (length (all_lines re itoa (context_lines v.context) r files)))
unfolding grep_handler grep_decoded
grep_handler_lem re itoa st decode opts ctx args env s v r path_re fs files d c p m l t h =
    let (sc, e, out, more) =
      grep_files_lem re itoa (context_lines v.context) r path_re st decode opts ctx s fs files t
        h in
    (sc, rw (d, c, p, m, l, e) refl, out, more)

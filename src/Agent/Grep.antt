-- ===== src/Agent/Grep.antt =====
-- `grepHandler` of agent/tools_grep.go. `decode` stands for `json.Unmarshal` into the arguments,
-- `itoa` for the decimal digits that `%d` prints.
pub mod Window
pub mod Emit
pub mod FileLines
pub mod Outcome
use aikido.Prelude.{
  ℕ, zero, suc, ◌+◌, ◌-◌, ◌*◌, ◌^◌, min, max, Bool, true, false, not, ◌&&◌, ◌||◌, Option, none,
  some, List, [], ◌∷◌, ◌++◌, Bytes, codes, is_empty, text_eq, length, take, get_elem?, any, leb,
  ltb, ◌==◌, if◌then◌else◌,
}
use aikido.Prelude.Int.{ℤ, pos, negsuc}
use aikido.Prelude.Runes.{range_from, runes, encode}
use aikido.Errors.{
  Ctx, Error, bad_args, bad_pattern, unknown_output_mode, Result, ok, err, panic, ◌>>=◌,
}
use aikido.Vfs.Storage.{FileMeta, Storage}
use aikido.Tools.Handler.{Env, flag, texts, counts, Value, Content, object, Handler}
use aikido.Agent.Policy.{VfsToolOptions, visible}
use aikido.Agent.Lines.{split_lines}
use aikido.Agent.Utf8.{is_binary}
use aikido.Agent.Glob.{Regexps, glob_to_regexp}

abbrev pub grep_max_lines : ℕ
grep_max_lines = 200

abbrev pub grep_max_line_chars : ℕ
grep_max_line_chars = 500

abbrev pub grep_max_context : ℕ
grep_max_context = 5

abbrev pub grep_scan_budget : ℕ
grep_scan_budget = 32 * 2 ^ 20

pub record GrepArgs : Type 0 where
  pub pattern : Bytes
  pub path_glob : Bytes
  pub case_insensitive : Bool
  pub context : ℤ
  pub output_mode : Bytes

pub data OutputMode : Type 0 where
  content_lines files_with_matches match_counts : OutputMode

-- "" is "content"
unfoldable pub mode_of : Bytes → Option OutputMode
mode_of m =
    if is_empty m || text_eq m (codes "content")
    then some content_lines
    else if text_eq m (codes "files_with_matches")
    then some files_with_matches
    else if text_eq m (codes "count")
    then some match_counts
    else none

-- `min(max(v.Context, 0), grepMaxContext)`
abbrev pub context_lines : ℤ → ℕ
context_lines (pos n) = min n grep_max_context
context_lines (negsuc n) = 0

-- `clip`
unfoldable pub clip : Bytes → Bytes
unfolding range_from
clip line =
    if leb (length (runes line)) grep_max_line_chars
    then line
    else encode (take grep_max_line_chars (runes line)) ++ encode (0x2026 ∷ [])

-- `strings.TrimRight(s, "\r\n")`
unfoldable pub trim_newline : Bytes → Bytes
trim_newline [] = []
trim_newline (c ∷ s) =
    let rest = trim_newline s in
    if is_empty rest && (c == b'\r' || c == b'\n') then [] else c ∷ rest

-- the variables of the scan; `scanned` stays below 2 ^ 63 with any files that fit in memory
pub record Scan : Type 0 where
  pub out : List Bytes
  pub tally : List (Bytes × ℕ)
  pub entries : ℕ
  pub scanned : ℕ
  pub truncated : Bool

abbrev pub new_scan : Scan
new_scan = record { out = []; tally = []; entries = 0; scanned = 0; truncated = false }

-- `continue`, or `break files`
pub data Next : Type 0 where
  go_on : Scan → Next
  stop : Scan → Next

abbrev pub cut : Scan → Next
cut sc = stop (record sc { truncated = true })

abbrev pub then_go : Next → (Scan → Next) → Next
then_go (go_on sc) f = f sc
then_go (stop sc) f = stop sc

module _ (itoa : ℕ → Bytes) (path : Bytes) (lines : List Bytes) (hits : List ℕ) where
  abbrev pub line_at : Option Bytes → Bytes
  line_at none = []
  line_at (some l) = l

  abbrev pub separator : ℕ → ℕ
  separator j = if any (λ i. i == j) hits then b':' else b'-'

  unfoldable pub grep_line : ℕ → Bytes
  unfolding clip trim_newline
  grep_line j =
      path
      ++ separator j ∷ itoa (suc j)
      ++ separator j ∷ clip (trim_newline (line_at (get_elem? lines j)))

  -- the inner loop: `n` lines from `j` on
  unfoldable pub emit_lines : ℕ → ℕ → Scan → Next
  unfolding grep_line
  emit_lines zero j sc = go_on sc
  emit_lines (suc n) j sc =
      let rest =
        emit_lines n (suc j)
          (record sc { out = sc.out ++ grep_line j ∷ []; entries = suc sc.entries }) in
      if sc.entries == grep_max_lines then cut sc else rest

  -- the loop over the hits that are left; `next` is the first line not yet emitted
  unfoldable pub emit_hits : ℕ → List ℕ → ℕ → Scan → Next
  unfolding emit_lines
  emit_hits context [] next sc = go_on sc
  emit_hits context (i ∷ is) next sc =
      let from = max (i - context) next in
      let to = min (i + context) (length lines - 1) in
      then_go (emit_lines (to + 1 - from) from sc) (λ sc'. emit_hits context is (to + 1) sc')

abbrev pub go_on_with : Next → (Scan → Result Scan) → Result Scan
go_on_with (go_on sc) f = f sc
go_on_with (stop sc) f = ok sc

abbrev pub or_unknown_mode : Bytes → Option OutputMode → Result OutputMode
or_unknown_mode m none = err (unknown_output_mode m)
or_unknown_mode m (some mode) = ok mode

abbrev pub case_folded : GrepArgs → Bytes
case_folded v = if v.case_insensitive then codes "(?i)" ++ v.pattern else v.pattern

abbrev pub grep_result : OutputMode → Scan → Content
grep_result files_with_matches sc =
    object ((codes "truncated", flag sc.truncated) ∷ (codes "files", texts sc.out) ∷ [])
grep_result match_counts sc =
    object ((codes "truncated", flag sc.truncated) ∷ (codes "counts", counts sc.tally) ∷ [])
grep_result content_lines sc =
    object ((codes "truncated", flag sc.truncated) ∷ (codes "matches", texts sc.out) ∷ [])

module _ {R : Type 0} (re : Regexps R) where
  -- `hits`, from the line `i` on
  unfoldable pub hits_from : R → ℕ → List Bytes → List ℕ
  hits_from r i [] = []
  hits_from r i (l ∷ ls) =
      let rest = hits_from r (suc i) ls in if re.match_string r l then i ∷ rest else rest

  abbrev pub path_fits : Option R → Bytes → Bool
  path_fits none path = true
  path_fits (some r) path = re.match_string r path

  -- an error of `regexp.Compile`
  abbrev pub or_bad_pattern : Result R → Result R
  or_bad_pattern (ok r) = ok r
  or_bad_pattern (err e) = err bad_pattern
  or_bad_pattern panic = panic

  unfoldable pub path_expr : Bytes → Result (Option R)
  unfolding glob_to_regexp
  path_expr glob = if is_empty glob then ok none else glob_to_regexp re glob >>= λ r. ok (some r)

module _ {R : Type 0} (re : Regexps R) (itoa : ℕ → Bytes) where
  unfoldable pub grep_hits : OutputMode → ℕ → Bytes → List Bytes → List ℕ → Scan → Next
  unfolding emit_hits
  grep_hits files_with_matches context path lines hits sc =
      go_on (record sc { out = sc.out ++ path ∷ []; entries = suc sc.entries })
  grep_hits match_counts context path lines hits sc =
      go_on (record sc { tally = sc.tally ++ (path, length hits) ∷ []; entries = suc sc.entries })
  grep_hits content_lines context path lines hits sc =
      emit_hits itoa path lines hits context hits 0 sc

  -- behind `ReadFile`
  unfoldable pub grep_content : OutputMode → ℕ → R → Bytes → Bytes → Scan → Next
  unfolding hits_from grep_hits
  grep_content mode context r path content sc =
      let sc' = record sc { scanned = sc.scanned + length content } in
      let lines = split_lines content in
      let hits = hits_from re r 0 lines in
      if is_binary content || is_empty hits
      then go_on sc'
      else if sc.entries == grep_max_lines
      then cut sc'
      else grep_hits mode context path lines hits sc'

  module _ {S : Type 0} (st : Storage S) (decode : Bytes → Option GrepArgs)
      (opts : VfsToolOptions) where
    -- the loop over the files
    unfoldable pub grep_files :
        OutputMode → ℕ → R → Option R → Ctx → S → List FileMeta → Scan → Result Scan
    unfolding grep_content
    grep_files mode context r path_re ctx s [] sc = ok sc
    grep_files mode context r path_re ctx s (f ∷ fs) sc =
        let skipped = not (visible opts f.path) || not (path_fits re path_re f.path) in
        let full = leb grep_scan_budget sc.scanned in
        elim skipped [
          | true ↦ grep_files mode context r path_re ctx s fs sc
          | false ↦ elim full [
            | true ↦ ok (record sc { truncated = true })
            | false ↦ st.read_file ctx f.path s >>= λ read.
                go_on_with (grep_content mode context r f.path read.0 sc)
                  (λ sc'. grep_files mode context r path_re ctx s fs sc')
          ]
        ]

    unfoldable pub grep_decoded : Ctx → Option GrepArgs → S → Result Content
    unfolding path_expr mode_of grep_files
    grep_decoded ctx none s = err (bad_args (codes "grep"))
    grep_decoded ctx (some v) s = do
      r ← or_bad_pattern re (re.compile (case_folded v))
      path_re ← path_expr re v.path_glob
      mode ← or_unknown_mode v.output_mode (mode_of v.output_mode)
      ms ← st.list_files ctx s
      sc ← grep_files mode (context_lines v.context) r path_re ctx s ms new_scan
      ok (grep_result mode sc)

    unfoldable pub grep_handler : Handler S
    unfolding grep_decoded
    grep_handler ctx args env s = (grep_decoded ctx (decode args) s, s)

-- ===== src/Agent/ReadFile.antt =====
-- `readFileHandler` of agent/tools_builtin.go, over any storage. `decode` stands for
-- `json.Unmarshal` into the handler's argument struct.
pub mod Pages
use aikido.Prelude.{
  ℕ, zero, suc, ◌+◌, ◌-◌, Bool, true, false, ◌&&◌, Option, none, some, List, [], ◌∷◌, Bytes, codes,
  length, take, drop, concat, ltb, leb, if◌then◌else◌, min,
}
use aikido.Prelude.Int.{ℤ, pos, negsuc, add_int, or_default}
use aikido.Errors.{Ctx, Error, bad_args, past_end, Result, ok, err, panic, ◌>>=◌, require}
use aikido.Vfs.Storage.{FileMeta, Storage}
use aikido.Tools.Handler.{Env, Value, text, number, flag, Content, object, Handler}
use aikido.Agent.Policy.{VfsToolOptions, validate_policy_path}
use aikido.Agent.Lines.{split_lines}

pub record ReadArgs : Type 0 where
  pub path : Bytes
  pub offset : ℤ
  pub limit : ℤ

abbrev pub default_read_limit : ℕ
default_read_limit = 2000

-- `min(start+v.Limit, len(lines))` on Go's `int`s
abbrev pub min_int : ℤ → ℕ → ℤ
min_int (pos a) b = if ltb a b then pos a else pos b
min_int (negsuc a) b = negsuc a

-- `lines[start:end]`, which panics unless 0 <= start <= end
abbrev pub slice : List Bytes → ℕ → ℤ → Result (List Bytes)
slice lines start (pos end) =
    if leb start end then ok (take (end - start) (drop start lines)) else panic
slice lines start (negsuc end) = panic

-- `end < len(lines)`
abbrev pub int_lt : ℤ → ℕ → Bool
int_lt (pos a) b = ltb a b
int_lt (negsuc a) b = true

-- one page of a text, as the handler computes it behind `ReadFile`
pub record Page : Type 0 where
  pub content : Bytes
  pub offset : ℕ
  pub total_lines : ℕ
  pub truncated : Bool

unfoldable pub read_page : Bytes → ℤ → ℤ → Bytes → Result Page
read_page path offset_arg limit_arg content =
    let offset = or_default offset_arg 1 in
    let limit = or_default limit_arg default_read_limit in
    let lines = split_lines content in
    let start = offset - 1 in
    let end = min_int (add_int start limit) (length lines) in
    if ltb 1 offset && ltb (length lines) offset
    then err (past_end offset path (length lines))
    else (slice lines start end >>= λ part. ok (record {
      content = concat part;
      offset = offset;
      total_lines = length lines;
      truncated = int_lt end (length lines);
    }))

abbrev pub page_content : Page → FileMeta → Content
page_content p m = object (
    (codes "content", text p.content)
    ∷ (codes "content_type", text m.content_type)
    ∷ (codes "size", number m.size)
    ∷ (codes "offset", number p.offset)
    ∷ (codes "total_lines", number p.total_lines)
    ∷ (codes "truncated", flag p.truncated)
    ∷ [])

module _ {S : Type 0} (st : Storage S) (decode : Bytes → Option ReadArgs)
    (opts : VfsToolOptions) where
  unfoldable pub read_checked : Ctx → Option ReadArgs → S → Result Content
  read_checked ctx none s = err (bad_args (codes "read_file"))
  read_checked ctx (some v) s = require (validate_policy_path opts v.path) (do
    (content, meta) ← st.read_file ctx v.path s
    page ← read_page v.path v.offset v.limit content
    ok (page_content page meta))

  unfoldable pub read_file_handler : Handler S
  unfolding read_checked
  read_file_handler ctx args env s = (read_checked ctx (decode args) s, s)

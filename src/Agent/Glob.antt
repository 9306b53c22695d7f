-- ===== src/Agent/Glob.antt =====
-- `globToRegexp` and `globHandler` of agent/tools_grep.go. Package `regexp` is the record `Regexps`;
-- a compiled expression is an `R`. `decode` stands for `json.Unmarshal` into the arguments.
pub mod Paths
use aikido.Prelude.{
  ℕ, zero, suc, Bool, true, false, not, ◌&&◌, ◌||◌, Option, none, some, List, [], ◌∷◌, ◌++◌, Bytes,
  codes, is_empty, has_prefix, length, ◌==◌, if◌then◌else◌, ◌≡◌, refl,
}
use aikido.Prelude.Runes.{encode_rune}
use aikido.Errors.{Ctx, Error, bad_args, empty_glob, unclosed_brace, Result, ok, err, ◌>>=◌}
use aikido.Vfs.Storage.{FileMeta, Storage}
use aikido.Tools.Handler.{Env, flag, texts, Content, object, Handler}
use aikido.Agent.Policy.{VfsToolOptions, visible}

pub record Regexps (R : Type 0) : Type 0 where
  pub compile : Bytes → Result R
  pub match_string : R → Bytes → Bool
  pub quote_meta : Bytes → Bytes

abbrev pub glob_max_paths : ℕ
glob_max_paths = 500

-- what one round of the loop writes, how much it adds to `i`, and `inBraces` behind it
pub record GlobPart : Type 0 where
  pub expr : Bytes
  pub skip : ℕ
  pub in_braces : Bool

abbrev part : Bytes → ℕ → Bool → GlobPart
part t n b = record { expr = t; skip = n; in_braces = b }

module _ {R : Type 0} (re : Regexps R) where
  -- the `switch` at the byte `c`, with `rest` behind it
  unfoldable pub glob_part : Bool → ℕ → Bytes → GlobPart
  unfolding has_prefix encode_rune
  glob_part b c rest =
      if c == b'*' && has_prefix (codes "**/") (c ∷ rest)
      then part (codes "(?:.*/)?") 2 b
      else if c == b'*' && has_prefix (codes "**") (c ∷ rest)
      then part (codes ".*") 1 b
      else if c == b'*'
      then part (codes "[^/]*") 0 b
      else if c == b'?'
      then part (codes "[^/]") 0 b
      else if c == b'{' && not b
      then part (codes "(?:") 0 true
      else if c == b'}' && b
      then part (codes ")") 0 false
      else if c == b',' && b
      then part (codes "|") 0 b
      else part (re.quote_meta (encode_rune c)) 0 b

  -- the loop: `inBraces`, the bytes that the last round has taken already, and the bytes from `i` on
  unfoldable pub glob_from : Bool → ℕ → Bytes → Bytes × Bool
  unfolding glob_part
  glob_from b skip [] = ([], b)
  glob_from b (suc k) (c ∷ s) = glob_from b k s
  glob_from b zero (c ∷ s) =
      let p = glob_part b c s in
      let rest = glob_from p.in_braces p.skip s in (p.expr ++ rest.0, rest.1)

  -- `globToRegexp`
  unfoldable pub glob_to_regexp : Bytes → Result R
  unfolding glob_from
  glob_to_regexp glob =
      let r = glob_from false 0 glob in
      if is_empty glob
      then err empty_glob
      else if r.1
      then err (unclosed_brace glob)
      else re.compile (b'^' ∷ r.0 ++ b'$' ∷ [])

  -- the loop over the files: the paths, and `truncated`
  unfoldable pub glob_paths : VfsToolOptions → R → List FileMeta → List Bytes → List Bytes × Bool
  glob_paths opts r [] paths = (paths, false)
  glob_paths opts r (f ∷ fs) paths =
      let hit = visible opts f.path && re.match_string r f.path in
      let rest = glob_paths opts r fs (if hit then paths ++ f.path ∷ [] else paths) in
      if hit && length paths == glob_max_paths then (paths, true) else rest

  module _ {S : Type 0} (st : Storage S) (decode : Bytes → Option Bytes)
      (opts : VfsToolOptions) where
    abbrev pub glob_content : List Bytes × Bool → Content
    glob_content r = object ((codes "paths", texts r.0) ∷ (codes "truncated", flag r.1) ∷ [])

    unfoldable pub glob_decoded : Ctx → Option Bytes → S → Result Content
    unfolding glob_to_regexp glob_paths
    glob_decoded ctx none s = err (bad_args (codes "glob"))
    glob_decoded ctx (some pattern) s = do
      r ← glob_to_regexp pattern
      ms ← st.list_files ctx s
      ok (glob_content (glob_paths opts r ms []))

    unfoldable pub glob_handler : Handler S
    unfolding glob_decoded
    glob_handler ctx args env s = (glob_decoded ctx (decode args) s, s)

-- ===== src/Examples/OfGrep.antt =====
-- The theorems on grep, glob and the registration of the tools, with expressions that are literal texts.
use aikido.Prelude.{
  ℕ, ◌+◌, Bool, true, false, Option, none, some, List, [], ◌∷◌, ◌++◌, ◌≡◌, refl, arith, Bytes,
  codes, text_eq, contains, has_prefix, has_byte, split, lower, length, take, ltb, ◌==◌,
  if◌then◌else◌,
}
use aikido.Prelude.Int.{pos}
use aikido.Prelude.Sort.{sort_by}
use aikido.Prelude.Assoc.{lookup, insert}
use aikido.Errors.{ok}
use aikido.Vfs.Path.{validate_path, first_is, last_is}
use aikido.Agent.Utf8.{is_binary, utf8_valid}
use aikido.Vfs.ContentType.{ext}
use aikido.Vfs.Storage.{FileMeta}
use aikido.Vfs.Memory.{Files, storage, search_files, list_files, read_file, metas}
use aikido.Tools.Handler.{Env, object, texts, flag}
use aikido.Agent.Policy.{VfsToolOptions, visible, is_hidden, extension_allowed, equal_fold}
use aikido.Agent.Lines.{split_lines}
use aikido.Agent.Glob.{Regexps, glob_to_regexp, glob_handler, glob_content}
use aikido.Agent.Glob.Paths.{matching, limited, glob_handler_lem}
use aikido.Agent.Grep.{
  GrepArgs, content_lines, mode_of, path_expr, grep_handler, grep_result, Scan, grep_max_lines,
}
use aikido.Agent.Grep.FileLines.{all_lines}
use aikido.Agent.Grep.Outcome.{none_left, searched, grep_handler_lem}
use aikido.Agent.VfsTools.{Outside, Mounted, register_each, vfs_tools, register_vfs_tools}
use aikido.Agent.VfsTools.Registered.{tool_names, register_vfs_tools_lem, read_only_dispatch}
use aikido.Tools.Registry.{Registry, new_registry, dispatch, register}
use aikido.Llm.Types.{ToolCall}
use aikido.Examples.{notes, policy, as_notes}

-- a literal text, which is found anywhere, or between `^` and `$` only as a whole
abbrev literal_matches : Bytes → Bytes → Bool
literal_matches [] p = true
literal_matches (c ∷ r) p = if c == b'^' then text_eq r (p ++ b'$' ∷ []) else contains (c ∷ r) p

abbrev literals : Regexps Bytes
literals = record { compile = λ t. ok t; match_string = literal_matches; quote_meta = λ t. t }

abbrev one_digit : ℕ → Bytes
one_digit n = (n + b'0') ∷ []

abbrev one_file : Files
one_file = record {
  files = (notes, record { content = codes "a\nb\nc\nd"; content_type = []; updated_at = 0 }) ∷ [];
  now = 0;
}

abbrev turn : Env
turn = record { session_id = codes "s"; turn_id = 0 }

abbrev asked : GrepArgs
asked = record {
  pattern = codes "b";
  path_glob = [];
  case_insensitive = false;
  context = pos 1;
  output_mode = [];
}

grepped :
    grep_handler literals one_digit storage (λ args. some asked) policy none [] turn one_file ≡ (
      ok (
          object (
            (codes "truncated", flag false)
            ∷ (
              codes "matches",
              texts (codes "notes.md-1-a" ∷ codes "notes.md:2:b" ∷ codes "notes.md-3-c" ∷ []),
            )
            ∷ [])),
      one_file,
    )
unfolding grep_handler list_files sort_by metas read_file validate_path has_byte first_is last_is
    contains lookup has_prefix text_eq lower split_lines is_binary utf8_valid mode_of visible
    is_hidden split extension_allowed equal_fold ext
grepped = refl

globbed : glob_handler literals storage (λ args. some args) policy none notes turn one_file ≡ (
  ok (object ((codes "paths", texts (notes ∷ [])) ∷ (codes "truncated", flag false) ∷ [])),
  one_file,
)
unfolding glob_handler list_files sort_by metas visible is_hidden split extension_allowed equal_fold
    ext
globbed = refl

glob_handler_lem_example :
    (pattern : Bytes) × (r : Bytes) × (ms : List FileMeta) × (◌≡◌ {A = Option Bytes}
      (some notes)
      (some pattern))
    × (glob_to_regexp literals pattern ≡ ok r)
    × (list_files none one_file ≡ ok ms)
    × (object ((codes "paths", texts (notes ∷ [])) ∷ (codes "truncated", flag false) ∷ [])
        ≡ glob_content literals storage
            (λ args. some args)
            policy
            (limited literals policy (matching literals policy r ms)))
    × (one_file ≡ one_file)
glob_handler_lem_example =
    glob_handler_lem literals policy storage (λ args. some args) none notes turn one_file one_file
      (object ((codes "paths", texts (notes ∷ [])) ∷ (codes "truncated", flag false) ∷ [])) globbed

grep_handler_lem_example :
    (sc : Scan) × (grep_handler literals one_digit storage
        (λ args. some asked)
        policy
        none
        []
        turn
        one_file
      ≡ (ok (grep_result content_lines sc), one_file))
    × (sc.out
        ≡ take grep_max_lines
            (all_lines literals one_digit 1 (codes "b") ((notes, codes "a\nb\nc\nd") ∷ [])))
    × (sc.truncated
        ≡ ltb grep_max_lines (
            length (all_lines literals one_digit 1 (codes "b") ((notes, codes "a\nb\nc\nd") ∷ []))))
unfolding path_expr list_files sort_by metas read_file validate_path has_byte first_is last_is
    contains lookup has_prefix text_eq lower split_lines is_binary utf8_valid mode_of visible
    is_hidden split extension_allowed equal_fold ext
grep_handler_lem_example =
    grep_handler_lem literals one_digit storage (λ args. some asked) policy none [] turn one_file
      asked (codes "b") none _ ((notes, codes "a\nb\nc\nd") ∷ []) refl refl refl refl refl
      (searched refl refl none_left) (omega arith)

abbrev outside : Outside Bytes
outside = record {
  regexps = literals;
  itoa = one_digit;
  describe = λ name. record { name = name; description = []; parameters = [] };
  read_args = λ args. some (record { path = args; offset = pos 0; limit = pos 0 });
  write_args = as_notes;
  delete_args = λ args. some args;
  edit_args = λ args. none;
  search_args = λ args. some args;
  glob_args = λ args. some args;
  grep_args = λ args. some asked;
}

abbrev mounted : Mounted Files
mounted = record { storage = storage; search = some search_files }

register_vfs_tools_lem_example :
    (reg : Registry Files) × (register_vfs_tools outside
        (some (new_registry Files))
        (some (policy, some mounted))
      ≡ (none, some reg))
    × (reg.order ≡ tool_names false false true)
register_vfs_tools_lem_example = register_vfs_tools_lem outside policy mounted

abbrev fixed : VfsToolOptions
fixed = record policy { is_read_only = true }

abbrev read_only_tools : Registry Files
read_only_tools = (register_each outside (vfs_tools outside mounted fixed) (new_registry Files)).1

abbrev glob_call : ToolCall
glob_call = record { id = codes "c1"; name = codes "glob"; arguments = notes }

read_only_dispatch_example : (dispatch none glob_call turn read_only_tools one_file).1 ≡ one_file
unfolding register_vfs_tools register_each lookup register insert text_eq
read_only_dispatch_example =
    read_only_dispatch outside mounted fixed (new_registry Files) read_only_tools none none
      glob_call turn one_file refl (λ name h e. absurd (cc e)) refl

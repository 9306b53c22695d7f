-- ===== src/Agent/EditFile.antt =====
-- `editFileHandler` of agent/tools_builtin.go, over any storage.
pub mod Outcome
use aikido.Prelude.{
  ℕ, Bool, true, false, not, ◌&&◌, Option, none, some, List, [], ◌∷◌, Bytes, codes, length,
  is_empty, ltb, ◌==◌, text_eq, if◌then◌else◌,
}
use aikido.Errors.{
  Ctx, Error, bad_args, file_too_large, empty_old_string, identical_strings, not_text,
  old_not_found, ambiguous, Result, ok, err, panic,
}
use aikido.Vfs.Storage.{FileMeta, Storage}
use aikido.Tools.Handler.{Env, Value, text, number, Content, object, Handler}
use aikido.Agent.Policy.{VfsToolOptions, validate_policy_path}
use aikido.Agent.Utf8.{is_binary}
use aikido.Agent.Replace.{count, replace_all}
use aikido.Agent.WriteFile.{type_or_inferred, require_first, after}

pub record EditArgs : Type 0 where
  pub path : Bytes
  pub old_string : Bytes
  pub new_string : Bytes
  pub all_matches : Bool

abbrev pub edited : EditArgs → ℕ → Bytes → Content
edited v n updated = object (
    (codes "path", text v.path)
    ∷ (codes "replacements", number n)
    ∷ (codes "size", number (length updated))
    ∷ [])

module _ {S : Type 0} (st : Storage S) (opts : VfsToolOptions) where
  -- behind the count of the matches
  unfoldable pub edit_counted : Ctx → EditArgs → S → Bytes → FileMeta → ℕ → Result Content × S
  edit_counted ctx v s content meta n =
      if n == 0
      then (err (old_not_found v.path), s)
      else if ltb 1 n && not v.all_matches
      then (err (ambiguous n v.path), s)
      else (let updated = replace_all content v.old_string v.new_string in
          if ltb opts.max_file_bytes (length updated)
          then (err (file_too_large (length updated) opts.max_file_bytes), s)
          else after (edited v n updated)
              (st.write_file ctx v.path updated (type_or_inferred meta.content_type v.path) s))

  -- behind the read of the file
  unfoldable pub edit_content : Ctx → EditArgs → S → Result (Bytes × FileMeta) → Result Content × S
  edit_content ctx v s (err e) = (err e, s)
  edit_content ctx v s panic = (panic, s)
  edit_content ctx v s (ok (content, meta)) =
      if is_binary content
      then (err (not_text v.path), s)
      else edit_counted ctx v s content meta (count content v.old_string)

  unfoldable pub edit_checked : Ctx → Option EditArgs → S → Result Content × S
  edit_checked ctx none s = (err (bad_args (codes "edit_file")), s)
  edit_checked ctx (some v) s = require_first (validate_policy_path opts v.path) s (
      if is_empty v.old_string
      then (err empty_old_string, s)
      else if text_eq v.old_string v.new_string
      then (err identical_strings, s)
      else edit_content ctx v s (st.read_file ctx v.path s))

-- `decode` stands for `json.Unmarshal` into the handler's argument struct.
unfoldable pub edit_file_handler :
    {S : Type 0} → Storage S → (Bytes → Option EditArgs) → VfsToolOptions → Handler S
unfolding edit_checked
edit_file_handler st decode opts ctx args env s = edit_checked st opts ctx (decode args) s

-- ===== src/Agent/WriteFile.antt =====
-- `writeFileHandler` and `deleteFileHandler` of agent/tools_builtin.go, over any storage.
pub mod Outcome
use aikido.Prelude.{
  ℕ, ◌≤◌, ◌<◌, Bool, true, false, Option, none, some, List, [], ◌∷◌, ◌≡◌, refl, ◌↔◌, arith, Bytes,
  codes, length, is_empty, ltb, text_eq, if◌then◌else◌, Option-cases, inl, inr, Bool-cases,
}
use aikido.Errors.{Ctx, Error, bad_args, file_too_large, Result, ok, err, file_not_found}
use aikido.Vfs.Storage.{FileMeta, Storage, Conforms}
use aikido.Tools.Handler.{Env, Value, text, number, Content, object, Handler}
use aikido.Agent.Policy.{VfsToolOptions, validate_policy_path, infer_content_type}

pub record WriteArgs : Type 0 where
  pub path : Bytes
  pub content : Bytes
  pub content_type : Bytes

-- `if ct == "" { ct = inferContentType(p) }`
abbrev pub type_or_inferred : Bytes → Bytes → Bytes
type_or_inferred ct p = if is_empty ct then infer_content_type p else ct

module _ {S : Type 0} where
  -- `if err := check; err != nil { return err }` in front of a change
  abbrev pub require_first : Option Error → S → Result Content × S → Result Content × S
  require_first none s rest = rest
  require_first (some e) s rest = (err e, s)

  -- the return behind a change of the storage
  abbrev pub after : Content → Option Error × S → Result Content × S
  after c (none, s) = (ok c, s)
  after c (some e, s) = (err e, s)

module _ {S : Type 0} (st : Storage S) (opts : VfsToolOptions) where
  unfoldable pub write_checked : Ctx → Option WriteArgs → S → Result Content × S
  write_checked ctx none s = (err (bad_args (codes "write_file")), s)
  write_checked ctx (some v) s = require_first (validate_policy_path opts v.path) s (
      if ltb opts.max_file_bytes (length v.content)
      then (err (file_too_large (length v.content) opts.max_file_bytes), s)
      else after
          (object ((codes "path", text v.path) ∷ (codes "size", number (length v.content)) ∷ []))
          (st.write_file ctx v.path v.content (type_or_inferred v.content_type v.path) s))

  unfoldable pub delete_checked : Ctx → Option Bytes → S → Result Content × S
  delete_checked ctx none s = (err (bad_args (codes "delete_file")), s)
  delete_checked ctx (some path) s =
      require_first (validate_policy_path opts path) s
        (after (object ((codes "path", text path) ∷ [])) (st.delete_file ctx path s))

-- `decode` stands for `json.Unmarshal` into the handler's argument struct.
unfoldable pub write_file_handler :
    {S : Type 0} → Storage S → (Bytes → Option WriteArgs) → VfsToolOptions → Handler S
unfolding write_checked
write_file_handler st decode opts ctx args env s = write_checked st opts ctx (decode args) s

unfoldable pub delete_file_handler :
    {S : Type 0} → Storage S → (Bytes → Option Bytes) → VfsToolOptions → Handler S
unfolding delete_checked
delete_file_handler st decode opts ctx args env s = delete_checked st opts ctx (decode args) s

-- ===== src/Agent/Policy.antt =====
-- agent/tools_builtin.go and agent/tools_register.go: the caller's policy on paths. Texts are ASCII
-- where case is folded (`strings.EqualFold`).
use aikido.Prelude.{
  ℕ, Bool, true, false, not, ◌&&◌, ◌||◌, Option, none, some, List, [], ◌∷◌, map, ◌≡◌, ◌↔◌, refl,
  arith, Bytes, is_empty, any, text_eq, lower, split, ◌==◌, if◌then◌else◌,
}
use aikido.Errors.{Error, path_invalid, ext_not_allowed, hidden_path}
use aikido.Vfs.Path.{validate_path, slash}
use aikido.Vfs.Path.Segments.{IsRelative, validate_path_iff}
use aikido.Vfs.ContentType.{ext, content_type_for}
use aikido.Prelude

-- VFSToolOptions, without the storage, which the handlers take apart from it
pub record VfsToolOptions : Type 0 where
  pub hide_hidden_paths : Bool
  pub allowed_extensions : List Bytes
  pub max_file_bytes : ℕ
  pub is_read_only : Bool
  pub disable_extended : Bool

-- `strings.EqualFold`
unfoldable pub equal_fold : Bytes → Bytes → Bool
unfolding lower text_eq
equal_fold a b = text_eq (map lower a) (map lower b)

unfoldable pub extension_allowed : VfsToolOptions → Bytes → Bool
extension_allowed opts p =
    if is_empty opts.allowed_extensions
    then true
    else any (λ e. equal_fold e (ext p)) opts.allowed_extensions

abbrev pub is_hidden_segment : Bytes → Bool
is_hidden_segment [] = false
is_hidden_segment (c ∷ s) = c == b'_' || c == b'.'

unfoldable pub is_hidden : Bytes → Bool
is_hidden p = any is_hidden_segment (split slash p)

unfoldable pub visible : VfsToolOptions → Bytes → Bool
visible opts p = (not opts.hide_hidden_paths || not (is_hidden p)) && extension_allowed opts p

unfoldable pub validate_policy_path : VfsToolOptions → Bytes → Option Error
validate_policy_path opts p = elim (validate_path p) [
  | some f ↦ some (path_invalid f)
  | none ↦
      if not (extension_allowed opts p)
      then some (ext_not_allowed (map lower (ext p)))
      else if opts.hide_hidden_paths && is_hidden p
      then some (hidden_path p)
      else none
]

abbrev pub or_markdown : Bytes → Bytes
or_markdown [] = Prelude.codes "text/markdown"
or_markdown (c ∷ s) = c ∷ s

-- `inferContentType`
unfoldable pub infer_content_type : Bytes → Bytes
infer_content_type p = or_markdown (content_type_for p)

abbrev pub Addressable : VfsToolOptions → Bytes → Type 0
Addressable opts p = IsRelative p × (visible opts p ≡ true)

-- The tools accept a path exactly when it is structurally valid and the listing tools may show it:
-- hidden paths and extensions are filtered alike on the way in and on the way out.
pub validate_policy_path_iff :
    (opts : VfsToolOptions) (p : Bytes) → (validate_policy_path opts p ≡ none) ↔ Addressable opts p
unfolding validate_policy_path visible
validate_policy_path_iff opts p = (
  λ h. ((validate_path_iff p).0 (ground arith), ground arith),
  λ a.
      let v : validate_path p ≡ none = (validate_path_iff p).1 a.0 in
      let seen : visible opts p ≡ true = a.1 in ground arith,
)

-- ===== src/Vfs/Path.antt =====
-- vfs/path.go: `ValidatePath`. A path is its bytes; the fault names the branch that rejects it.
pub mod Segments
use aikido.Prelude.{
  ℕ, Bool, true, false, Option, none, some, [], ◌∷◌, Bytes, codes, length, is_empty, any, ltb, ◌==◌,
  text_eq, has_byte, contains, split, if◌then◌else◌,
}

pub data PathFault : Type 0 where
  empty_path too_long null_byte absolute trailing_slash double_slash parent_segment : PathFault

abbrev pub max_path_bytes : ℕ
max_path_bytes = 512

abbrev pub slash : ℕ
slash = b'/'

-- `path[0] == b`
unfoldable pub first_is : ℕ → Bytes → Bool
first_is b [] = false
first_is b (c ∷ s) = c == b

-- `path[len(path)-1] == b`
unfoldable pub last_is : ℕ → Bytes → Bool
last_is b [] = false
last_is b (c ∷ []) = c == b
last_is b (c ∷ d ∷ s) = last_is b (d ∷ s)

abbrev pub is_parent : Bytes → Bool
is_parent seg = text_eq seg (b'.' ∷ b'.' ∷ [])

unfoldable pub validate_path : Bytes → Option PathFault
validate_path path =
    if is_empty path
    then some empty_path
    else if ltb max_path_bytes (length path)
    then some too_long
    else if has_byte 0 path
    then some null_byte
    else if first_is slash path
    then some absolute
    else if last_is slash path
    then some trailing_slash
    else if contains (slash ∷ slash ∷ []) path
    then some double_slash
    else if any is_parent (split slash path)
    then some parent_segment
    else none

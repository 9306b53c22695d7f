-- ===== src/Vfs/Memory.antt =====
-- vfs/memory/storage.go: the in-memory backend. `now` is what the clock gives at the next call.
-- Each method holds the mutex throughout, so a call is one step. The copies that ReadFile and
-- WriteFile make are values here.
pub mod Laws
pub mod Listing
pub mod Search
pub mod Suite
use aikido.Prelude.{
  ℕ, Bool, true, false, ◌||◌, Option, none, some, List, [], ◌∷◌, map, Bytes, length, is_empty,
  lower, contains, if◌then◌else◌,
}
use aikido.Prelude.Assoc.{Assoc, lookup, insert, remove}
use aikido.Prelude.Sort.{sort_by}
use aikido.Errors.{Ctx, Error, path_invalid, file_not_found, Result, ok, err, require, check_ctx}
use aikido.Vfs.Path.{validate_path}
use aikido.Vfs.Storage
use aikido.Vfs.Storage.{FileMeta}

pub record FileEntry : Type 0 where
  pub content : Bytes
  pub content_type : Bytes
  pub updated_at : ℕ

pub record Files : Type 0 where
  pub files : Assoc FileEntry
  pub now : ℕ

abbrev pub new_storage : Files
new_storage = record { files = []; now = 0 }

abbrev pub meta_of : Bytes → FileEntry → FileMeta
meta_of p e = record {
  path = p;
  content_type = e.content_type;
  size = length e.content;
  updated_at = e.updated_at;
}

-- `if err := vfs.ValidatePath(path); err != nil { return err }`
abbrev pub check_path : Bytes → Option Error
check_path p = elim (validate_path p) [ none ↦ none | some f ↦ some (path_invalid f) ]

unfoldable pub metas : Assoc FileEntry → List FileMeta
metas [] = []
metas ((p, e) ∷ files) = meta_of p e ∷ metas files

unfoldable pub list_files : Ctx → Files → Result (List FileMeta)
list_files ctx s = require (check_ctx ctx) (ok (sort_by (λ m. m.path) (metas s.files)))

unfoldable pub read_file : Ctx → Bytes → Files → Result (Bytes × FileMeta)
read_file ctx path s = require (check_ctx ctx) (
    require (check_path path) (elim (lookup path s.files) [
      | none ↦ err (file_not_found path)
      | some e ↦ ok (e.content, meta_of path e)
    ]))

-- `if err := check; err != nil { return err }` of a method that changes the state
abbrev pub require_or_keep : Option Error → Files → Option Error × Files → Option Error × Files
require_or_keep none s rest = rest
require_or_keep (some e) s rest = (some e, s)

unfoldable pub write_file : Ctx → Bytes → Bytes → Bytes → Files → Option Error × Files
write_file ctx path content content_type s =
    let entry : FileEntry = record {
      content = content;
      content_type = content_type;
      updated_at = s.now;
    } in
    require_or_keep (check_ctx ctx) s
      (require_or_keep (check_path path) s (none, record s { files = insert path entry s.files }))

unfoldable pub delete_file : Ctx → Bytes → Files → Option Error × Files
delete_file ctx path s = require_or_keep (check_ctx ctx) s (
    require_or_keep (check_path path) s (elim (lookup path s.files) [
      | none ↦ (some (file_not_found path), s)
      | some e ↦ (none, record s { files = remove path s.files })
    ]))

-- `strings.ToLower`, on ASCII
abbrev pub to_lower : Bytes → Bytes
to_lower = map lower

unfoldable pub hits : Bytes → Assoc FileEntry → List Bytes
hits q [] = []
hits q ((p, e) ∷ files) =
    let rest = hits q files in
    if is_empty q || contains q (to_lower e.content) then p ∷ rest else rest

unfoldable pub search_files : Ctx → Bytes → Files → Result (List Bytes)
search_files ctx query s =
    require (check_ctx ctx) (ok (sort_by (λ p. p) (hits (to_lower query) s.files)))

-- memory.Storage as a vfs.Storage
abbrev pub storage : Storage.Storage Files
storage = record {
  list_files = list_files;
  read_file = read_file;
  write_file = write_file;
  delete_file = delete_file;
}

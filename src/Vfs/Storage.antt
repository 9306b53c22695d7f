-- ===== src/Vfs/Storage.antt =====
-- vfs/storage.go: the contract every backend implements, over the backend's own state `S`, with the
-- laws that the file tools rely on. What the conformance suite tests is in the child.
pub mod Conformance
use aikido.Prelude.{ℕ, Option, none, some, List, ◌≡◌, Bytes, length, text_eq, false}
use aikido.Errors.{Ctx, Error, path_invalid, file_not_found, Result, ok, err}
use aikido.Vfs.Path.{PathFault, validate_path}

pub record FileMeta : Type 0 where
  pub path : Bytes
  pub content_type : Bytes
  pub size : ℕ
  pub updated_at : ℕ

-- A call takes the context's state and the backend's; a mutating one gives the new state back.
pub record Storage (S : Type 0) : Type 0 where
  pub list_files : Ctx → S → Result (List FileMeta)
  pub read_file : Ctx → Bytes → S → Result (Bytes × FileMeta)
  pub write_file : Ctx → Bytes → Bytes → Bytes → S → Option Error × S
  pub delete_file : Ctx → Bytes → S → Option Error × S

-- A backend may fail at any time, but then it keeps what it held: each call is atomic, as the
-- interface and docs/DECISIONS.md have it.
pub record Conforms {S : Type 0} (st : Storage S) : Type 0 where
  -- a written file is read back
  pub read_written :
      (ctx : Ctx) (p c t : Bytes) (s : S)
      → (st.write_file ctx p c t s).0 ≡ none
      → (m : FileMeta) × (st.read_file none p (st.write_file ctx p c t s).1 ≡ ok (c, m))
        × (m.path ≡ p)
        × (m.size ≡ length c)
  -- a write touches one path
  pub read_other :
      (ctx : Ctx) (p q c t : Bytes) (s : S)
      → text_eq p q ≡ false
      → st.read_file none q (st.write_file ctx p c t s).1 ≡ st.read_file none q s
  -- each call is atomic
  pub write_failed :
      (ctx : Ctx) (p c t : Bytes) (s : S) (e : Error)
      → (st.write_file ctx p c t s).0 ≡ some e
      → (st.write_file ctx p c t s).1 ≡ s
  -- a deleted file is gone
  pub read_deleted :
      (ctx : Ctx) (p : Bytes) (s : S)
      → (st.delete_file ctx p s).0 ≡ none
      → st.read_file none p (st.delete_file ctx p s).1 ≡ err (file_not_found p)
  -- paths are as ValidatePath wants them
  pub rejects_read :
      (p : Bytes) (s : S) (f : PathFault)
      → validate_path p ≡ some f
      → st.read_file none p s ≡ err (path_invalid f)
  pub rejects_write :
      (p c t : Bytes) (s : S) (f : PathFault)
      → validate_path p ≡ some f
      → st.write_file none p c t s ≡ (some (path_invalid f), s)
  pub rejects_delete :
      (p : Bytes) (s : S) (f : PathFault)
      → validate_path p ≡ some f
      → st.delete_file none p s ≡ (some (path_invalid f), s)

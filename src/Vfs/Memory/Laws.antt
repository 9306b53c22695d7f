-- ===== src/Vfs/Memory/Laws.antt =====
-- The in-memory backend keeps the storage contract.
use aikido.Prelude.{ℕ, false, none, some, ◌≡◌, refl, arith, Bytes, length, text_eq, text_eq_refl}
use aikido.Prelude.Assoc.{lookup-insert, lookup-remove}
use aikido.Errors.{Ctx, Error, path_invalid, file_not_found, ok, err}
use aikido.Vfs.Path.{PathFault, validate_path}
use aikido.Vfs.Storage.{FileMeta, Conforms}
use aikido.Vfs.Memory.{Files, read_file, write_file, delete_file, storage}

abbrev pub written : Bytes → Bytes → Bytes → ℕ → FileMeta
written p c t now = record { path = p; content_type = t; size = length c; updated_at = now }

-- What a successful write of the in-memory backend leaves at its path, time stamp included.
pub read-write :
    (ctx : Ctx) (p c t : Bytes) (s : Files)
    → (write_file ctx p c t s).0 ≡ none
    → read_file none p (write_file ctx p c t s).1 ≡ ok (c, written p c t s.now)
unfolding read_file write_file
read-write ctx p c t s h = ground (
  arith,
  text_eq_refl p,
  lookup-insert p p (record { content = c; content_type = t; updated_at = s.now }) s.files,
)

read-write_other :
    (ctx : Ctx) (p q c t : Bytes) (s : Files)
    → text_eq p q ≡ false
    → read_file none q (write_file ctx p c t s).1 ≡ read_file none q s
unfolding read_file write_file
read-write_other ctx p q c t s h = ground (
  arith,
  lookup-insert p q (record { content = c; content_type = t; updated_at = s.now }) s.files,
)

write_failed :
    (ctx : Ctx) (p c t : Bytes) (s : Files) (e : Error)
    → (write_file ctx p c t s).0 ≡ some e
    → (write_file ctx p c t s).1 ≡ s
unfolding write_file
write_failed ctx p c t s e h = ground arith

pub read-delete :
    (ctx : Ctx) (p : Bytes) (s : Files)
    → (delete_file ctx p s).0 ≡ none
    → read_file none p (delete_file ctx p s).1 ≡ err (file_not_found p)
unfolding read_file delete_file
read-delete ctx p s h = ground (arith, text_eq_refl p, lookup-remove p p s.files)

rejects_read :
    (p : Bytes) (s : Files) (f : PathFault)
    → validate_path p ≡ some f
    → read_file none p s ≡ err (path_invalid f)
unfolding read_file
rejects_read p s f h = ground arith

rejects_write :
    (p c t : Bytes) (s : Files) (f : PathFault)
    → validate_path p ≡ some f
    → write_file none p c t s ≡ (some (path_invalid f), s)
unfolding write_file
rejects_write p c t s f h = ground arith

rejects_delete :
    (p : Bytes) (s : Files) (f : PathFault)
    → validate_path p ≡ some f
    → delete_file none p s ≡ (some (path_invalid f), s)
unfolding delete_file
rejects_delete p s f h = ground arith

-- The in-memory backend keeps every law of the storage contract: a successful write is read back
-- with its path and size and touches no other path, a failed write changes nothing, a deleted file
-- is not found, and an invalid path is refused by read, write and delete with its fault.
pub storage-Conforms : Conforms storage
storage-Conforms = record {
  read_written = λ ctx p c t s h. (written p c t s.now, read-write ctx p c t s h, refl, refl);
  read_other = read-write_other;
  write_failed = write_failed;
  read_deleted = read-delete;
  rejects_read = rejects_read;
  rejects_write = rejects_write;
  rejects_delete = rejects_delete;
}

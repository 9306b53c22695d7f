-- ===== src/Vfs/Storage/Conformance.antt =====
-- vfs/conformance.go: what `RunConformance` tests, for all paths and contents. A call is a function
-- of the state, so that a second listing is the first one.
use aikido.Prelude.{
  Bool, true, false, List, [], ◌≡◌, Bytes, none, some, is_empty, contains, text_eq, any, lower, map,
}
use aikido.Prelude.Sort.{Distinct}
use aikido.Errors.{Ctx, file_not_found, Result, ok, err}
use aikido.Vfs.Path.{validate_path}
use aikido.Vfs.Storage.{FileMeta, Storage, Conforms}

-- the states that writes and deletions make of a fresh storage
pub data Reached {S : Type 0} (st : Storage S) (fresh : S) : S → Type 0 where
  start : Reached st fresh fresh
  written :
      {s : S} (ctx : Ctx) (p c t : Bytes)
      → Reached st fresh s
      → Reached st fresh (st.write_file ctx p c t s).1
  deleted :
      {s : S} (ctx : Ctx) (p : Bytes)
      → Reached st fresh s
      → Reached st fresh (st.delete_file ctx p s).1

-- there is a file to read
abbrev pub is_ok {ℓ} : {A : Type ℓ} → Result A → Bool
is_ok (ok a) = true
is_ok _ = false

-- it holds the text of the query
abbrev pub holds : Bytes → Result (Bytes × FileMeta) → Bool
holds q (ok (c, m)) = contains q (map lower c)
holds q _ = false

pub record PassesSuite {S : Type 0} (st : Storage S) (find : Ctx → Bytes → S → Result (List Bytes))
    (fresh : S) : Type 0 where
  -- WriteReadRoundTrip, WriteOverwrites, and the tests that reject an invalid path
  pub conforms : Conforms st
  -- ListEmpty
  pub list_fresh : st.list_files none fresh ≡ ok []
  -- WriteReadRoundTrip: the write succeeds and keeps the content type
  pub write_works :
      (p c t : Bytes) (s : S)
      → Reached st fresh s
      → validate_path p ≡ none
      → (m : FileMeta) × ((st.write_file none p c t s).0 ≡ none)
        × (st.read_file none p (st.write_file none p c t s).1 ≡ ok (c, m))
        × (m.content_type ≡ t)
  -- ReadMissing, before the first write
  pub read_missing :
      (p : Bytes) → validate_path p ≡ none → st.read_file none p fresh ≡ err (file_not_found p)
  -- DeleteHappyPath
  pub delete_works :
      (p : Bytes) (s : S)
      → Reached st fresh s
      → is_ok (st.read_file none p s) ≡ true
      → ((st.delete_file none p s).0 ≡ none)
        × (st.read_file none p (st.delete_file none p s).1 ≡ err (file_not_found p))
  -- DeleteMissing
  pub delete_missing :
      (p : Bytes) (s : S)
      → Reached st fresh s
      → st.read_file none p s ≡ err (file_not_found p)
      → st.delete_file none p s ≡ (some (file_not_found p), s)
  -- ListIsDeterministic: each path that can be read once, and no other
  pub listed :
      (s : S)
      → Reached st fresh s
      → (ms : List FileMeta) × (st.list_files none s ≡ ok ms)
        × Distinct (λ (m : FileMeta). m.path) ms
        × ((p : Bytes)
            → validate_path p ≡ none
            → any (λ m. text_eq m.path p) ms ≡ is_ok (st.read_file none p s))
  -- Searchable/EmptyCorpus
  pub find_fresh : (q : Bytes) → find none q fresh ≡ ok []
  -- Searchable/SubstringMatch, where case is folded on both sides
  pub found :
      (q : Bytes) (s : S)
      → Reached st fresh s
      → is_empty q ≡ false
      → (ps : List Bytes) × (find none q s ≡ ok ps)
        × Distinct (λ (p : Bytes). p) ps
        × ((p : Bytes)
            → validate_path p ≡ none
            → any (λ f. text_eq f p) ps ≡ holds (map lower q) (st.read_file none p s))

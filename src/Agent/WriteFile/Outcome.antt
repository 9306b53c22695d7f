-- ===== src/Agent/WriteFile/Outcome.antt =====
-- `write_file` and `delete_file` over a storage that keeps the contract.
use aikido.Prelude.{
  ◌≤◌, false, Option, none, some, [], ◌∷◌, ◌≡◌, refl, arith, Bytes, codes, length, text_eq,
  Option-cases, inl, inr,
}
use aikido.Errors.{Ctx, Error, Result, ok, err, file_not_found}
use aikido.Vfs.Storage.{FileMeta, Storage, Conforms}
use aikido.Tools.Handler.{Env, text, Content, object}
use aikido.Agent.Policy.{VfsToolOptions, validate_policy_path}
use aikido.Agent.WriteFile.{WriteArgs, after, delete_checked, delete_file_handler}

-- What a call of `write_file` leaves behind, for any storage that keeps the contract.
pub record WriteOutcome {S : Type 0} (st : Storage S) (opts : VfsToolOptions) (v : WriteArgs)
    (s : S) (r : Result Content × S) : Type 0 where
  pub succeeded :
      (c : Content)
      → r.0 ≡ ok c
      → (validate_policy_path opts v.path ≡ none)
        × (length v.content ≤ opts.max_file_bytes)
        × ((m : FileMeta) × (st.read_file none v.path r.1 ≡ ok (v.content, m))
            × (m.path ≡ v.path)
            × (m.size ≡ length v.content))
  pub others :
      (q : Bytes) → text_eq v.path q ≡ false → st.read_file none q r.1 ≡ st.read_file none q s
  pub failed : (e : Error) → r.0 ≡ err e → r.1 ≡ s

module _ {S : Type 0} where
  pub after-none : (c : Content) (r : Option Error × S) → r.0 ≡ none → after c r ≡ (ok c, r.1)
  after-none c (none, s) h = refl
  after-none c (some e, s) h = cc

  pub after-some :
      (c : Content) (r : Option Error × S) (e : Error) → r.0 ≡ some e → after c r ≡ (err e, r.1)
  after-some c (none, s) e h = cc
  after-some c (some f, s) e h = ground arith

module _ {S : Type 0} (st : Storage S) (laws : Conforms st) (opts : VfsToolOptions) where
  -- A successful `delete_file` was admitted by the policy, and its path is then not found.
  pub delete_file_outcome :
      (decode : Bytes → Option Bytes) (ctx : Ctx) (args : Bytes) (env : Env) (s : S) (path : Bytes)
      (c : Content)
      → decode args ≡ some path
      → (delete_file_handler st decode opts ctx args env s).0 ≡ ok c
      → (validate_policy_path opts path ≡ none)
        × (st.read_file none path (delete_file_handler st decode opts ctx args env s).1
            ≡ err (file_not_found path))
  unfolding delete_file_handler delete_checked
  delete_file_outcome decode ctx args env s path c d = rw d (deleted)
    where
      deleted :
          (delete_checked st opts ctx (some path) s).0 ≡ ok c
          → (validate_policy_path opts path ≡ none)
            × (st.read_file none path (delete_checked st opts ctx (some path) s).1
                ≡ err (file_not_found path))
      deleted = elim (Option-cases (validate_policy_path opts path)) [
        | inr (e, h) ↦ rw h (λ k. absurd (cc k))
        | inl h ↦ elim (Option-cases (st.delete_file ctx path s).0) [
          | inl g ↦ rw h (
              rw
                (after-none (object ((codes "path", text path) ∷ [])) (st.delete_file ctx path s) g)
                (λ k. (refl, laws.read_deleted ctx path s g)))
          | inr (e, g) ↦ rw h (
              rw
                (after-some (object ((codes "path", text path) ∷ [])) (st.delete_file ctx path s) e
                  g)
                (λ k. absurd (cc k)))
        ]
      ]

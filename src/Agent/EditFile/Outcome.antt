-- ===== src/Agent/EditFile/Outcome.antt =====
-- `edit_file` over a storage that keeps the contract.
use aikido.Prelude.{
  ℕ, suc, ◌≤◌, Bool, true, false, not, ◌&&◌, Option, none, some, List, [], ◌∷◌, ◌≡◌, refl, ap, ◌∙◌,
  sym, arith, Bytes, length, is_empty, ltb, ◌==◌, text_eq, if◌then◌else◌, Option-cases, inl, inr,
  Bool-cases, contains, All,
}
use aikido.Errors.{
  Ctx, Error, file_too_large, Result, ok, err, panic, empty_old_string, identical_strings, not_text,
  old_not_found, ambiguous,
}
use aikido.Vfs.Storage.{FileMeta, Storage, Conforms}
use aikido.Tools.Handler.{Env, Content}
use aikido.Agent.Policy.{VfsToolOptions, validate_policy_path}
use aikido.Agent.Utf8.{is_binary}
use aikido.Agent.Replace.{count, replace_all}
use aikido.Agent.Replace.Parts.{join, replace_all_parts}
use aikido.Agent.WriteFile.{type_or_inferred, after}
use aikido.Agent.WriteFile.Outcome.{after-none, after-some}
use aikido.Agent.EditFile.{
  EditArgs, edited, edit_counted, edit_content, edit_checked, edit_file_handler,
}

at_least_two : (n m : ℕ) → (n == 0) ≡ false → m ≡ suc n → 2 ≤ m
at_least_two n m h e = ground arith

exactly_two :
    (n m : ℕ) (all : Bool)
    → (n == 0) ≡ false
    → (ltb 1 n && not all) ≡ false
    → m ≡ suc n
    → all ≡ false
    → m ≡ 2
exactly_two n m all h one e k = ground arith

-- The file before and after a successful edit: the same parts, with the old text between them
-- before and the new text after.
pub record Edited {S : Type 0} (st : Storage S) (ctx : Ctx) (v : EditArgs) (s s' : S) (c : Content)
    : Type 0 where
  pub parts : List Bytes
  pub meta : FileMeta
  pub meta' : FileMeta
  pub before : st.read_file ctx v.path s ≡ ok (join v.old_string parts, meta)
  pub now : st.read_file none v.path s' ≡ ok (join v.new_string parts, meta')
  pub free : All (λ (p : Bytes). contains v.old_string p ≡ false) parts
  pub matched : 2 ≤ length parts
  pub unique : v.all_matches ≡ false → length parts ≡ 2
  pub counted : (n : ℕ) × (length parts ≡ suc n) × (c ≡ edited v n (join v.new_string parts))

pub record EditOutcome {S : Type 0} (st : Storage S) (opts : VfsToolOptions) (ctx : Ctx)
    (v : EditArgs) (s : S) (r : Result Content × S) : Type 0 where
  pub succeeded : (c : Content) → r.0 ≡ ok c → Edited st ctx v s r.1 c
  pub others :
      (q : Bytes) → text_eq v.path q ≡ false → st.read_file none q r.1 ≡ st.read_file none q s
  pub failed : (e : Error) → r.0 ≡ err e → r.1 ≡ s

module _ {S : Type 0} (st : Storage S) (laws : Conforms st) (opts : VfsToolOptions) (ctx : Ctx)
    (v : EditArgs) (s : S) where
  refused : (e : Error) → EditOutcome st opts ctx v s (err e, s)
  refused e = record {
    succeeded = λ c h. absurd (cc h);
    others = λ q h. refl;
    failed = λ f h. refl;
  }

  panicked : EditOutcome st opts ctx v s (panic, s)
  panicked = record { succeeded = λ c h. absurd (cc h); others = λ q h. refl; failed = λ f h. refl }

  edit_written :
      (content : Bytes) (meta : FileMeta) (o : ℕ) (os : Bytes)
      → v.old_string ≡ o ∷ os
      → st.read_file ctx v.path s ≡ ok (content, meta)
      → (count content v.old_string == 0) ≡ false
      → (ltb 1 (count content v.old_string) && not v.all_matches) ≡ false
      → (st.write_file ctx v.path
          (replace_all content v.old_string v.new_string)
          (type_or_inferred meta.content_type v.path)
          s).0
        ≡ none
      → Edited st ctx v s
          (st.write_file ctx v.path
            (replace_all content v.old_string v.new_string)
            (type_or_inferred meta.content_type v.path)
            s).1
          (edited v (count content v.old_string) (replace_all content v.old_string v.new_string))
  edit_written content meta o os e r some_match one h =
      let (ps, old_join, len, new_join, free) = replace_all_parts o os content v.new_string in
      let (m, read, _, _) =
        laws.read_written ctx v.path (replace_all content v.old_string v.new_string)
          (type_or_inferred meta.content_type v.path) s h in
      let len' : length ps ≡ suc (count content v.old_string) = rw e len in
      record {
        parts = ps;
        meta = meta;
        meta' = m;
        before =
            r ∙ ap (λ (t : Bytes). ok (t, meta)) (sym (ap (λ (t : Bytes). join t ps) e ∙ old_join));
        now =
            read
            ∙ ap (λ (t : Bytes). ok (t, m))
                (ap (λ (t : Bytes). replace_all content t v.new_string) e ∙ new_join);
        free = rw e free;
        matched = at_least_two (count content v.old_string) (length ps) some_match len';
        unique =
            exactly_two (count content v.old_string) (length ps) v.all_matches some_match one len';
        counted = (
          count content v.old_string,
          len',
          ap (edited v (count content v.old_string))
              (ap (λ (t : Bytes). replace_all content t v.new_string) e ∙ new_join),
        );
      }

  counted :
      (content : Bytes) (meta : FileMeta) (o : ℕ) (os : Bytes)
      → v.old_string ≡ o ∷ os
      → st.read_file ctx v.path s ≡ ok (content, meta)
      → EditOutcome st opts ctx v s
          (edit_counted st opts ctx v s content meta (count content v.old_string))
  unfolding edit_counted
  counted content meta o os e r = elim (Bool-cases (count content v.old_string == 0)) [
    | inl a ↦ rw a (refused (old_not_found v.path))
    | inr a ↦ elim (Bool-cases (ltb 1 (count content v.old_string) && not v.all_matches)) [
      | inl b ↦ rw a (rw b (refused (ambiguous (count content v.old_string) v.path)))
      | inr b ↦
          elim (Bool-cases
            (ltb opts.max_file_bytes (length (replace_all content v.old_string v.new_string)))) [
              | inl d ↦ rw a (
                  rw b (
                    rw d (
                      refused (
                        file_too_large (length (replace_all content v.old_string v.new_string))
                          opts.max_file_bytes))))
              | inr d ↦ rw a (rw b (rw d (write_out content meta o os e r a b)))
            ]
    ]
  ]
    where
      write_out :
          (content : Bytes) (meta : FileMeta) (o : ℕ) (os : Bytes)
          → v.old_string ≡ o ∷ os
          → st.read_file ctx v.path s ≡ ok (content, meta)
          → (count content v.old_string == 0) ≡ false
          → (ltb 1 (count content v.old_string) && not v.all_matches) ≡ false
          → EditOutcome st opts ctx v s (
              after
                (edited v
                  (count content v.old_string)
                  (replace_all content v.old_string v.new_string))
                (st.write_file ctx v.path
                  (replace_all content v.old_string v.new_string)
                  (type_or_inferred meta.content_type v.path)
                  s))
      write_out content meta o os e r a b =
          let new = replace_all content v.old_string v.new_string in
          let t = type_or_inferred meta.content_type v.path in
          let done = edited v (count content v.old_string) new in
          elim (Option-cases (st.write_file ctx v.path new t s).0) [
            | inl h ↦ rw (after-none done (st.write_file ctx v.path new t s) h) (record {
              succeeded = λ c k.
                  let same : c ≡ done = cc k in rw same (edit_written content meta o os e r a b h);
              others = λ q k. laws.read_other ctx v.path q new t s k;
              failed = λ f k. absurd (cc k);
            })
            | inr (f, h) ↦ rw (after-some done (st.write_file ctx v.path new t s) f h) (record {
              succeeded = λ c k. absurd (cc k);
              others = λ q k. laws.read_other ctx v.path q new t s k;
              failed = λ g k. laws.write_failed ctx v.path new t s f h;
            })
          ]

  read_out :
      (o : ℕ) (os : Bytes)
      → v.old_string ≡ o ∷ os
      → (r : Result (Bytes × FileMeta)) → st.read_file ctx v.path s ≡ r
      → EditOutcome st opts ctx v s (edit_content st opts ctx v s r)
  unfolding edit_content
  read_out o os e (err f) h = refused f
  read_out o os e panic h = panicked
  read_out o os e (ok (content, meta)) h = elim (Bool-cases (is_binary content)) [
    | inl b ↦ rw b (refused (not_text v.path))
    | inr b ↦ rw b (counted content meta o os e h)
  ]

  edit_from :
      (old : Bytes)
      → v.old_string ≡ old
      → EditOutcome st opts ctx v s (edit_checked st opts ctx (some v) s)
  unfolding edit_checked
  edit_from old e = elim (Option-cases (validate_policy_path opts v.path)) [
    | inr (f, h) ↦ rw h (refused f)
    | inl h ↦ rw h (given old e)
  ]
    where
      given :
          (old : Bytes)
          → v.old_string ≡ old
          → EditOutcome st opts ctx v s (
              if is_empty v.old_string
              then (err empty_old_string, s)
              else if text_eq v.old_string v.new_string
              then (err identical_strings, s)
              else edit_content st opts ctx v s (st.read_file ctx v.path s))
      given [] e =
          let empty : is_empty v.old_string ≡ true = rw e refl in
          rw empty (refused empty_old_string)
      given (o ∷ os) e = elim (Bool-cases (text_eq v.old_string v.new_string)) [
        | inl k ↦
            let nonempty : is_empty v.old_string ≡ false = rw e refl in
            rw nonempty (rw k (refused identical_strings))
        | inr k ↦
            let nonempty : is_empty v.old_string ≡ false = rw e refl in
            rw nonempty (rw k (read_out o os e (st.read_file ctx v.path s) refl))
      ]

-- For any storage that keeps the contract, a successful `edit_file` changes the file from parts
-- with the old text between them to the same parts with the new text between them. No part holds
-- the old text; there is at least one match, and exactly one unless every match was asked for; the
-- result reports the number of matches and the new size. Every other path reads as before, and a
-- call that fails leaves the storage as it was.
pub edit_file_outcome :
    {S : Type 0} (st : Storage S)
    → Conforms st
    → (opts : VfsToolOptions) (decode : Bytes → Option EditArgs) (ctx : Ctx) (args : Bytes)
      (env : Env) (s : S) (v : EditArgs)
    → decode args ≡ some v
    → EditOutcome st opts ctx v s (edit_file_handler st decode opts ctx args env s)
unfolding edit_file_handler
edit_file_outcome st laws opts decode ctx args env s v d =
    rw d (edit_from st laws opts ctx v s v.old_string refl)

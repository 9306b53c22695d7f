-- ===== src/Agent/Glob/Paths.antt =====
-- The result of `globHandler` of agent/tools_grep.go.
use aikido.Prelude.{
  ℕ, zero, suc, ◌≤◌, Bool, true, ◌&&◌, List, [], ◌∷◌, ◌++◌, append-nil, append_assoc, ◌≡◌, refl,
  sym, ap, ◌∙◌, arith, Bytes, length, length-append, take, take_all, ltb, lt→ltb, Option, none,
  some, ◌==◌, Bool-cases, inl, inr, if◌then◌else◌,
}
use aikido.Errors.{Ctx, Result, ok, err, panic, ◌>>=◌}
use aikido.Vfs.Storage.{FileMeta, Storage}
use aikido.Tools.Handler.{Env, Content}
use aikido.Agent.Policy.{VfsToolOptions, visible}
use aikido.Agent.Glob.{
  Regexps, glob_max_paths, glob_to_regexp, glob_paths, glob_content, glob_decoded, glob_handler,
}

module _ {R : Type 0} (re : Regexps R) (opts : VfsToolOptions) where
  -- all the shown paths that the expression matches, in the order of the listing
  pub matching : R → List FileMeta → List Bytes
  matching r [] = []
  matching r (f ∷ fs) =
      if visible opts f.path && re.match_string r f.path
      then f.path ∷ matching r fs
      else matching r fs

  take-front : (n : ℕ) (xs ys : List Bytes) → length xs ≡ n → take n (xs ++ ys) ≡ xs
  take-front zero [] ys h = refl
  take-front (suc n) (x ∷ xs) ys h = ap (λ t. x ∷ t) (take-front n xs ys (omega arith))
  take-front zero (x ∷ xs) ys h = absurd (omega arith)
  take-front (suc n) [] ys h = absurd (omega arith)

  abbrev pub limited : List Bytes → List Bytes × Bool
  limited ps = (take glob_max_paths ps, ltb glob_max_paths (length ps))

  limited-full :
      (paths ps : List Bytes) (p : Bytes)
      → length paths ≡ glob_max_paths
      → (paths, true) ≡ limited (paths ++ p ∷ ps)
  limited-full paths ps p h = cc (
    take-front glob_max_paths paths (p ∷ ps) h,
    lt→ltb glob_max_paths (length (paths ++ p ∷ ps))
        (omega (arith, length-append paths (p ∷ ps), h)),
  )

  glob_paths-limited :
      (r : R) (fs : List FileMeta) (paths : List Bytes)
      → length paths ≤ glob_max_paths
      → glob_paths re opts r fs paths ≡ limited (paths ++ matching r fs)
  unfolding glob_paths matching
  glob_paths-limited r [] paths h =
      ground (arith, append-nil paths, take_all glob_max_paths paths h)
  glob_paths-limited r (f ∷ fs) paths h =
      elim (Bool-cases (visible opts f.path && re.match_string r f.path)) [
        | inr e ↦ rw e (glob_paths-limited r fs paths h)
        | inl e ↦ elim (Bool-cases (length paths == glob_max_paths)) [
          | inl full ↦ rw (e, full) (limited-full paths (matching r fs) f.path (ground arith))
          | inr room ↦
              rw (e, room)
                (glob_paths-limited r fs (paths ++ f.path ∷ [])
                    (ground (arith, length-append paths (f.path ∷ [])))
                  ∙ ap limited (append_assoc paths (f.path ∷ []) (matching r fs)))
        ]
      ]

  module _ {S : Type 0} (st : Storage S) (decode : Bytes → Option Bytes) (ctx : Ctx) where
    listed :
        (r : R) (l : Result (List FileMeta)) (c : Content)
        → (l >>= λ ms. ok (glob_content re st decode opts (glob_paths re opts r ms []))) ≡ ok c
        → (ms : List FileMeta) × (l ≡ ok ms)
          × (c ≡ glob_content re st decode opts (limited (matching r ms)))
    listed r (ok ms) c h = (ms, refl, cc (glob_paths-limited r ms [] (omega arith), h))
    listed r (err e) c h = absurd (cc h)
    listed r panic c h = absurd (cc h)

    decoded :
        (p : Option Bytes) (s : S) (c : Content)
        → glob_decoded re st decode opts ctx p s ≡ ok c
        → (pattern : Bytes) × (r : R) × (ms : List FileMeta) × (p ≡ some pattern)
          × (glob_to_regexp re pattern ≡ ok r)
          × (st.list_files ctx s ≡ ok ms)
          × (c ≡ glob_content re st decode opts (limited (matching r ms)))
    unfolding glob_decoded
    decoded none s c h = absurd (cc h)
    decoded (some pattern) s c h = compiled (glob_to_regexp re pattern) refl h
      where
        compiled :
            (g : Result R)
            → glob_to_regexp re pattern ≡ g
            → (g >>= λ r. st.list_files ctx s >>= λ ms.
                ok (glob_content re st decode opts (glob_paths re opts r ms [])))
              ≡ ok c
            → (pattern' : Bytes) × (r : R) × (ms : List FileMeta) × (◌≡◌ {A = Option Bytes}
                (some pattern)
                (some pattern'))
              × (glob_to_regexp re pattern' ≡ ok r)
              × (st.list_files ctx s ≡ ok ms)
              × (c ≡ glob_content re st decode opts (limited (matching r ms)))
        compiled (ok r) e h =
            let (ms, f, g) = listed r (st.list_files ctx s) c h in (pattern, r, ms, refl, e, f, g)
        compiled (err x) e h = absurd (cc h)
        compiled panic e h = absurd (cc h)

  -- A `glob` that succeeds compiled its pattern and listed the files, and it gives, in the order of
  -- the listing, the paths that the policy shows and the expression matches: all of them, or the
  -- first 500 with `truncated` set where there are more. The storage stays as it was.
  pub glob_handler_lem :
      {S : Type 0} (st : Storage S) (decode : Bytes → Option Bytes) (ctx : Ctx) (args : Bytes)
      (env : Env) (s s' : S) (c : Content)
      → glob_handler re st decode opts ctx args env s ≡ (ok c, s')
      → (pattern : Bytes) × (r : R) × (ms : List FileMeta) × (decode args ≡ some pattern)
        × (glob_to_regexp re pattern ≡ ok r)
        × (st.list_files ctx s ≡ ok ms)
        × (c ≡ glob_content re st decode opts (limited (matching r ms)))
        × (s' ≡ s)
  unfolding glob_handler glob_decoded
  glob_handler_lem {S} st decode ctx args env s s' c h =
      let d =
        decoded {S = S} st decode ctx (decode args) s c (ap (λ (x : Result Content × S). x.0) h) in
      let (pattern, r, ms, e, f, g, k) = d in
      (pattern, r, ms, e, f, g, k, ap (λ (x : Result Content × S). x.1) (sym h))

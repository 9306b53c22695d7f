-- ===== src/Agent/VfsTools/Registered.antt =====
-- What `RegisterVFSTools` of agent/tools_register.go leaves in a registry.
use mathlib.Core.Path.{subst}
use aikido.Prelude.{
  Bool, true, false, not, ◌&&◌, Option, none, some, List, [], ◌∷◌, ◌++◌, ◌≡◌, refl, sym, ap, ◌∙◌,
  inl, inr, Bytes, codes, is_empty, text_eq, All, All-append, Bool-cases, Option-cases, if_cases,
  if◌then◌else◌,
}
use aikido.Prelude.Assoc.{lookup, insert, lookup-insert}
use aikido.Vfs.Storage.{Storage}
use aikido.Errors.{Ctx, Error, Result}
use aikido.Llm.Types.{ToolDef, ToolCall}
use aikido.Tools.Handler.{Env, Handler}
use aikido.Tools.Registry.{Registry, register, dispatch, add_tool, is_some, new_registry}
use aikido.Agent.Policy.{VfsToolOptions}
use aikido.Agent.ReadFile.{read_file_handler}
use aikido.Agent.Listing.{list_files_handler, search_handler}
use aikido.Agent.Glob.{glob_handler}
use aikido.Agent.Grep.{grep_handler}
use aikido.Agent.VfsTools.{
  Outside, Mounted, with_max_bytes, register_each, search_tool, vfs_tools, register_vfs_tools,
}

module _ {S : Type 0} where
  -- a call of the handler never changes the storage
  abbrev pub Reads : Handler S → Type 0
  Reads h = (ctx : Ctx) (args : Bytes) (env : Env) (s : S) → (h ctx args env s).1 ≡ s

  abbrev pub OnlyReads : Registry S → Type 0
  OnlyReads reg = (name : Bytes) (h : Handler S) → lookup name reg.handlers ≡ some h → Reads h

  add_tool-OnlyReads :
      (d : ToolDef) (h : Handler S) (reg : Registry S)
      → Reads h
      → OnlyReads reg
      → OnlyReads (add_tool d h reg)
  add_tool-OnlyReads d h reg p q name g e = elim (Bool-cases (text_eq d.name name)) [
    | inl k ↦
        let same : ◌≡◌ {A = Option (Handler S)} (some h) (some g) =
          ap (λ (b : Bool). if b then some h else lookup name reg.handlers) (sym k)
          ∙ sym (lookup-insert d.name name h reg.handlers)
          ∙ e in
        λ ctx args env s.
          ap (λ (f : Option (Handler S)). called f ctx args env s) (sym same) ∙ p ctx args env s
    | inr k ↦ q name g (
        ap (λ (b : Bool). if b then some h else lookup name reg.handlers) (sym k)
        ∙ sym (lookup-insert d.name name h reg.handlers)
        ∙ e)
  ]
    where
      called : Option (Handler S) → Ctx → Bytes → Env → S → S
      called none ctx args env s = s
      called (some f) ctx args env s = (f ctx args env s).1

  register-OnlyReads :
      (d : ToolDef) (h : Handler S) (reg : Registry S)
      → Reads h
      → OnlyReads reg
      → OnlyReads (register d (some h) reg).1
  unfolding register
  register-OnlyReads d h reg p q = elim (Bool-cases (is_empty d.name)) [
    | inl e ↦ rw e q
    | inr e ↦ rw e (elim (Bool-cases (is_some (lookup d.name reg.defs))) [
      | inl k ↦ rw k q
      | inr k ↦ rw k (add_tool-OnlyReads d h reg p q)
    ])
  ]

  dispatch-OnlyReads :
      (reg : Registry S) (ctx : Ctx) (call : ToolCall) (env : Env) (s : S)
      → OnlyReads reg
      → (dispatch ctx call env reg s).1 ≡ s
  unfolding dispatch
  dispatch-OnlyReads reg ctx call env s q = elim (Option-cases (lookup call.name reg.handlers)) [
    | inl e ↦ rw (e, dispatch) refl
    | inr (h, e) ↦ rw (e, dispatch) (q call.name h e ctx call.arguments env s)
  ]

  module _ {R : Type 0} (o : Outside R) where
    register_each-OnlyReads :
        (tools : List (Bytes × Handler S)) (reg : Registry S)
        → All (λ t. Reads t.1) tools
        → OnlyReads reg
        → OnlyReads (register_each o tools reg).1
    unfolding register_each
    register_each-OnlyReads [] reg a q = q
    register_each-OnlyReads ((name, h) ∷ tools) reg (p, a) q =
        let d = record (o.describe name) { name = name } in
        let q' = register-OnlyReads d h reg p q in
        elim (Option-cases (register d (some h) reg).0) [
          | inl e ↦
              rw (e, register_each) (register_each-OnlyReads tools (register d (some h) reg).1 a q')
          | inr (x, e) ↦ rw (e, register_each) q'
        ]

    reading_tools :
        (m : Mounted S) (cp : VfsToolOptions)
        → cp.is_read_only ≡ true
        → All (λ t. Reads t.1) (vfs_tools o m cp)
    unfolding vfs_tools read_file_handler list_files_handler grep_handler glob_handler
        search_handler
    reading_tools m cp e = (
      λ ctx args env s. refl,
      (
        λ ctx args env s. refl,
        All-append P _ _ (if_cases (All P) cp.is_read_only (λ h. tt) (λ h. absurd (cc (e, h)))) (
            All-append P _ _
              (if_cases (All P) cp.disable_extended (λ h. tt)
                (λ h. (
                  λ ctx args env s. refl,
                  (
                    λ ctx args env s. refl,
                    if_cases (All P) cp.is_read_only (λ k. tt) (λ k. absurd (cc (e, k))),
                  ),
                )))
              (search_reads m.search)),
      ),
    )
      where
        P : Bytes × Handler S → Type 0
        P t = Reads t.1

        search_reads :
            (find : Option (Ctx → Bytes → S → Result (List Bytes))) → All P (search_tool o cp find)
        search_reads none = tt
        search_reads (some find) = (λ ctx args env s. refl, tt)

  abbrev Left : Option (Registry S) → Type 0
  Left none = Unit
  Left (some reg) = OnlyReads reg

  -- A registry that has no handler but such as leave the storage alone still has none behind
  -- `RegisterVFSTools` with `ReadOnly`: whatever tool a model calls and whatever the arguments are,
  -- the storage stays as it was.
  pub read_only_dispatch :
      {R : Type 0} (o : Outside R) (m : Mounted S) (opts : VfsToolOptions) (reg reg' : Registry S)
      (e : Option Error) (ctx : Ctx) (call : ToolCall) (env : Env) (s : S)
      → opts.is_read_only ≡ true
      → OnlyReads reg
      → register_vfs_tools o (some reg) (some (opts, some m)) ≡ (e, some reg')
      → (dispatch ctx call env reg' s).1 ≡ s
  unfolding register_vfs_tools
  read_only_dispatch o m opts reg reg' e ctx call env s ro q h =
      dispatch-OnlyReads reg' ctx call env s (
        subst Left (ap (λ (x : Option Error × Option (Registry S)). x.1) h) (
          register_each-OnlyReads o (vfs_tools o m (with_max_bytes opts)) reg
            (reading_tools o m (with_max_bytes opts) ro) q))

abbrev pub offers : Bool → List Bytes → List Bytes
offers true names = names
offers false names = []

-- the names that the documentation of `RegisterVFSTools` lists
abbrev pub tool_names : Bool → Bool → Bool → List Bytes
tool_names is_read_only disable_extended is_searchable =
    codes "read_file"
    ∷ codes "list_files"
    ∷ (offers (not is_read_only) (codes "write_file" ∷ codes "delete_file" ∷ [])
        ++ (offers (not disable_extended) (codes "grep" ∷ codes "glob" ∷ [])
            ++ (offers (not disable_extended && not is_read_only) (codes "edit_file" ∷ [])
                ++ offers is_searchable (codes "search" ∷ []))))

module _ {R S : Type 0} (o : Outside R) where
  by_flags :
      (opts : VfsToolOptions) (ro de : Bool) (st : Storage S)
      (find : Option (Ctx → Bytes → S → Result (List Bytes)))
      → (reg : Registry S) × (register_each o
            (vfs_tools o
              (record { storage = st; search = find })
              (record opts { is_read_only = ro; disable_extended = de }))
            (new_registry S)
          ≡ (none, reg))
        × (reg.order ≡ tool_names ro de (is_some find))
  unfolding register_each vfs_tools register lookup insert text_eq
  by_flags opts true true st none = (_, refl, refl)
  by_flags opts true true st (some find) = (_, refl, refl)
  by_flags opts true false st none = (_, refl, refl)
  by_flags opts true false st (some find) = (_, refl, refl)
  by_flags opts false true st none = (_, refl, refl)
  by_flags opts false true st (some find) = (_, refl, refl)
  by_flags opts false false st none = (_, refl, refl)
  by_flags opts false false st (some find) = (_, refl, refl)

  -- On a new registry `RegisterVFSTools` succeeds and registers exactly the tools that its
  -- documentation lists for the options: the reading ones, without `ReadOnly` those that write,
  -- without `DisableExtended` grep and glob, and edit_file without both, and search where the
  -- storage has it.
  pub register_vfs_tools_lem :
      (opts : VfsToolOptions) (m : Mounted S)
      → (reg : Registry S) × (register_vfs_tools o (some (new_registry S)) (some (opts, some m))
          ≡ (none, some reg))
        × (reg.order ≡ tool_names opts.is_read_only opts.disable_extended (is_some m.search))
  unfolding register_vfs_tools
  register_vfs_tools_lem opts m =
      let (reg, e, names) =
        by_flags (with_max_bytes opts) opts.is_read_only opts.disable_extended m.storage m.search in
      (reg, ap (λ (r : Option Error × Registry S). (r.0, some r.1)) e, names)

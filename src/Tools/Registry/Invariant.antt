-- ===== src/Tools/Registry/Invariant.antt =====
-- What a registry that is built by `Register` calls keeps, and what `Dispatch` and `Defs` then do.
use mathlib.Core.List.{map-append}
use aikido.Prelude.{
  Bool, true, false, ◌||◌, Option, none, some, List, [], ◌∷◌, ◌++◌, map, ◌≡◌, refl, ◌∙◌, arith,
  Bytes, is_empty, any, text_eq, text_eq_iff, text_eq_refl, if◌then◌else◌, Bool-cases, Option-cases,
  ◌↔◌, inl, inr,
}
use aikido.Prelude.Assoc.{Assoc, lookup, insert, lookup-insert}
use aikido.Errors.{Ctx, unknown_tool, err}
use aikido.Llm.Types.{ToolDef, ToolCall}
use aikido.Tools.Handler.{Env, Handler}
use aikido.Tools.Registry.{
  Registry, new_registry, is_some, or_zero, add_tool, register, tool_defs, has, dispatch,
}

abbrev pub lists_name : Bytes → List Bytes → Bool
lists_name n = any (λ m. text_eq m n)

abbrev pub NoRepeats : List Bytes → Type 0
NoRepeats [] = Unit
NoRepeats (n ∷ ns) = (lists_name n ns ≡ false) × NoRepeats ns

any-append_one :
    (n m : Bytes) (l : List Bytes) → lists_name n (l ++ (m ∷ [])) ≡ (lists_name n l || text_eq m n)
any-append_one n m [] = ground arith
any-append_one n m (k ∷ l) = ground (arith, any-append_one n m l)

NoRepeats-append :
    (m : Bytes) (l : List Bytes) → NoRepeats l → lists_name m l ≡ false → NoRepeats (l ++ (m ∷ []))
NoRepeats-append m [] h k = (refl, tt)
NoRepeats-append m (n ∷ l) h k = (
  ground (arith, any-append_one n m l, text_eq_iff m n, text_eq_iff n m),
  NoRepeats-append m l h.1 (ground arith),
)

defs_kept :
    (d : ToolDef) (defs : Assoc ToolDef) (names : List Bytes)
    → lists_name d.name names ≡ false
    → map (λ n. or_zero (lookup n (insert d.name d defs))) names
      ≡ map (λ n. or_zero (lookup n defs)) names
defs_kept d defs [] h = refl
defs_kept d defs (n ∷ names) h = ground (
  arith,
  lookup-insert d.name n d defs,
  text_eq_iff d.name n,
  text_eq_iff n d.name,
  defs_kept d defs names,
)

module _ {W : Type 0} where
  -- The order, the definitions and the handlers hold the same names, each once and none empty,
  -- and a definition stands under its own name.
  pub record IsConsistent (r : Registry W) : Type 0 where
    pub ordered : (n : Bytes) → lists_name n r.order ≡ is_some (lookup n r.defs)
    pub handled : (n : Bytes) → is_some (lookup n r.handlers) ≡ is_some (lookup n r.defs)
    pub own_name : (n : Bytes) (d : ToolDef) → lookup n r.defs ≡ some d → d.name ≡ n
    pub once : NoRepeats r.order
    pub no_empty : lookup [] r.defs ≡ none

  pub new_registry-IsConsistent : IsConsistent (new_registry W)
  unfolding lookup
  new_registry-IsConsistent = record {
    ordered = λ n. refl;
    handled = λ n. refl;
    own_name = λ n d h. cc;
    once = tt;
    no_empty = refl;
  }

  add_tool-IsConsistent :
      (d : ToolDef) (h : Handler W) (r : Registry W)
      → is_empty d.name ≡ false
      → is_some (lookup d.name r.defs) ≡ false
      → IsConsistent r
      → IsConsistent (add_tool d h r)
  add_tool-IsConsistent d h r named fresh c = record {
    ordered = λ n.
        ground
          (arith, any-append_one n d.name r.order, lookup-insert d.name n d r.defs, c.ordered n);
    handled = λ n.
        ground (
          arith,
          lookup-insert d.name n d r.defs,
          lookup-insert d.name n h r.handlers,
          c.handled n,
        );
    own_name = λ n e k.
        ground (arith, lookup-insert d.name n d r.defs, c.own_name n e, text_eq_iff d.name n);
    once = NoRepeats-append d.name r.order c.once (c.ordered d.name ∙ fresh);
    no_empty = ground (arith, lookup-insert d.name [] d r.defs, text_eq_iff d.name [], c.no_empty);
  }

  -- `Register` keeps the three tables of a registry consistent, whatever it is given.
  pub register-IsConsistent :
      (d : ToolDef) (h : Option (Handler W)) (r : Registry W)
      → IsConsistent r
      → IsConsistent (register d h r).1
  unfolding register
  register-IsConsistent d none r c = elim (Bool-cases (is_empty d.name)) [
    | inl e ↦ rw e c
    | inr e ↦ rw e c
  ]
  register-IsConsistent d (some h) r c = elim (Bool-cases (is_empty d.name)) [
    | inl e ↦ rw e c
    | inr e ↦ elim (Bool-cases (is_some (lookup d.name r.defs))) [
      | inl k ↦ rw (e, k) c
      | inr k ↦ rw (e, k) (add_tool-IsConsistent d h r e k c)
    ]
  ]

  -- `Register` accepts a tool exactly when it has a name and a handler, and no tool of that name is
  -- there.
  pub register_accepts_iff :
      (d : ToolDef) (h : Option (Handler W)) (r : Registry W)
      → ((register d h r).0 ≡ none)
        ↔ ((is_empty d.name ≡ false) × (is_some h ≡ true) × (has d.name r ≡ false))
  unfolding register has
  register_accepts_iff d none r = ground arith
  register_accepts_iff d (some h) r = ground arith

  -- After a successful `Register` a call goes to the new handler if it has its name, and goes where
  -- it went before otherwise.
  pub dispatch-register :
      (d : ToolDef) (h : Handler W) (r : Registry W)
      → (register d (some h) r).0 ≡ none
      → (ctx : Ctx) (call : ToolCall) (env : Env) (w : W)
      → dispatch ctx call env (register d (some h) r).1 w ≡ (
          if text_eq d.name call.name
          then h ctx call.arguments env w
          else dispatch ctx call env r w)
  unfolding register dispatch
  dispatch-register d h r k ctx call env w =
      ground (arith, lookup-insert d.name call.name h r.handlers)

  -- In a consistent registry every tool that `Has` reports has a handler, and the call is the
  -- handler's.
  pub dispatch-has :
      (r : Registry W) (ctx : Ctx) (call : ToolCall) (env : Env) (w : W)
      → IsConsistent r
      → has call.name r ≡ true
      → (h : Handler W) × (lookup call.name r.handlers ≡ some h)
        × (dispatch ctx call env r w ≡ h ctx call.arguments env w)
  unfolding dispatch has
  dispatch-has r ctx call env w c k = elim (Option-cases (lookup call.name r.handlers)) [
    | inl e ↦ absurd (ground (arith, c.handled call.name))
    | inr (h, e) ↦ (h, e, rw (e, dispatch))
  ]

  -- In a consistent registry a call of a tool that `Has` denies is answered `unknown_tool`, and the
  -- world is left alone.
  pub dispatch_unknown :
      (r : Registry W) (ctx : Ctx) (call : ToolCall) (env : Env) (w : W)
      → IsConsistent r
      → has call.name r ≡ false
      → dispatch ctx call env r w ≡ (err (unknown_tool call.name), w)
  unfolding dispatch has
  dispatch_unknown r ctx call env w c k = ground (arith, c.handled call.name)

  -- A successful `Register` puts the definition behind those that `Defs` listed before.
  pub tool_defs-register :
      (d : ToolDef) (h : Handler W) (r : Registry W)
      → IsConsistent r
      → (register d (some h) r).0 ≡ none
      → tool_defs (register d (some h) r).1 ≡ tool_defs r ++ (d ∷ [])
  unfolding register tool_defs
  tool_defs-register d h r c k = ground (
    arith,
    map-append (λ n. or_zero (lookup n (insert d.name d r.defs))) r.order (d.name ∷ []),
    defs_kept d r.defs r.order,
    c.ordered d.name,
    lookup-insert d.name d.name d r.defs,
    text_eq_refl d.name,
  )

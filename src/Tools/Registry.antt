-- ===== src/Tools/Registry.antt =====
-- tools/registry.go. Each method holds the lock while it reads or writes the maps, so it is one step.
pub mod Invariant
use aikido.Prelude.{
  ℕ, Bool, true, false, Option, none, some, List, [], ◌∷◌, ◌++◌, map, Bytes, is_empty,
  if◌then◌else◌,
}
use aikido.Prelude.Assoc.{Assoc, lookup, insert}
use aikido.Errors.{
  Ctx, Error, empty_tool_name, nil_handler, duplicate_tool, unknown_tool, Result, ok, err,
}
use aikido.Llm.Types.{ToolDef, ToolCall}
use aikido.Tools.Handler.{Env, Content, Handler}

pub record Registry (W : Type 0) : Type 0 where
  pub order : List Bytes
  pub defs : Assoc ToolDef
  pub handlers : Assoc (Handler W)

abbrev pub new_registry : (W : Type 0) → Registry W
new_registry W = record { order = []; defs = []; handlers = [] }

abbrev pub is_some {ℓ} : {A : Type ℓ} → Option A → Bool
is_some none = false
is_some (some a) = true

-- the zero value, which a read of a missing key gives
abbrev pub zero_def : ToolDef
zero_def = record { name = []; description = []; parameters = [] }

abbrev pub or_zero : Option ToolDef → ToolDef
or_zero none = zero_def
or_zero (some d) = d

module _ {W : Type 0} where
  -- the registration proper, behind the checks
  abbrev pub add_tool : ToolDef → Handler W → Registry W → Registry W
  add_tool d h r = record {
    order = r.order ++ (d.name ∷ []);
    defs = insert d.name d r.defs;
    handlers = insert d.name h r.handlers;
  }

  abbrev pub with_handler : ToolDef → Option (Handler W) → Registry W → Option Error × Registry W
  with_handler d none r = (some (nil_handler d.name), r)
  with_handler d (some h) r =
      if is_some (lookup d.name r.defs)
      then (some (duplicate_tool d.name), r)
      else (none, add_tool d h r)

  -- `Register`; a nil handler is `none`
  unfoldable pub register : ToolDef → Option (Handler W) → Registry W → Option Error × Registry W
  register d h r = if is_empty d.name then (some empty_tool_name, r) else with_handler d h r

  -- `Defs`
  unfoldable pub tool_defs : Registry W → List ToolDef
  tool_defs r = map (λ name. or_zero (lookup name r.defs)) r.order

  -- `Has`
  unfoldable pub has : Bytes → Registry W → Bool
  has name r = is_some (lookup name r.defs)

  -- `Dispatch`; an unknown name leaves the world alone
  unfoldable pub dispatch : Ctx → ToolCall → Env → Registry W → W → Result Content × W
  dispatch ctx call env r w = elim (lookup call.name r.handlers) [
    | none ↦ (err (unknown_tool call.name), w)
    | some h ↦ h ctx call.arguments env w
  ]

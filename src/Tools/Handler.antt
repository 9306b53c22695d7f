-- ===== src/Tools/Handler.antt =====
-- tools/handler.go. A handler reads and changes the world `W` that it captured (a storage, say).
-- `Result.Display`, a line for a user interface that the agent loop never reads, is left out.
use aikido.Prelude.{ℕ, Bool, List, Bytes}
use aikido.Errors.{Ctx, Result}

pub record Env : Type 0 where
  pub session_id : Bytes
  pub turn_id : ℕ

-- the values that a handler puts into its `map[string]any`
pub data Value : Type 0 where
  text : Bytes → Value
  number : ℕ → Value
  flag : Bool → Value
  texts : List Bytes → Value
  -- path, size and time of files
  files : List (Bytes × (ℕ × ℕ)) → Value
  counts : List (Bytes × ℕ) → Value

-- `Result.Content`
pub data Content : Type 0 where
  nil : Content
  object : List (Bytes × Value) → Content

abbrev pub Handler : Type 0 → Type 0
Handler W = Ctx → Bytes → Env → W → Result Content × W

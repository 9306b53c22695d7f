-- ===== src/Openrouter/Assembler.antt =====
-- llm/openrouter/sse.go: `toolCallAssembler`. The map is an association list.
pub mod Order
use aikido.Prelude.{
  ℕ, Bool, true, false, Option, none, some, List, [], ◌∷◌, ◌++◌, map, Bytes, codes, is_empty, ltb,
  ◌==◌, if◌then◌else◌,
}
use aikido.Prelude.Int.{ℤ, pos, negsuc}
use aikido.Llm.Types.{ToolCall}
use aikido.Openrouter.Wire.{ToolCallFragment}

pub record PartialToolCall : Type 0 where
  pub id : Bytes
  pub name : Bytes
  pub args : Bytes

abbrev pub Parts : Type 0
Parts = List (ℤ × PartialToolCall)

abbrev pub int_eq : ℤ → ℤ → Bool
int_eq (pos a) (pos b) = a == b
int_eq (negsuc a) (negsuc b) = a == b
int_eq _ _ = false

abbrev pub int_less : ℤ → ℤ → Bool
int_less (pos a) (pos b) = ltb a b
int_less (negsuc a) (negsuc b) = ltb b a
int_less (negsuc a) (pos b) = true
int_less (pos a) (negsuc b) = false

abbrev pub new_part : PartialToolCall
new_part = record { id = []; name = []; args = [] }

-- `if old == "" && given != "" { old = given }`
abbrev pub keep_or : Bytes → Bytes → Bytes
keep_or old given = if is_empty old then given else old

abbrev pub merge : ToolCallFragment → PartialToolCall → PartialToolCall
merge frag p = record {
  id = keep_or p.id frag.id;
  name = keep_or p.name frag.name;
  args = p.args ++ frag.arguments;
}

-- `feed`: the entry of the fragment's index, made where it is missing, is merged with it
unfoldable pub feed : ToolCallFragment → Parts → Parts
feed frag [] = (frag.index, merge frag new_part) ∷ []
feed frag ((i, p) ∷ parts) =
    let rest = feed frag parts in
    if int_eq i frag.index then (i, merge frag p) ∷ parts else (i, p) ∷ rest

unfoldable pub feed_all : List ToolCallFragment → Parts → Parts
unfolding feed
feed_all [] parts = parts
feed_all (frag ∷ frags) parts = feed_all frags (feed frag parts)

-- `sort.Ints`, on the indexes with their entries
unfoldable pub put : ℤ → PartialToolCall → Parts → Parts
put i p [] = (i, p) ∷ []
put i p ((j, q) ∷ parts) =
    let rest = put i p parts in if int_less j i then (j, q) ∷ rest else (i, p) ∷ (j, q) ∷ parts

unfoldable pub sorted : Parts → Parts
unfolding put
sorted [] = []
sorted ((i, p) ∷ parts) = put i p (sorted parts)

-- `call_id` is `fmt.Sprintf("call_%d", idx)`
abbrev pub finished_call : (ℤ → Bytes) → ℤ × PartialToolCall → ToolCall
finished_call call_id (i, p) = record {
  id = if is_empty p.id then call_id i else p.id;
  name = p.name;
  arguments = if is_empty p.args then codes "{}" else p.args;
}

-- `flush`: the calls, and the emptied buffer
unfoldable pub flush_parts : (ℤ → Bytes) → Parts → List ToolCall × Parts
unfolding sorted
flush_parts call_id parts = (map (finished_call call_id) (sorted parts), [])

-- ===== src/Agent/Event.antt =====
-- agent/event.go: the events of a run, and `toolResultJSON` of agent/run.go.
use aikido.Prelude.{Bool, true, false, Option, none, some, [], ◌++◌, Bytes, codes, if◌then◌else◌}
use aikido.Errors.{Error}
use aikido.Llm.Types.{ToolCall, ImagePart, Usage}
use aikido.Tools.Handler.{Content, nil, object}

pub data EndReason : Type 0 where
  stop max_turns failed timeout cancelled : EndReason

-- `ToolResult`; `OK` is `success`
pub record ToolResult : Type 0 where
  pub call_id : Bytes
  pub name : Bytes
  pub success : Bool
  pub content : Content
  pub error : Bytes

-- One constructor for each kind; a pointer field may be nil.
pub data Event : Type 0 where
  text : Bytes → Event
  thinking : Bytes → Event
  tool_call : Option ToolCall → Event
  tool_result : Option ToolResult → Event
  image : Option ImagePart → Event
  usage : Option Usage → Event
  error : Option Error → Event
  end : EndReason → Event

-- What `json.Marshal` gives for a content: the text, or an error with its own text.
pub data Marshalled : Type 0 where
  marshalled : Bytes → Marshalled
  marshal_failed : Bytes → Marshalled

-- encoding/json and `error.Error`, which the code calls and does not implement.
pub record Json : Type 0 where
  -- `json.Marshal(map[string]any{"error": s})`
  pub error_object : Bytes → Bytes
  pub marshal : Content → Marshalled
  pub error_text : Error → Bytes

module _ (j : Json) where
  abbrev pub marshalled_content : Content → Bytes
  marshalled_content nil = codes "null"
  marshalled_content (object fields) = elim (j.marshal (object fields)) [
    | marshalled b ↦ b
    | marshal_failed message ↦ j.error_object (codes "content marshal failed: " ++ message)
  ]

  -- `toolResultJSON`
  unfoldable pub tool_result_json : ToolResult → Bytes
  tool_result_json tr =
      if tr.success then marshalled_content tr.content else j.error_object tr.error

  -- `drainToolResultJSON`, a second copy of it in agent/drain.go
  unfoldable pub drain_tool_result_json : ToolResult → Bytes
  drain_tool_result_json tr =
      if tr.success then marshalled_content tr.content else j.error_object tr.error

  -- `buildToolResult`; a panicking handler never returns to it
  unfoldable pub build_tool_result : ToolCall → Content → Option Error → ToolResult
  build_tool_result call content none = record {
    call_id = call.id;
    name = call.name;
    success = true;
    content = content;
    error = [];
  }
  build_tool_result call content (some e) = record {
    call_id = call.id;
    name = call.name;
    success = false;
    content = nil;
    error = j.error_text e;
  }

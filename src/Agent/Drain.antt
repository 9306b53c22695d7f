-- ===== src/Agent/Drain.antt =====
-- agent/drain.go: `Drain`, over the events in the order in which the channel gives them.
use aikido.Prelude.{◌&&◌, Option, none, some, List, [], ◌∷◌, ◌++◌, Bytes, is_empty, if◌then◌else◌}
use aikido.Errors.{Error}
use aikido.Llm.Types.{Role, Message, message, ToolCall, ImagePart}
use aikido.Agent.Event.{
  Event, text, thinking, tool_call, tool_result, image, usage, error, end, Json,
  drain_tool_result_json,
}

pub record Accumulated : Type 0 where
  pub msgs : List Message
  pub acc_text : Bytes
  pub acc_calls : List ToolCall
  pub acc_images : List ImagePart
  pub acc_tool_results : List Message
  pub first_err : Option Error

abbrev pub nothing : Accumulated
nothing = record {
  msgs = [];
  acc_text = [];
  acc_calls = [];
  acc_images = [];
  acc_tool_results = [];
  first_err = none;
}

abbrev pub assistant_message : Bytes → List ImagePart → List ToolCall → Message
assistant_message content images calls = record (message Role.assistant content) {
  images = images;
  tool_calls = calls;
}

abbrev pub tool_message : Bytes → Bytes → Message
tool_message call_id content = record (message Role.tool content) { tool_call_id = call_id }

-- the assistant's message that `flush` appends, if anything was gathered for it
abbrev pub gathered : Bytes → List ImagePart → List ToolCall → List Message
gathered content images calls =
    if is_empty content && (is_empty calls && is_empty images)
    then []
    else assistant_message content images calls ∷ []

unfoldable pub flush : Accumulated → Accumulated
flush a = record a {
  msgs = (a.msgs ++ gathered a.acc_text a.acc_images a.acc_calls) ++ a.acc_tool_results;
  acc_text = [];
  acc_calls = [];
  acc_images = [];
  acc_tool_results = [];
}

-- `if len(accToolResults) > 0 { flush() }`
abbrev pub flush_results : Accumulated → Accumulated
flush_results a = if is_empty a.acc_tool_results then a else flush a

abbrev pub keep_first : Option Error → Option Error → Option Error
keep_first none e = e
keep_first (some f) e = some f

module _ (j : Json) where
  unfoldable pub drain_step : Accumulated → Event → Accumulated
  unfolding flush
  drain_step a (text t) = let b = flush_results a in record b { acc_text = b.acc_text ++ t }
  drain_step a (thinking t) = a
  drain_step a (tool_call none) = a
  drain_step a (tool_call (some c)) = record a { acc_calls = a.acc_calls ++ (c ∷ []) }
  drain_step a (image none) = a
  drain_step a (image (some i)) =
      let b = flush_results a in record b { acc_images = b.acc_images ++ (i ∷ []) }
  drain_step a (tool_result none) = a
  drain_step a (tool_result (some r)) = record a {
    acc_tool_results =
        a.acc_tool_results ++ (tool_message r.call_id (drain_tool_result_json j r) ∷ []);
  }
  drain_step a (usage u) = a
  drain_step a (error e) = record a { first_err = keep_first a.first_err e }
  drain_step a (end r) = flush a

  unfoldable pub drain_from : Accumulated → List Event → Accumulated
  drain_from a [] = a
  drain_from a (e ∷ es) = drain_from (drain_step a e) es

  unfoldable pub drain : List Event → List Message × Option Error
  unfolding drain_from drain_step
  drain es = let a = drain_from nothing es in (a.msgs, a.first_err)

-- ===== src/Agent/Run.antt =====
-- agent/run.go: one agent turn. What other code answers during a run (the locker, the provider's
-- stream, the contexts, the new turn ids) is the record `Outside`; the tools' world `W` and the
-- history's state `H` are threaded through.
pub mod Induction
pub mod Ends
pub mod Stored
pub mod Transcript
use aikido.Prelude.{
  ℕ, zero, suc, ◌+◌, Bool, true, false, Option, none, some, List, [], ◌∷◌, ◌++◌, Bytes, codes,
  is_empty, if◌then◌else◌,
}
use aikido.Errors.{
  CtxError, canceled, deadline_exceeded, Ctx, Error, unknown_tool, locker_failed, read_failed,
  append_failed, stream_failed, Result, ok, err, panic,
}
use aikido.Llm.Types.{
  Role, Message, message, ToolCall, ImagePart, Usage, ToolDef, ThinkingConfig, Request, Received,
  event, done,
}
use aikido.Llm.Types as Llm
use aikido.Tools.Handler.{Env, Content, nil, Handler}
use aikido.Tools.Registry.{Registry, tool_defs, dispatch}
use aikido.Agent.History.{History}
use aikido.Agent.Event.{
  EndReason, stop, max_turns, failed, timeout, cancelled, ToolResult, Event, text, thinking,
  tool_call, tool_result, image, usage, error, end, Json, tool_result_json, build_tool_result,
}
use aikido.Agent.Drain.{assistant_message, tool_message, keep_first}

-- the fields of SessionOptions that a run reads; the timeouts act through the contexts
pub record SessionOptions (W : Type 0) : Type 0 where
  pub id : Bytes
  pub tools : Option (Registry W)
  pub model : Bytes
  pub system_prompt : Bytes
  pub turn_limit : ℕ
  pub max_tokens : ℕ
  pub temperature : Option ℕ
  pub thinking_config : Option ThinkingConfig

pub record RunOptions : Type 0 where
  pub system_suffix : Bytes
  pub thinking_override : Option ThinkingConfig

-- the answer of `Client.Stream`
pub data Stream : Type 0 where
  opened : List Received → Stream
  refused : Error → Stream

pub record Outside : Type 0 where
  -- `Locker.Lock`
  pub lock : Option Error
  -- `Client.Stream` in the given turn
  pub stream : ℕ → Request → Stream
  -- `uuid.New()` in the given turn
  pub turn_id : ℕ → ℕ
  -- `runCtx` when History and a tool are called
  pub read_ctx : Ctx
  pub append_ctx : Ctx
  pub tool_ctx : ℕ → ToolCall → Ctx
  -- `callCtx.Err()` of the given turn, and `userCtx.Err()` and `runCtx.Err()` at the exit
  pub call_ctx : ℕ → Ctx
  pub user_ctx : Ctx
  pub run_ctx : Ctx

-- `errors.Is(c, context.Canceled)` and `errors.Is(c, context.DeadlineExceeded)`
abbrev pub was_canceled : Ctx → Bool
was_canceled (some canceled) = true
was_canceled _ = false

abbrev pub was_exceeded : Ctx → Bool
was_exceeded (some deadline_exceeded) = true
was_exceeded _ = false

-- `resolveEndReason`
unfoldable pub resolve_end_reason : Ctx → Ctx → Ctx → EndReason
resolve_end_reason user_ctx run_ctx call_err =
    if was_canceled user_ctx
    then cancelled
    else if was_exceeded user_ctx
    then timeout
    else if was_exceeded run_ctx
    then timeout
    else if was_exceeded call_err
    then timeout
    else if was_canceled call_err
    then cancelled
    else failed

-- `drainProviderStream`: its results, and the events that it forwards
pub record Drained : Type 0 where
  pub content : Bytes
  pub calls : List ToolCall
  pub images : List ImagePart
  pub used : Option Usage
  pub failure : Option Error
  pub out : List Event

abbrev pub none_drained : Drained
none_drained = record {
  content = [];
  calls = [];
  images = [];
  used = none;
  failure = none;
  out = [];
}

unfoldable pub receive : Drained → Llm.Event → Drained
receive d (Llm.Event.text_delta t) = record d {
  content = d.content ++ t;
  out = d.out ++ (text t ∷ []);
}
receive d (Llm.Event.thinking t) = record d { out = d.out ++ (thinking t ∷ []) }
receive d (Llm.Event.tool_call none) = d
receive d (Llm.Event.tool_call (some c)) = record d { calls = d.calls ++ (c ∷ []) }
receive d (Llm.Event.image none) = d
receive d (Llm.Event.image (some i)) = record d {
  images = d.images ++ (i ∷ []);
  out = d.out ++ (image (some i) ∷ []);
}
receive d (Llm.Event.usage u) = record d { used = u }
receive d (Llm.Event.error e) = record d { failure = keep_first d.failure e }
receive d (Llm.Event.end r) = d

unfoldable pub drain_provider_stream : Drained → List Received → Drained
unfolding receive
drain_provider_stream d [] = d
drain_provider_stream d (done e ∷ rs) = record d { failure = some e }
drain_provider_stream d (event ev ∷ rs) = drain_provider_stream (receive d ev) rs

-- How a run ended. `appended` is the loop's local of that name; `crashed` is true where a tool
-- handler panicked, which takes the process down in the middle of the run.
pub record Outcome (W H : Type 0) : Type 0 where
  pub events : List Event
  pub world : W
  pub history : H
  pub appended : List Message
  pub crashed : Bool

-- what the calls of one turn produce
pub record Called (W : Type 0) : Type 0 where
  pub events : List Event
  pub messages : List Message
  pub world : W
  pub crashed : Bool

module _ {W : Type 0} where
  -- the events and the message of one call, in front of those of the calls behind it
  abbrev pub with_result : Json → ToolCall → ToolResult → Called W → Called W
  with_result j call tr rest = record rest {
    events = tool_call (some call) ∷ tool_result (some tr) ∷ rest.events;
    messages = tool_message call.id (tool_result_json j tr) ∷ rest.messages;
  }

  abbrev pub answered : Json → ToolCall → Result Content → W → Called W → Called W
  answered j call (ok c) w rest = with_result j call (build_tool_result j call c none) rest
  answered j call (err e) w rest = with_result j call (build_tool_result j call nil (some e)) rest
  answered j call panic w rest = record { events = []; messages = []; world = w; crashed = true }

  -- `dispatch`: without a registry every name is unknown
  unfoldable pub session_dispatch :
      Option (Registry W) → Ctx → ToolCall → Env → W → Result Content × W
  session_dispatch none ctx call env w = (err (unknown_tool call.name), w)
  session_dispatch (some r) ctx call env w = dispatch ctx call env r w

  -- the loop over the calls of one turn
  unfoldable pub run_calls : Json → SessionOptions W → Outside → ℕ → List ToolCall → W → Called W
  run_calls j opts o turn [] w = record { events = []; messages = []; world = w; crashed = false }
  run_calls j opts o turn (call ∷ calls) w =
      let env : Env = record { session_id = opts.id; turn_id = o.turn_id turn } in
      let (res, w') = session_dispatch opts.tools (o.tool_ctx turn call) call env w in
      answered j call res w' (run_calls j opts o turn calls w')

-- the events in front of a later part of the run
abbrev pub behind : {W H : Type 0} → List Event → Outcome W H → Outcome W H
behind es r = record r { events = es ++ r.events }

abbrev pub usage_events : Option Usage → List Event
usage_events none = []
usage_events (some u) = usage (some u) ∷ []

module _ {W H : Type 0} (j : Json) (hist : History H) (opts : SessionOptions W) (o : Outside)
    (use_store : Bool) (thinking_used : Option ThinkingConfig) where
  -- `emitErrEnd`
  abbrev pub err_end : Ctx → Error → List Message → W → H → Outcome W H
  err_end call_err e appended w h = record {
    events = error (some e) ∷ end (resolve_end_reason o.user_ctx o.run_ctx call_err) ∷ [];
    world = w;
    history = h;
    appended = appended;
    crashed = false;
  }

  -- the return behind the answer of `History.Append`
  abbrev pub stored : EndReason → List Message → W → Option Error × H → Outcome W H
  stored reason appended w (none, h) = record {
    events = end reason ∷ [];
    world = w;
    history = h;
    appended = appended;
    crashed = false;
  }
  stored reason appended w (some e, h) = err_end none (append_failed e) appended w h

  -- the two exits that append to the history, if one is used
  unfoldable pub finish : EndReason → List Message → W → H → Outcome W H
  finish reason appended w h =
      if use_store
      then stored reason appended w (hist.append o.append_ctx opts.id appended h)
      else stored reason appended w (none, h)

  abbrev pub defs_of : Option (Registry W) → List ToolDef
  defs_of none = []
  defs_of (some r) = tool_defs r

  abbrev pub request : List Message → Request
  request msgs = record {
    model = opts.model;
    messages = msgs;
    tools = defs_of opts.tools;
    max_tokens = opts.max_tokens;
    temperature = opts.temperature;
    thinking = thinking_used;
  }

  -- the loop over the turns: how many are left, and the number of the next
  unfoldable pub turns : ℕ → ℕ → List Message → List Message → W → H → Outcome W H
  turns zero turn msgs appended w h = finish max_turns appended w h
  turns (suc left) turn msgs appended w h = elim (o.stream turn (request msgs)) [
    | refused e ↦ err_end (o.call_ctx turn) (stream_failed e) appended w h
    | opened rs ↦
        let d = drain_provider_stream none_drained rs in
        elim d.failure [
          | some e ↦ behind d.out (err_end (o.call_ctx turn) e appended w h)
          | none ↦
              let reply = assistant_message d.content d.images d.calls in
              let out = d.out ++ usage_events d.used in
              elim d.calls [
                | [] ↦ behind out (finish stop (appended ++ (reply ∷ [])) w h)
                | c ∷ cs ↦
                    let r = run_calls j opts o turn d.calls w in
                    elim r.crashed [
                      | true ↦ record {
                        events = out ++ r.events;
                        world = r.world;
                        history = h;
                        appended = appended ++ (reply ∷ r.messages);
                        crashed = true;
                      }
                      | false ↦ behind (out ++ r.events) (
                          turns left (turn + 1) (msgs ++ (reply ∷ r.messages))
                            (appended ++ (reply ∷ r.messages)) r.world h)
                    ]
              ]
        ]
  ]

abbrev pub or_thinking : Option ThinkingConfig → Option ThinkingConfig → Option ThinkingConfig
or_thinking none t = t
or_thinking (some u) t = some u

-- the system prompt with the run's suffix
unfoldable pub system_text : Bytes → Bytes → Bytes
system_text prompt suffix =
    if is_empty suffix
    then prompt
    else (if is_empty prompt then prompt else prompt ++ codes "\n\n") ++ suffix

abbrev pub system_messages : Bytes → List Message
system_messages [] = []
system_messages (c ∷ s) = message Role.system (c ∷ s) ∷ []

module _ {W H : Type 0} (j : Json) (hist : History H) (opts : SessionOptions W) (o : Outside) where
  -- the rest of `runLoop` behind the read of the history
  unfoldable pub run_from : Bool → Bytes → RunOptions → List Message → W → H → Outcome W H
  run_from use_store user_text ro past w h =
      let user = if use_store then message Role.user user_text ∷ [] else [] in
      let system = system_messages (system_text opts.system_prompt ro.system_suffix) in
      turns j hist opts o use_store (or_thinking ro.thinking_override opts.thinking_config)
        opts.turn_limit 0 ((system ++ past) ++ user) user w h

  -- the answer of `Locker.Lock` in front of the rest of a run
  abbrev pub locked : Bool → Option Error → W → H → Outcome W H → Outcome W H
  locked use_store none w h rest = rest
  locked use_store (some e) w h rest =
      err_end j hist opts o use_store none none (locker_failed e) [] w h

  -- the answer of `History.Read` in front of the rest of a run
  abbrev pub loaded : Bytes → RunOptions → W → H → Result (List Message) → Outcome W H
  loaded user_text ro w h (ok past) = run_from true user_text ro past w h
  loaded user_text ro w h (err e) = err_end j hist opts o true none none (read_failed e) [] w h
  loaded user_text ro w h panic = record {
    events = [];
    world = w;
    history = h;
    appended = [];
    crashed = true;
  }

  -- `runLoop` with `useHistoryStore`, as `RunWithOptions` starts it
  unfoldable pub run_with_options : Bytes → RunOptions → W → H → Outcome W H
  run_with_options user_text ro w h =
      locked true o.lock w h (loaded user_text ro w h (hist.read o.read_ctx opts.id h))

  -- `runLoop` with the caller's own messages, as `RunWithMessages` starts it
  unfoldable pub run_with_messages : List Message → W → H → Outcome W H
  run_with_messages past w h =
      let ro : RunOptions = record { system_suffix = []; thinking_override = none } in
      locked false o.lock w h (run_from false [] ro past w h)

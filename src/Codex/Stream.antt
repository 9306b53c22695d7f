-- ===== src/Codex/Stream.antt =====
-- llm/codex/client.go: `processStream` and `Complete`. A line comes from the scanner together with
-- what the select of `emit` and the clock say at its event: the select always sends while the context
-- is live, and may still do so when it is over. `decode` stands for `json.Unmarshal`, and white space
-- is ASCII. A line over 4 MB or a read error ends the lines, as it ends the scanner.
pub mod Order
use aikido.Prelude.{
  ℕ, Bool, true, false, not, ◌&&◌, ◌||◌, Option, none, some, List, [], ◌∷◌, ◌++◌, Bytes, codes,
  length, is_empty, drop, text_eq, has_prefix, contains, if◌then◌else◌,
}
use aikido.Errors.{Error, Ctx, provider, Sentinel, server_error, content_filtered, check_ctx}
use aikido.Llm.Types.{Usage, Received, event, done, set_timing}
use aikido.Llm.Types as Llm
use aikido.Openrouter.Content.{trim_space}

pub record ResponseUsage : Type 0 where
  pub input_tokens : ℕ
  pub output_tokens : ℕ
  pub cached_tokens : Option ℕ

pub record ResponseError : Type 0 where
  pub code : Bytes
  pub message : Bytes

pub record ResponsePart : Type 0 where
  pub used : Option ResponseUsage
  pub failure : Option ResponseError
  pub incomplete_reason : Option Bytes

pub record StreamEvent : Type 0 where
  pub kind : Bytes
  pub delta : Bytes
  pub text : Bytes
  pub message : Bytes
  pub code : Bytes
  pub response : Option ResponsePart

pub record Line : Type 0 where
  pub text : Bytes
  -- what `emit` returns for the line's event, which is whether it was sent
  pub is_taken : Bool
  pub now : ℕ

pub data Kind : Type 0 where
  delta_kind done_kind completed_kind failed_kind other_kind : Kind

-- the `switch` on the event's type
unfoldable pub kind_of : Bytes → Kind
unfolding text_eq
kind_of t =
    if text_eq t (codes "response.output_text.delta")
    then delta_kind
    else if text_eq t (codes "response.output_text.done")
    then done_kind
    else if text_eq t (codes "response.completed") || text_eq t (codes "response.incomplete")
    then completed_kind
    else if text_eq t (codes "response.failed") || text_eq t (codes "error")
    then failed_kind
    else other_kind

-- the events behind the ones so far, and the finish reason
pub record Ending : Type 0 where
  pub events : List Llm.Event
  pub finish : Bytes

-- behind the loop: `ctx.Err()`, and whether the error of a cut stream and the EventEnd are sent
pub record Closing : Type 0 where
  pub over : Ctx
  pub is_error_taken : Bool
  pub is_end_taken : Bool

-- a context that never ends
abbrev pub undisturbed : Closing
undisturbed = record { over = none; is_error_taken = true; is_end_taken = true }

abbrev pub after_event : Llm.Event → Ending → Ending
after_event e r = record r { events = e ∷ r.events }

abbrev pub or_zero : Option ℕ → ℕ
or_zero none = 0
or_zero (some n) = n

abbrev pub reason_or_stop : Option Bytes → Bytes
reason_or_stop none = codes "stop"
reason_or_stop (some r) = if is_empty r then codes "stop" else r

abbrev pub error_of : StreamEvent → Option ResponsePart → ResponseError
error_of ev none = record { code = ev.code; message = ev.message }
error_of ev (some r) = elim r.failure [
  | none ↦ record { code = ev.code; message = ev.message }
  | some e ↦ e
]

abbrev pub is_filtered : ResponseError → Bool
is_filtered e = contains (codes "content") e.code || contains (codes "safety") e.code

abbrev pub sentinel_of : ResponseError → Sentinel
sentinel_of e = if is_filtered e then content_filtered else server_error

-- `emit` of one event
abbrev pub sent : Bool → Llm.Event → List Llm.Event
sent is_taken e = if is_taken then e ∷ [] else []

unfoldable pub failed : Bool → ResponseError → Ending
unfolding contains
failed is_taken e = record {
  events =
      sent is_taken
        (Llm.Event.error (some (provider (e.code ++ b' ' ∷ e.message) (sentinel_of e))));
  finish = if is_filtered e then codes "content_filter" else codes "error";
}

-- behind the loop: a stream that was cut, unless the context is over
abbrev pub cut_short : Bool → Ctx → Ending
cut_short is_taken none = record {
  events =
      sent is_taken
        (Llm.Event.error (some (provider (codes "stream ended before completion") server_error)));
  finish = codes "error";
}
cut_short is_taken (some c) = record { events = []; finish = [] }

module _ (decode : Bytes → Option StreamEvent) (rate : ℕ → ℕ → ℕ) (start : ℕ) where
  abbrev pub usage_of : Option ℕ → ℕ → ResponseUsage → Usage
  usage_of first now u = set_timing rate start first now (record {
    prompt_tokens = u.input_tokens;
    completion_tokens = u.output_tokens;
    cache_read_tokens = or_zero u.cached_tokens;
    cache_write_tokens = 0;
    cost_usd = 0;
    provider = [];
    latency = 0;
    duration = 0;
    tokens_per_second = 0;
  })

  abbrev pub usage_events : Option ℕ → Line → Option ResponseUsage → List Llm.Event
  usage_events first line none = []
  usage_events first line (some u) =
      sent line.is_taken (Llm.Event.usage (some (usage_of first line.now u)))

  unfoldable pub completed : Option ℕ → Line → Option ResponsePart → Ending
  completed first line none = record { events = []; finish = codes "stop" }
  completed first line (some r) = record {
    events = usage_events first line r.used;
    finish = reason_or_stop r.incomplete_reason;
  }

  -- a line without `data:` and one that is no JSON are skipped
  unfoldable pub event_of : Bytes → Option StreamEvent
  unfolding has_prefix trim_space
  event_of line =
      if has_prefix (codes "data:") line
      then decode (trim_space (drop (length (codes "data:")) line))
      else none

  abbrev pub first_or : Option ℕ → ℕ → Option ℕ
  first_or none now = some now
  first_or (some t) now = some t

  -- the `switch` for an event of the kind, with `sawDelta` and `firstOutput`; `rest` reads on
  unfoldable pub on_kind :
      Line → StreamEvent → Bool → Option ℕ → Kind → (Bool → Option ℕ → Ending) → Ending
  unfolding completed failed
  on_kind line ev saw first delta_kind rest =
      if line.is_taken
      then after_event (Llm.Event.text_delta ev.delta) (rest true (first_or first line.now))
      else record { events = []; finish = [] }
  on_kind line ev saw first done_kind rest =
      if not saw && not (is_empty ev.text) && line.is_taken
      then after_event (Llm.Event.text_delta ev.text) (rest saw first)
      else rest saw first
  on_kind line ev saw first completed_kind rest = completed first line ev.response
  on_kind line ev saw first failed_kind rest = failed line.is_taken (error_of ev ev.response)
  on_kind line ev saw first other_kind rest = rest saw first

  unfoldable pub on_event :
      Line → Option StreamEvent → Bool → Option ℕ → (Bool → Option ℕ → Ending) → Ending
  unfolding kind_of on_kind
  on_event line none saw first rest = rest saw first
  on_event line (some ev) saw first rest = on_kind line ev saw first (kind_of ev.kind) rest

  -- the loop over the lines
  unfoldable pub read_lines : Closing → Bool → Option ℕ → List Line → Ending
  unfolding event_of on_event
  read_lines last saw first [] = cut_short last.is_error_taken last.over
  read_lines last saw first (line ∷ lines) =
      on_event line (event_of line.text) saw first
        (λ saw' first'. read_lines last saw' first' lines)

  -- what `processStream` sends, with the deferred EventEnd
  unfoldable pub process_stream : Closing → List Line → List Llm.Event
  unfolding read_lines
  process_stream last lines =
      let r = read_lines last false none lines in
      r.events ++ sent last.is_end_taken (Llm.Event.end r.finish)

-- llm.Response, and the error that comes with it
pub record Response : Type 0 where
  pub text : Bytes
  pub used : Option Usage
  pub finish_reason : Bytes
  pub failure : Option Error

abbrev pub no_response : Response
no_response = record { text = []; used = none; finish_reason = []; failure = none }

abbrev pub take_event : Response → Llm.Event → Response
take_event r (Llm.Event.text_delta t) = record r { text = r.text ++ t }
take_event r (Llm.Event.usage u) = record r { used = u }
take_event r (Llm.Event.error e) = record r { failure = e }
take_event r (Llm.Event.end f) = record r { finish_reason = f }
take_event r _ = r

unfoldable pub take_events : Response → List Llm.Event → Response
take_events r [] = r
take_events r (e ∷ es) = take_events (take_event r e) es

abbrev pub or_ctx : Option Error → Ctx → Option Error
or_ctx none ctx = check_ctx ctx
or_ctx (some e) ctx = some e

-- `Complete` behind a stream that opened; `ctx` is what the context says at its end
unfoldable pub complete : Ctx → List Llm.Event → Response
unfolding take_events
complete ctx es = let r = take_events no_response es in record r { failure = or_ctx r.failure ctx }

-- ===== src/Openrouter/Stream.antt =====
-- llm/openrouter/sse.go: `processStream`. A line comes from the scanner together with what the context
-- and the clock say while it is read; white space is ASCII. The code goes on in the same way whether
-- `emit` sends an event or drops it, so that the events are first gathered and then sent.
pub mod Effects
pub mod Counts
pub mod Delivery
pub mod Order
use aikido.Prelude.{
  ℕ, Bool, true, false, not, ◌&&◌, ◌||◌, Option, none, some, List, [], ◌∷◌, ◌++◌, map, Bytes, codes,
  length, is_empty, drop, ◌==◌, text_eq, has_prefix, if◌then◌else◌,
}
use aikido.Errors.{Error, provider, Sentinel, server_error, content_filtered}
use aikido.Llm.Types.{ToolCall, ImagePart, Usage, set_timing}
use aikido.Llm.Types as Llm
use aikido.Openrouter.Wire.{
  Codec, StreamDelta, StreamChoice, StreamChunk, ApiUsage, ApiImagePart, ApiError, has_output,
  chunk_usage,
}
use aikido.Openrouter.Assembler.{Parts, feed_all, flush_parts}
use aikido.Openrouter.Content.{
  decode_delta_content, decode_api_image_part, is_content_filter_error_envelope, trim_right,
  trim_space,
}

pub record Line : Type 0 where
  pub text : Bytes
  -- `ctx.Err() != nil` when the line is read
  pub is_over : Bool
  -- `time.Now()` at the line's first output and at its usage
  pub output_time : ℕ
  pub usage_time : ℕ

-- the variables of `processStream`, and the events so far
pub record Reading : Type 0 where
  pub parts : Parts
  pub saw_error : Bool
  pub usage_sent : Bool
  pub first_output : Option ℕ
  pub end_finish_reason : Bytes
  pub out : List Llm.Event

abbrev pub new_reading : Reading
new_reading = record {
  parts = [];
  saw_error = false;
  usage_sent = false;
  first_output = none;
  end_finish_reason = [];
  out = [];
}

-- `emit`: whether its select sends the event or sees the end of the context, for one event after the
-- other; it sends those behind the end of the list. It always sends while the context is live, and
-- may still do so when the context is over.
abbrev pub received : List Bool → List Llm.Event → List Llm.Event
received sends [] = []
received [] (e ∷ es) = e ∷ es
received (true ∷ sends) (e ∷ es) = e ∷ received sends es
received (false ∷ sends) (e ∷ es) = received sends es

abbrev pub call_events : List ToolCall → List Llm.Event
call_events calls = map (λ c. Llm.Event.tool_call (some c)) calls

abbrev pub image_events : List ImagePart → List Llm.Event
image_events images = map (λ i. Llm.Event.image (some i)) images

abbrev pub text_events : Bytes → List Llm.Event
text_events [] = []
text_events (c ∷ s) = Llm.Event.text_delta (c ∷ s) ∷ []

abbrev pub thinking_events : Bytes → List Llm.Event
thinking_events [] = []
thinking_events (c ∷ s) = Llm.Event.thinking (c ∷ s) ∷ []

-- what the call is measured with: its start, and the quotient of tokens and time
pub record Timing : Type 0 where
  pub start : ℕ
  pub rate : ℕ → ℕ → ℕ

module _ (w : Codec) (t : Timing) where
  -- `emitAssembledCalls(ctx, out, asm.flush())`
  unfoldable pub emit_calls : Reading → Reading
  unfolding flush_parts
  emit_calls r =
      let (calls, parts) = flush_parts w.call_id r.parts in
      record r { parts = parts; out = r.out ++ call_events calls }

  abbrev pub part_events : Option ImagePart → List Llm.Event
  part_events none = []
  part_events (some i) = Llm.Event.image (some i) ∷ []

  unfoldable pub api_image_events : List ApiImagePart → List Llm.Event
  unfolding decode_api_image_part
  api_image_events [] = []
  api_image_events (p ∷ ps) = part_events (decode_api_image_part w p) ++ api_image_events ps

  -- `emitPayload`
  unfoldable pub emit_payload : StreamDelta → Reading → Reading
  unfolding decode_delta_content feed_all
  emit_payload p r =
      let (text, images) = decode_delta_content w p.content in
      record r {
        parts = feed_all p.tool_calls r.parts;
        out =
            r.out
            ++ (((text_events text ++ image_events images) ++ thinking_events p.reasoning)
                ++ api_image_events p.images);
      }

  abbrev pub usage_event : Line → Bytes → ApiUsage → Reading → Llm.Event
  usage_event line name u r =
      Llm.Event.usage
        (some (set_timing t.rate t.start r.first_output line.usage_time (chunk_usage name u)))

  -- `emitUsage`
  abbrev pub emit_first_usage : Line → Bytes → Option ApiUsage → Reading → Reading
  emit_first_usage line name none r = r
  emit_first_usage line name (some u) r =
      if r.usage_sent
      then r
      else record r { usage_sent = true; out = r.out ++ (usage_event line name u r ∷ []) }

  unfoldable pub emit_usage : Line → StreamChunk → Reading → Reading
  emit_usage line c r = emit_first_usage line c.provider c.used r

  -- the event of an error, which sets `sawError`
  abbrev pub emit_error : Bytes → Sentinel → Reading → Reading
  emit_error message cause r = record r {
    saw_error = true;
    out = r.out ++ (Llm.Event.error (some (provider message cause)) ∷ []);
  }

  abbrev pub or_provider_error : Bytes → Bytes
  or_provider_error m = if is_empty m then codes "provider error" else m

  -- a chunk with a top-level error envelope
  unfoldable pub error_envelope : Line → StreamChunk → ApiError → Reading → Reading
  unfolding emit_calls emit_usage is_content_filter_error_envelope
  error_envelope line c e r =
      let r' = emit_usage line c (emit_calls r) in
      if is_content_filter_error_envelope w e
      then emit_error (or_provider_error e.message) content_filtered
          (record r' { end_finish_reason = codes "content_filter" })
      else emit_error (or_provider_error e.message) server_error
          (record r' { end_finish_reason = codes "error" })

  -- the switch over a `finish_reason`
  unfoldable pub finish_choice : Bytes → Reading → Reading
  unfolding emit_calls
  finish_choice reason r =
      let r' = record r { end_finish_reason = reason } in
      if text_eq reason (codes "error")
      then if r.saw_error
        then r'
        else emit_error (codes "finish_reason=error") server_error (emit_calls r')
      else if text_eq reason (codes "content_filter")
      then emit_error (codes "finish_reason=content_filter") content_filtered (emit_calls r')
      else emit_calls r'

  abbrev pub message_has_output : Option StreamDelta → Bool
  message_has_output none = false
  message_has_output (some m) = has_output m

  abbrev pub first_time : Option ℕ → ℕ → Option ℕ
  first_time none now = some now
  first_time (some first) now = some first

  abbrev pub mark_output : Line → StreamChoice → Reading → Reading
  mark_output line ch r =
      if has_output ch.delta || message_has_output ch.message
      then record r { first_output = first_time r.first_output line.output_time }
      else r

  abbrev pub emit_message : Option StreamDelta → Reading → Reading
  emit_message none r = r
  emit_message (some m) r = emit_payload m r

  abbrev pub finish_if : Option Bytes → Reading → Reading
  finish_if none r = r
  finish_if (some reason) r = finish_choice reason r

  -- the body of the loop over the choices
  unfoldable pub choice_step : Line → StreamChoice → Reading → Reading
  unfolding emit_payload finish_choice
  choice_step line ch r =
      finish_if ch.finish_reason
        (emit_message ch.message (emit_payload ch.delta (mark_output line ch r)))

  unfoldable pub choice_steps : Line → List StreamChoice → Reading → Reading
  unfolding choice_step
  choice_steps line [] r = r
  choice_steps line (ch ∷ chs) r = choice_steps line chs (choice_step line ch r)

  -- a decoded chunk
  abbrev pub chunk_error_step : Line → StreamChunk → Option ApiError → Reading → Reading
  chunk_error_step line c (some e) r = error_envelope line c e r
  chunk_error_step line c none r = emit_usage line c (choice_steps line c.choices r)

  unfoldable pub chunk_step : Line → StreamChunk → Reading → Reading
  unfolding error_envelope choice_steps emit_usage
  chunk_step line c r =
      if r.saw_error then emit_usage line c r else chunk_error_step line c c.error r

  -- what a line asks for
  pub data Read : Type 0 where
    skip finished : Read
    chunk : StreamChunk → Read

  abbrev pub payload_read : Bytes → Read
  payload_read payload =
      if text_eq payload (codes "[DONE]")
      then finished
      else if is_empty payload
      then skip
      else elim (w.chunk payload) [ none ↦ skip | some c ↦ chunk c ]

  -- the guards in front of a chunk; an empty line and a comment have no `data:` either
  unfoldable pub read_line : Bytes → Read
  unfolding trim_space trim_right
  read_line text =
      let line = trim_right (λ c. c == b'\r') text in
      if is_empty line
      then skip
      else if has_prefix (b':' ∷ []) line
      then skip
      else if not (has_prefix (codes "data:") line)
      then skip
      else payload_read (trim_space (drop (length (codes "data:")) line))

  -- behind the loop: a failed read is an error, if none was seen
  unfoldable pub after_lines : Bool → Reading → Reading
  unfolding emit_calls
  after_lines scan_failed r =
      if scan_failed && not r.saw_error
      then emit_error (codes "read") server_error (emit_calls r)
      else r

  -- the loop over the lines; `scan_failed` is `scanner.Err() != nil` behind it
  unfoldable pub read_lines : Bool → List Line → Reading → Reading
  unfolding after_lines chunk_step read_line
  read_lines scan_failed [] r = after_lines scan_failed r
  read_lines scan_failed (line ∷ lines) r = elim line.is_over [
    | true ↦ r
    | false ↦ elim (read_line line.text) [
      | skip ↦ read_lines scan_failed lines r
      | finished ↦ after_lines scan_failed r
      | chunk c ↦ read_lines scan_failed lines (chunk_step line c r)
    ]
  ]

  -- the events that are handed to `emit`, with the deferred EventEnd
  unfoldable pub emitted : Bool → List Line → List Llm.Event
  unfolding read_lines
  emitted scan_failed lines =
      let r = read_lines scan_failed lines new_reading in
      r.out ++ (Llm.Event.end r.end_finish_reason ∷ [])

  -- `processStream`, with what the select of `emit` does for each event
  unfoldable pub process_stream : List Bool → Bool → List Line → List Llm.Event
  unfolding emitted
  process_stream sends scan_failed lines = received sends (emitted scan_failed lines)

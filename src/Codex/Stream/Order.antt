-- ===== src/Codex/Stream/Order.antt =====
-- The order of the events of `processStream` in llm/codex/client.go, and `Complete` as `llm.Collect`.
use aikido.Prelude.{
  ℕ, Bool, true, false, not, ◌&&◌, Option, none, some, List, [], ◌∷◌, ◌++◌, map, ◌≡◌, refl, ap, ◌∙◌,
  Bytes, codes, is_empty, if_cases, Bool-cases, Option-cases, inl, inr, if◌then◌else◌,
}
use aikido.Errors.{Error, Ctx, Sentinel, provider}
use aikido.Llm.Types.{Usage, event}
use aikido.Llm.Types as Llm
use aikido.Llm.Collect.{
  Collected, none_collected, collect_from, collect, gather, stream, is_content_filtered,
}
use aikido.Codex.Stream.{
  StreamEvent, ResponsePart, ResponseError, Line, Kind, delta_kind, done_kind, completed_kind,
  failed_kind, other_kind, kind_of, Ending, Closing, sent, error_of, is_filtered, failed, cut_short,
  completed, event_of, first_or, on_kind, on_event, or_ctx, read_lines, process_stream, Response,
  no_response, take_events, complete,
}

abbrev pub finish_of : Sentinel → Bytes
finish_of s = if is_content_filtered s then codes "content_filter" else codes "error"

-- texts, and then nothing, a usage, or an error with the finish reason that fits it, and the end,
-- which stands there if it was sent
pub data Shaped (is_end_taken : Bool) : List Llm.Event → Type 0 where
  ended : (f : Bytes) → Shaped is_end_taken (sent is_end_taken (Llm.Event.end f))
  used_up :
      {u : Usage} (f : Bytes)
      → Shaped is_end_taken (Llm.Event.usage (some u) ∷ sent is_end_taken (Llm.Event.end f))
  failed_with :
      {m : Bytes} {s : Sentinel}
      → Shaped is_end_taken
          (Llm.Event.error (some (provider m s)) ∷ sent is_end_taken (Llm.Event.end (finish_of s)))
  spoken :
      {t : Bytes} {es : List Llm.Event}
      → Shaped is_end_taken es
      → Shaped is_end_taken (Llm.Event.text_delta t ∷ es)

abbrev Fine : Bool → Ending → Type 0
Fine b r = Shaped b (r.events ++ sent b (Llm.Event.end r.finish))

-- an event that is sent or not
sent-Shaped :
    (b is_taken : Bool) (e : Llm.Event) (f : Bytes)
    → Shaped b (e ∷ sent b (Llm.Event.end f))
    → Shaped b (sent is_taken e ++ sent b (Llm.Event.end f))
sent-Shaped b true e f h = h
sent-Shaped b false e f h = (ended _)

failed-Fine : (b is_taken : Bool) (e : ResponseError) → Fine b (failed is_taken e)
unfolding failed
failed-Fine b t e = elim (Bool-cases (is_filtered e)) [
  | inl h ↦ rw (h, failed) (sent-Shaped b t _ _ failed_with)
  | inr h ↦ rw (h, failed) (sent-Shaped b t _ _ failed_with)
]

cut_short-Fine : (b is_taken : Bool) (over : Ctx) → Fine b (cut_short is_taken over)
cut_short-Fine b t none = sent-Shaped b t _ _ failed_with
cut_short-Fine b t (some c) = (ended _)

module _ (decode : Bytes → Option StreamEvent) (rate : ℕ → ℕ → ℕ) (start : ℕ) (b : Bool) where
  completed-Fine :
      (first : Option ℕ) (line : Line) (p : Option ResponsePart)
      → Fine b (completed decode rate start first line p)
  unfolding completed
  completed-Fine first line none = (ended _)
  completed-Fine first line (some r) = elim (Option-cases r.used) [
    | inl e ↦ rw (e, completed) (ended _)
    | inr (u, e) ↦ rw (e, completed) (sent-Shaped b line.is_taken _ _ (used_up _))
  ]

  on_kind-Fine :
      (line : Line) (ev : StreamEvent) (saw : Bool) (first : Option ℕ) (k : Kind)
      (rest : Bool → Option ℕ → Ending)
      → ((saw' : Bool) (first' : Option ℕ) → Fine b (rest saw' first'))
      → Fine b (on_kind decode rate start line ev saw first k rest)
  unfolding on_kind
  on_kind-Fine line ev saw first delta_kind rest h =
      if_cases (Fine b) line.is_taken
        (λ e. spoken (h true (first_or decode rate start first line.now))) (λ e. (ended _))
  on_kind-Fine line ev saw first done_kind rest h =
      if_cases (Fine b) (not saw && not (is_empty ev.text) && line.is_taken)
        (λ e. spoken (h saw first)) (λ e. h saw first)
  on_kind-Fine line ev saw first completed_kind rest h = completed-Fine first line ev.response
  on_kind-Fine line ev saw first failed_kind rest h =
      failed-Fine b line.is_taken (error_of ev ev.response)
  on_kind-Fine line ev saw first other_kind rest h = h saw first

  on_event-Fine :
      (line : Line) (ev : Option StreamEvent) (saw : Bool) (first : Option ℕ)
      (rest : Bool → Option ℕ → Ending)
      → ((saw' : Bool) (first' : Option ℕ) → Fine b (rest saw' first'))
      → Fine b (on_event decode rate start line ev saw first rest)
  unfolding on_event
  on_event-Fine line none saw first rest h = h saw first
  on_event-Fine line (some ev) saw first rest h =
      on_kind-Fine line ev saw first (kind_of ev.kind) rest h

  read_lines-Fine :
      (last : Closing) (saw : Bool) (first : Option ℕ) (lines : List Line)
      → Fine b (read_lines decode rate start last saw first lines)
  unfolding read_lines
  read_lines-Fine last saw first [] = cut_short-Fine b last.is_error_taken last.over
  read_lines-Fine last saw first (line ∷ lines) =
      on_event-Fine line (event_of decode rate start line.text) saw first _
        (λ saw' first'. read_lines-Fine last saw' first' lines)

-- Whatever the lines hold and the selects do, the Codex stream is texts, then nothing more, one
-- usage, or one error, and last its only EventEnd, if the select sends that; the finish reason behind
-- an error is "content_filter" for filtered content and "error" for all else.
pub process_stream-Shaped :
    (decode : Bytes → Option StreamEvent) (rate : ℕ → ℕ → ℕ) (start : ℕ) (last : Closing)
    (lines : List Line)
    → Shaped last.is_end_taken (process_stream decode rate start last lines)
unfolding process_stream
process_stream-Shaped decode rate start last lines =
    read_lines-Fine decode rate start last.is_end_taken last false none lines

-- one result says what the other does
record Agrees (r : Response) (c : Collected) : Type 0 where
  texts : r.text ≡ c.content
  usages : r.used ≡ c.used
  failures : r.failure ≡ c.failure

take_events-Agrees :
    (b : Bool) (r : Response) (c : Collected) (es : List Llm.Event)
    → Shaped b es
    → Agrees r c
    → Agrees (take_events r es) (collect_from c (map event es))
unfolding take_events collect_from gather
take_events-Agrees true r c _ (ended f) a = record {
  texts = a.texts;
  usages = a.usages;
  failures = a.failures;
}
take_events-Agrees false r c _ (ended f) a = a
take_events-Agrees true r c _ (used_up f) a = record {
  texts = a.texts;
  usages = refl;
  failures = a.failures;
}
take_events-Agrees false r c _ (used_up f) a = record {
  texts = a.texts;
  usages = refl;
  failures = a.failures;
}
take_events-Agrees true r c _ failed_with a = record {
  texts = a.texts;
  usages = a.usages;
  failures = refl;
}
take_events-Agrees false r c _ failed_with a = record {
  texts = a.texts;
  usages = a.usages;
  failures = refl;
}
take_events-Agrees b r c _ (spoken {t} {es} s) a = take_events-Agrees b _ _ es s (record {
  texts = ap (λ (b : Bytes). b ++ t) a.texts;
  usages = a.usages;
  failures = a.failures;
})

-- `Complete` of the Codex client, with a context that is not over, gives the text, the usage and the
-- error that `llm.Collect` gives for the same stream.
pub complete-collect :
    (decode : Bytes → Option StreamEvent) (rate : ℕ → ℕ → ℕ) (start : ℕ) (last : Closing)
    (lines : List Line)
    → let es = process_stream decode rate start last lines in
      ((complete none es).text ≡ (collect (stream (map event es))).content)
      × ((complete none es).used ≡ (collect (stream (map event es))).used)
      × ((complete none es).failure ≡ (collect (stream (map event es))).failure)
unfolding complete collect
complete-collect decode rate start last lines =
    let es = process_stream decode rate start last lines in
    let a =
      take_events-Agrees last.is_end_taken no_response none_collected es
        (process_stream-Shaped decode rate start last lines)
        (record { texts = refl; usages = refl; failures = refl }) in
    (a.texts, a.usages, without_ctx (take_events no_response es).failure ∙ a.failures)
  where
    without_ctx : (e : Option Error) → or_ctx e none ≡ e
    without_ctx none = refl
    without_ctx (some e) = refl

-- ===== src/Openrouter/Stream/Effects.antt =====
-- What each step of `processStream` adds to the events.
use aikido.Prelude.{
  Bool, true, false, ◌||◌, Option, none, some, List, [], ◌∷◌, ◌++◌, ◌≡◌, refl, sym, ap, ◌∙◌, Bytes,
  codes, All, All-append, Bool-cases, inl, inr, if_cases, append-nil, append_assoc, text_eq,
}
use aikido.Errors.{Error}
use aikido.Llm.Types.{ToolCall, ImagePart, Usage}
use aikido.Llm.Types as Llm
use aikido.Openrouter.Wire.{
  Codec, StreamDelta, StreamChoice, StreamChunk, ApiUsage, ApiImagePart, ApiError, has_output,
}
use aikido.Openrouter.Assembler.{flush_parts}
use aikido.Openrouter.Content.{
  decode_delta_content, decode_api_image_part, is_content_filter_error_envelope,
}
use aikido.Openrouter.Stream.{
  Line, Reading, Timing, call_events, image_events, text_events, thinking_events, part_events,
  api_image_events, emit_calls, emit_payload, emit_first_usage, emit_usage, error_envelope,
  finish_choice, message_has_output, mark_output, emit_message, finish_if, choice_step,
}

-- text, thinking, an image or a tool call
abbrev pub is_plain : Llm.Event → Bool
is_plain (Llm.Event.usage u) = false
is_plain (Llm.Event.error e) = false
is_plain (Llm.Event.end r) = false
is_plain _ = true

abbrev pub IsPlain : Llm.Event → Type 0
IsPlain e = is_plain e ≡ true

-- plain events are added, and the flags stay
pub record Adds (r r' : Reading) : Type 0 where
  pub new : List Llm.Event
  pub split : r'.out ≡ r.out ++ new
  pub plain : All IsPlain new
  pub same_usage : r'.usage_sent ≡ r.usage_sent
  pub same_error : r'.saw_error ≡ r.saw_error

-- nothing happens, or the first usage is added
pub data Pays (r r' : Reading) : Type 0 where
  idle : r' ≡ r → Pays r r'
  charges :
      (u : Option Usage)
      → r'.out ≡ r.out ++ (Llm.Event.usage u ∷ [])
      → r.usage_sent ≡ false
      → r'.usage_sent ≡ true
      → r'.saw_error ≡ r.saw_error
      → Pays r r'

-- plain events are added, with or without an error behind them
pub data Effect (r r' : Reading) : Type 0 where
  quiet : Adds r r' → Effect r r'
  errs :
      (m : Reading) (e : Option Error)
      → Adds r m
      → r'.out ≡ m.out ++ (Llm.Event.error e ∷ [])
      → r'.usage_sent ≡ m.usage_sent
      → r'.saw_error ≡ true
      → Effect r r'

pub Adds-trans : {r s u : Reading} → Adds r s → Adds s u → Adds r u
Adds-trans {r} a b = record {
  new = a.new ++ b.new;
  split =
      b.split ∙ ap (λ (l : List Llm.Event). l ++ b.new) a.split ∙ append_assoc r.out a.new b.new;
  plain = All-append IsPlain a.new b.new a.plain b.plain;
  same_usage = b.same_usage ∙ a.same_usage;
  same_error = b.same_error ∙ a.same_error;
}

pub Adds-same :
    (r r' : Reading)
    → r'.out ≡ r.out
    → r'.usage_sent ≡ r.usage_sent
    → r'.saw_error ≡ r.saw_error
    → Adds r r'
Adds-same r r' o u e = record {
  new = [];
  split = o ∙ sym (append-nil r.out);
  plain = tt;
  same_usage = u;
  same_error = e;
}

call_events-plain : (calls : List ToolCall) → All IsPlain (call_events calls)
call_events-plain [] = tt
call_events-plain (c ∷ calls) = (refl, call_events-plain calls)

image_events-plain : (images : List ImagePart) → All IsPlain (image_events images)
image_events-plain [] = tt
image_events-plain (i ∷ images) = (refl, image_events-plain images)

text_events-plain : (s : Bytes) → All IsPlain (text_events s)
text_events-plain [] = tt
text_events-plain (c ∷ s) = (refl, tt)

thinking_events-plain : (s : Bytes) → All IsPlain (thinking_events s)
thinking_events-plain [] = tt
thinking_events-plain (c ∷ s) = (refl, tt)

module _ (w : Codec) (t : Timing) where
  part_events-plain : (i : Option ImagePart) → All IsPlain (part_events w t i)
  part_events-plain none = tt
  part_events-plain (some i) = (refl, tt)

  api_image_events-plain : (ps : List ApiImagePart) → All IsPlain (api_image_events w t ps)
  unfolding api_image_events
  api_image_events-plain [] = tt
  api_image_events-plain (p ∷ ps) =
      All-append IsPlain (part_events w t (decode_api_image_part w p)) (api_image_events w t ps)
        (part_events-plain (decode_api_image_part w p)) (api_image_events-plain ps)

  pub emit_calls-Adds : (r : Reading) → Adds r (emit_calls w t r)
  unfolding emit_calls
  emit_calls-Adds r = record {
    new = call_events (flush_parts w.call_id r.parts).0;
    split = refl;
    plain = call_events-plain (flush_parts w.call_id r.parts).0;
    same_usage = refl;
    same_error = refl;
  }

  emit_payload-Adds : (p : StreamDelta) (r : Reading) → Adds r (emit_payload w t p r)
  unfolding emit_payload
  emit_payload-Adds p r =
      let d = decode_delta_content w p.content in
      let content = text_events d.0 ++ image_events d.1 in
      record {
        new = (content ++ thinking_events p.reasoning) ++ api_image_events w t p.images;
        split = refl;
        plain =
            All-append IsPlain (content ++ thinking_events p.reasoning)
              (api_image_events w t p.images)
              (All-append IsPlain content (thinking_events p.reasoning)
                (All-append IsPlain (text_events d.0) (image_events d.1) (text_events-plain d.0)
                  (image_events-plain d.1))
                (thinking_events-plain p.reasoning))
              (api_image_events-plain p.images);
        same_usage = refl;
        same_error = refl;
      }

  mark_output-Adds :
      (line : Line) (ch : StreamChoice) (r : Reading) → Adds r (mark_output w t line ch r)
  mark_output-Adds line ch r =
      elim (Bool-cases (has_output ch.delta || message_has_output w t ch.message)) [
        | inl h ↦ rw h (Adds-same r _ refl refl refl)
        | inr h ↦ rw h (Adds-same r r refl refl refl)
      ]

  emit_message-Adds : (m : Option StreamDelta) (r : Reading) → Adds r (emit_message w t m r)
  emit_message-Adds none r = Adds-same r r refl refl refl
  emit_message-Adds (some m) r = emit_payload-Adds m r

  finish_choice-Effect :
      (reason : Bytes) (before r : Reading)
      → Adds before r
      → Effect before (finish_choice w t reason r)
  unfolding finish_choice
  finish_choice-Effect reason before r a =
      let r' : Reading = record r { end_finish_reason = reason } in
      let same : Adds before r' = Adds-trans a (Adds-same r r' refl refl refl) in
      let calls : Adds before (emit_calls w t r') = Adds-trans same (emit_calls-Adds r') in
      if_cases (Effect before) (text_eq reason (codes "error"))
        (λ h.
          if_cases (Effect before) r.saw_error (λ k. quiet same)
            (λ k. errs (emit_calls w t r') _ calls refl refl refl))
        (λ h.
          if_cases (Effect before) (text_eq reason (codes "content_filter"))
            (λ k. errs (emit_calls w t r') _ calls refl refl refl) (λ k. quiet calls))

  finish_if-Effect :
      (reason : Option Bytes) (before r : Reading)
      → Adds before r
      → Effect before (finish_if w t reason r)
  finish_if-Effect none before r a = quiet a
  finish_if-Effect (some reason) before r a = finish_choice-Effect reason before r a

  pub choice_step-Effect :
      (line : Line) (ch : StreamChoice) (r : Reading) → Effect r (choice_step w t line ch r)
  unfolding choice_step
  choice_step-Effect line ch r =
      let marked = mark_output w t line ch r in
      let sent = emit_payload w t ch.delta marked in
      finish_if-Effect ch.finish_reason r (emit_message w t ch.message sent) (
        Adds-trans (mark_output-Adds line ch r)
          (Adds-trans (emit_payload-Adds ch.delta marked) (emit_message-Adds ch.message sent)))

  first_usage-Pays :
      (line : Line) (name : Bytes) (u : Option ApiUsage) (r : Reading)
      → Pays r (emit_first_usage w t line name u r)
  first_usage-Pays line name none r = idle refl
  first_usage-Pays line name (some u) r =
      if_cases (Pays r) r.usage_sent (λ h. idle refl) (λ h. charges _ refl h refl refl)

  first_usage-saw_error :
      (line : Line) (name : Bytes) (u : Option ApiUsage) (r : Reading)
      → (emit_first_usage w t line name u r).saw_error ≡ r.saw_error
  first_usage-saw_error line name none r = refl
  first_usage-saw_error line name (some u) r =
      if_cases (λ (x : Reading). x.saw_error ≡ r.saw_error) r.usage_sent (λ h. refl) (λ h. refl)

  pub emit_usage-Pays :
      (line : Line) (c : StreamChunk) (r : Reading) → Pays r (emit_usage w t line c r)
  unfolding emit_usage
  emit_usage-Pays line c r = first_usage-Pays line c.provider c.used r

  -- the flag of errors is left alone
  pub emit_usage-saw_error :
      (line : Line) (c : StreamChunk) (r : Reading)
      → (emit_usage w t line c r).saw_error ≡ r.saw_error
  unfolding emit_usage
  emit_usage-saw_error line c r = first_usage-saw_error line c.provider c.used r

  -- the last step for an error envelope
  pub error_envelope-Effect :
      (line : Line) (c : StreamChunk) (e : ApiError) (r : Reading)
      → Effect (emit_usage w t line c (emit_calls w t r)) (error_envelope w t line c e r)
  unfolding error_envelope
  error_envelope-Effect line c e r =
      let m = emit_usage w t line c (emit_calls w t r) in
      if_cases (Effect m) (is_content_filter_error_envelope w e)
        (λ h. errs m _ (Adds-same m m refl refl refl) refl refl refl)
        (λ h. errs m _ (Adds-same m m refl refl refl) refl refl refl)

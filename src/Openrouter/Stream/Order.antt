-- ===== src/Openrouter/Stream/Order.antt =====
-- The order of the events of a stream: one end, one usage, and nothing but usage behind an error.
use aikido.Prelude.{
  ℕ, ◌≤◌, Bool, true, false, not, ◌&&◌, Option, none, some, List, [], ◌∷◌, ◌++◌, ◌≡◌, refl, ◌∙◌,
  ◌⊎◌, arith, Bytes, codes, All, length, length-append, drop, ◌+◌, Bool-cases, inl, inr, if_cases,
  if◌then◌else◌,
}
use aikido.Errors.{server_error}
use aikido.Llm.Types as Llm
use aikido.Llm.Types.{Usage}
use aikido.Openrouter.Wire.{Codec, StreamChunk, StreamChoice, ApiError}
use aikido.Openrouter.Stream.{
  Line, Reading, new_reading, Timing, emit_calls, emit_error, choice_step, choice_steps,
  chunk_error_step, chunk_step, skip, finished, chunk, read_line, after_lines, read_lines,
  process_stream, emitted, received,
}
use aikido.Openrouter.Stream.Effects.{
  Effect, quiet, errs, emit_calls-Adds, choice_step-Effect, emit_usage-Pays, emit_usage-saw_error,
  error_envelope-Effect,
}
use aikido.Openrouter.Stream.Delivery.{received-append, count-received, FailsOnce-received}
use aikido.Openrouter.Stream.Counts.{
  is_end, is_usage, is_error, count_if, Tidy, Tidy-Adds, Tidy-Effect, Tidy-Pays, FailsOnce, Ordered,
  Ordered-Effect, Ordered-Pays,
}

module _ (w : Codec) (t : Timing) where
  choices-Tidy :
      (line : Line) (chs : List StreamChoice) (r : Reading)
      → Tidy r
      → Tidy (choice_steps w t line chs r)
  unfolding choice_steps
  choices-Tidy line [] r i = i
  choices-Tidy line (ch ∷ chs) r i =
      choices-Tidy line chs (choice_step w t line ch r)
        (Tidy-Effect r _ (choice_step-Effect w t line ch r) i)

  chunk_error-Tidy :
      (line : Line) (c : StreamChunk) (e : Option ApiError) (r : Reading)
      → Tidy r
      → Tidy (chunk_error_step w t line c e r)
  chunk_error-Tidy line c none r i =
      Tidy-Pays _ _ (emit_usage-Pays w t line c (choice_steps w t line c.choices r))
        (choices-Tidy line c.choices r i)
  chunk_error-Tidy line c (some e) r i = Tidy-Effect _ _ (error_envelope-Effect w t line c e r) (
      Tidy-Pays _ _ (emit_usage-Pays w t line c (emit_calls w t r))
        (Tidy-Adds r _ (emit_calls-Adds w t r) i))

  chunk-Tidy :
      (line : Line) (c : StreamChunk) (r : Reading) → Tidy r → Tidy (chunk_step w t line c r)
  unfolding chunk_step
  chunk-Tidy line c r i =
      if_cases Tidy r.saw_error (λ h. Tidy-Pays _ _ (emit_usage-Pays w t line c r) i)
        (λ h. chunk_error-Tidy line c c.error r i)

  -- the choices of a chunk with at most one
  abbrev pub IsSingle : StreamChunk → Type 0
  IsSingle c = length c.choices ≤ 1

  choices-Ordered :
      (line : Line) (chs : List StreamChoice) (r : Reading)
      → length chs ≤ 1
      → r.saw_error ≡ false
      → Ordered r
      → Ordered (choice_steps w t line chs r)
  unfolding choice_steps
  choices-Ordered line [] r s n o = o
  choices-Ordered line (ch ∷ []) r s n o = Ordered-Effect r _ (choice_step-Effect w t line ch r) n o
  choices-Ordered line (ch ∷ d ∷ chs) r s n o = absurd (omega (arith, s))

  chunk_error-Ordered :
      (line : Line) (c : StreamChunk) (e : Option ApiError) (r : Reading)
      → IsSingle c
      → r.saw_error ≡ false
      → Ordered r
      → Ordered (chunk_error_step w t line c e r)
  chunk_error-Ordered line c none r s n o =
      Ordered-Pays _ _ (emit_usage-Pays w t line c (choice_steps w t line c.choices r))
        (choices-Ordered line c.choices r s n o)
  chunk_error-Ordered line c (some e) r s n o =
      let calls = emit_calls-Adds w t r in
      Ordered-Effect _ _ (error_envelope-Effect w t line c e r)
        (emit_usage-saw_error w t line c (emit_calls w t r) ∙ calls.same_error ∙ n)
        (Ordered-Pays _ _ (emit_usage-Pays w t line c (emit_calls w t r))
          (Ordered-Effect r _ (quiet calls) n o))

  chunk-Ordered :
      (line : Line) (c : StreamChunk) (r : Reading)
      → IsSingle c
      → Ordered r
      → Ordered (chunk_step w t line c r)
  unfolding chunk_step
  chunk-Ordered line c r s o =
      if_cases Ordered r.saw_error (λ h. Ordered-Pays _ _ (emit_usage-Pays w t line c r) o)
        (λ h. chunk_error-Ordered line c c.error r s h o)

  -- every chunk of the lines has at most one choice
  abbrev pub SingleChoices : List Line → Type 0
  SingleChoices =
      All (λ (line : Line). (c : StreamChunk) → read_line w t line.text ≡ chunk c → IsSingle c)

  failed_read :
      (r : Reading) → Effect r (emit_error w t (codes "read") server_error (emit_calls w t r))
  failed_read r = errs (emit_calls w t r) _ (emit_calls-Adds w t r) refl refl refl

  after-Tidy : (b : Bool) (r : Reading) → Tidy r → Tidy (after_lines w t b r)
  unfolding after_lines
  after-Tidy b r i =
      if_cases Tidy (b && not r.saw_error) (λ h. Tidy-Effect r _ (failed_read r) i) (λ h. i)

  after-Ordered : (b : Bool) (r : Reading) → Ordered r → Ordered (after_lines w t b r)
  unfolding after_lines
  after-Ordered b r o =
      if_cases Ordered (b && not r.saw_error)
        (λ h. Ordered-Effect r _ (failed_read r) (ground arith) o) (λ h. o)

  lines-Tidy :
      (b : Bool) (lines : List Line) (r : Reading) → Tidy r → Tidy (read_lines w t b lines r)
  unfolding read_lines
  lines-Tidy b [] r i = after-Tidy b r i
  lines-Tidy b (line ∷ lines) r i = elim (Bool-cases line.is_over) [
    | inl h ↦ rw h i
    | inr h ↦
        rw h
          (elim (read_line w t line.text)
            as (λ x. Tidy (elim x [
              | skip ↦ read_lines w t b lines r
              | finished ↦ after_lines w t b r
              | chunk c ↦ read_lines w t b lines (chunk_step w t line c r)
            ])) [
              | skip ↦ lines-Tidy b lines r i
              | finished ↦ after-Tidy b r i
              | chunk c ↦ lines-Tidy b lines (chunk_step w t line c r) (chunk-Tidy line c r i)
            ])
  ]

  lines-Ordered :
      (b : Bool) (lines : List Line) (r : Reading)
      → SingleChoices lines
      → Ordered r
      → Ordered (read_lines w t b lines r)
  unfolding read_lines
  lines-Ordered b [] r s o = after-Ordered b r o
  lines-Ordered b (line ∷ lines) r (s, ss) o = elim (Bool-cases line.is_over) [
    | inl h ↦ rw h o
    | inr h ↦ rw h (
        elim (read_line w t line.text)
            as (λ x.
              read_line w t line.text ≡ x
              → Ordered (elim x [
                | skip ↦ read_lines w t b lines r
                | finished ↦ after_lines w t b r
                | chunk c ↦ read_lines w t b lines (chunk_step w t line c r)
              ])) [
                | skip ↦ λ e. lines-Ordered b lines r ss o
                | finished ↦ λ e. after-Ordered b r o
                | chunk c ↦ λ e.
                    lines-Ordered b lines (chunk_step w t line c r) ss
                      (chunk-Ordered line c r (s c e) o)
              ]
          refl)
  ]

  at_most_one : (b : Bool) (n : ℕ) → n ≡ (if b then 1 else 0) → n ≤ 1
  at_most_one true n h = omega arith
  at_most_one false n h = omega arith

  -- The events on the channel are some events and the EventEnd behind them, if its select sends it:
  -- none of those before is an EventEnd, and at most one is an EventUsage, whatever the lines hold
  -- and the selects do. `k` events are handed to `emit` before the EventEnd.
  pub process_stream_ends_once :
      (sends : List Bool) (scan_failed : Bool) (lines : List Line)
      → (out : List Llm.Event) × (reason : Bytes) × (k : ℕ) × (process_stream w t sends scan_failed
            lines
          ≡ out ++ received (drop k sends) (Llm.Event.end reason ∷ []))
        × (length (emitted w t scan_failed lines) ≡ k + 1)
        × (count_if is_end out ≡ 0)
        × (count_if is_usage out ≤ 1)
  unfolding process_stream
  process_stream_ends_once sends b lines =
      let r = read_lines w t b lines new_reading in
      let i : Tidy r = lines-Tidy b lines new_reading (record { no_end = refl; usages = refl }) in
      (
        received sends r.out,
        r.end_finish_reason,
        length r.out,
        received-append sends r.out _,
        length-append r.out _,
        omega (arith, count-received is_end sends r.out, i.no_end),
        omega (arith, count-received is_usage sends r.out, at_most_one r.usage_sent _ i.usages),
      )

  -- Where no chunk has more than one choice, the events on the channel, up to the EventEnd, either
  -- have no error, or have one and nothing behind it but usage, whatever the selects do. The EventEnd
  -- follows if its select sends it; `k` events are handed to `emit` before it.
  pub process_stream-FailsOnce :
      (sends : List Bool) (scan_failed : Bool) (lines : List Line)
      → SingleChoices lines
      → (out : List Llm.Event) × (reason : Bytes) × (k : ℕ) × (process_stream w t sends scan_failed
            lines
          ≡ out ++ received (drop k sends) (Llm.Event.end reason ∷ []))
        × (length (emitted w t scan_failed lines) ≡ k + 1)
        × ((count_if is_error out ≡ 0) ⊎ FailsOnce out)
  unfolding process_stream
  process_stream-FailsOnce sends b lines s =
      let r = read_lines w t b lines new_reading in
      let o : Ordered r =
        lines-Ordered b lines new_reading s
          (record { clean = λ h. refl; fails = λ h. absurd (cc h) }) in
      (
        received sends r.out,
        r.end_finish_reason,
        length r.out,
        received-append sends r.out _,
        length-append r.out _,
        elim (Bool-cases r.saw_error) [
          | inl h ↦ FailsOnce-received sends r.out (o.fails h)
          | inr h ↦ inl (omega (arith, count-received is_error sends r.out, o.clean h))
        ],
      )

-- ===== src/Examples/OfStreams.antt =====
-- The theorems on the retries, on `Collect` and on the OpenRouter stream, at small streams.
use aikido.Prelude.{
  ℕ, zero, suc, ◌≤◌, ◌==◌, Bool, false, drop, ◌+◌, Option, none, some, List, [], ◌∷◌, ◌++◌, ◌≡◌,
  refl, ◌⊎◌, arith, ap, length, map, Bytes, codes, text_eq, has_prefix, if◌then◌else◌,
}
use aikido.Prelude.Int.{ℤ, pos, negsuc}
use aikido.Errors.{Error, provider, server_error}
use aikido.Llm.Types.{Received, event, ToolCall}
use aikido.Llm.Types as Llm
use aikido.Agent.Run.{drain_provider_stream, none_drained, receive}
use aikido.Retry.{Float64, Policy, Outer, retry_do, attempts_of, retry_of}
use aikido.Retry.Log.{Logged, AllWithin, retry_do-Logged, retry_do_sleeps}
use aikido.Llm.Collect.{Opening, stream, collect}
use aikido.Llm.Collect.Outcome.{gathered_of, collect-drain_provider_stream}
use aikido.Openrouter.Wire.{Codec, ToolCallFragment, StreamDelta, StreamChoice, StreamChunk}
use aikido.Openrouter.Assembler.{Parts, finished_call, feed_all, flush_parts}
use aikido.Openrouter.Assembler.Order.{IsAscending, part_of, assembled, of_index, flush_parts_lem}
use aikido.Openrouter.Stream.{
  Line, Timing, process_stream, emitted, received, Read, read_line, chunk,
}
use aikido.Openrouter.Stream.Counts.{count_if, is_end, is_usage, is_error, FailsOnce}
use aikido.Openrouter.Stream.Order.{process_stream_ends_once, process_stream-FailsOnce}

-- whole numbers in place of floats, and no jitter
abbrev pub whole : Float64 ℕ
whole = record {
  of_duration = λ n. n;
  times = λ a b. a;
  is_positive = λ a. false;
  is_negative = λ a. false;
  exceeds_one = λ a. false;
  one = 1;
  nought = 0;
  jittered = λ n a. a;
  to_duration = λ a. pos a;
}

abbrev patient : Policy ℕ
patient = record {
  max_attempts = pos 3;
  base_delay = 50;
  max_delay = 20;
  multiplier = 2;
  jitter = 0;
  should_retry = none;
}

abbrev pub calm : Outer
calm = record { before = λ n. none; during = λ n t. none }

abbrev flaky : Error
flaky = provider [] server_error

-- fails in the first attempt, and counts its calls
abbrev second_time : ℕ → ℕ → Option Error × ℕ
second_time zero w = (none, w)
second_time (suc zero) w = (some flaky, w)
second_time (suc (suc n)) w = (none, w)

retry_do-Logged_example :
    Logged
      (retry_of patient.should_retry)
      (attempts_of patient.max_attempts)
      1
      (retry_do whole patient calm second_time 0).calls
retry_do-Logged_example = retry_do-Logged whole patient calm second_time 0

retry_do_sleeps_example :
    AllWithin patient.max_delay (retry_do whole patient calm second_time 0).sleeps
retry_do_sleeps_example = retry_do_sleeps whole patient calm second_time 0 (omega arith)

abbrev hello : List Received
hello =
    event (Llm.Event.text_delta (codes "hel"))
    ∷ event (Llm.Event.text_delta (codes "lo"))
    ∷ event (Llm.Event.end [])
    ∷ []

collect-drain_provider_stream_example :
    collect (stream hello) ≡ gathered_of (drain_provider_stream none_drained hello)
unfolding drain_provider_stream receive
collect-drain_provider_stream_example =
    collect-drain_provider_stream hello (tt, (tt, (tt, tt))) refl

abbrev torn : List Received
torn = event (Llm.Event.error (some flaky)) ∷ []

-- the first stream breaks, and the second is whole
abbrev streams : ℕ → Opening
streams n = if n == 1 then stream torn else stream hello

abbrev fragment : ℕ → Bytes → Bytes → ToolCallFragment
fragment i id arguments = record { index = pos i; id = id; name = codes "f"; arguments = arguments }

-- two calls, mixed
abbrev fragments : List ToolCallFragment
fragments =
    fragment 1 (codes "b") (codes "{")
    ∷ fragment 0 (codes "a") (codes "{}")
    ∷ fragment 1 [] (codes "}")
    ∷ []

abbrev numbered : ℤ → Bytes
numbered (pos n) = n ∷ []
numbered (negsuc n) = []

flush_parts_lem_example :
    (parts : Parts) × IsAscending parts
    × ((i : ℤ) → part_of i parts ≡ assembled (of_index i fragments))
    × (flush_parts numbered (feed_all fragments []) ≡ (map (finished_call numbered) parts, []))
flush_parts_lem_example = flush_parts_lem numbered fragments

abbrev said : StreamDelta
said = record { content = codes "x"; tool_calls = fragments; reasoning = []; images = [] }

abbrev filtered : StreamChoice
filtered = record { delta = said; message = none; finish_reason = some (codes "content_filter") }

abbrev one_chunk : StreamChunk
one_chunk = record { provider = codes "p"; choices = filtered ∷ []; used = none; error = none }

-- every payload is the same chunk, and every content is its text
abbrev codec : Codec
codec = record {
  chunk = λ s. some one_chunk;
  as_string = λ s. some s;
  as_parts = λ s. none;
  base64 = λ s. some s;
  call_id = numbered;
}

abbrev timing : Timing
timing = record { start = 0; rate = λ n d. n }

abbrev data_line : Bytes → Line
data_line s = record { text = s; is_over = false; output_time = 1; usage_time = 2 }

abbrev wire : List Line
wire = data_line (codes "data: {}") ∷ data_line (codes "data: [DONE]") ∷ []

-- a context that is over when the EventEnd is emitted
abbrev dropped_end : List Bool
dropped_end = false ∷ []

process_stream_ends_once_example :
    (out : List Llm.Event) × (reason : Bytes) × (k : ℕ) × (process_stream codec timing dropped_end
        false wire
      ≡ out ++ received (drop k dropped_end) (Llm.Event.end reason ∷ []))
    × (length (emitted codec timing false wire) ≡ k + 1)
    × (count_if is_end out ≡ 0)
    × (count_if is_usage out ≤ 1)
process_stream_ends_once_example = process_stream_ends_once codec timing dropped_end false wire

abbrev choices_of : Read codec timing → ℕ
choices_of (chunk c) = length c.choices
choices_of _ = 0

single :
    (x : Read codec timing)
    → choices_of x ≤ 1
    → (c : StreamChunk) → x ≡ chunk c
    → length c.choices ≤ 1
single x h c e = omega (arith, h, ap choices_of e)

process_stream-FailsOnce_example :
    (out : List Llm.Event) × (reason : Bytes) × (k : ℕ) × (process_stream codec timing [] false wire
      ≡ out ++ received (drop k []) (Llm.Event.end reason ∷ []))
    × (length (emitted codec timing false wire) ≡ k + 1)
    × ((count_if is_error out ≡ 0) ⊎ FailsOnce out)
unfolding read_line has_prefix text_eq
process_stream-FailsOnce_example =
    process_stream-FailsOnce codec timing [] false wire
      (single _ (omega arith), (single _ (omega arith), tt))

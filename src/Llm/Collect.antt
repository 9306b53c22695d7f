-- ===== src/Llm/Collect.antt =====
-- llm/helpers.go: `Collect` drains a stream into one result, and `CollectWithRetry` starts a stream
-- over where the policy says so.
pub mod Outcome
use aikido.Prelude.{ℕ, Bool, true, false, Option, none, some, List, [], ◌∷◌, ◌++◌, Bytes}
use aikido.Errors.{
  Error, Sentinel, server_error, content_filtered, provider, retry_after, locker_failed,
  read_failed, append_failed, stream_failed,
}
use aikido.Llm.Types.{ToolCall, ImagePart, Usage, Received, event, done}
use aikido.Llm.Types as Llm
use aikido.Retry.{Float64, Policy, Outer, Done, retry_do}

pub record Collected : Type 0 where
  pub content : Bytes
  pub calls : List ToolCall
  pub images : List ImagePart
  pub used : Option Usage
  pub failure : Option Error

abbrev pub none_collected : Collected
none_collected = record { content = []; calls = []; images = []; used = none; failure = none }

-- the answer of `Client.Stream`
pub data Opening : Type 0 where
  stream : List Received → Opening
  refused : Error → Opening

-- the branches of the switch that go on
unfoldable pub gather : Collected → Llm.Event → Collected
gather c (Llm.Event.text_delta t) = record c { content = c.content ++ t }
gather c (Llm.Event.tool_call none) = c
gather c (Llm.Event.tool_call (some t)) = record c { calls = c.calls ++ (t ∷ []) }
gather c (Llm.Event.thinking t) = c
gather c (Llm.Event.image none) = c
gather c (Llm.Event.image (some i)) = record c { images = c.images ++ (i ∷ []) }
gather c (Llm.Event.usage u) = record c { used = u }
gather c (Llm.Event.error e) = record c { failure = e }
gather c (Llm.Event.end r) = c

-- `case EventError: return …`
abbrev pub is_error : Llm.Event → Bool
is_error (Llm.Event.error e) = true
is_error _ = false

unfoldable pub collect_from : Collected → List Received → Collected
unfolding gather
collect_from c [] = c
collect_from c (done e ∷ rs) = record c { failure = some e }
collect_from c (event ev ∷ rs) = elim (is_error ev) [
  | true ↦ gather c ev
  | false ↦ collect_from (gather c ev) rs
]

-- `Collect`
unfoldable pub collect : Opening → Collected
unfolding collect_from
collect (stream rs) = collect_from none_collected rs
collect (refused e) = record none_collected { failure = some e }

-- `errors.Is` for the sentinels of llm/errors.go
unfoldable pub wraps : (Sentinel → Bool) → Error → Bool
wraps test (provider m s) = test s
wraps test (retry_after e n) = wraps test e
wraps test (locker_failed e) = wraps test e
wraps test (read_failed e) = wraps test e
wraps test (append_failed e) = wraps test e
wraps test (stream_failed e) = wraps test e
wraps test _ = false

abbrev pub is_server_error : Sentinel → Bool
is_server_error server_error = true
is_server_error _ = false

abbrev pub is_content_filtered : Sentinel → Bool
is_content_filtered content_filtered = true
is_content_filtered _ = false

unfoldable pub is_transient_server_error : Error → Bool
is_transient_server_error e = wraps is_server_error e

unfoldable pub is_content_filter : Error → Bool
is_content_filter e = wraps is_content_filtered e

-- `if policy.ShouldRetry == nil { policy.ShouldRetry = IsTransientServerError }`
abbrev pub with_default : {F : Type 0} → Policy F → Policy F
with_default p = record p { should_retry = or_transient p.should_retry }
  where
    or_transient : Option (Error → Bool) → Option (Error → Bool)
    or_transient none = some is_transient_server_error
    or_transient (some t) = some t

module _ {F : Type 0} (f : Float64 F) (policy : Policy F) (o : Outer)
    (open_stream : ℕ → Opening) where
  -- the closure that `Do` calls; its results are variables that each attempt overwrites
  unfoldable pub collect_attempt : ℕ → Collected → Option Error × Collected
  collect_attempt attempt w = let c = collect (open_stream attempt) in (c.failure, c)

  unfoldable pub collect_with_retry : Done Collected
  collect_with_retry = retry_do f (with_default policy) o collect_attempt none_collected

-- ===== src/Llm/Collect/Outcome.antt =====
-- `Collect` agrees with the agent's own drain of a stream, and a retried `Collect` gives the last
-- attempt's result.
use aikido.Prelude.{
  ℕ, zero, suc, ◌+◌, ◌<◌, Bool, Option, none, some, List, [], ◌∷◌, ◌≡◌, ◌≢◌, refl, inl, inr, arith,
  Bool-cases, Option-cases, ◌==◌, All,
}
use aikido.Errors.{CtxError, Error}
use aikido.Llm.Types.{ToolCall, ImagePart, Usage, Received, event, done}
use aikido.Llm.Types as Llm
use aikido.Retry.{
  Float64, Policy, Outer, Done, attempts_of, attempt_from, after_call, retry_do, retry_of, sleep_of,
  finished, first_error,
}
use aikido.Retry.Log.{attempts_pos}
use aikido.Llm.Collect.{
  Collected, none_collected, Opening, stream, collect_from, collect, with_default, collect_attempt,
  collect_with_retry,
}
use aikido.Agent.Drain.{keep_first}
use aikido.Agent.Run.{Drained, none_drained, receive, drain_provider_stream}

-- the fields that both drains gather
abbrev pub gathered_of : Drained → Collected
gathered_of d = record {
  content = d.content;
  calls = d.calls;
  images = d.images;
  used = d.used;
  failure = d.failure;
}

-- a failure that was noted stays
keeps_failure :
    (d : Drained) (e : Error) (rs : List Received)
    → d.failure ≡ some e
    → (drain_provider_stream d rs).failure ≢ none
unfolding drain_provider_stream
keeps_failure d e [] h = λ k. absurd (cc (h, k))
keeps_failure d e (done x ∷ rs) h = cc
keeps_failure d e (event ev ∷ rs) h = keeps_failure (receive d ev) e rs (received ev)
  where
    received : (ev : Llm.Event) → (receive d ev).failure ≡ some e
    received ev =
        unfold receive in
        elim ev as (λ ev. (receive d ev).failure ≡ some e) [
          | Llm.Event.text_delta t ↦ h
          | Llm.Event.tool_call none ↦ h
          | Llm.Event.tool_call (some c) ↦ h
          | Llm.Event.thinking t ↦ h
          | Llm.Event.image none ↦ h
          | Llm.Event.image (some i) ↦ h
          | Llm.Event.usage u ↦ h
          | Llm.Event.error x ↦ rw h refl
          | Llm.Event.end r ↦ h
        ]

-- an error event carries its error
abbrev pub Carries : Received → Type 0
Carries (event (Llm.Event.error none)) = ⊥
Carries _ = Unit

kept : (f x : Option Error) → f ≢ none → keep_first f x ≢ none
kept none x h = absurd (h refl)
kept (some e) x h = h

stays :
    (d : Drained) (rs : List Received)
    → d.failure ≢ none
    → (drain_provider_stream d rs).failure ≢ none
unfolding drain_provider_stream
stays d [] h = h
stays d (done x ∷ rs) h = cc
stays d (event ev ∷ rs) h = stays (receive d ev) rs (received ev)
  where
    received : (ev : Llm.Event) → (receive d ev).failure ≢ none
    received ev =
        unfold receive in
        elim ev as (λ ev. (receive d ev).failure ≢ none) [
          | Llm.Event.text_delta t ↦ h
          | Llm.Event.tool_call none ↦ h
          | Llm.Event.tool_call (some c) ↦ h
          | Llm.Event.thinking t ↦ h
          | Llm.Event.image none ↦ h
          | Llm.Event.image (some i) ↦ h
          | Llm.Event.usage u ↦ h
          | Llm.Event.error x ↦ kept d.failure x h
          | Llm.Event.end r ↦ h
        ]

some_failure : (d : Drained) (e : Error) → (receive d (Llm.Event.error (some e))).failure ≢ none
unfolding receive
some_failure d e = elim (Option-cases d.failure) [
  | inl h ↦ λ k. absurd (ground (arith, h, k))
  | inr (x, h) ↦ λ k. absurd (ground (arith, h, k))
]

collect-drain_from :
    (d : Drained) (rs : List Received)
    → All Carries rs
    → (drain_provider_stream d rs).failure ≡ none
    → collect_from (gathered_of d) rs ≡ gathered_of (drain_provider_stream d rs)
unfolding drain_provider_stream collect_from
collect-drain_from d [] c h = refl
collect-drain_from d (done x ∷ rs) c h = absurd (cc h)
collect-drain_from d (event (Llm.Event.text_delta t) ∷ rs) c h = collect-drain_from _ rs c.1 h
collect-drain_from d (event (Llm.Event.tool_call none) ∷ rs) c h = collect-drain_from _ rs c.1 h
collect-drain_from d (event (Llm.Event.tool_call (some t)) ∷ rs) c h = collect-drain_from _ rs c.1 h
collect-drain_from d (event (Llm.Event.thinking t) ∷ rs) c h = collect-drain_from _ rs c.1 h
collect-drain_from d (event (Llm.Event.image none) ∷ rs) c h = collect-drain_from _ rs c.1 h
collect-drain_from d (event (Llm.Event.image (some i)) ∷ rs) c h = collect-drain_from _ rs c.1 h
collect-drain_from d (event (Llm.Event.usage u) ∷ rs) c h = collect-drain_from _ rs c.1 h
collect-drain_from d (event (Llm.Event.error none) ∷ rs) c h = absurd c.0
collect-drain_from d (event (Llm.Event.error (some x)) ∷ rs) c h =
    absurd (stays (receive d (Llm.Event.error (some x))) rs (some_failure d x) h)
collect-drain_from d (event (Llm.Event.end r) ∷ rs) c h = collect-drain_from _ rs c.1 h

-- Where no event is an error without its cause, a stream that the agent drains without a failure
-- gives `Collect` the same text, tool calls, images and usage, and no error.
pub collect-drain_provider_stream :
    (rs : List Received)
    → All Carries rs
    → (drain_provider_stream none_drained rs).failure ≡ none
    → collect (stream rs) ≡ gathered_of (drain_provider_stream none_drained rs)
unfolding collect
collect-drain_provider_stream rs c h = collect-drain_from none_drained rs c h

module _ {F : Type 0} (f : Float64 F) (policy : Policy F) (o : Outer)
    (open_stream : ℕ → Opening) where
  -- a result without an error is that of an attempt which had none
  abbrev Told : Done Collected → Type 0
  Told d =
      d.error ≡ none
      → (attempt : ℕ) × (d.world ≡ collect (open_stream attempt)) × (d.world.failure ≡ none)

  abbrev Rest : Type 0
  Rest = Error → Collected → Done Collected

  after-Told :
      (n : ℕ) (is_last : Bool) (c : Collected) (r : Option Error) (rest : Rest)
      → c ≡ collect (open_stream n)
      → c.failure ≡ r
      → ((e : Error) (w : Collected) → Told (rest e w))
      → Told (
          after_call f
            (with_default policy)
            o
            (collect_attempt f policy o open_stream)
            n
            is_last
            (r, c)
            rest)
  unfolding after_call
  after-Told n is_last c none rest e k t = λ h. (n, e, k)
  after-Told n is_last c (some x) rest e k t =
      elim (Bool-cases (retry_of (with_default policy).should_retry x)) [
        | inr q ↦ rw q (λ h. absurd (cc h))
        | inl q ↦ elim (Bool-cases is_last) [
          | inl z ↦ rw (q, z) (λ h. absurd (cc h))
          | inr z ↦ elim (Option-cases (o.during n (sleep_of f (with_default policy) n x))) [
            | inl u ↦ rw q (rw z (rw u (t x c)))
            | inr (y, u) ↦ rw q (rw z (rw u (λ h. absurd (cc h))))
          ]
        ]
      ]

  abbrev attempts : ℕ → ℕ → Option Error → Collected → Done Collected
  attempts = attempt_from f (with_default policy) o (collect_attempt f policy o open_stream)

  from-Told :
      (left n : ℕ) (last : Option Error) (w : Collected)
      → (last ≡ none → 0 < left)
      → Told (attempts left n last w)
  unfolding attempt_from collect_attempt
  from-Told zero n none w p = absurd (omega (arith, p refl))
  from-Told zero n (some e) w p = λ h. absurd (cc h)
  from-Told (suc left) n last w p = elim (Option-cases (o.before n)) [
    | inr (c, k) ↦ rw (k, attempt_from) (stopped last c)
    | inl k ↦
        rw (k, attempt_from)
          (after-Told n (left == 0) (collect (open_stream n)) _ _ refl refl
            (λ e w'. from-Told left (n + 1) (some e) w' (λ q. absurd (cc q))))
  ]
    where
      stopped :
          (last : Option Error) (c : CtxError)
          → Told (
              finished f
                (with_default policy)
                o
                (collect_attempt f policy o open_stream)
                (first_error f
                  (with_default policy)
                  o
                  (collect_attempt f policy o open_stream)
                  last
                  c)
                w)
      stopped none c = λ h. absurd (cc h)
      stopped (some e) c = λ h. absurd (cc h)

  -- `CollectWithRetry` that returns no error returns what `Collect` gives for one whole stream
  -- that was opened for it, which had no error: no part of another attempt is left in it.
  pub collect_with_retry_lem :
      (collect_with_retry f policy o open_stream).error ≡ none
      → (attempt : ℕ) × ((collect_with_retry f policy o open_stream).world
          ≡ collect (open_stream attempt))
        × ((collect_with_retry f policy o open_stream).world.failure ≡ none)
  unfolding collect_with_retry retry_do
  collect_with_retry_lem =
      from-Told (attempts_of (with_default policy).max_attempts) 1 none none_collected
        (λ h. attempts_pos (with_default policy).max_attempts)

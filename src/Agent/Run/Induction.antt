-- ===== src/Agent/Run/Induction.antt =====
-- The rule by which a property of the turn loop is proved: one case for each way through a turn.
use aikido.Prelude.{
  ℕ, zero, suc, ◌+◌, Bool, true, false, Option, none, some, List, [], ◌∷◌, ◌++◌, ◌≡◌, ◌≢◌, refl,
  ◌⊎◌, inl, inr, Bool-cases, Option-cases,
}
use aikido.Errors.{Ctx, Error, stream_failed}
use aikido.Llm.Types.{Message, ToolCall, ThinkingConfig, Received}
use aikido.Agent.History.{History}
use aikido.Agent.Event.{stop, max_turns, Event, Json}
use aikido.Agent.Drain.{assistant_message}
use aikido.Agent.Run.{
  SessionOptions, Outside, opened, refused, Stream, Drained, none_drained, drain_provider_stream,
  Outcome, run_calls, behind, usage_events, err_end, finish, turns, request,
}

-- the events that the provider's stream of one turn leads to
abbrev pub drained : List Received → Drained
drained rs = drain_provider_stream none_drained rs

abbrev pub turn_out : Drained → List Event
turn_out d = d.out ++ usage_events d.used

abbrev pub reply_of : Drained → Message
reply_of d = assistant_message d.content d.images d.calls

Stream-cases :
    (s : Stream) → ((rs : List Received) × (s ≡ opened rs)) ⊎ ((e : Error) × (s ≡ refused e))
Stream-cases (opened rs) = inl (rs, refl)
Stream-cases (refused e) = inr (e, refl)

calls_cases :
    (l : List ToolCall) → (l ≡ []) ⊎ ((c : ToolCall) × (cs : List ToolCall) × (l ≡ c ∷ cs))
calls_cases [] = inl refl
calls_cases (c ∷ cs) = inr (c, cs, refl)

module _ {W H : Type 0} (j : Json) (hist : History H) (opts : SessionOptions W) (o : Outside)
    (use_store : Bool) (th : Option ThinkingConfig) (h : H) where
  -- `P appended r`: what holds of the rest `r` of a run that begins with this value of `appended`
  pub record Cases (P : List Message → Outcome W H → Type 0) : Type 0 where
    pub refused_case :
        (appended : List Message) (w : W) (call_err : Ctx) (e : Error)
        → P appended (err_end j hist opts o use_store th call_err (stream_failed e) appended w h)
    pub failed_case :
        (appended : List Message) (w : W) (call_err : Ctx) (e : Error) (rs : List Received)
        → (drained rs).failure ≡ some e
        → P appended
            (behind (drained rs).out (err_end j hist opts o use_store th call_err e appended w h))
    pub limit_case :
        (appended : List Message) (w : W)
        → P appended (finish j hist opts o use_store th max_turns appended w h)
    pub stop_case :
        (appended : List Message) (w : W) (turn : ℕ) (msgs : List Message) (rs : List Received)
        → o.stream turn (request j hist opts o use_store th msgs) ≡ opened rs
        → (drained rs).failure ≡ none
        → (drained rs).calls ≡ []
        → P appended (
            behind (turn_out (drained rs)) (
              finish j hist opts o use_store th stop
                (appended ++ (reply_of (drained rs) ∷ []))
                w
                h))
    pub crash_case : (appended : List Message) (r : Outcome W H) → r.crashed ≡ true → P appended r
    pub turn_case :
        (appended : List Message) (w : W) (turn : ℕ) (msgs : List Message) (rs : List Received)
        (rest : Outcome W H)
        → o.stream turn (request j hist opts o use_store th msgs) ≡ opened rs
        → (drained rs).failure ≡ none
        → (drained rs).calls ≢ []
        → (run_calls j opts o turn (drained rs).calls w).crashed ≡ false
        → P
            (appended
              ++ (reply_of (drained rs) ∷ (run_calls j opts o turn (drained rs).calls w).messages))
            rest
        → P appended (
            behind
              (turn_out (drained rs) ++ (run_calls j opts o turn (drained rs).calls w).events)
              rest)

  module _ (P : List Message → Outcome W H → Type 0) (cases : Cases P) where
    abbrev loop : ℕ → ℕ → List Message → List Message → W → Outcome W H
    loop left turn msgs appended w = turns j hist opts o use_store th left turn msgs appended w h

    pub turns_induction :
        (left turn : ℕ) (msgs appended : List Message) (w : W)
        → P appended (turns j hist opts o use_store th left turn msgs appended w h)
    unfolding turns
    turns_induction zero turn msgs appended w = cases.limit_case appended w
    turns_induction (suc left) turn msgs appended w =
        elim (Stream-cases (o.stream turn (request j hist opts o use_store th msgs))) [
          | inr (e, k) ↦ rw (k, turns) (cases.refused_case appended w (o.call_ctx turn) e)
          | inl (rs, k) ↦ elim (Option-cases (drained rs).failure) [
            | inr (e, f) ↦
                rw (k, turns)
                  (rw (f, turns) (cases.failed_case appended w (o.call_ctx turn) e rs f))
            | inl f ↦ elim (calls_cases (drained rs).calls) [
              | inl c ↦
                  rw (k, turns)
                    (rw (f, turns) (rw (c, turns) (cases.stop_case appended w turn msgs rs k f c)))
              | inr (c, cs, e) ↦
                  elim (Bool-cases (run_calls j opts o turn (drained rs).calls w).crashed) [
                    | inl x ↦
                        rw (k, turns)
                          (rw (f, turns)
                            (rw (e, turns) (rw (x, turns) (cases.crash_case appended _ refl))))
                    | inr x ↦
                        rw (k, turns)
                          (rw (f, turns)
                            (rw (e, turns)
                              (rw (x, turns)
                                (let r = run_calls j opts o turn (drained rs).calls w in
                                  let msgs' = msgs ++ (reply_of (drained rs) ∷ r.messages) in
                                  let appended' =
                                    appended ++ (reply_of (drained rs) ∷ r.messages) in
                                  cases.turn_case appended w turn msgs rs
                                    (loop left (turn + 1) msgs' appended' r.world) k f
                                    (λ n. absurd (cc (e, n))) x
                                    (turns_induction left (turn + 1) msgs' appended' r.world)))))
                  ]
            ]
          ]
        ]

-- ===== src/Agent/Run/Ends.antt =====
-- Every run that is not cut short by a panic ends with one EventEnd, and nothing comes behind it.
use aikido.Prelude.{
  ℕ, Bool, true, false, Option, none, some, List, [], ◌∷◌, ◌++◌, ◌≡◌, refl, Bytes, All, All-append,
  Bool-cases, inl, inr,
}
use aikido.Errors.{Error, Result, ok, err, panic}
use aikido.Llm.Types.{
  Message, message, Role, ToolCall, Usage, ThinkingConfig, Received, event, done,
}
use aikido.Llm.Types as Llm
use aikido.Tools.Handler.{Env, Content}
use aikido.Agent.History.{History}
use aikido.Agent.Event.{EndReason, stop, max_turns, Event, end, Json}
use aikido.Agent.Run.{
  SessionOptions, RunOptions, Outside, Drained, none_drained, receive, drain_provider_stream,
  Outcome, Called, session_dispatch, run_calls, answered, usage_events, stored, finish, run_from,
  run_with_options, run_with_messages, locked, loaded, or_thinking,
}
use aikido.Agent.Run.Induction.{Cases, turns_induction, drained, turn_out}

abbrev pub is_end : Event → Bool
is_end (end r) = true
is_end _ = false

abbrev NotEnd : Event → Type 0
NotEnd e = is_end e ≡ false

-- the last event is an end, and no other is
abbrev pub EndsOnce : List Event → Type 0
EndsOnce [] = ⊥
EndsOnce (e ∷ []) = is_end e ≡ true
EndsOnce (e ∷ f ∷ es) = (is_end e ≡ false) × EndsOnce (f ∷ es)

EndsOnce-cons : (e : Event) (es : List Event) → NotEnd e → EndsOnce es → EndsOnce (e ∷ es)
EndsOnce-cons e [] n h = absurd h
EndsOnce-cons e (f ∷ es) n h = (n, h)

EndsOnce-append : (xs ys : List Event) → All NotEnd xs → EndsOnce ys → EndsOnce (xs ++ ys)
EndsOnce-append [] ys a h = h
EndsOnce-append (x ∷ xs) ys a h = EndsOnce-cons x (xs ++ ys) a.0 (EndsOnce-append xs ys a.1 h)

receive-NotEnd : (d : Drained) (e : Llm.Event) → All NotEnd d.out → All NotEnd (receive d e).out
unfolding receive
receive-NotEnd d (Llm.Event.text_delta t) a = All-append NotEnd d.out _ a (refl, tt)
receive-NotEnd d (Llm.Event.thinking t) a = All-append NotEnd d.out _ a (refl, tt)
receive-NotEnd d (Llm.Event.tool_call none) a = a
receive-NotEnd d (Llm.Event.tool_call (some c)) a = a
receive-NotEnd d (Llm.Event.image none) a = a
receive-NotEnd d (Llm.Event.image (some i)) a = All-append NotEnd d.out _ a (refl, tt)
receive-NotEnd d (Llm.Event.usage u) a = a
receive-NotEnd d (Llm.Event.error e) a = a
receive-NotEnd d (Llm.Event.end r) a = a

drain-NotEnd :
    (d : Drained) (rs : List Received)
    → All NotEnd d.out
    → All NotEnd (drain_provider_stream d rs).out
unfolding drain_provider_stream
drain-NotEnd d [] a = a
drain-NotEnd d (done e ∷ rs) a = a
drain-NotEnd d (event e ∷ rs) a =
    drain-NotEnd (receive d e) rs (unfold receive in receive-NotEnd d e a)

usage-NotEnd : (u : Option Usage) → All NotEnd (usage_events u)
usage-NotEnd none = tt
usage-NotEnd (some u) = (refl, tt)

out-NotEnd : (rs : List Received) → All NotEnd (turn_out (drained rs))
out-NotEnd rs =
    All-append NotEnd (drained rs).out (usage_events (drained rs).used)
      (drain-NotEnd none_drained rs tt) (usage-NotEnd (drained rs).used)

module _ {W : Type 0} (j : Json) (opts : SessionOptions W) (o : Outside) (turn : ℕ) where
  answered-NotEnd :
      (call : ToolCall) (res : Result Content) (w : W) (rest : Called W)
      → All NotEnd rest.events
      → All NotEnd (answered j call res w rest).events
  answered-NotEnd call (ok c) w rest a = (refl, (refl, a))
  answered-NotEnd call (err e) w rest a = (refl, (refl, a))
  answered-NotEnd call panic w rest a = tt

  calls-NotEnd :
      (calls : List ToolCall) (w : W) → All NotEnd (run_calls j opts o turn calls w).events
  unfolding run_calls
  calls-NotEnd [] w = tt
  calls-NotEnd (call ∷ calls) w =
      let env : Env = record { session_id = opts.id; turn_id = o.turn_id turn } in
      let r = session_dispatch opts.tools (o.tool_ctx turn call) call env w in
      answered-NotEnd call r.0 r.1 (run_calls j opts o turn calls r.1) (calls-NotEnd calls r.1)

module _ {W H : Type 0} (j : Json) (hist : History H) (opts : SessionOptions W) (o : Outside) where
  abbrev Ended : List Message → Outcome W H → Type 0
  Ended appended r = r.crashed ≡ false → EndsOnce r.events

  module _ (use_store : Bool) (th : Option ThinkingConfig) where
    stored-Ended :
        (reason : EndReason) (appended : List Message) (w : W) (r : Option Error × H)
        → EndsOnce (stored j hist opts o use_store th reason appended w r).events
    stored-Ended reason appended w (none, h) = refl
    stored-Ended reason appended w (some e, h) = (refl, refl)

    finish-Ended :
        (reason : EndReason) (appended : List Message) (w : W) (h : H)
        → EndsOnce (finish j hist opts o use_store th reason appended w h).events
    unfolding finish
    finish-Ended reason appended w h = elim (Bool-cases use_store) [
      | inl k ↦ rw k (stored-Ended reason appended w (hist.append o.append_ctx opts.id appended h))
      | inr k ↦ rw k refl
    ]

    Ended-cases : (h : H) → Cases j hist opts o use_store th h Ended
    Ended-cases h = record {
      refused_case = λ appended w call_err e k. (refl, refl);
      failed_case = λ appended w call_err e rs f k.
          EndsOnce-append (drained rs).out _ (drain-NotEnd none_drained rs tt) (refl, refl);
      limit_case = λ appended w k. finish-Ended max_turns appended w h;
      stop_case = λ appended w turn msgs rs s f c k.
          EndsOnce-append (turn_out (drained rs)) _ (out-NotEnd rs) (finish-Ended stop _ w h);
      crash_case = λ appended r x k. absurd (cc (x, k));
      turn_case = λ appended w turn msgs rs rest s f ne x ih k.
          EndsOnce-append
            (turn_out (drained rs) ++ (run_calls j opts o turn (drained rs).calls w).events)
            rest.events
            (All-append NotEnd (turn_out (drained rs)) _ (out-NotEnd rs)
              (calls-NotEnd j opts o turn (drained rs).calls w))
            (ih k);
    }

  run_from-Ended :
      (use_store : Bool) (user : Bytes) (ro : RunOptions) (past : List Message) (w : W) (h : H)
      → (run_from j hist opts o use_store user ro past w h).crashed ≡ false
      → EndsOnce (run_from j hist opts o use_store user ro past w h).events
  unfolding run_from
  run_from-Ended use_store user ro past w h =
      turns_induction j hist opts o use_store
        (or_thinking ro.thinking_override opts.thinking_config) h Ended
        (Ended-cases use_store (or_thinking ro.thinking_override opts.thinking_config) h)
        opts.turn_limit 0 _ _ w

  locked-Ended :
      (use_store : Bool) (l : Option Error) (w : W) (h : H) (rest : Outcome W H)
      → Ended [] rest
      → Ended [] (locked j hist opts o use_store l w h rest)
  locked-Ended use_store none w h rest e = e
  locked-Ended use_store (some f) w h rest e = λ k. (refl, refl)

  loaded-Ended :
      (user : Bytes) (ro : RunOptions) (w : W) (h : H) (r : Result (List Message))
      → Ended [] (loaded j hist opts o user ro w h r)
  loaded-Ended user ro w h (ok past) = run_from-Ended true user ro past w h
  loaded-Ended user ro w h (err e) = λ k. (refl, refl)
  loaded-Ended user ro w h panic = λ k. absurd (cc k)

  -- A run over the session's history emits exactly one EventEnd, as its last event, whatever the
  -- locker, the history, the provider and the tools answer, unless one of them panics.
  pub run-EndsOnce :
      (user : Bytes) (ro : RunOptions) (w : W) (h : H)
      → (run_with_options j hist opts o user ro w h).crashed ≡ false
      → EndsOnce (run_with_options j hist opts o user ro w h).events
  unfolding run_with_options
  run-EndsOnce user ro w h =
      locked-Ended true o.lock w h _ (loaded-Ended user ro w h (hist.read o.read_ctx opts.id h))

  -- A run over the caller's own messages emits exactly one EventEnd, as its last event, whatever
  -- the locker, the provider and the tools answer, unless a tool handler panics.
  pub messages_run-EndsOnce :
      (past : List Message) (w : W) (h : H)
      → (run_with_messages j hist opts o past w h).crashed ≡ false
      → EndsOnce (run_with_messages j hist opts o past w h).events
  unfolding run_with_messages
  messages_run-EndsOnce past w h =
      locked-Ended false o.lock w h _ (run_from-Ended false [] _ past w h)

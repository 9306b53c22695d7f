-- ===== src/Agent/Run/Stored.antt =====
-- When a run writes to the history: all its messages at once where it ends by "stop" or
-- "max_turns", and nothing otherwise.
use aikido.Prelude.{
  Bool, true, false, Option, none, some, List, [], ◌∷◌, ◌++◌, ◌≡◌, refl, ap, ◌∙◌, sym, Bytes, arith,
}
use aikido.Errors.{Ctx, Error, Result, ok, err, panic}
use aikido.Llm.Types.{Message, ThinkingConfig}
use aikido.Agent.History.{History, KeepsHistory}
use aikido.Agent.Event.{EndReason, stop, max_turns, Event, end, Json}
use aikido.Agent.Run.{
  SessionOptions, RunOptions, Outside, Outcome, resolve_end_reason, behind, err_end, stored, finish,
  run_from, run_with_options, locked, loaded, or_thinking,
}
use aikido.Agent.Run.Induction.{Cases, turns_induction, drained, turn_out}

abbrev pub or_earlier : Option EndReason → Event → Option EndReason
or_earlier (some r) e = some r
or_earlier none (end r) = some r
or_earlier none _ = none

-- the reason on the last end of the events
abbrev pub end_reason : List Event → Option EndReason
end_reason [] = none
end_reason (e ∷ es) = or_earlier (end_reason es) e

abbrev pub completed : Option EndReason → Bool
completed (some stop) = true
completed (some max_turns) = true
completed _ = false

pub end_reason-append :
    (xs ys : List Event) (r : EndReason) → end_reason ys ≡ some r → end_reason (xs ++ ys) ≡ some r
end_reason-append [] ys r h = h
end_reason-append (x ∷ xs) ys r h = ground (arith, end_reason-append xs ys r h)

pub resolve_not_completed : (u r c : Ctx) → completed (some (resolve_end_reason u r c)) ≡ false
unfolding resolve_end_reason
resolve_not_completed u r c = ground arith

module _ {W H : Type 0} (j : Json) (hist : History H) (laws : KeepsHistory hist)
    (opts : SessionOptions W) (o : Outside) (h : H) where
  -- the events end, and the history is written as the reason says
  pub record Settled (r : Outcome W H) : Type 0 where
    pub reason : EndReason
    pub ended : end_reason r.events ≡ some reason
    pub written :
        completed (some reason) ≡ true
        → hist.append o.append_ctx opts.id r.appended h ≡ (none, r.history)
    pub kept : completed (some reason) ≡ false → r.history ≡ h

  abbrev Settles : List Message → Outcome W H → Type 0
  Settles appended r = r.crashed ≡ false → Settled r

  Settled-behind : (xs : List Event) (r : Outcome W H) → Settled r → Settled (behind xs r)
  Settled-behind xs r s = record {
    reason = s.reason;
    ended = end_reason-append xs r.events s.reason s.ended;
    written = s.written;
    kept = s.kept;
  }

  module _ (th : Option ThinkingConfig) where
    err_end-Settled :
        (call_err : Ctx) (e : Error) (appended : List Message) (w : W) (h' : H)
        → h' ≡ h
        → Settled (err_end j hist opts o true th call_err e appended w h')
    err_end-Settled call_err e appended w h' same = record {
      reason = resolve_end_reason o.user_ctx o.run_ctx call_err;
      ended = refl;
      written = λ k. absurd (cc (k, resolve_not_completed o.user_ctx o.run_ctx call_err));
      kept = λ k. same;
    }

    stored-Settled :
        (reason : EndReason) (appended : List Message) (w : W) (r : Option Error × H)
        → completed (some reason) ≡ true
        → hist.append o.append_ctx opts.id appended h ≡ r
        → Settled (stored j hist opts o true th reason appended w r)
    stored-Settled reason appended w (none, h') c e = record {
      reason = reason;
      ended = refl;
      written = λ k. e;
      kept = λ k. absurd (cc (c, k));
    }
    stored-Settled reason appended w (some f, h') c e = err_end-Settled none _ appended w h' (
        ap (λ (r : Option Error × H). r.1) (sym e)
        ∙ laws.append_failed o.append_ctx opts.id appended h f
            (ap (λ (r : Option Error × H). r.0) e))

    finish-Settled :
        (reason : EndReason) (appended : List Message) (w : W)
        → completed (some reason) ≡ true
        → Settled (finish j hist opts o true th reason appended w h)
    unfolding finish
    finish-Settled reason appended w c =
        stored-Settled reason appended w (hist.append o.append_ctx opts.id appended h) c refl

    settled_cases : Cases j hist opts o true th h Settles
    settled_cases = record {
      refused_case = λ appended w call_err e k. err_end-Settled call_err _ appended w h refl;
      failed_case = λ appended w call_err e rs f k.
          Settled-behind (drained rs).out _ (err_end-Settled call_err e appended w h refl);
      limit_case = λ appended w k. finish-Settled max_turns appended w refl;
      stop_case = λ appended w turn msgs rs s f c k.
          Settled-behind (turn_out (drained rs)) _ (finish-Settled stop _ w refl);
      crash_case = λ appended r x k. absurd (cc (x, k));
      turn_case = λ appended w turn msgs rs rest s f ne x ih k. Settled-behind _ rest (ih k);
    }

  locked-Settles :
      (l : Option Error) (w : W) (rest : Outcome W H)
      → Settles [] rest
      → Settles [] (locked j hist opts o true l w h rest)
  locked-Settles none w rest s = s
  locked-Settles (some e) w rest s = λ k. err_end-Settled none none _ [] w h refl

  loaded-Settles :
      (user : Bytes) (ro : RunOptions) (w : W) (r : Result (List Message))
      → Settles [] (loaded j hist opts o user ro w h r)
  unfolding run_from
  loaded-Settles user ro w (ok past) =
      turns_induction j hist opts o true (or_thinking ro.thinking_override opts.thinking_config) h
        Settles (settled_cases (or_thinking ro.thinking_override opts.thinking_config))
        opts.turn_limit 0 _ _ w
  loaded-Settles user ro w (err e) = λ k. err_end-Settled none none _ [] w h refl
  loaded-Settles user ro w panic = λ k. absurd (cc k)

  -- A run that no panic cuts short and that ends with "stop" or "max_turns" has appended all its
  -- messages to the history in one successful call. One that ends with "error", "timeout" or
  -- "cancelled" leaves the history as it was, also where it was the append that failed.
  pub run_settles :
      (user : Bytes) (ro : RunOptions) (w : W)
      → (run_with_options j hist opts o user ro w h).crashed ≡ false
      → Settled (run_with_options j hist opts o user ro w h)
  unfolding run_with_options
  run_settles user ro w =
      locked-Settles o.lock w _ (loaded-Settles user ro w (hist.read o.read_ctx opts.id h))

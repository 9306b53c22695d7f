-- ===== src/Agent/Run/Transcript.antt =====
-- The messages of a run: every tool call of an assistant's message is answered, in order.
use mathlib.Core.Path.{subst}
use aikido.Prelude.{
  if◌then◌else◌, ℕ, Bool, true, false, Option, none, some, List, [], ◌∷◌, ◌++◌, ◌≡◌, refl, ap, ◌∙◌,
  sym, Bytes, Bool-cases, inl, inr, append-nil, append_assoc,
}
use aikido.Errors.{Ctx, Error, Result, ok, err, panic}
use aikido.Llm.Types.{Message, message, Role, ToolCall, ThinkingConfig, Received}
use aikido.Tools.Handler.{Env, Content}
use aikido.Agent.History.{History, KeepsHistory}
use aikido.Agent.Event.{EndReason, stop, max_turns, Event, Json}
use aikido.Agent.Run.{
  SessionOptions, RunOptions, Outside, Outcome, Called, session_dispatch, run_calls, answered,
  err_end, stored, finish, run_from, run_with_options, locked, loaded, or_thinking,
}
use aikido.Agent.Run.Stored.{end_reason, completed, Settled, run_settles, resolve_not_completed}
use aikido.Agent.Run.Induction.{Cases, turns_induction, drained, reply_of}

-- One tool message for each call, in order, with the call's id.
abbrev pub Answers : List ToolCall → List Message → Type 0
Answers [] [] = Unit
Answers (c ∷ cs) (m ∷ ms) = (m.role ≡ Role.tool) × (m.tool_call_id ≡ c.id) × Answers cs ms
Answers _ _ = ⊥

-- Assistant's messages, each with the answers to its tool calls behind it.
pub data IsAnswered : List Message → Type 0 where
  nothing : IsAnswered []
  turn :
      (reply : Message) (results rest : List Message) {all : List Message}
      → reply.role ≡ Role.assistant
      → Answers reply.tool_calls results
      → IsAnswered rest
      → all ≡ reply ∷ (results ++ rest)
      → IsAnswered all

module _ {W : Type 0} (j : Json) (opts : SessionOptions W) (o : Outside) (n : ℕ) where
  answered-Answers :
      (call : ToolCall) (calls : List ToolCall) (res : Result Content) (w : W) (rest : Called W)
      → (rest.crashed ≡ false → Answers calls rest.messages)
      → (answered j call res w rest).crashed ≡ false
      → Answers (call ∷ calls) (answered j call res w rest).messages
  answered-Answers call calls (ok c) w rest a k = (refl, refl, a k)
  answered-Answers call calls (err e) w rest a k = (refl, refl, a k)
  answered-Answers call calls panic w rest a k = absurd (cc k)

  pub calls-Answers :
      (calls : List ToolCall) (w : W)
      → (run_calls j opts o n calls w).crashed ≡ false
      → Answers calls (run_calls j opts o n calls w).messages
  unfolding run_calls
  calls-Answers [] w k = tt
  calls-Answers (call ∷ calls) w k =
      let env : Env = record { session_id = opts.id; turn_id = o.turn_id n } in
      let r = session_dispatch opts.tools (o.tool_ctx n call) call env w in
      answered-Answers call calls r.0 r.1 (run_calls j opts o n calls r.1) (calls-Answers calls r.1)
        k

module _ {W H : Type 0} (j : Json) (hist : History H) (opts : SessionOptions W) (o : Outside)
    (h : H) where
  -- the run's messages are those it began with and answered turns behind them
  pub record Extends (appended : List Message) (r : Outcome W H) : Type 0 where
    pub new : List Message
    pub split : r.appended ≡ appended ++ new
    pub answers : IsAnswered new

  abbrev Grows : List Message → Outcome W H → Type 0
  Grows appended r = r.crashed ≡ false → Extends appended r

  same_messages :
      (appended : List Message) (r : Outcome W H) → r.appended ≡ appended → Extends appended r
  same_messages appended r e = record {
    new = [];
    split = e ∙ sym (append-nil appended);
    answers = nothing;
  }

  module _ (use_store : Bool) (th : Option ThinkingConfig) where
    stored-appended :
        (reason : EndReason) (appended : List Message) (w : W) (r : Option Error × H)
        → (stored j hist opts o use_store th reason appended w r).appended ≡ appended
    stored-appended reason appended w (none, h') = refl
    stored-appended reason appended w (some e, h') = refl

    finish-appended :
        (reason : EndReason) (appended : List Message) (w : W)
        → (finish j hist opts o use_store th reason appended w h).appended ≡ appended
    unfolding finish
    finish-appended reason appended w = elim (Bool-cases use_store) [
      | inl k ↦
          rw k (stored-appended reason appended w (hist.append o.append_ctx opts.id appended h))
      | inr k ↦ rw k refl
    ]

    one_turn :
        (rs : List Received) (results rest : List Message)
        → Answers (drained rs).calls results
        → IsAnswered rest
        → IsAnswered (reply_of (drained rs) ∷ (results ++ rest))
    one_turn rs results rest a t = turn (reply_of (drained rs)) results rest refl a t refl

    grow_cases : Cases j hist opts o use_store th h Grows
    grow_cases = record {
      refused_case = λ appended w call_err e k. same_messages appended _ refl;
      failed_case = λ appended w call_err e rs f k. same_messages appended _ refl;
      limit_case = λ appended w k. same_messages appended _ (finish-appended max_turns appended w);
      stop_case = λ appended w n msgs rs s f c k. record {
        new = reply_of (drained rs) ∷ [];
        split = finish-appended stop (appended ++ (reply_of (drained rs) ∷ [])) w;
        answers =
            one_turn rs [] [] (subst (λ (l : List ToolCall). Answers l []) (sym c) tt) nothing;
      };
      crash_case = λ appended r x k. absurd (cc (x, k));
      turn_case = λ appended w n msgs rs rest s f ne x ih k.
          let results = (run_calls j opts o n (drained rs).calls w).messages in
          record {
            new = reply_of (drained rs) ∷ (results ++ (ih k).new);
            split =
                (ih k).split ∙ append_assoc appended (reply_of (drained rs) ∷ results) (ih k).new;
            answers =
                one_turn rs results (ih k).new (calls-Answers j opts o n (drained rs).calls w x)
                  (ih k).answers;
          };
    }

  run_from-Grows :
      (use_store : Bool) (user : Bytes) (ro : RunOptions) (past : List Message) (w : W)
      → Grows
          (if use_store then message Role.user user ∷ [] else [])
          (run_from j hist opts o use_store user ro past w h)
  unfolding run_from
  run_from-Grows use_store user ro past w =
      turns_induction j hist opts o use_store
        (or_thinking ro.thinking_override opts.thinking_config) h Grows
        (grow_cases use_store (or_thinking ro.thinking_override opts.thinking_config))
        opts.turn_limit 0 _ _ w

  abbrev pub Completes : List Event → Type 0
  Completes es = completed (end_reason es) ≡ true

  abbrev Answered : Message → Outcome W H → Type 0
  Answered user r = r.crashed ≡ false → Completes r.events → Extends (user ∷ []) r

  err_end-Answered :
      (user : Message) (call_err : Ctx) (e : Error) (w : W)
      → Answered user (err_end j hist opts o true none call_err e [] w h)
  err_end-Answered user call_err e w k c =
      absurd (cc (c, resolve_not_completed o.user_ctx o.run_ctx call_err))

  locked-Answered :
      (user : Message) (l : Option Error) (w : W) (rest : Outcome W H)
      → Answered user rest
      → Answered user (locked j hist opts o true l w h rest)
  locked-Answered user none w rest a = a
  locked-Answered user (some e) w rest a = err_end-Answered user none _ w

  loaded-Answered :
      (user : Bytes) (ro : RunOptions) (w : W) (r : Result (List Message))
      → Answered (message Role.user user) (loaded j hist opts o user ro w h r)
  loaded-Answered user ro w (ok past) = λ k c. run_from-Grows true user ro past w k
  loaded-Answered user ro w (err e) = err_end-Answered (message Role.user user) none _ w
  loaded-Answered user ro w panic = λ k. absurd (cc k)

  -- For any history that keeps its contract: a run that ends with "stop" or "max_turns" leaves in
  -- the session's history what was there, the user's message, and the assistant's messages, each
  -- with one tool message for each of its calls behind it, in order and with the call's id.
  pub run_history :
      KeepsHistory hist
      → (user : Bytes) (ro : RunOptions) (w : W) (old : List Message)
      → hist.read none opts.id h ≡ ok old
      → (run_with_options j hist opts o user ro w h).crashed ≡ false
      → Completes (run_with_options j hist opts o user ro w h).events
      → (new : List Message) × IsAnswered new
        × (hist.read none opts.id (run_with_options j hist opts o user ro w h).history
            ≡ ok (old ++ (message Role.user user ∷ new)))
  run_history laws user ro w old past k c = (extends.new, extends.answers, now)
    where
      r : Outcome W H
      r = run_with_options j hist opts o user ro w h

      extends : Extends (message Role.user user ∷ []) r
      extends =
          unfold run_with_options in
          locked-Answered (message Role.user user) o.lock w _
            (loaded-Answered user ro w (hist.read o.read_ctx opts.id h)) k c

      settled : Settled j hist laws opts o h r
      settled = run_settles j hist laws opts o h user ro w k

      wrote : hist.append o.append_ctx opts.id r.appended h ≡ (none, r.history)
      wrote = settled.written (ap completed (sym settled.ended) ∙ c)

      now : hist.read none opts.id r.history ≡ ok (old ++ (message Role.user user ∷ extends.new))
      now =
          ap (λ (x : Option Error × H). hist.read none opts.id x.1) (sym wrote)
          ∙ laws.read_appended o.append_ctx opts.id r.appended old h
              (ap (λ (x : Option Error × H). x.0) wrote) past
          ∙ ap (λ (l : List Message). ok (old ++ l)) extends.split

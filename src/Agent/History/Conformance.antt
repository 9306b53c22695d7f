-- ===== src/Agent/History/Conformance.antt =====
-- agent/history/conformance.go: what `RunConformance` tests, for all sessions and messages. That a
-- reader's changes do not reach the store (ReadIsolatedFromMutation) is left out: a read gives a value.
use aikido.Prelude.{false, none, List, [], ◌≡◌, arith, Bytes, is_empty}
use aikido.Prelude.Assoc.{lookup}
use aikido.Errors.{Ctx, ok}
use aikido.Llm.Types.{Message}
use aikido.Agent.History.{History, KeepsHistory, Sessions, new_history, append, read}

-- the states that appends make of a fresh store
pub data Reached {H : Type 0} (hist : History H) (fresh : H) : H → Type 0 where
  start : Reached hist fresh fresh
  appended :
      {h : H} (ctx : Ctx) (id : Bytes) (ms : List Message)
      → Reached hist fresh h
      → Reached hist fresh (hist.append ctx id ms h).1

pub record PassesSuite {H : Type 0} (hist : History H) (fresh : H) : Type 0 where
  -- AppendThenRead, AppendsAccumulate, PerSessionIsolation: what is read behind an append
  pub keeps : KeepsHistory hist
  -- ReadEmpty
  pub read_fresh : (id : Bytes) → is_empty id ≡ false → hist.read none id fresh ≡ ok []
  -- the appends of these tests succeed
  pub append_works :
      (id : Bytes) (ms : List Message) (h : H)
      → Reached hist fresh h
      → is_empty id ≡ false
      → (hist.append none id ms h).0 ≡ none
  -- EmptyAppendIsNoop
  pub append_nothing :
      (id : Bytes) (h : H)
      → Reached hist fresh h
      → is_empty id ≡ false
      → hist.append none id [] h ≡ (none, h)

read_fresh : (id : Bytes) → is_empty id ≡ false → read none id new_history ≡ ok []
unfolding read lookup
read_fresh id h = ground (arith, h)

append_works :
    (id : Bytes) (ms : List Message) (h : Sessions)
    → is_empty id ≡ false
    → (append none id ms h).0 ≡ none
unfolding append
append_works id ms h e = ground (arith, e)

append_nothing : (id : Bytes) (h : Sessions) → is_empty id ≡ false → append none id [] h ≡ (none, h)
unfolding append
append_nothing id h e = ground (arith, e)

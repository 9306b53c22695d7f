-- ===== src/Agent/History.antt =====
-- agent/history.go: the interface of a conversation store over its state `H`, with the laws that a
-- run relies on; and agent/history/memory/history.go, the in-process store. What the conformance
-- suite tests is in the child.
pub mod Conformance
use aikido.Prelude.{
  false, Option, none, some, List, [], ◌∷◌, ◌++◌, ◌≡◌, refl, arith, Bytes, is_empty, text_eq,
  text_eq_refl, append-nil, if◌then◌else◌,
}
use aikido.Prelude.Assoc.{Assoc, lookup, insert, lookup-insert}
use aikido.Errors.{Ctx, Error, empty_session_id, Result, ok, err, require, check_ctx}
use aikido.Llm.Types.{Message}

pub record History (H : Type 0) : Type 0 where
  pub append : Ctx → Bytes → List Message → H → Option Error × H
  pub read : Ctx → Bytes → H → Result (List Message)

-- A store may fail at any time, but then it keeps what it held: each call is atomic, as
-- docs/DECISIONS.md has it.
pub record KeepsHistory {H : Type 0} (hist : History H) : Type 0 where
  -- a session is what was appended to it
  pub read_appended :
      (ctx : Ctx) (id : Bytes) (ms old : List Message) (h : H)
      → (hist.append ctx id ms h).0 ≡ none
      → hist.read none id h ≡ ok old
      → hist.read none id (hist.append ctx id ms h).1 ≡ ok (old ++ ms)
  -- the session's id is a key
  pub read_other :
      (ctx : Ctx) (id other : Bytes) (ms : List Message) (h : H)
      → text_eq id other ≡ false
      → hist.read none other (hist.append ctx id ms h).1 ≡ hist.read none other h
  -- the messages of an append go in one round trip
  pub append_failed :
      (ctx : Ctx) (id : Bytes) (ms : List Message) (h : H) (e : Error)
      → (hist.append ctx id ms h).0 ≡ some e
      → (hist.append ctx id ms h).1 ≡ h

abbrev pub Sessions : Type 0
Sessions = Assoc (List Message)

abbrev pub new_history : Sessions
new_history = []

-- a read of a missing key gives the nil slice
abbrev pub or_nil : Option (List Message) → List Message
or_nil none = []
or_nil (some ms) = ms

unfoldable pub append : Ctx → Bytes → List Message → Sessions → Option Error × Sessions
append (some e) id ms h = (check_ctx (some e), h)
append none id ms h =
    if is_empty id
    then (some empty_session_id, h)
    else if is_empty ms
    then (none, h)
    else (none, insert id (or_nil (lookup id h) ++ ms) h)

unfoldable pub read : Ctx → Bytes → Sessions → Result (List Message)
read ctx id h =
    require (check_ctx ctx)
      (if is_empty id then err empty_session_id else ok (or_nil (lookup id h)))

abbrev pub memory_history : History Sessions
memory_history = record { append = append; read = read }

append-read :
    (ctx : Ctx) (id : Bytes) (ms old : List Message) (h : Sessions)
    → (append ctx id ms h).0 ≡ none
    → read none id h ≡ ok old
    → read none id (append ctx id ms h).1 ≡ ok (old ++ ms)
unfolding append read
append-read none id [] old h a r = ground (arith, append-nil old)
append-read none id (m ∷ ms) old h a r =
    ground (arith, lookup-insert id id (or_nil (lookup id h) ++ (m ∷ ms)) h, text_eq_refl id)
append-read (some e) id ms old h a r = cc

append-read_other :
    (ctx : Ctx) (id other : Bytes) (ms : List Message) (h : Sessions)
    → text_eq id other ≡ false
    → read none other (append ctx id ms h).1 ≡ read none other h
unfolding append read
append-read_other none id other ms h d =
    ground (arith, lookup-insert id other (or_nil (lookup id h) ++ ms) h)
append-read_other (some e) id other ms h d = refl

append_fails :
    (ctx : Ctx) (id : Bytes) (ms : List Message) (h : Sessions) (e : Error)
    → (append ctx id ms h).0 ≡ some e
    → (append ctx id ms h).1 ≡ h
unfolding append
append_fails none id ms h e k = ground arith
append_fails (some f) id ms h e k = refl

-- The in-process store keeps the laws of a conversation store: a successful append is read back
-- behind what the session held, other sessions read as before, and a failed append changes nothing.
pub memory_history-KeepsHistory : KeepsHistory memory_history
memory_history-KeepsHistory = record {
  read_appended = append-read;
  read_other = append-read_other;
  append_failed = append_fails;
}

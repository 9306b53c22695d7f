-- ===== src/Agent/Locker.antt =====
-- agent/locker.go: `LocalLocker` with any number of concurrent `Lock` calls, each with its number,
-- as steps on the shared state. A mutex is a number and a flag, as sync.Mutex documents it: `Lock`
-- waits until the flag is down and raises it, and `Unlock` lowers it.
pub mod Exclusion
pub mod Progress
use aikido.Prelude.{
  ℕ, suc, Bool, true, false, Option, none, some, List, [], ◌≡◌, ◌≢◌, Bytes, ◌==◌, if◌then◌else◌,
}
use aikido.Prelude.Assoc.{Assoc, lookup, insert, remove}

-- where a call of `Lock` is, with its session and its mutex
pub data Phase : Type 0 where
  idle finished : Phase
  -- the call's goroutine is in `m.Lock()` and the call in its `select`
  waiting : Bytes → ℕ → Phase
  -- the goroutine has the mutex, and the call is in its `select`
  acquired : Bytes → ℕ → Phase
  -- the call has returned the context's error: the goroutine waits, or has the mutex
  abandoned : ℕ → Phase
  releasing : ℕ → Phase
  -- the call has returned `unlock`
  holding : Bytes → ℕ → Phase

-- the map, and the number of the next new mutex
pub record LockTable : Type 0 where
  pub locks : Assoc ℕ
  pub next : ℕ

pub record LocalLocker : Type 0 where
  pub table : LockTable
  pub phase : ℕ → Phase
  pub is_locked : ℕ → Bool

abbrev pub new_local_locker : LocalLocker
new_local_locker = record {
  table = record { locks = []; next = 0 };
  phase = λ p. idle;
  is_locked = λ m. false;
}

abbrev pub set {ℓ} : {A : Type ℓ} → ℕ → A → (ℕ → A) → ℕ → A
set k v f j = if j == k then v else f j

-- `m, ok := l.locks[sessionID]`, and a new mutex where there is none
abbrev pub found_or_new : Bytes → Option ℕ → LockTable → ℕ × LockTable
found_or_new id (some m) t = (m, t)
found_or_new id none t = (t.next, record { locks = insert id t.next t.locks; next = suc t.next })

unfoldable pub mutex_for : Bytes → LockTable → ℕ × LockTable
mutex_for id t = found_or_new id (lookup id t.locks) t

abbrev pub mutex_of : Phase → Option ℕ
mutex_of (acquired id m) = some m
mutex_of (releasing m) = some m
mutex_of (holding id m) = some m
mutex_of _ = none

-- the session of a call that has not ended, and its mutex
abbrev pub entry_of : Phase → Option (Bytes × ℕ)
entry_of (waiting id m) = some (id, m)
entry_of (acquired id m) = some (id, m)
entry_of (holding id m) = some (id, m)
entry_of _ = none

-- the goroutine gets the mutex
pub data Acquires : Phase → ℕ → Phase → Type 0 where
  in_time : {id : Bytes} {m : ℕ} → Acquires (waiting id m) m (acquired id m)
  too_late : {m : ℕ} → Acquires (abandoned m) m (releasing m)

-- the `select` takes one of its branches
pub data Selects : Phase → Phase → Type 0 where
  gives_up : {id : Bytes} {m : ℕ} → Selects (waiting id m) (abandoned m)
  gives_back : {id : Bytes} {m : ℕ} → Selects (acquired id m) (releasing m)
  returns : {id : Bytes} {m : ℕ} → Selects (acquired id m) (holding id m)

-- the first call of `unlock`, and the unlock of a call that gave up; a second call of `unlock` does
-- nothing
pub data Releases : Phase → ℕ → Type 0 where
  unlocks : {id : Bytes} {m : ℕ} → Releases (holding id m) m
  drops : {m : ℕ} → Releases (releasing m) m

abbrev pub move : ℕ → Phase → LocalLocker → LocalLocker
move p b s = record s { phase = set p b s.phase }

pub data Step (s : LocalLocker) : LocalLocker → Type 0 where
  enter :
      (p : ℕ) (id : Bytes)
      → s.phase p ≡ idle
      → Step s (record s {
        table = (mutex_for id s.table).1;
        phase = set p (waiting id (mutex_for id s.table).0) s.phase;
      })
  acquire :
      (p m : ℕ) {b : Phase}
      → Acquires (s.phase p) m b
      → s.is_locked m ≡ false
      → Step s (record s { phase = set p b s.phase; is_locked = set m true s.is_locked })
  select : (p : ℕ) {b : Phase} → Selects (s.phase p) b → Step s (move p b s)
  release :
      (p m : ℕ)
      → Releases (s.phase p) m
      → Step s (record s { phase = set p finished s.phase; is_locked = set m false s.is_locked })
  -- `Forget`, as it documents: no call for the session is going on
  forget :
      (id : Bytes)
      → ((p m : ℕ) → entry_of (s.phase p) ≢ some (id, m))
      → Step s (record s { table = record (s.table) { locks = remove id (s.table).locks } })

pub data Reaches : LocalLocker → Type 0 where
  begin : Reaches new_local_locker
  later : {s s' : LocalLocker} → Reaches s → Step s s' → Reaches s'

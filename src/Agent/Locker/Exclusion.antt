-- ===== src/Agent/Locker/Exclusion.antt =====
-- At most one call has the lock of a session.
use mathlib.Core.Path.{subst}
use aikido.Prelude.{
  ℕ, Bool, true, false, Option, none, some, [], ◌≡◌, ◌≢◌, refl, sym, ap, ◌∙◌, arith, Bytes, ◌==◌,
  text_eq, text_eq_iff, Bool-cases, ◌⊎◌, inl, inr, if◌then◌else◌,
}
use aikido.Prelude.Assoc.{lookup, remove, lookup-insert, lookup-remove}
use aikido.Agent.Locker.{
  Phase, finished, waiting, holding, LockTable, LocalLocker, new_local_locker, set, found_or_new,
  mutex_for, mutex_of, entry_of, Acquires, in_time, too_late, Selects, gives_up, gives_back,
  returns, Releases, unlocks, drops, Step, enter, acquire, select, release, forget, Reaches, begin,
  later,
}

record Safe (s : LocalLocker) : Type 0 where
  locked : (p m : ℕ) → mutex_of (s.phase p) ≡ some m → s.is_locked m ≡ true
  unique : (p q m : ℕ) → mutex_of (s.phase p) ≡ some m → mutex_of (s.phase q) ≡ some m → p ≡ q
  entered :
      (p m : ℕ) (id : Bytes)
      → entry_of (s.phase p) ≡ some (id, m)
      → lookup id (s.table).locks ≡ some m

at_or_old {ℓ} :
    {A : Type ℓ} (P : A → Type 0) (p q : ℕ) (b : A) (f : ℕ → A)
    → P (set p b f q)
    → ((q ≡ p) × P b) ⊎ ((q ≢ p) × P (f q))
at_or_old P p q b f h = elim (Bool-cases (q == p)) [
  | inl k ↦ inl (ground arith, subst (λ (c : Bool). P (if c then b else f q)) k h)
  | inr k ↦ inr ((λ e. ground arith), subst (λ (c : Bool). P (if c then b else f q)) k h)
]

abbrev Has : ℕ → Phase → Type 0
Has m x = mutex_of x ≡ some m

abbrev Enters : Bytes → ℕ → Phase → Type 0
Enters id m x = entry_of x ≡ some (id, m)

-- One call moves to a new phase, and the map and the flags may change with it.
record Moves (s s' : LocalLocker) : Type 0 where
  mover : ℕ
  target : Phase
  phases : s'.phase ≡ set mover target s.phase
  got :
      (m : ℕ)
      → Has m target
      → (s'.is_locked m ≡ true) × ((q : ℕ) → q ≢ mover → Has m (s.phase q) → ⊥)
  kept : (q m : ℕ) → q ≢ mover → Has m (s.phase q) → s'.is_locked m ≡ true
  new_entry : (id : Bytes) (m : ℕ) → Enters id m target → lookup id (s'.table).locks ≡ some m
  old_entry :
      (q : ℕ) (id : Bytes) (m : ℕ) → Enters id m (s.phase q) → lookup id (s'.table).locks ≡ some m

Safe-Moves : (s s' : LocalLocker) → Moves s s' → Safe s → Safe s'
Safe-Moves s s' v i = record { locked = locked'; unique = unique'; entered = entered' }
  where
    split :
        (P : Phase → Type 0) (q : ℕ)
        → P (s'.phase q)
        → ((q ≡ v.mover) × P v.target) ⊎ ((q ≢ v.mover) × P (s.phase q))
    split P q h =
        at_or_old P v.mover q v.target s.phase (subst (λ (f : ℕ → Phase). P (f q)) v.phases h)

    locked' : (p m : ℕ) → Has m (s'.phase p) → s'.is_locked m ≡ true
    locked' p m h = elim (split (Has m) p h) [
      | inl (e, g) ↦ (v.got m g).0
      | inr (n, g) ↦ v.kept p m n g
    ]

    unique' : (p q m : ℕ) → Has m (s'.phase p) → Has m (s'.phase q) → p ≡ q
    unique' p q m h k = elim (split (Has m) p h) [
      | inl (e, g) ↦ elim (split (Has m) q k) [
        | inl (e', g') ↦ e ∙ sym e'
        | inr (n, g') ↦ absurd ((v.got m g).1 q n g')
      ]
      | inr (n, g) ↦ elim (split (Has m) q k) [
        | inl (e', g') ↦ absurd ((v.got m g').1 p n g)
        | inr (n', g') ↦ i.unique p q m g g'
      ]
    ]

    entered' :
        (p m : ℕ) (id : Bytes) → Enters id m (s'.phase p) → lookup id (s'.table).locks ≡ some m
    entered' p m id h = elim (split (Enters id m) p h) [
      | inl (e, g) ↦ v.new_entry id m g
      | inr (n, g) ↦ v.old_entry p id m g
    ]

found-table :
    (id : Bytes) (r : Option ℕ) (t : LockTable)
    → lookup id t.locks ≡ r
    → lookup id (found_or_new id r t).1.locks ≡ some (found_or_new id r t).0
found-table id (some m) t h = h
found-table id none t h =
    ground (arith, lookup-insert id id t.next t.locks, (text_eq_iff id id).1 refl)

kept-table :
    (id other : Bytes) (m : ℕ) (r : Option ℕ) (t : LockTable)
    → lookup id t.locks ≡ r
    → lookup other t.locks ≡ some m
    → lookup other (found_or_new id r t).1.locks ≡ some m
kept-table id other m (some k) t h g = g
kept-table id other m none t h g =
    ground (arith, lookup-insert id other t.next t.locks, text_eq_iff id other)

Acquires-facts :
    (a b : Phase) (m : ℕ)
    → Acquires a m b
    → Has m b × ((id : Bytes) (k : ℕ) → Enters id k b → Enters id k a)
Acquires-facts a b m in_time = (refl, λ id k h. h)
Acquires-facts a b m too_late = (refl, λ id k h. absurd (cc h))

Selects-facts :
    (a b : Phase)
    → Selects a b
    → ((m : ℕ) → Has m b → Has m a) × ((id : Bytes) (k : ℕ) → Enters id k b → Enters id k a)
Selects-facts a b gives_up = (λ m h. absurd (cc h), λ id k h. absurd (cc h))
Selects-facts a b gives_back = (λ m h. h, λ id k h. absurd (cc h))
Selects-facts a b returns = (λ m h. h, λ id k h. h)

Releases-Has : (a : Phase) (m : ℕ) → Releases a m → Has m a
Releases-Has a m unlocks = refl
Releases-Has a m drops = refl

abbrev session_in : Option (Bytes × ℕ) → Bytes
session_in none = []
session_in (some e) = e.0

abbrev mutex_in : Option (Bytes × ℕ) → ℕ
mutex_in none = 0
mutex_in (some e) = e.1

carried :
    (id other : Bytes) (k m : ℕ) (table : Bytes → Option ℕ)
    → ◌≡◌ {A = Option (Bytes × ℕ)} (some (id, k)) (some (other, m))
    → table id ≡ some k
    → table other ≡ some m
carried id other k m table e h =
    ap table (sym (ap session_in e)) ∙ h ∙ ap (λ (x : Option (Bytes × ℕ)). some (mutex_in x)) e

set-true : (m k : ℕ) (f : ℕ → Bool) → f k ≡ true → set m true f k ≡ true
set-true m k f h = ground (arith, h)

raised :
    (s : LocalLocker) (p m : ℕ) (b : Phase) (k : ℕ)
    → Safe s
    → Has m b
    → s.is_locked m ≡ false
    → Has k b
    → (set m true s.is_locked k ≡ true) × ((q : ℕ) → q ≢ p → Has k (s.phase q) → ⊥)
raised s p m b k i e free h =
    let same : k ≡ m = cc (e, h) in
    (ground (arith, same), λ q n o. absurd (cc (i.locked q k o, free, same)))

lowered :
    (s : LocalLocker) (p q m k : ℕ)
    → Safe s
    → Has m (s.phase p)
    → q ≢ p
    → Has k (s.phase q)
    → set m false s.is_locked k ≡ true
lowered s p q m k i e n h = elim (Bool-cases (k == m)) [
  | inl c ↦
      let same : k ≡ m = ground arith in absurd (n (i.unique q p k h (e ∙ ap some (sym same))))
  | inr c ↦ rw c (i.locked q k h)
]

forgotten :
    (s : LocalLocker) (id other : Bytes) (p m : ℕ)
    → Safe s
    → ((p m : ℕ) → entry_of (s.phase p) ≢ some (id, m))
    → Enters other m (s.phase p)
    → lookup other (remove id (s.table).locks) ≡ some m
forgotten s id other p m i none_left h = elim (Bool-cases (text_eq id other)) [
  | inl c ↦
      let same : id ≡ other = (text_eq_iff id other).0 c in
      absurd (none_left p m (h ∙ ap (λ (x : Bytes). some (x, m)) (sym same)))
  | inr c ↦ ground (arith, lookup-remove id other (s.table).locks, i.entered p m other h)
]

Safe-Step : (s s' : LocalLocker) → Step s s' → Safe s → Safe s'
unfolding mutex_for
Safe-Step s s' (enter p id e) i =
    Safe-Moves s _
      (record {
        mover = p;
        target = waiting id (mutex_for id s.table).0;
        phases = refl;
        got = λ m h. absurd (cc h);
        kept = λ q m n h. i.locked q m h;
        new_entry = λ other m h.
            carried id other _ m
              (λ (x : Bytes).
                lookup x (found_or_new id (lookup id (s.table).locks) s.table).1.locks)
              h (found-table id (lookup id (s.table).locks) s.table refl);
        old_entry = λ q other m h.
            kept-table id other m (lookup id (s.table).locks) s.table refl (i.entered q m other h);
      })
      i
Safe-Step s s' (acquire p m {b} a free) i =
    Safe-Moves s _
      (record {
        mover = p;
        target = b;
        phases = refl;
        got = λ k h. raised s p m b k i (Acquires-facts (s.phase p) b m a).0 free h;
        kept = λ q k n h. set-true m k s.is_locked (i.locked q k h);
        new_entry = λ id k h. i.entered p k id ((Acquires-facts (s.phase p) b m a).1 id k h);
        old_entry = λ q id k h. i.entered q k id h;
      })
      i
Safe-Step s s' (select p {b} a) i =
    Safe-Moves s _
      (record {
        mover = p;
        target = b;
        phases = refl;
        got = λ k h.
            let g = (Selects-facts (s.phase p) b a).0 k h in
            (i.locked p k g, λ q n o. n (i.unique q p k o g));
        kept = λ q k n h. i.locked q k h;
        new_entry = λ id k h. i.entered p k id ((Selects-facts (s.phase p) b a).1 id k h);
        old_entry = λ q id k h. i.entered q k id h;
      })
      i
Safe-Step s s' (release p m a) i =
    Safe-Moves s _
      (record {
        mover = p;
        target = finished;
        phases = refl;
        got = λ k h. absurd (cc h);
        kept = λ q k n h. lowered s p q m k i (Releases-Has (s.phase p) m a) n h;
        new_entry = λ id k h. absurd (cc h);
        old_entry = λ q id k h. i.entered q k id h;
      })
      i
Safe-Step s s' (forget id none_left) i = record {
  locked = i.locked;
  unique = i.unique;
  entered = λ p m other h. forgotten s id other p m i none_left h;
}

start-Safe : Safe new_local_locker
start-Safe = record {
  locked = λ p m h. absurd (cc h);
  unique = λ p q m h k. absurd (cc h);
  entered = λ p m id h. absurd (cc h);
}

Reaches-Safe : (s : LocalLocker) → Reaches s → Safe s
Reaches-Safe s begin = start-Safe
Reaches-Safe s (later {s = r} h t) = Safe-Step r s t (Reaches-Safe r h)

-- Of any number of concurrent calls of `Lock` at most one holds the lock of a session at a time,
-- through cancelled calls, repeated unlocks and calls of `Forget` for sessions without a call: two
-- calls that have returned an `unlock` for one session, not called yet, are the same call.
pub lock_is_exclusive :
    (s : LocalLocker)
    → Reaches s
    → (p q : ℕ) (id : Bytes) (m k : ℕ) → s.phase p ≡ holding id m
    → s.phase q ≡ holding id k
    → p ≡ q
lock_is_exclusive s r p q id m k h g =
    let i = Reaches-Safe s r in
    let one : lookup id (s.table).locks ≡ some m =
      i.entered p m id (ap (λ (x : Phase). entry_of x) h) in
    let two : lookup id (s.table).locks ≡ some k =
      i.entered q k id (ap (λ (x : Phase). entry_of x) g) in
    i.unique p q m (ap (λ (x : Phase). mutex_of x) h)
      (ap (λ (x : Phase). mutex_of x) g ∙ sym two ∙ one)

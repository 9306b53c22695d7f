-- ===== src/Agent/Locker/Progress.antt =====
-- A call that waits for the lock of a session can get it.
use mathlib.Core.Path.{subst}
use aikido.Prelude.{
  ℕ, ◌+◌, ◌≤◌, true, false, Option, some, ◌≡◌, ◌≢◌, refl, sym, ap, ◌∙◌, arith, Bytes, ◌==◌,
  Bool-cases, ◌⊎◌, inl, inr,
}
use aikido.Agent.Locker.{
  Phase, idle, finished, waiting, acquired, abandoned, releasing, holding, LocalLocker, set,
  mutex_of, Acquires, in_time, too_late, Selects, gives_up, gives_back, returns, Releases, unlocks,
  drops, move, Step, enter, acquire, select, release, forget, Reaches, begin, later,
}

abbrev Has : ℕ → Phase → Type 0
Has m x = mutex_of x ≡ some m

-- a raised flag belongs to a call
abbrev Owned : LocalLocker → Type 0
Owned s = (m : ℕ) → s.is_locked m ≡ true → (p : ℕ) × Has m (s.phase p)

set-same {ℓ} : {A : Type ℓ} (p : ℕ) (b : A) (f : ℕ → A) → set p b f p ≡ b
set-same p b f = ground arith

set-other {ℓ} : {A : Type ℓ} (p q : ℕ) (b : A) (f : ℕ → A) → q ≢ p → set p b f q ≡ f q
set-other p q b f n = elim (Bool-cases (q == p)) [
  | inl h ↦ absurd (n (ground arith))
  | inr h ↦ rw h refl
]

-- The owner of a flag stays, where the call that moves is not it, or keeps its mutex.
stays :
    (p : ℕ) (b : Phase) (f : ℕ → Phase) (m : ℕ)
    → (Has m (f p) → Has m b)
    → (q : ℕ) × Has m (f q)
    → (q : ℕ) × Has m (set p b f q)
stays p b f m k (q, h) = elim (Bool-cases (q == p)) [
  | inl e ↦
      let same : q ≡ p = ground arith in
      (p, ap mutex_of (set-same p b f) ∙ k (subst (λ i. Has m (f i)) same h))
  | inr e ↦ (q, ap mutex_of (set-other p q b f (λ i. ground arith)) ∙ h)
]

Acquires-Has : (a b : Phase) (m k : ℕ) → Acquires a m b → Has m b × (Has k a → Has k b)
Acquires-Has a b m k in_time = (refl, λ h. absurd (cc h))
Acquires-Has a b m k too_late = (refl, λ h. absurd (cc h))

Selects-Has : (a b : Phase) (m : ℕ) → Selects a b → Has m a → Has m b
Selects-Has a b m gives_up h = absurd (cc h)
Selects-Has a b m gives_back h = h
Selects-Has a b m returns h = h

Releases-Has : (a : Phase) (m : ℕ) → Releases a m → Has m a
Releases-Has a m unlocks = refl
Releases-Has a m drops = refl

Owned-Step : (s s' : LocalLocker) → Step s s' → Owned s → Owned s'
Owned-Step s s' (enter p id e) o m h = stays p _ s.phase m (λ k. absurd (cc (e, k))) (o m h)
Owned-Step s s' (acquire p m {b} a free) o k h = elim (Bool-cases (k == m)) [
  | inl e ↦
      let same : k ≡ m = ground arith in
      (
        p,
        ap mutex_of (set-same p b s.phase)
            ∙ (Acquires-Has (s.phase p) b m k a).0
            ∙ ap some (sym same),
      )
  | inr e ↦
      stays p b s.phase k (Acquires-Has (s.phase p) b m k a).1
        (o k (sym (set-other m k true s.is_locked (λ i. ground arith)) ∙ h))
]
Owned-Step s s' (select p {b} a) o m h = stays p b s.phase m (Selects-Has (s.phase p) b m a) (o m h)
Owned-Step s s' (release p m a) o k h = elim (Bool-cases (k == m)) [
  | inl e ↦
      let same : k ≡ m = ground arith in
      absurd (cc (sym (set-same m false s.is_locked) ∙ ap (set m false s.is_locked) (sym same) ∙ h))
  | inr e ↦
      stays p finished s.phase k (λ g. absurd (differ k m e (sym g ∙ Releases-Has (s.phase p) m a)))
        (o k (sym (set-other m k false s.is_locked (λ i. ground arith)) ∙ h))
]
  where
    differ : (k m : ℕ) → (k == m) ≡ false → ◌≢◌ {A = Option ℕ} (some k) (some m)
    differ k m e h = let same : k ≡ m = cc h in ground arith
Owned-Step s s' (forget id none_left) o m h = o m h

Reaches-Owned : (s : LocalLocker) → Reaches s → Owned s
Reaches-Owned s begin = λ m h. absurd (cc h)
Reaches-Owned s (later {s = r} h t) = Owned-Step r s t (Reaches-Owned r h)

-- so many steps lead from one state to the other
pub data Leads (s : LocalLocker) : LocalLocker → ℕ → Type 0 where
  here : Leads s s 0
  next : {t u : LocalLocker} {n : ℕ} → Leads s t n → Step t u → Leads s u (1 + n)

-- the state in which the call `p` holds the lock
abbrev pub Serves : LocalLocker → ℕ → Bytes → ℕ → Type 0
Serves s p id m = (t : LocalLocker) × (n : ℕ) × Leads s t n × (n ≤ 4) × (t.phase p ≡ holding id m)

-- the mutex is free: the call's goroutine takes it, and the call returns
serve :
    (s t : LocalLocker) (p : ℕ) (id : Bytes) (m n : ℕ)
    → Leads s t n
    → n ≤ 2
    → t.phase p ≡ waiting id m
    → t.is_locked m ≡ false
    → Serves s p id m
serve s t p id m n l few w free =
    let u : LocalLocker = record t {
      phase = set p (acquired id m) t.phase;
      is_locked = set m true t.is_locked;
    } in
    let took : Step t u =
      acquire p m (subst (λ a. Acquires a m (acquired id m)) (sym w) in_time) free in
    let done : Step u (move p (holding id m) u) =
      select p (
        subst (λ a. Selects a (holding id m)) (sym (set-same p (acquired id m) t.phase)) returns) in
    (
      move p (holding id m) u,
      1 + (1 + n),
      next (next l took) done,
      omega (arith, few),
      set-same p (holding id m) u.phase,
    )

-- The owner of a mutex can unlock it at once, or has just acquired it.
unlocks_or_acquired :
    (a : Phase) (m : ℕ) → Has m a → Releases a m ⊎ ((id : Bytes) × (a ≡ acquired id m))
unlocks_or_acquired idle m h = absurd (cc h)
unlocks_or_acquired finished m h = absurd (cc h)
unlocks_or_acquired (waiting id k) m h = absurd (cc h)
unlocks_or_acquired (abandoned k) m h = absurd (cc h)
unlocks_or_acquired (acquired id k) m h = let same : k ≡ m = cc h in inr (id, ap (acquired id) same)
unlocks_or_acquired (releasing k) m h =
    let same : k ≡ m = cc h in inl (subst (λ i. Releases (releasing i) m) (sym same) drops)
unlocks_or_acquired (holding id k) m h =
    let same : k ≡ m = cc h in inl (subst (λ i. Releases (holding id i) m) (sym same) unlocks)

-- The owner unlocks, and the waiting call is served.
unlock_and_serve :
    (s t : LocalLocker) (p q : ℕ) (id : Bytes) (m n : ℕ)
    → Leads s t n
    → n ≤ 1
    → t.phase p ≡ waiting id m
    → p ≢ q
    → Releases (t.phase q) m
    → Serves s p id m
unlock_and_serve s t p q id m n l few w other r =
    serve s (record t { phase = set q finished t.phase; is_locked = set m false t.is_locked }) p id
      m (1 + n) (next l (release q m r)) (omega (arith, few))
      (set-other q p finished t.phase other ∙ w) (set-same m false t.is_locked)

-- In every state that concurrent calls of `Lock` can reach, a call that waits for the lock of a
-- session can get it within four steps: the mutex is free, or it belongs to a call that can unlock
-- it, whether that call holds the lock, gave up while it waited, or has just acquired the mutex.
pub waiting-Serves :
    (s : LocalLocker) (p m : ℕ) (id : Bytes)
    → Reaches s
    → s.phase p ≡ waiting id m
    → Serves s p id m
waiting-Serves s p m id r w = elim (Bool-cases (s.is_locked m)) [
  | inr free ↦ serve s s p id m 0 here (omega arith) w free
  | inl raised ↦
      let (q, h) = Reaches-Owned s r m raised in
      let other : p ≢ q = not_owner q h in
      elim (unlocks_or_acquired (s.phase q) m h) [
        | inl u ↦ unlock_and_serve s s p q id m 0 here (omega arith) w other u
        | inr (id', e) ↦
            unlock_and_serve s (move q (releasing m) s) p q id m (1 + 0)
              (next here (select q (subst (λ a. Selects a (releasing m)) (sym e) gives_back)))
              (omega arith) (set-other q p (releasing m) s.phase other ∙ w) other
              (subst (λ a. Releases a m) (sym (set-same q (releasing m) s.phase)) drops)
      ]
]
  where
    not_owner : (q : ℕ) → Has m (s.phase q) → p ≢ q
    not_owner q h e =
        let mine : mutex_of (s.phase p) ≡ some m = subst (λ i. Has m (s.phase i)) (sym e) h in
        absurd (cc (ap mutex_of w, mine))

-- ===== src/Examples/OfLockers.antt =====
-- The theorems on the locker, where one call has the lock of a session and another waits for it.
use aikido.Prelude.{ℕ, true, false, [], ◌∷◌, ◌≡◌, refl, Bytes, codes, text_eq}
use aikido.Prelude.Assoc.{lookup, insert}
use aikido.Agent.Locker.{
  idle, waiting, acquired, holding, LocalLocker, set, mutex_for, in_time, returns, enter, acquire,
  select, Reaches, begin, later,
}
use aikido.Agent.Locker.Exclusion.{lock_is_exclusive}
use aikido.Agent.Locker.Progress.{Serves, waiting-Serves}

abbrev s1 : Bytes
s1 = codes "s1"

abbrev held : LocalLocker
held = record {
  table = record { locks = (s1, 0) ∷ []; next = 1 };
  phase =
      set 1 (waiting s1 0)
        (set 0 (holding s1 0) (set 0 (acquired s1 0) (set 0 (waiting s1 0) (λ p. idle))));
  is_locked = set 0 true (λ m. false);
}

held-Reaches : Reaches held
unfolding mutex_for lookup insert text_eq
held-Reaches =
    later
      (later (later (later begin (enter 0 s1 refl)) (acquire 0 0 in_time refl)) (select 0 returns))
      (enter 1 s1 refl)

lock_is_exclusive_example : ◌≡◌ {A = ℕ} 0 0
lock_is_exclusive_example = lock_is_exclusive held held-Reaches 0 0 s1 0 0 refl refl

waiting-Serves_example : Serves held 1 s1 0
waiting-Serves_example = waiting-Serves held 1 0 s1 held-Reaches refl

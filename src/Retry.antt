-- ===== src/Retry.antt =====
-- retry/retry.go: attempts with backoff. Floats and the random number of the jitter are the record
-- `Float64`, and the context's answers the record `Outer`; a duration in the policy is a number of nanoseconds, where 0 stands
-- for the negative ones too, which the code treats alike.
pub mod Log
use aikido.Prelude.{
  ℕ, zero, suc, ◌+◌, ◌-◌, Bool, true, false, ◌&&◌, Option, none, some, List, [], ◌∷◌, ltb, ◌==◌,
  if◌then◌else◌,
}
use aikido.Prelude.Int.{ℤ, pos, negsuc}
use aikido.Errors.{
  CtxError, Ctx, Error, ctx_error, locker_failed, read_failed, append_failed, stream_failed,
  retry_after,
}

-- float64, as far as the backoff computes with it
pub record Float64 (F : Type 0) : Type 0 where
  pub of_duration : ℕ → F
  pub times : F → F → F
  pub is_positive : F → Bool
  pub is_negative : F → Bool
  pub exceeds_one : F → Bool
  pub one : F
  pub nought : F
  -- `1 + j*(2*rand.Float64()-1)`, with the random number of the given attempt
  pub jittered : ℕ → F → F
  -- `time.Duration(d)`
  pub to_duration : F → ℤ

pub record Policy (F : Type 0) : Type 0 where
  pub max_attempts : ℤ
  pub base_delay : ℕ
  pub max_delay : ℕ
  pub multiplier : F
  pub jitter : F
  pub should_retry : Option (Error → Bool)

-- what the context says before an attempt, and while it sleeps behind one
pub record Outer : Type 0 where
  pub before : ℕ → Ctx
  pub during : ℕ → ℤ → Ctx

-- the calls of `fn`, each with its result, and the sleeps that were begun
pub record Done (W : Type 0) : Type 0 where
  pub error : Option Error
  pub world : W
  pub calls : List (ℕ × Option Error)
  pub sleeps : List ℤ

-- `if policy.MaxAttempts < 1 { policy.MaxAttempts = 1 }`
unfoldable pub attempts_of : ℤ → ℕ
attempts_of (pos zero) = 1
attempts_of (pos (suc n)) = suc n
attempts_of (negsuc n) = 1

-- `if policy.ShouldRetry == nil { … }`; a call is made on errors only
abbrev pub retry_of : Option (Error → Bool) → Error → Bool
retry_of none e = true
retry_of (some f) e = f e

-- `errors.As(err, &rae)`
unfoldable pub hint : Error → Option ℕ
hint (retry_after e n) = some n
hint (locker_failed e) = hint e
hint (read_failed e) = hint e
hint (append_failed e) = hint e
hint (stream_failed e) = hint e
hint _ = none

module _ {F : Type 0} (f : Float64 F) (policy : Policy F) where
  -- `d *= p.Multiplier`, so many times
  unfoldable pub grown : ℕ → F → F
  grown zero d = d
  grown (suc n) d = grown n (f.times d policy.multiplier)

  abbrev pub with_jitter : ℕ → F → F
  with_jitter attempt d =
      if f.is_positive policy.jitter
      then f.times d
          (f.jittered attempt (if f.exceeds_one policy.jitter then f.one else policy.jitter))
      else d

  unfoldable pub compute_backoff : ℕ → ℤ
  unfolding grown
  compute_backoff attempt =
      if policy.base_delay == 0
      then pos 0
      else (let d = with_jitter attempt (grown (attempt - 1) (f.of_duration policy.base_delay)) in
          f.to_duration (if f.is_negative d then f.nought else d))

  -- `errors.As(err, &rae) && rae.After > 0`
  abbrev pub hinted : Option ℕ → ℤ → ℤ
  hinted none computed = computed
  hinted (some zero) computed = computed
  hinted (some (suc n)) computed = pos (suc n)

  abbrev pub capped : ℤ → ℤ
  capped (negsuc n) = negsuc n
  capped (pos n) =
      if ltb 0 policy.max_delay && ltb policy.max_delay n then pos policy.max_delay else pos n

  unfoldable pub sleep_of : ℕ → Error → ℤ
  unfolding compute_backoff hint
  sleep_of attempt e = capped (hinted (hint e) (compute_backoff attempt))

  module _ {W : Type 0} (o : Outer) (fn : ℕ → W → Option Error × W) where
    abbrev pub finished : Option Error → W → Done W
    finished e w = record { error = e; world = w; calls = []; sleeps = [] }

    abbrev pub first_error : Option Error → CtxError → Option Error
    first_error none c = some (ctx_error c)
    first_error (some e) c = some e

    -- the call in front of what follows it
    abbrev pub called : ℕ → Option Error → Done W → Done W
    called attempt r d = record d { calls = (attempt, r) ∷ d.calls }

    abbrev pub slept : ℤ → Done W → Done W
    slept t d = record d { sleeps = t ∷ d.sleeps }

    -- behind a call of `fn`; `is_last` is `attempt == policy.MaxAttempts`, `rest` the next attempts
    unfoldable pub after_call : ℕ → Bool → Option Error × W → (Error → W → Done W) → Done W
    after_call attempt is_last (none, w) rest = called attempt none (finished none w)
    after_call attempt is_last (some e, w) rest = called attempt (some e) (
        if retry_of policy.should_retry e
        then if is_last
          then finished (some e) w
          else slept (sleep_of attempt e) (elim (o.during attempt (sleep_of attempt e)) [
            | some c ↦ finished (some (ctx_error c)) w
            | none ↦ rest e w
          ])
        else finished (some e) w)

    -- the loop: how many attempts are left, the number of the next, and the last error
    unfoldable pub attempt_from : ℕ → ℕ → Option Error → W → Done W
    attempt_from zero attempt last_err w = finished last_err w
    attempt_from (suc left) attempt last_err w = elim (o.before attempt) [
      | some c ↦ finished (first_error last_err c) w
      | none ↦
          after_call attempt (left == 0) (fn attempt w)
            (λ e w'. attempt_from left (attempt + 1) (some e) w')
    ]

    -- `Do`
    unfoldable pub retry_do : W → Done W
    retry_do w = attempt_from (attempts_of policy.max_attempts) 1 none w

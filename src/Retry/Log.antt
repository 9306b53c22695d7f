-- ===== src/Retry/Log.antt =====
-- What `Do` calls, how long it sleeps, and what it returns.
use aikido.Prelude.{
  ℕ, zero, suc, ◌+◌, ◌≤◌, ◌<◌, Bool, true, false, Option, none, some, List, [], ◌∷◌, ◌≡◌, refl, sym,
  ◌∙◌, ◌⊎◌, inl, inr, arith, length, All, Bool-cases, Option-cases, ltb, ◌==◌, ◌&&◌,
}
use aikido.Prelude.Int.{ℤ, pos, negsuc}
use aikido.Errors.{CtxError, Error, ctx_error}
use aikido.Retry.{
  Float64, Policy, Outer, Done, attempts_of, retry_of, sleep_of, capped, finished, first_error,
  called, slept, after_call, attempt_from, retry_do,
}

-- the last call of a log returned nil
abbrev pub ends_well : List (ℕ × Option Error) → Bool
ends_well [] = false
ends_well ((n, none) ∷ []) = true
ends_well ((n, some e) ∷ []) = false
ends_well (c ∷ d ∷ cs) = ends_well (d ∷ cs)

-- Calls numbered from `n` on, at most `left` of them, where all but the last failed with an error
-- that the policy retries.
pub data Logged (retry : Error → Bool) : ℕ → ℕ → List (ℕ × Option Error) → Type 0 where
  no_call : {left n : ℕ} → Logged retry left n []
  last_call : {left n : ℕ} (r : Option Error) → Logged retry (suc left) n ((n, r) ∷ [])
  retried :
      {left n : ℕ} {cs : List (ℕ × Option Error)} (e : Error)
      → retry e ≡ true
      → Logged retry left (n + 1) cs
      → Logged retry (suc left) n ((n, some e) ∷ cs)

-- the error of the last call, or `before` if there is none
abbrev pub last_error : Option Error → List (ℕ × Option Error) → Option Error
last_error before [] = before
last_error before ((n, r) ∷ cs) = last_error r cs

abbrev pub is_none {ℓ} : {A : Type ℓ} → Option A → Bool
is_none none = true
is_none (some a) = false

ends_well-retried :
    (n : ℕ) (e : Error) (cs : List (ℕ × Option Error)) → ends_well ((n, some e) ∷ cs) ≡ ends_well cs
ends_well-retried n e [] = refl
ends_well-retried n e (c ∷ cs) = refl

abbrev pub Within : ℕ → ℤ → Type 0
Within max (negsuc n) = Unit
Within max (pos n) = n ≤ max

abbrev pub AllWithin : ℕ → List ℤ → Type 0
AllWithin max = All (Within max)

pub attempts_pos : (n : ℤ) → 0 < attempts_of n
unfolding attempts_of
attempts_pos (pos zero) = omega arith
attempts_pos (pos (suc n)) = omega arith
attempts_pos (negsuc n) = omega arith

module _ {F : Type 0} (f : Float64 F) (policy : Policy F) {W : Type 0} (o : Outer)
    (fn : ℕ → W → Option Error × W) where
  -- the log, the error and the sleeps of what is left of a `Do`
  pub record Good (left n : ℕ) (last : Option Error) (d : Done W) : Type 0 where
    pub log : Logged (retry_of policy.should_retry) left n d.calls
    pub outcome :
        (d.error ≡ last_error last d.calls) ⊎ ((c : CtxError) × (d.error ≡ some (ctx_error c)))
    pub short : length d.sleeps ≤ left
    pub within_max : 0 < policy.max_delay → AllWithin policy.max_delay d.sleeps
    pub success : (last ≡ none → 0 < left) → is_none d.error ≡ ends_well d.calls

  finished-Good :
      (left n : ℕ) (last : Option Error) (w : W)
      → ((last ≡ none → 0 < left) → is_none last ≡ false)
      → Good left n last (finished f policy o fn last w)
  finished-Good left n last w s = record {
    log = no_call;
    outcome = inl refl;
    short = omega arith;
    within_max = λ h. tt;
    success = s;
  }

  stopped-Good :
      (left n : ℕ) (last : Option Error) (c : CtxError) (w : W)
      → Good left n last (finished f policy o fn (some (ctx_error c)) w)
  stopped-Good left n last c w = record {
    log = no_call;
    outcome = inr (c, refl);
    short = omega arith;
    within_max = λ h. tt;
    success = λ h. refl;
  }

  capped-Within : (t : ℤ) → 0 < policy.max_delay → Within policy.max_delay (capped f policy t)
  capped-Within (negsuc n) h = tt
  capped-Within (pos n) h = elim (Bool-cases (ltb 0 policy.max_delay && ltb policy.max_delay n)) [
    | inl k ↦ rw k (omega arith)
    | inr k ↦ rw k (ground arith)
  ]

  retried-Good :
      (left n : ℕ) (e : Error) (before : Option Error) (d : Done W)
      → retry_of policy.should_retry e ≡ true
      → Good left (n + 1) (some e) d
      → Good
          (suc left)
          n
          before
          (called f policy o fn n (some e) (slept f policy o fn (sleep_of f policy n e) d))
  unfolding sleep_of
  retried-Good left n e before d k g = record {
    log = retried e k g.log;
    outcome = g.outcome;
    short = ground (arith, g.short);
    within_max = λ h. (capped-Within _ h, g.within_max h);
    success = λ h. g.success (λ q. absurd (cc q)) ∙ sym (ends_well-retried n e d.calls);
  }

  ended-Good :
      (left n : ℕ) (before r : Option Error) (w : W)
      → Good (suc left) n before (called f policy o fn n r (finished f policy o fn r w))
  ended-Good left n before none w = record {
    log = last_call none;
    outcome = inl refl;
    short = omega arith;
    within_max = λ h. tt;
    success = λ h. refl;
  }
  ended-Good left n before (some e) w = record {
    log = last_call (some e);
    outcome = inl refl;
    short = omega arith;
    within_max = λ h. tt;
    success = λ h. refl;
  }

  after-Good :
      (left n : ℕ) (before : Option Error) (r : Option Error × W) (rest : Error → W → Done W)
      → ((e : Error) (w : W) → Good left (n + 1) (some e) (rest e w))
      → Good (suc left) n before (after_call f policy o fn n (left == 0) r rest)
  unfolding after_call
  after-Good left n before (none, w) rest g = ended-Good left n before none w
  after-Good left n before (some e, w) rest g = elim (Bool-cases (retry_of policy.should_retry e)) [
    | inr k ↦ rw k (ended-Good left n before (some e) w)
    | inl k ↦ elim (Bool-cases (left == 0)) [
      | inl z ↦ rw (k, z) (ended-Good left n before (some e) w)
      | inr z ↦ elim (Option-cases (o.during n (sleep_of f policy n e))) [
        | inl q ↦ rw k (rw z (rw q (retried-Good left n e before (rest e w) k (g e w))))
        | inr (c, q) ↦ rw k (
            rw z (rw q (retried-Good left n e before _ k (stopped-Good left (n + 1) (some e) c w))))
      ]
    ]
  ]

  first-Good :
      (left n : ℕ) (last : Option Error) (c : CtxError) (w : W)
      → Good left n last (finished f policy o fn (first_error f policy o fn last c) w)
  first-Good left n none c w = stopped-Good left n none c w
  first-Good left n (some e) c w = finished-Good left n (some e) w (λ h. refl)

  from-Good :
      (left n : ℕ) (last : Option Error) (w : W)
      → Good left n last (attempt_from f policy o fn left n last w)
  unfolding attempt_from
  from-Good zero n none w = finished-Good zero n none w (λ h. absurd (omega (arith, h refl)))
  from-Good zero n (some e) w = finished-Good zero n (some e) w (λ h. refl)
  from-Good (suc left) n last w = elim (Option-cases (o.before n)) [
    | inr (c, k) ↦ rw (k, attempt_from) (first-Good (suc left) n last c w)
    | inl k ↦
        rw (k, attempt_from)
          (after-Good left n last (fn n w)
            (λ e w'. attempt_from f policy o fn left (n + 1) (some e) w')
            (λ e w'. from-Good left (n + 1) (some e) w'))
  ]

  abbrev run : W → Done W
  run = retry_do f policy o fn

  do-Good : (w : W) → Good (attempts_of policy.max_attempts) 1 none (run w)
  unfolding retry_do
  do-Good w = from-Good (attempts_of policy.max_attempts) 1 none w

  -- `Do` calls its function with the attempts 1, 2, and so on, at most `MaxAttempts` times (once
  -- where that is below 1), and goes on only behind an error that the policy retries.
  pub retry_do-Logged :
      (w : W)
      → Logged
          (retry_of policy.should_retry)
          (attempts_of policy.max_attempts)
          1
          (retry_do f policy o fn w).calls
  retry_do-Logged w = (do-Good w).log

  -- `Do` returns nil exactly when the last call of the function did.
  pub retry_do_succeeds :
      (w : W)
      → is_none (retry_do f policy o fn w).error ≡ ends_well (retry_do f policy o fn w).calls
  retry_do_succeeds w = (do-Good w).success (λ h. attempts_pos policy.max_attempts)

  -- `Do` returns the error of the last call or the context's error.
  pub retry_do_error :
      (w : W)
      → ((retry_do f policy o fn w).error ≡ last_error none (retry_do f policy o fn w).calls)
        ⊎ ((c : CtxError) × ((retry_do f policy o fn w).error ≡ some (ctx_error c)))
  retry_do_error w = (do-Good w).outcome

  -- With a positive `MaxDelay` no sleep of `Do` is longer than that, also where the error carries
  -- a longer hint.
  pub retry_do_sleeps :
      (w : W) → 0 < policy.max_delay → AllWithin policy.max_delay (retry_do f policy o fn w).sleeps
  retry_do_sleeps w h = (do-Good w).within_max h

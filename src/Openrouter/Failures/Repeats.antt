-- ===== src/Openrouter/Failures/Repeats.antt =====
-- Which requests the OpenRouter client sends again, and when.
use aikido.Prelude.{
  ℕ, zero, suc, ◌+◌, true, if_cases, ◌*◌, ◌<◌, min, not, Bool, false, ◌&&◌, ◌||◌, Option, none,
  some, [], ◌∷◌, ◌≡◌, refl, ap, ◌∙◌, arith, Bytes, is_empty, leb, ◌==◌,
}
use aikido.Prelude.Int.{ℤ, pos, negsuc, int_limit}
use aikido.Errors.{Error, retry_after}
use aikido.Llm.Collect.{wraps}
use aikido.Retry.{
  Float64, Outer, Policy, Done, retry_of, retry_do, attempt_from, after_call, attempts_of, sleep_of,
  hint,
}
use aikido.Openrouter.Failures.{
  Header, Response, second, seconds, classify_sentinel, parse_retry_after, classify_http_error,
  with_hint, delay_of, wrapped_error, is_repeatable, retry_policy,
}

-- the statuses of a failure that a repeated request can mend: none of the client errors but a
-- timeout of the request and too many requests
abbrev pub can_mend : ℕ → Bool
can_mend status = not (leb 400 status && leb status 499) || status == 408 || status == 429

sentinel-is_repeatable : (status : ℕ) → is_repeatable (classify_sentinel status) ≡ can_mend status
unfolding classify_sentinel
sentinel-is_repeatable status = ground arith

with_hint-wraps :
    (c : Header) (e : Error) (d : Option ℤ)
    → wraps is_repeatable (with_hint c e d) ≡ wraps is_repeatable e
unfolding wraps
with_hint-wraps c e none = refl
with_hint-wraps c e (some d) = refl

-- The policy of the client repeats a refused request exactly when the status is 408, 429 or not one
-- of 400 to 499, with or without a Retry-After header.
pub retries_iff :
    (c : Header) (r : Response) → wraps is_repeatable (classify_http_error c r) ≡ can_mend r.status
unfolding classify_http_error wrapped_error wraps
retries_iff c r =
    if_cases (λ e. wraps is_repeatable e ≡ can_mend r.status) (r.status == 429)
      (λ h.
        with_hint-wraps c _ (parse_retry_after c r.retry_after_header)
        ∙ sentinel-is_repeatable r.status)
      (λ h. sentinel-is_repeatable r.status)

attempts_of-some : (n : ℤ) → (k : ℕ) × (attempts_of n ≡ suc k)
unfolding attempts_of
attempts_of-some (pos zero) = (0, refl)
attempts_of-some (pos (suc n)) = (n, refl)
attempts_of-some (negsuc n) = (0, refl)

module _ {F W : Type 0} (f : Float64 F) (two fifth : F) (max_attempts : ℤ) (o : Outer)
    (fn : ℕ → W → Option Error × W) (c : Header) where
  -- With the client's policy, a first request that is refused with a client error, other than 408
  -- and 429, is the only one: `Do` calls its function once, never sleeps, and returns the error.
  pub client_error_ends :
      (r : Response) (w w' : W)
      → can_mend r.status ≡ false
      → o.before 1 ≡ none
      → fn 1 w ≡ (some (classify_http_error c r), w')
      → retry_do f (retry_policy two fifth max_attempts) o fn w ≡ record {
        error = some (classify_http_error c r);
        world = w';
        calls = (1, some (classify_http_error c r)) ∷ [];
        sleeps = [];
      }
  unfolding retry_do attempt_from after_call retry_policy
  client_error_ends r w w' final live answered =
      let (k, e) = attempts_of-some (retry_policy two fifth max_attempts).max_attempts in
      let refused : wraps is_repeatable (classify_http_error c r) ≡ false =
        retries_iff c r ∙ final in
      rw (e, attempt_from, live, answered, refused) refl

seconds-fits : (n : ℕ) → n * second < int_limit → seconds n ≡ pos (n * second)
unfolding seconds
seconds-fits n h = ground (arith, h)

parsed :
    (c : Header) (v : Bytes) (n : ℕ)
    → is_empty (c.trim_space v) ≡ false
    → c.atoi (c.trim_space v) ≡ some (pos n)
    → parse_retry_after c v ≡ some (seconds n)
unfolding parse_retry_after
parsed c v n h g = rw (h, g) refl

hinted_sleep :
    {F : Type 0} (f : Float64 F) (two fifth : F) (max_attempts : ℤ) (attempt k : ℕ) (e : Error)
    → 0 < k
    → sleep_of f (retry_policy two fifth max_attempts) attempt (retry_after e k)
      ≡ pos (min k (30 * second))
unfolding sleep_of retry_policy hint
hinted_sleep f two fifth max_attempts attempt zero e h = absurd (omega arith)
hinted_sleep f two fifth max_attempts attempt (suc k) e h = ground arith

too_many-hint :
    (c : Header) (r : Response) (d : ℤ)
    → r.status ≡ 429
    → parse_retry_after c r.retry_after_header ≡ some d
    → classify_http_error c r ≡ retry_after (wrapped_error c r) (delay_of c d)
unfolding classify_http_error
too_many-hint c r d h g =
    if_cases (λ x. x ≡ retry_after (wrapped_error c r) (delay_of c d)) (r.status == 429)
      (λ k. ap (with_hint c (wrapped_error c r)) g) (λ k. absurd (ground arith))

-- how long a 429 asks for
hinted-sleep :
    {F : Type 0} (f : Float64 F) (two fifth : F) (max_attempts : ℤ) (c : Header) (r : Response)
    (attempt n : ℕ)
    → r.status ≡ 429
    → is_empty (c.trim_space r.retry_after_header) ≡ false
    → c.atoi (c.trim_space r.retry_after_header) ≡ some (pos n)
    → 0 < n
    → n * second < int_limit
    → sleep_of f (retry_policy two fifth max_attempts) attempt (classify_http_error c r)
      ≡ pos (min (n * second) (30 * second))
hinted-sleep f two fifth max_attempts c r attempt n status some_text number positive fits =
    ap (sleep_of f (retry_policy two fifth max_attempts) attempt) (
      too_many-hint c r (pos (n * second)) status
        (parsed c r.retry_after_header n some_text number ∙ ap some (seconds-fits n fits)))
    ∙ hinted_sleep f two fifth max_attempts attempt (n * second) (wrapped_error c r)
        (omega (arith, positive))

module _ {F W : Type 0} (f : Float64 F) (two fifth : F) (max_attempts : ℤ) (o : Outer)
    (fn : ℕ → W → Option Error × W) (c : Header) where
  attempt_live :
      (p : Policy F) (k attempt : ℕ) (last : Option Error) (w : W)
      → o.before attempt ≡ none
      → attempt_from f p o fn (suc k) attempt last w
        ≡ after_call f p o fn attempt
            (k == 0)
            (fn attempt w)
            (λ e w'. attempt_from f p o fn k (attempt + 1) (some e) w')
  unfolding attempt_from
  attempt_live p k attempt last w live = rw (attempt_from, live) refl

  call_again :
      (p : Policy F) (attempt : ℕ) (e : Error) (w' : W) (t : ℤ) (rest : Error → W → Done W)
      → retry_of p.should_retry e ≡ true
      → sleep_of f p attempt e ≡ t
      → o.during attempt t ≡ none
      → after_call f p o fn attempt false (some e, w') rest ≡ record {
        error = (rest e w').error;
        world = (rest e w').world;
        calls = (attempt, some e) ∷ (rest e w').calls;
        sleeps = t ∷ (rest e w').sleeps;
      }
  unfolding after_call
  call_again p attempt e w' t rest again s awake = rw (again, s, awake) refl

  -- With the client's policy, a request that is answered with a 429 and a Retry-After header of `n`
  -- seconds, and that is not the last attempt, is sent again: the client first sleeps `n` seconds,
  -- or 30 if they are fewer, and then goes on with the next attempt. This is so for a positive `n`
  -- whose nanoseconds fit into an int64, where the context is live before the request and while the
  -- client sleeps.
  pub retry_after_sleep :
      (r : Response) (left attempt n : ℕ) (last : Option Error) (w w' : W)
      → r.status ≡ 429
      → is_empty (c.trim_space r.retry_after_header) ≡ false
      → c.atoi (c.trim_space r.retry_after_header) ≡ some (pos n)
      → 0 < n
      → n * second < int_limit
      → o.before attempt ≡ none
      → fn attempt w ≡ (some (classify_http_error c r), w')
      → o.during attempt (pos (min (n * second) (30 * second))) ≡ none
      → let e = classify_http_error c r in
        let policy = retry_policy two fifth max_attempts in
        let next = attempt_from f policy o fn (suc left) (attempt + 1) (some e) w' in
        attempt_from f policy o fn (suc (suc left)) attempt last w ≡ record {
          error = next.error;
          world = next.world;
          calls = (attempt, some e) ∷ next.calls;
          sleeps = pos (min (n * second) (30 * second)) ∷ next.sleeps;
        }
  unfolding retry_policy
  retry_after_sleep r left attempt n last w w' status some_text number positive fits live answered
        awake =
      let policy = retry_policy two fifth max_attempts in
      let t =
        hinted-sleep f two fifth max_attempts c r attempt n status some_text number positive fits in
      let again : wraps is_repeatable (classify_http_error c r) ≡ true =
        retries_iff c r ∙ ap can_mend status in
      let rest =
        λ (e : Error) (v : W). attempt_from f policy o fn (suc left) (attempt + 1) (some e) v in
      let more : (suc left == 0) ≡ false = ground arith in
      attempt_live policy (suc left) attempt last w live
      ∙ ap (λ b. after_call f policy o fn attempt b (fn attempt w) rest) more
      ∙ ap (λ x. after_call f policy o fn attempt false x rest) answered
      ∙ call_again policy attempt (classify_http_error c r) w' _ rest again t awake

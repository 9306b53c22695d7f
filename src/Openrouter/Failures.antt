-- ===== src/Openrouter/Failures.antt =====
-- llm/openrouter/retry.go: what a refused request means, and whether it is sent again. Package
-- `strconv`, `http.ParseTime` with `time.Until`, and the decoder of the error envelope are the
-- record `Header`; the floats of the policy are parameters.
pub mod Repeats
use aikido.Prelude.{
  ℕ, zero, ◌+◌, ◌-◌, ◌*◌, ◌%◌, ◌^◌, Bool, true, false, ◌&&◌, ◌||◌, Option, none, some, List, [],
  ◌∷◌, ◌++◌, Bytes, codes, is_empty, length, take, ltb, leb, ◌==◌, if◌then◌else◌,
}
use aikido.Prelude.Int.{ℤ, pos, negsuc, int_limit}
use aikido.Errors.{
  Error, Sentinel, auth, rate_limited, server_error, invalid_request, provider, retry_after,
}
use aikido.Retry.{Policy}
use aikido.Llm.Collect.{wraps}

pub record Header : Type 0 where
  pub trim_space : Bytes → Bytes
  pub atoi : Bytes → Option ℤ
  pub itoa : ℕ → Bytes
  -- how long it is until the date, where the text is one
  pub until_date : Bytes → Option ℤ
  -- the message of the error envelope, where the body is one
  pub envelope_message : Bytes → Option Bytes

pub record Response : Type 0 where
  pub status : ℕ
  pub body : Bytes
  pub retry_after_header : Bytes

abbrev pub second : ℕ
second = 1000000000

-- a product as an int64
abbrev pub signed : ℕ → ℤ
signed r = if ltb r int_limit then pos r else negsuc (2 ^ 64 - r - 1)

-- `time.Duration(n) * time.Second`
unfoldable pub seconds : ℕ → ℤ
seconds n = signed (n * second % 2 ^ 64)

unfoldable pub classify_sentinel : ℕ → Sentinel
classify_sentinel status =
    if status == 401 || status == 403
    then auth
    else if status == 402
    then auth
    else if status == 429
    then rate_limited
    else if leb 500 status && leb status 599
    then server_error
    else if status == 408
    then server_error
    else if leb 400 status && leb status 499
    then invalid_request
    else server_error

-- `if n < 0`
abbrev pub from_now : ℤ → Option ℤ
from_now (pos n) = some (seconds n)
from_now (negsuc n) = none

-- `if d <= 0`
abbrev pub if_positive : Option ℤ → Option ℤ
if_positive (some (pos n)) = if n == 0 then none else some (pos n)
if_positive _ = none

abbrev pub in_seconds_or_at : Option ℤ → Option ℤ → Option ℤ
in_seconds_or_at (some n) date = from_now n
in_seconds_or_at none date = if_positive date

module _ (c : Header) where
  unfoldable pub parse_retry_after : Bytes → Option ℤ
  unfolding seconds
  parse_retry_after v =
      let t = c.trim_space v in
      if is_empty t then none else in_seconds_or_at (c.atoi t) (c.until_date t)

  -- an envelope without a message is none
  abbrev pub message_or : Bytes → Option Bytes → Bytes
  message_or body none = body
  message_or body (some m) = if is_empty m then body else m

  abbrev pub shortened : Bytes → Bytes
  shortened m = if ltb 256 (length m) then take 256 m ++ codes "..." else m

  unfoldable pub error_message : Bytes → Bytes
  error_message body = c.trim_space (shortened (message_or body (c.envelope_message body)))

  -- `After`, where one that is not positive is 0: `retry.Do` asks no more of it
  abbrev pub delay_of : ℤ → ℕ
  delay_of (pos n) = n
  delay_of (negsuc n) = 0

  abbrev pub with_hint : Error → Option ℤ → Error
  with_hint e none = e
  with_hint e (some d) = retry_after e (delay_of d)

  unfoldable pub wrapped_error : Response → Error
  unfolding classify_sentinel error_message
  wrapped_error r =
      provider
        (codes "openrouter: status " ++ (c.itoa r.status ++ (codes ": " ++ error_message r.body)))
        (classify_sentinel r.status)

  unfoldable pub classify_http_error : Response → Error
  unfolding wrapped_error parse_retry_after
  classify_http_error r =
      if r.status == 429
      then with_hint (wrapped_error r) (parse_retry_after r.retry_after_header)
      else wrapped_error r

abbrev pub is_repeatable : Sentinel → Bool
is_repeatable rate_limited = true
is_repeatable server_error = true
is_repeatable _ = false

-- `retryPolicy` over `retry.DefaultPolicy`, with the client's `maxAttempts` and the floats 2.0 and 0.2
unfoldable pub retry_policy : {F : Type 0} → F → F → ℤ → Policy F
unfolding wraps
retry_policy two fifth max_attempts = record {
  max_attempts = attempts max_attempts;
  base_delay = 500000000;
  max_delay = 30 * second;
  multiplier = two;
  jitter = fifth;
  should_retry = some (wraps is_repeatable);
}
  where
    attempts : ℤ → ℤ
    attempts (pos zero) = pos 3
    attempts n = n

-- ===== src/Agent/Session.antt =====
-- agent/session.go and agent/local.go: how a session is made. A required interface is the flag that
-- it is not nil; the logger and the fields without a default are left out. A duration is a number of
-- nanoseconds.
use aikido.Prelude.{
  ℕ, zero, suc, ◌*◌, Bool, true, false, not, Option, none, some, [], ◌≡◌, Bytes, codes, is_empty,
  if◌then◌else◌,
}
use aikido.Prelude.Int.{ℤ, pos, negsuc}
use aikido.Errors.{Error, missing_option, negative_timeout, Result, ok, err, require}

pub record NewSessionOptions : Type 0 where
  pub id : Bytes
  pub has_client : Bool
  pub model : Bytes
  pub has_history : Bool
  pub has_locker : Bool
  pub max_turns : ℤ
  pub run_timeout : ℤ
  pub llm_call_timeout : ℤ
  pub max_tokens : ℤ

abbrev pub is_negative : ℤ → Bool
is_negative (pos n) = false
is_negative (negsuc n) = true

-- `if n <= 0 { n = d }`
abbrev pub positive_or : ℤ → ℕ → ℤ
positive_or (pos zero) d = pos d
positive_or (pos (suc n)) d = pos (suc n)
positive_or (negsuc n) d = pos d

-- `if n == 0 { n = d }`
abbrev pub nonzero_or : ℤ → ℕ → ℤ
nonzero_or (pos zero) d = pos d
nonzero_or (pos (suc n)) d = pos (suc n)
nonzero_or (negsuc n) d = negsuc n

abbrev pub second : ℕ
second = 1000000000

-- the checks of `NewSession`, in order; those of the timeouts stand between the defaults
unfoldable pub check_options : NewSessionOptions → Option Error
check_options o =
    if is_empty o.id
    then some (missing_option (codes "ID"))
    else if not o.has_client
    then some (missing_option (codes "Client"))
    else if is_empty o.model
    then some (missing_option (codes "Model"))
    else if not o.has_history
    then some (missing_option (codes "History"))
    else if not o.has_locker
    then some (missing_option (codes "Locker"))
    else if is_negative o.run_timeout
    then some (negative_timeout (codes "RunTimeout"))
    else if is_negative o.llm_call_timeout
    then some (negative_timeout (codes "LLMCallTimeout"))
    else none

abbrev pub with_defaults : NewSessionOptions → NewSessionOptions
with_defaults o = record o {
  max_turns = positive_or o.max_turns 20;
  run_timeout = nonzero_or o.run_timeout (600 * second);
  llm_call_timeout = nonzero_or o.llm_call_timeout (180 * second);
  max_tokens = nonzero_or o.max_tokens 16384;
}

-- `NewSession`; nil options are `none`
unfoldable pub new_session : Option NewSessionOptions → Result NewSessionOptions
unfolding check_options
new_session none = err (missing_option [])
new_session (some o) = require (check_options o) (ok (with_defaults o))

-- `NewLocalSession`
unfoldable pub new_local_session : Option NewSessionOptions → Result NewSessionOptions
unfolding new_session
new_local_session none = new_session none
new_local_session (some o) = new_session (some (record o { has_history = true; has_locker = true }))

abbrev pub is_positive : ℤ → Bool
is_positive (pos (suc n)) = true
is_positive _ = false

-- all that a run needs, with limits that let it begin
pub record IsComplete (o : NewSessionOptions) : Type 0 where
  pub named : is_empty o.id ≡ false
  pub client : o.has_client ≡ true
  pub model : is_empty o.model ≡ false
  pub history : o.has_history ≡ true
  pub locker : o.has_locker ≡ true
  pub turns : is_positive o.max_turns ≡ true
  pub run_time : is_positive o.run_timeout ≡ true
  pub call_time : is_positive o.llm_call_timeout ≡ true

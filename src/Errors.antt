-- ===== src/Errors.antt =====
-- The errors of all packages as one type, and the state of a context.
use aikido.Prelude.{ℕ, Option, none, some, Bytes}
use aikido.Vfs.Path.{PathFault}

-- `ctx.Err()` of a context that is over
pub data CtxError : Type 0 where
  canceled deadline_exceeded : CtxError

-- what a context's `Err` returns at the call
abbrev pub Ctx : Type 0
Ctx = Option CtxError

-- llm/errors.go
pub data Sentinel : Type 0 where
  auth rate_limited server_error invalid_request content_filtered : Sentinel

pub data Error : Type 0 where
  ctx_error : CtxError → Error
  -- vfs/errors.go, with what each is wrapped with
  path_invalid : PathFault → Error
  ext_not_allowed : Bytes → Error
  hidden_path : Bytes → Error
  file_not_found : Bytes → Error
  file_too_large : ℕ → ℕ → Error
  read_only : Bytes → Error
  -- tools/registry.go
  empty_tool_name : Error
  nil_handler : Bytes → Error
  duplicate_tool : Bytes → Error
  unknown_tool : Bytes → Error
  -- agent/tools_builtin.go and agent/tools_grep.go
  bad_args : Bytes → Error
  past_end : ℕ → Bytes → ℕ → Error
  empty_old_string : Error
  identical_strings : Error
  not_text : Bytes → Error
  old_not_found : Bytes → Error
  ambiguous : ℕ → Bytes → Error
  bad_pattern : Error
  empty_glob : Error
  unclosed_brace : Bytes → Error
  unknown_output_mode : Bytes → Error
  -- agent
  empty_session_id : Error
  missing_option : Bytes → Error
  negative_timeout : Bytes → Error
  locker_failed : Error → Error
  read_failed : Error → Error
  append_failed : Error → Error
  stream_failed : Error → Error
  -- a provider's failure wraps a sentinel
  provider : Bytes → Sentinel → Error
  -- retry.RetryAfterError: its cause and the delay in nanoseconds
  retry_after : Error → ℕ → Error
  -- any failure of code outside the repository
  external : ℕ → Error

pub data Result {ℓ} (A : Type ℓ) : Type ℓ where
  ok : A → Result A
  err : Error → Result A
  -- a Go panic, which no code of the repository recovers from
  panic : Result A

infixl 5 ◌>>=◌
abbrev pub ◌>>=◌ {ℓ κ} : {A : Type ℓ} {B : Type κ} → Result A → (A → Result B) → Result B
ok a >>= f = f a
err e >>= f = err e
panic >>= f = panic

-- `if err := check; err != nil { return err }`
abbrev pub require {ℓ} : {A : Type ℓ} → Option Error → Result A → Result A
require none rest = rest
require (some e) rest = err e

-- `if err := ctx.Err(); err != nil { return err }`
abbrev pub check_ctx : Ctx → Option Error
check_ctx none = none
check_ctx (some e) = some (ctx_error e)

-- ===== src/Prelude/Int.antt =====
-- Go's `int`: signed 64-bit numbers.
use aikido.Prelude.{ℕ, ◌+◌, ◌-◌, ◌^◌, ltb, if◌then◌else◌}

-- `negsuc n` is -(n + 1).
pub data ℤ : Type 0 where
  pos : ℕ → ℤ
  negsuc : ℕ → ℤ

abbrev pub int_limit : ℕ
int_limit = 2 ^ 63

-- `a + b` of two `int`s that are not negative, with wrap-around
unfoldable pub add_int : ℕ → ℕ → ℤ
add_int a b = if ltb (a + b) int_limit then pos (a + b) else negsuc (2 ^ 64 - (a + b) - 1)

-- `if x < 1 { x = d }`
unfoldable pub or_default : ℤ → ℕ → ℕ
or_default (pos n) d = if ltb n 1 then d else n
or_default (negsuc n) d = d

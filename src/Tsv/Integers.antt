-- ===== src/Tsv/Integers.antt =====
-- The integers of Go, without their bounds, and the division that rounds towards zero.
use pgedge_postgres_mcp.Prelude.{ℕ, zero, suc, Bool, false, ◌==◌, ◌/◌, ◌%◌}

pub data ℤ : Type 0 where
  pos : ℕ → ℤ
  negsuc : ℕ → ℤ

abbrev pub neg : ℕ → ℤ
neg zero = pos 0
neg (suc n) = negsuc n

-- `a / k` and `a % k` with a positive constant
abbrev pub quot : ℤ → ℕ → ℤ
quot (pos n) k = pos (n / k)
quot (negsuc n) k = neg (suc n / k)

abbrev pub rem : ℤ → ℕ → ℤ
rem (pos n) k = pos (n % k)
rem (negsuc n) k = neg (suc n % k)

abbrev pub is_zero : ℤ → Bool
is_zero (pos n) = n == 0
is_zero (negsuc n) = false

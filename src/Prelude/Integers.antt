-- ===== src/Prelude/Integers.antt =====
-- The signed numbers of Rust (`i64`), over the native natural numbers.
use Prim.Native.Nat.{ℕ}
use mathlib.Core.Bool.{Bool, false}
use eth_utils.Prelude.Tests.{◌==◌}

-- `negsuc n` is the number -1 - n.
pub data ℤ : Type 0 where
  pos negsuc : ℕ → ℤ

-- `z == n` for a number n that is not negative.
unfoldable pub is_pos : ℕ → ℤ → Bool
is_pos n (pos m) = m == n
is_pos n (negsuc m) = false

-- ===== src/Prelude/Bytes/Bits.antt =====
-- Hexadecimal digits: their ASCII codes, and two nibbles put together in a byte.
use Prim.Native.Nat.{ℕ, zero, suc, ◌+◌, ◌-◌, ◌*◌, ◌/◌, ◌%◌, ◌<◌, bit_or}
use mathlib.Core.Path.{◌≡◌, refl}
use mathlib.Core.Bool.{Bool, true, false}
use native.Mathlib.Omega.{arith}
use eth_utils.Prelude.Tests.{ltb, ◌==◌, ==_iff, if◌then◌else◌}

-- The ASCII code of a lowercase hexadecimal digit.
unfoldable pub lower_digit : ℕ → ℕ
lower_digit d = if ltb d 10 then d + b'0' else d - 10 + b'a'

-- A test that holds of the numbers 0 to `bound - 1`: checked by evaluation over a small range.
pub holds_up_to : (ℕ → Bool) → ℕ → Bool
holds_up_to test zero = true
holds_up_to test (suc bound) = if test bound then holds_up_to test bound else false

pub holds_up_to_at :
    {i : ℕ} (test : ℕ → Bool) (bound : ℕ)
    → i < bound
    → holds_up_to test bound ≡ true
    → test i ≡ true
unfolding holds_up_to
holds_up_to_at {i} test zero small held = absurd (omega arith)
holds_up_to_at {i} test (suc bound) small held = ground (arith, holds_up_to_at {i = i} test bound)

nibbles_table : holds_up_to (λ b. bit_or (b / 16 * 16 % 256) (b % 16) == b) 256 ≡ true
unfolding holds_up_to
nibbles_table = refl

-- `(hi << 4) | lo` on two nibbles is the byte that they are the halves of.
pub or_nibbles : (b : ℕ) → b < 256 → bit_or (b / 16 * 16 % 256) (b % 16) ≡ b
or_nibbles b h = (==_iff _ b).0 (holds_up_to_at _ 256 h nibbles_table)

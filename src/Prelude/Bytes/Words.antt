-- ===== src/Prelude/Bytes/Words.antt =====
-- The little-endian encoding of unsigned machine integers (`to_le_bytes`).
use Prim.Native.Nat.{ℕ, zero, suc, ◌+◌, ◌*◌, ◌/◌, ◌%◌, ◌^◌, ◌<◌}
use mathlib.Core.Path.{◌≡◌, refl, ap}
use mathlib.Core.List.{List, [], ◌∷◌}
use native.Mathlib.Omega.{arith}
use native.Mathlib.Nat.{pow-suc, div-lt_iff_lt-mul}
use eth_utils.Prelude.Lists.{length, All}

-- The low `w` bytes of `v`, the lowest first.
unfoldable pub to_le_bytes : ℕ → ℕ → List ℕ
to_le_bytes zero v = []
to_le_bytes (suc w) v = (v % 256) ∷ to_le_bytes w (v / 256)

unfoldable pub from_le_bytes : List ℕ → ℕ
from_le_bytes [] = 0
from_le_bytes (b ∷ bs) = b + 256 * from_le_bytes bs

pub length-to_le_bytes : (w v : ℕ) → length (to_le_bytes w v) ≡ w
unfolding to_le_bytes
length-to_le_bytes zero v = refl
length-to_le_bytes (suc w) v = ap suc (length-to_le_bytes w (v / 256))

pub All-to_le_bytes : (w v : ℕ) → All (λ b. b < 256) (to_le_bytes w v)
unfolding to_le_bytes
All-to_le_bytes zero v = tt
All-to_le_bytes (suc w) v = (omega arith, All-to_le_bytes w (v / 256))

pub from_le_bytes-to_le_bytes : (w v : ℕ) → v < 256 ^ w → from_le_bytes (to_le_bytes w v) ≡ v
unfolding to_le_bytes from_le_bytes
from_le_bytes-to_le_bytes zero v h = omega arith
from_le_bytes-to_le_bytes (suc w) v h = omega (
  arith,
  from_le_bytes-to_le_bytes w (v / 256)
      ((div-lt_iff_lt-mul {k = 256} (omega arith)).1 (rw pow-suc at h)),
)

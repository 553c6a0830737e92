-- ===== src/Tx/Abi.antt =====
-- The calldata of the deposit contract's `deposit()` (crates/ethernal-tx/src/abi.rs). A result
-- `none` stands for a panic.
pub mod Layout
pub mod Decode
use eth_utils.Prelude.{
  ℕ, ◌+◌, ◌-◌, Option, none, some, List, [], ◌∷◌, ◌++◌, and_then, length, replicate, take, drop,
  slice, leb, if◌then◌else◌,
}
use eth_utils.Prelude.Bytes.{Bytes, digits_be}

abbrev pub deposit_selector : Bytes
deposit_selector = 0x22 ∷ 0x89 ∷ 0x51 ∷ 0x18 ∷ []

-- `buf[pos..pos + src.len()].copy_from_slice(src)`
unfoldable pub write_at : ℕ → Bytes → Bytes → Option Bytes
write_at pos src buf =
    if leb (pos + length src) (length buf)
    then some (take pos buf ++ (src ++ drop (pos + length src) buf))
    else none

-- What `put_uint256` writes: 24 zeros and the eight bytes of a `u64`, most significant first.
unfoldable pub uint256 : ℕ → Bytes
uint256 v = replicate 24 0 ++ digits_be 256 8 v

unfoldable pub pack_deposit : Bytes → Bytes → Bytes → Bytes → Option Bytes
pack_deposit pubkey wc sig root = and_then (write_at 0 deposit_selector (replicate 420 0)) λ b1.
    and_then (write_at 4 (uint256 128) b1) λ b2. and_then (write_at 36 (uint256 224) b2) λ b3.
      and_then (write_at 68 (uint256 288) b3) λ b4. and_then (write_at 100 root b4) λ b5.
        and_then (write_at 132 (uint256 48) b5) λ b6. and_then (write_at 164 pubkey b6) λ b7.
          and_then (write_at 228 (uint256 32) b7) λ b8.
            and_then (write_at 260 wc b8)
              λ b9. and_then (write_at 292 (uint256 96) b9) λ b10. write_at 324 sig b10

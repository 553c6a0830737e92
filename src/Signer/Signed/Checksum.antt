-- ===== src/Signer/Signed/Checksum.antt =====
-- A checksummed address text is read back as the address.
use eth_utils.Prelude.{ℕ, ◌+◌, ◌%◌, ◌≡◌, refl, [], ◌∷◌, length, All, arith}
use eth_utils.Prelude.Bytes.{Bytes, IsByte, hex_digit, strip_prefix}
use eth_utils.Hex.{Hex, length-encode}
use eth_utils.Signer.Parse.{pad_odd, pairs_loop, hex_to_address}
use eth_utils.Signer.Parse.Built.{hex_to_address-encode}
use eth_utils.Signer.Signed.{Curve, checksum_digit, checksum_loop, eip55_checksum}

hex_digit-checksum_digit : (nibble c : ℕ) → hex_digit (checksum_digit nibble c) ≡ hex_digit c
unfolding hex_digit checksum_digit
hex_digit-checksum_digit nibble c = ground arith

length-checksum_loop :
    (hash : Bytes) (i : ℕ) (cs : Bytes) → length (checksum_loop hash i cs) ≡ length cs
unfolding checksum_loop
length-checksum_loop hash i [] = refl
length-checksum_loop hash i (c ∷ cs) = omega (arith, length-checksum_loop hash (i + 1) cs)

pairs_loop-checksum_loop :
    (hash : Bytes) (i : ℕ) (cs : Bytes) → pairs_loop (checksum_loop hash i cs) ≡ pairs_loop cs
unfolding pairs_loop checksum_loop
pairs_loop-checksum_loop hash i [] = refl
pairs_loop-checksum_loop hash i (c ∷ []) = refl
pairs_loop-checksum_loop hash i (c ∷ d ∷ cs) =
    simp (hex_digit-checksum_digit, pairs_loop-checksum_loop hash (i + 1 + 1) cs)

pad_odd-checksum_loop :
    (hash : Bytes) (cs : Bytes)
    → length cs % 2 ≡ 0
    → pad_odd (checksum_loop hash 0 cs) ≡ checksum_loop hash 0 cs
unfolding pad_odd
pad_odd-checksum_loop hash cs h = ground (arith, length-checksum_loop hash 0 cs)

pad_odd-even : (cs : Bytes) → length cs % 2 ≡ 0 → pad_odd cs ≡ cs
unfolding pad_odd
pad_odd-even cs h = ground arith

module _ {F : Type 0} (hex : Hex F) (curve : Curve) where
  -- Whatever the hash, the checksummed text of a 20-byte address is read back as this address.
  pub hex_to_address-eip55_checksum :
      (addr : Bytes)
      → length addr ≡ 20
      → All IsByte addr
      → hex_to_address (eip55_checksum hex curve addr) ≡ addr
  unfolding eip55_checksum hex_to_address strip_prefix
  hex_to_address-eip55_checksum addr n h =
      let even : length (hex.encode addr) % 2 ≡ 0 = omega (arith, length-encode hex addr) in
      let plain = hex_to_address-encode hex addr n h in
      rw
        (
          pad_odd-checksum_loop (curve.keccak256 (hex.encode addr)) (hex.encode addr) even,
          pairs_loop-checksum_loop (curve.keccak256 (hex.encode addr)) 0 (hex.encode addr),
        )
        (rw (pad_odd-even (hex.encode addr) even) at plain)

-- ===== src/Hex.antt =====
-- What the program uses of the `hex` crate, `hex::encode` and `hex::decode`, with their documented
-- behaviour as laws. The crate is not part of the repository.
pub mod Reference
use eth_utils.Prelude.{
  ℕ, ◌+◌, ◌*◌, ◌/◌, ◌%◌, ◌≡◌, List, [], ◌∷◌, Result, ok, length, All, ap, arith,
}
use eth_utils.Prelude.Bytes.{Bytes, IsByte, lower_digit}

-- `E` is the crate's `FromHexError`.
pub record Hex (E : Type 0) : Type 0 where
  pub encode : Bytes → Bytes
  pub decode : Bytes → Result E Bytes
  -- Two lowercase digits for each byte.
  pub encode_nil : encode [] ≡ []
  pub encode_cons :
      (b : ℕ) (bs : Bytes)
      → encode (b ∷ bs) ≡ lower_digit (b / 16) ∷ lower_digit (b % 16) ∷ encode bs
  -- Decoding undoes encoding, and gives a byte for every two characters.
  pub decode_encode : (bs : Bytes) → All IsByte bs → decode (encode bs) ≡ ok bs
  pub decode_shape : (s bs : Bytes) → decode s ≡ ok bs → All IsByte bs × (length s ≡ 2 * length bs)

module _ {E : Type 0} (hex : Hex E) where
  pub length-encode : (bs : Bytes) → length (hex.encode bs) ≡ 2 * length bs
  length-encode [] = omega (arith, ap length hex.encode_nil)
  length-encode (b ∷ bs) = omega (arith, ap length (hex.encode_cons b bs), length-encode bs)

-- ===== src/Signer/Signed.antt =====
-- What the local and the Ledger signer share (crates/ethernal-signer/src/local.rs and types.rs): the
-- address and hash texts, and the signed transaction. Keccak-256 and the `k256` crate are
-- parameters.
pub mod Contract
pub mod Checksum
pub mod Address
use eth_utils.Prelude.{
  ℕ, zero, suc, ◌+◌, ◌-◌, ◌*◌, ◌/◌, ◌%◌, ◌≤◌, ◌<◌, Bool, ◌&&◌, ◌||◌, Option, none, some, List, [],
  ◌∷◌, ◌++◌, Result, ok, err, ◌>>=◌, map_err, drop, get_elem?, ltb, leb, ◌==◌, if◌then◌else◌,
}
use eth_utils.Prelude.Bytes.{Bytes, text, decimal, lower_digit, number_digits, skip_zeros}
use eth_utils.Hex.{Hex}
use eth_utils.Tx.Types.{UnsignedTx}

pub record SignedTx : Type 0 where
  pub unsigned : UnsignedTx
  pub from : Bytes
  pub hash : Bytes
  pub r : Bytes
  pub s : Bytes
  pub v : Bytes
  pub raw_rlp : Bytes

-- The two scalars of a signature and its recovery ID's parity.
pub record Signature : Type 0 where
  pub r : Bytes
  pub s : Bytes
  pub is_y_odd : Bool

-- What is used of `k256`, with Keccak-256. A point is its uncompressed encoding.
pub record Curve : Type 0 where
  pub keccak256 : Bytes → Bytes
  -- `SigningKey::from_slice`, and the key's public point.
  pub public_point : Bytes → Option Bytes
  -- `sign_prehash_recoverable` with a secret and a hash.
  pub sign_prehash : Bytes → Bytes → Result Bytes Signature
  -- `normalize_s`: the low form of a signature that is not low.
  pub normalize_s : Signature → Option Signature
  -- `Signature::from_scalars`, `RecoveryId::from_byte` and `recover_from_prehash`.
  pub recover_point : Bytes → Bytes → Bytes → ℕ → Result Bytes Bytes

-- `c.is_ascii_alphabetic()`
unfoldable pub is_alphabetic : ℕ → Bool
is_alphabetic c = leb b'a' c && leb c b'z' || leb b'A' c && leb c b'Z'

unfoldable pub to_ascii_uppercase : ℕ → ℕ
to_ascii_uppercase c = if leb b'a' c && leb c b'z' then c - 32 else c

abbrev pub byte_or_zero : Option ℕ → ℕ
byte_or_zero none = 0
byte_or_zero (some b) = b

-- The nibble of the hash for the `i`-th digit. An address has 40 digits and a hash 64 nibbles, so
-- that no index is out of range.
unfoldable pub hash_nibble : Bytes → ℕ → ℕ
hash_nibble hash i =
    if i % 2 == 0
    then byte_or_zero (get_elem? hash (i / 2)) / 16 % 16
    else byte_or_zero (get_elem? hash (i / 2)) % 16

-- The digit, in upper case where its nibble says so.
unfoldable pub checksum_digit : ℕ → ℕ → ℕ
unfolding is_alphabetic to_ascii_uppercase
checksum_digit nibble c = if is_alphabetic c && leb 8 nibble then to_ascii_uppercase c else c

unfoldable pub checksum_loop : Bytes → ℕ → Bytes → Bytes
unfolding checksum_digit hash_nibble
checksum_loop hash i [] = []
checksum_loop hash i (c ∷ cs) =
    checksum_digit (hash_nibble hash i) c ∷ checksum_loop hash (i + 1) cs

-- Two digits for a byte.
unfoldable pub byte_digits : Bytes → Bytes
byte_digits [] = []
byte_digits (b ∷ bs) = lower_digit (b / 16) ∷ lower_digit (b % 16) ∷ byte_digits bs

-- The bytes behind the leading zeros, the first one without a leading zero digit.
unfoldable pub quantity_digits : Bytes → Bytes
unfolding byte_digits
quantity_digits [] = text "0"
quantity_digits (b ∷ bs) = if ltb b 16 then lower_digit b ∷ byte_digits bs else byte_digits (b ∷ bs)

unfoldable pub hex_quantity : Bytes → Bytes
unfolding quantity_digits
hex_quantity b = text "0x" ++ quantity_digits (skip_zeros b)

module _ {F : Type 0} (hex : Hex F) (curve : Curve) where
  unfoldable pub pubkey_address : Bytes → Bytes
  pubkey_address point = drop 12 (curve.keccak256 (drop 1 point))

  unfoldable pub recover_address : Bytes → Bytes → Bytes → ℕ → Result Bytes Bytes
  recover_address sighash r s y_parity =
      curve.recover_point sighash r s y_parity >>= λ point. ok (pubkey_address point)

  unfoldable pub eip55_checksum : Bytes → Bytes
  eip55_checksum addr =
      text "0x" ++ checksum_loop (curve.keccak256 (hex.encode addr)) 0 (hex.encode addr)

  unfoldable pub build_signed_tx : UnsignedTx → Bytes → Bytes → Bytes → Bytes → ℕ → SignedTx
  build_signed_tx unsigned from envelope r s y_parity = record {
    unsigned = unsigned;
    from = eip55_checksum from;
    hash = text "0x" ++ hex.encode (curve.keccak256 envelope);
    r = hex_quantity r;
    s = hex_quantity s;
    v = decimal y_parity;
    raw_rlp = text "0x" ++ hex.encode envelope;
  }

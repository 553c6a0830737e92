-- ===== src/Keystore/Encrypt.antt =====
-- Writing an EIP-2335 keystore (crates/ethernal-keystore/src/encrypt.rs).
use Prim.Native.Nat.{bit_and, bit_or}
use eth_utils.Prelude.{
  ℕ, ◌/◌, ◌%◌, pos, [], ◌∷◌, ◌++◌, map, Result, ok, err, ◌>>=◌, map_err, length, take, drop, ◌==◌,
  if◌then◌else◌,
}
use eth_utils.Prelude.Bytes.{Bytes, text, lower_digit}
use eth_utils.Hex.{Hex}
use eth_utils.Keystore.Errors.{
  KeystoreError, Detail, encrypt_failed, secret_length, pubkey_length, kdf, derived_key_too_short,
  bad_key_or_iv, not_serialized, Stop, fails,
}
use eth_utils.Keystore.Crypto.{
  Ciphers, normalize_passphrase, derive_scrypt, checksum_message, or_panic, require_key,
}
use eth_utils.Keystore.Json.{Json, KeystoreOut}

pub record ScryptParams : Type 0 where
  pub n : ℕ
  pub r : ℕ
  pub p : ℕ
  pub dklen : ℕ

abbrev pub standard : ScryptParams
standard = record { n = 262144; r = 8; p = 1; dklen = 32 }

abbrev pub fast : ScryptParams
fast = record { n = 8192; r = 8; p = 1; dklen = 32 }

pub record EncryptInput : Type 0 where
  pub secret : Bytes
  pub password : Bytes
  pub path : Bytes
  pub pubkey : Bytes
  pub salt : Bytes
  pub iv : Bytes
  pub uuid_bytes : Bytes
  pub scrypt : ScryptParams

-- `{:02x}`
unfoldable pub hex_byte : ℕ → Bytes
unfolding lower_digit
hex_byte b = lower_digit (b / 16) ∷ lower_digit (b % 16) ∷ []

unfoldable pub hex_bytes : Bytes → Bytes
unfolding hex_byte
hex_bytes [] = []
hex_bytes (b ∷ bs) = hex_byte b ++ hex_bytes bs

abbrev pub dash : Bytes → Bytes
dash rest = b'-' ∷ rest

-- A list of other than 16 bytes is no argument of the source's function: it is left as it is.
unfoldable pub set_version_bits : Bytes → Bytes
set_version_bits (a ∷ b ∷ c ∷ d ∷ e ∷ f ∷ g ∷ h ∷ i ∷ rest) =
    a ∷ b ∷ c ∷ d ∷ e ∷ f ∷ bit_or (bit_and g 0x0f) 0x40 ∷ h ∷ bit_or (bit_and i 0x3f) 0x80 ∷ rest
set_version_bits bytes = bytes

unfoldable pub format_uuid_v4 : Bytes → Bytes
unfolding set_version_bits hex_bytes
format_uuid_v4 bytes =
    let b = set_version_bits bytes in
    hex_bytes (take 4 b)
    ++ dash (
        hex_bytes (take 2 (drop 4 b))
        ++ dash (
            hex_bytes (take 2 (drop 6 b))
            ++ dash (hex_bytes (take 2 (drop 8 b)) ++ dash (hex_bytes (drop 10 b)))))

-- `path.replace('/', "_")`
unfoldable pub replace_slash : Bytes → Bytes
replace_slash path = map (λ c. if c == b'/' then b'_' else c) path

-- The seconds are given as the text that is printed for them.
unfoldable pub keystore_filename : Bytes → Bytes → Bytes
unfolding replace_slash
keystore_filename path unix_secs =
    text "keystore-" ++ replace_slash path ++ text "-" ++ unix_secs ++ text ".json"

-- An error of `encrypt` with its detail.
abbrev pub encrypt_err : {F S : Type 0} → Detail F → Stop (KeystoreError F S)
encrypt_err detail = fails (encrypt_failed detail)

unfoldable pub require_length : {E : Type 0} → ℕ → (ℕ → E) → Bytes → Result (Stop E) (Unit {0})
require_length n wrong bytes =
    if length bytes == n then ok tt else err (fails (wrong (length bytes)))

module _ {F : Type 0} (hex : Hex F) where
  -- The structure that is written.
  unfoldable pub keystore_out : EncryptInput → Bytes → Bytes → KeystoreOut
  keystore_out input checksum ciphertext = record {
    crypto = record {
      kdf = record {
        function = text "scrypt";
        params = record {
          dklen = input.scrypt.dklen;
          n = input.scrypt.n;
          p = input.scrypt.p;
          r = input.scrypt.r;
          salt = hex.encode input.salt;
        };
        message = [];
      };
      checksum = record { function = text "sha256"; params = tt; message = hex.encode checksum };
      cipher = record {
        function = text "aes-128-ctr";
        params = record { iv = hex.encode input.iv };
        message = hex.encode ciphertext;
      };
    };
    description = [];
    pubkey = hex.encode input.pubkey;
    path = input.path;
    uuid = format_uuid_v4 input.uuid_bytes;
    version = pos 4;
  }

module _ {F S V : Type 0} (hex : Hex F) (ciphers : Ciphers) (json : Json V) where
  -- What `encrypt` does with the derived key.
  unfoldable pub encrypt_with : EncryptInput → Bytes → Result (Stop (KeystoreError F S)) Bytes
  unfolding keystore_out or_panic checksum_message
  encrypt_with input dk = do
    cipher ← map_err (λ e. encrypt_err (bad_key_or_iv e)) (ciphers.aes128_ctr (take 16 dk) input.iv)
    checksum ← or_panic (checksum_message ciphers dk (cipher input.secret))
    map_err (λ e. encrypt_err (not_serialized e))
        (json.to_vec (keystore_out hex input checksum (cipher input.secret)))

  unfoldable pub encrypt : EncryptInput → Result (Stop (KeystoreError F S)) Bytes
  unfolding encrypt_with require_length require_key
  encrypt input = do
    secret ← require_length 32 (λ n. encrypt_failed (secret_length n)) input.secret
    pubkey ← require_length 48 (λ n. encrypt_failed (pubkey_length n)) input.pubkey
    dk ←
        map_err (λ e. encrypt_err (kdf e))
          (derive_scrypt ciphers (normalize_passphrase ciphers input.password) input.salt
            input.scrypt.n input.scrypt.r input.scrypt.p input.scrypt.dklen)
    tall ← require_key (λ n. encrypt_failed (derived_key_too_short n)) dk
    encrypt_with input dk

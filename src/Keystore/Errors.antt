-- ===== src/Keystore/Errors.antt =====
-- The errors of the keystore crate (crates/ethernal-keystore/src/error.rs). A formatted message is a
-- constructor with the values that it shows. `F` is `FromHexError` and `S` is `SecretFileError`.
use eth_utils.Prelude.{ℕ, ℤ}
use eth_utils.Prelude.Bytes.{Bytes}

-- The messages of `derive_scrypt`.
pub data ScryptError : Type 0 where
  not_power_of_two : ℕ → ScryptError
  memory_overflows : ℕ → ℕ → ScryptError
  too_much_memory : ℕ → ℕ → ℕ → ScryptError
  too_parallel key_length_out_of_range : ℕ → ScryptError
  invalid_scrypt_params scrypt_failed : Bytes → ScryptError

pub data Detail (F : Type 0) : Type 0 where
  json_error crypto_error kdf_params_error cipher_params_error : Bytes → Detail F
  missing_crypto invalid_checksum invalid_mac : Detail F
  invalid_hex : Bytes → F → Detail F
  derived_key_too_short secret_length pubkey_length plaintext_length : ℕ → Detail F
  wrong_version : ℤ → Detail F
  unsupported_kdf unsupported_checksum unsupported_cipher unsupported_prf : Bytes → Detail F
  kdf : ScryptError → Detail F
  kdf_params_n : ℕ → Detail F
  bad_key_or_iv not_serialized : Bytes → Detail F

pub data KeystoreError (F S : Type 0) : Type 0 where
  keystore_missing passphrase_file_empty env_var_empty no_tty : Bytes → KeystoreError F S
  wrong_passphrase encrypt_failed : Detail F → KeystoreError F S
  keystore_malformed : Bytes → Detail F → KeystoreError F S
  read_passphrase : Bytes → KeystoreError F S
  read_file : Bytes → Bytes → KeystoreError F S
  keystore_version : Bytes → ℤ → KeystoreError F S
  passphrase_file : S → KeystoreError F S
  keystore_not_found passphrase_mismatch : KeystoreError F S
  passphrase_source : KeystoreError F S → KeystoreError F S
  passphrase_too_short : ℕ → ℕ → KeystoreError F S

-- How a computation stops without a result: a slice out of range panics, or it fails.
pub data Stop (E : Type 0) : Type 0 where
  panic : Stop E
  fails : E → Stop E

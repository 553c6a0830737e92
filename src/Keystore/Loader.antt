-- ===== src/Keystore/Loader.antt =====
-- Loading an EIP-2335 keystore (crates/ethernal-keystore/src/keystore.rs). What the file's read and
-- the passphrase source answer, and `str::to_lowercase`, are parameters; zeroizing is not modelled.
use eth_utils.Prelude.{
  is_pos, Bool, true, false, Option, none, some, Result, ok, err, ◌>>=◌, map_err, take,
  if◌then◌else◌,
}
use eth_utils.Prelude.Bytes.{Bytes, text, bytes_eq, strip_prefix}
use eth_utils.Core.Disk.{IoKind, not_found, permission_denied, already_exists, unsupported, other}
use eth_utils.Hex.{Hex}
use eth_utils.Keystore.Errors.{
  ScryptError, not_power_of_two, memory_overflows, too_much_memory, too_parallel,
  key_length_out_of_range, invalid_scrypt_params, scrypt_failed, KeystoreError, Detail,
  keystore_missing, read_file, keystore_malformed, keystore_version, passphrase_source,
  wrong_passphrase, json_error, missing_crypto, crypto_error, kdf_params_error, cipher_params_error,
  invalid_hex, invalid_checksum, derived_key_too_short, unsupported_kdf, unsupported_checksum,
  unsupported_cipher, unsupported_prf, kdf, kdf_params_n, bad_key_or_iv, Stop, fails,
}
use eth_utils.Keystore.Crypto.{
  Ciphers, normalize_passphrase, derive_scrypt, checksum_message, or_panic, require_key,
}
use eth_utils.Keystore.Json.{Json, Crypto, CryptoModule}

pub record Key : Type 0 where
  pub secret : Bytes
  pub pubkey_hex : Bytes

unfoldable pub without_prefix : Bytes → Option Bytes → Bytes
without_prefix s none = s
without_prefix s (some rest) = rest

-- `pubkey.strip_prefix("0x").unwrap_or(pubkey).to_lowercase()`
unfoldable pub normalize_pubkey : (Bytes → Bytes) → Bytes → Bytes
unfolding without_prefix
normalize_pubkey to_lowercase pubkey =
    to_lowercase (without_prefix pubkey (strip_prefix (text "0x") pubkey))

unfoldable pub kdf_detail : {F : Type 0} → ScryptError → Detail F
kdf_detail (not_power_of_two n) = kdf_params_n n
kdf_detail (memory_overflows n r) = kdf (memory_overflows n r)
kdf_detail (too_much_memory m n r) = kdf (too_much_memory m n r)
kdf_detail (too_parallel p) = kdf (too_parallel p)
kdf_detail (key_length_out_of_range l) = kdf (key_length_out_of_range l)
kdf_detail (invalid_scrypt_params e) = kdf (invalid_scrypt_params e)
kdf_detail (scrypt_failed e) = kdf (scrypt_failed e)

unfoldable pub classify_read : {F S : Type 0} → Bytes → IoKind × Bytes → KeystoreError F S
classify_read path (not_found, e) = keystore_missing path
classify_read path (permission_denied, e) = read_file path e
classify_read path (already_exists, e) = read_file path e
classify_read path (unsupported, e) = read_file path e
classify_read path (other, e) = read_file path e

abbrev pub malformed : {F S : Type 0} → Bytes → Detail F → Stop (KeystoreError F S)
malformed path detail = fails (keystore_malformed path detail)

-- `if test { Ok(()) } else { Err(e) }`
unfoldable pub ensure : {E : Type 0} → Bool → E → Result (Stop E) (Unit {0})
ensure true e = ok tt
ensure false e = err (fails e)

unfoldable pub require_crypto :
    {F S V : Type 0} → Bytes → Option V → Result (Stop (KeystoreError F S)) V
require_crypto path none = err (malformed path missing_crypto)
require_crypto path (some crypto) = ok crypto

module _ {F S : Type 0} (hex : Hex F) where
  unfoldable pub decode_hex : Bytes → Bytes → Bytes → Result (Stop (KeystoreError F S)) Bytes
  decode_hex s path field = map_err (λ e. malformed path (invalid_hex field e)) (hex.decode s)

module _ {F S V : Type 0} (hex : Hex F) (ciphers : Ciphers) (json : Json V) where
  unfoldable pub derive_with_scrypt : Bytes → V → Bytes → Result (Stop (KeystoreError F S)) Bytes
  unfolding decode_hex kdf_detail
  derive_with_scrypt path value password = do
    params ← map_err (λ e. malformed path (kdf_params_error e)) (json.scrypt_from_value value)
    salt ← decode_hex hex params.salt path (text "kdf.params.salt")
    map_err (λ e. malformed path (kdf_detail e))
        (derive_scrypt ciphers password salt params.n params.r params.p params.dklen)

  unfoldable pub derive_with_pbkdf2 : Bytes → V → Bytes → Result (Stop (KeystoreError F S)) Bytes
  unfolding decode_hex ensure
  derive_with_pbkdf2 path value password = do
    params ← map_err (λ e. malformed path (kdf_params_error e)) (json.pbkdf2_from_value value)
    known ←
        ensure (bytes_eq params.prf (text "hmac-sha256"))
          (keystore_malformed path (unsupported_prf params.prf))
    salt ← decode_hex hex params.salt path (text "kdf.params.salt")
    ok (ciphers.pbkdf2 password salt params.c params.dklen)

  unfoldable pub derive_key :
      Bytes → CryptoModule V → Bytes → Result (Stop (KeystoreError F S)) Bytes
  unfolding derive_with_scrypt derive_with_pbkdf2
  derive_key path module_ password =
      if bytes_eq module_.function (text "scrypt")
      then derive_with_scrypt path module_.params password
      else if bytes_eq module_.function (text "pbkdf2")
      then derive_with_pbkdf2 path module_.params password
      else err (malformed path (unsupported_kdf module_.function))

  -- What `decrypt` does with the derived key and the ciphertext.
  unfoldable pub decrypt_with :
      Bytes → Crypto V → Bytes → Bytes → Result (Stop (KeystoreError F S)) Bytes
  unfolding decode_hex ensure or_panic checksum_message
  decrypt_with path crypto dk ciphertext = do
    sha ←
        ensure (bytes_eq crypto.checksum.function (text "sha256"))
          (keystore_malformed path (unsupported_checksum crypto.checksum.function))
    expected ← decode_hex hex crypto.checksum.message path (text "checksum.message")
    computed ← or_panic (checksum_message ciphers dk ciphertext)
    same ← ensure (bytes_eq computed expected) (wrong_passphrase invalid_checksum)
    aes ←
        ensure (bytes_eq crypto.cipher.function (text "aes-128-ctr"))
          (keystore_malformed path (unsupported_cipher crypto.cipher.function))
    params ←
        map_err (λ e. malformed path (cipher_params_error e))
          (json.cipher_from_value crypto.cipher.params)
    iv ← decode_hex hex params.iv path (text "cipher.params.iv")
    cipher ← map_err (λ e. malformed path (bad_key_or_iv e)) (ciphers.aes128_ctr (take 16 dk) iv)
    ok (cipher ciphertext)

  unfoldable pub decrypt : Bytes → V → Bytes → Result (Stop (KeystoreError F S)) Bytes
  unfolding decode_hex derive_key require_key decrypt_with
  decrypt path value passphrase = do
    crypto ← map_err (λ e. malformed path (crypto_error e)) (json.crypto_from_value value)
    ciphertext ← decode_hex hex crypto.cipher.message path (text "cipher.message")
    dk ← derive_key path crypto.kdf (normalize_passphrase ciphers passphrase)
    tall ← require_key (λ n. keystore_malformed path (derived_key_too_short n)) dk
    decrypt_with path crypto dk ciphertext

  module _ (to_lowercase : Bytes → Bytes) where
    -- `file` is what reading the file answers, and `source` what the passphrase source does.
    unfoldable pub load :
        Bytes
        → Result (IoKind × Bytes) Bytes
        → Result (KeystoreError F S) Bytes
        → Result (Stop (KeystoreError F S)) Key
    unfolding classify_read ensure require_crypto decrypt normalize_pubkey
    load path file source = do
      raw ← map_err (λ e. fails (classify_read path e)) file
      envelope ← map_err (λ e. malformed path (json_error e)) (json.from_slice raw)
      version ← ensure (is_pos 4 envelope.version) (keystore_version path envelope.version)
      crypto ← require_crypto path envelope.crypto
      pass_bytes ← map_err (λ e. fails (passphrase_source e)) source
      secret ← decrypt path crypto pass_bytes
      ok (record { secret = secret; pubkey_hex = normalize_pubkey to_lowercase envelope.pubkey })

-- ===== src/Keystore/Web3.antt =====
-- Web3 v3 keystores: writing (crates/ethernal-keystore/src/encrypt_v3.rs) and reading
-- (crates/ethernal-keystore/src/decrypt_v3.rs). Zeroizing is not modelled.
pub mod Compare
pub mod RoundTrip
use eth_utils.Prelude.{ℕ, ℤ, pos, is_pos, ◌≡◌, Result, ok, err, ◌>>=◌, map_err, take}
use eth_utils.Prelude.Bytes.{Bytes, text, bytes_eq}
use eth_utils.Hex.{Hex}
use eth_utils.Keystore.Errors.{
  KeystoreError, keystore_malformed, wrong_passphrase, encrypt_failed, json_error, secret_length,
  kdf, wrong_version, unsupported_kdf, unsupported_cipher, derived_key_too_short, invalid_mac,
  plaintext_length, bad_key_or_iv, not_serialized, Stop,
}
use eth_utils.Keystore.Crypto.{Ciphers, derive_scrypt, v3_mac, or_panic, require_key}
use eth_utils.Keystore.Json.{ScryptParamsOut, CipherParamsOut}
use eth_utils.Keystore.Encrypt.{ScryptParams, format_uuid_v4, encrypt_err, require_length}
use eth_utils.Keystore.Loader.{malformed, ensure, decode_hex}
use eth_utils.Keystore.Web3.Compare.{ct_eq}

pub record EncryptV3Input : Type 0 where
  pub secret : Bytes
  pub password : Bytes
  pub address : Bytes
  pub salt : Bytes
  pub iv : Bytes
  pub uuid_bytes : Bytes
  pub scrypt : ScryptParams

-- The `crypto` object, as it is written and as it is read.
pub record CryptoV3Out : Type 0 where
  pub cipher : Bytes
  pub cipherparams : CipherParamsOut
  pub ciphertext : Bytes
  pub kdf : Bytes
  pub kdfparams : ScryptParamsOut
  pub mac : Bytes

pub record KeystoreV3Out : Type 0 where
  pub crypto : CryptoV3Out
  pub id : Bytes
  pub address : Bytes
  pub version : ℤ

pub record EnvelopeV3 : Type 0 where
  pub crypto : CryptoV3Out
  pub version : ℤ

-- `serde_json::from_slice` and `to_vec` at these types: what was written is read again.
pub record JsonV3 : Type 0 where
  pub from_slice : Bytes → Result Bytes EnvelopeV3
  pub to_vec : KeystoreV3Out → Result Bytes Bytes
  pub from_slice-to_vec :
      (out : KeystoreV3Out) (b : Bytes)
      → to_vec out ≡ ok b
      → from_slice b ≡ ok (record { crypto = out.crypto; version = out.version })

-- `PATH`
abbrev pub v3_path : Bytes
v3_path = text "<decrypt_v3>"

module _ {F : Type 0} (hex : Hex F) where
  unfoldable pub keystore_v3_out : EncryptV3Input → Bytes → Bytes → KeystoreV3Out
  keystore_v3_out input mac ciphertext = record {
    crypto = record {
      cipher = text "aes-128-ctr";
      cipherparams = record { iv = hex.encode input.iv };
      ciphertext = hex.encode ciphertext;
      kdf = text "scrypt";
      kdfparams = record {
        dklen = input.scrypt.dklen;
        n = input.scrypt.n;
        p = input.scrypt.p;
        r = input.scrypt.r;
        salt = hex.encode input.salt;
      };
      mac = hex.encode mac;
    };
    id = format_uuid_v4 input.uuid_bytes;
    address = hex.encode input.address;
    version = pos 3;
  }

module _ {F S : Type 0} (hex : Hex F) where
  -- The checks of the envelope, and its four texts decoded: salt, IV, ciphertext and MAC.
  unfoldable pub read_v3 :
      EnvelopeV3 → Result (Stop (KeystoreError F S)) (Bytes × Bytes × Bytes × Bytes)
  unfolding ensure decode_hex
  read_v3 envelope = do
    three ←
        ensure (is_pos 3 envelope.version)
          (keystore_malformed v3_path (wrong_version envelope.version))
    scrypt ←
        ensure (bytes_eq envelope.crypto.kdf (text "scrypt"))
          (keystore_malformed v3_path (unsupported_kdf envelope.crypto.kdf))
    aes ←
        ensure (bytes_eq envelope.crypto.cipher (text "aes-128-ctr"))
          (keystore_malformed v3_path (unsupported_cipher envelope.crypto.cipher))
    salt ← decode_hex hex envelope.crypto.kdfparams.salt v3_path (text "kdfparams.salt")
    iv ← decode_hex hex envelope.crypto.cipherparams.iv v3_path (text "cipherparams.iv")
    ciphertext ← decode_hex hex envelope.crypto.ciphertext v3_path (text "ciphertext")
    mac ← decode_hex hex envelope.crypto.mac v3_path (text "mac")
    ok (salt, iv, ciphertext, mac)

module _ {F S : Type 0} (ciphers : Ciphers) where
  -- What `decrypt_v3` does with the derived key: the MAC is compared before anything is decrypted.
  unfoldable pub decrypt_v3_with :
      Bytes → Bytes → Bytes → Bytes → Result (Stop (KeystoreError F S)) Bytes
  unfolding or_panic v3_mac ensure require_length ct_eq
  decrypt_v3_with dk iv ciphertext expected_mac = do
    computed ← or_panic (v3_mac ciphers dk ciphertext)
    same ← ensure (ct_eq computed expected_mac) (wrong_passphrase invalid_mac)
    cipher ← map_err (λ e. malformed v3_path (bad_key_or_iv e)) (ciphers.aes128_ctr (take 16 dk) iv)
    whole ←
        require_length 32 (λ n. keystore_malformed v3_path (plaintext_length n)) (cipher ciphertext)
    ok (cipher ciphertext)

module _ {F S : Type 0} (hex : Hex F) (ciphers : Ciphers) (json : JsonV3) where
  unfoldable pub encrypt_v3_with : EncryptV3Input → Bytes → Result (Stop (KeystoreError F S)) Bytes
  unfolding keystore_v3_out or_panic v3_mac
  encrypt_v3_with input dk = do
    cipher ← map_err (λ e. encrypt_err (bad_key_or_iv e)) (ciphers.aes128_ctr (take 16 dk) input.iv)
    mac ← or_panic (v3_mac ciphers dk (cipher input.secret))
    map_err (λ e. encrypt_err (not_serialized e))
        (json.to_vec (keystore_v3_out hex input mac (cipher input.secret)))

  -- The password is not normalized.
  unfoldable pub encrypt_v3 : EncryptV3Input → Result (Stop (KeystoreError F S)) Bytes
  unfolding encrypt_v3_with require_length require_key
  encrypt_v3 input = do
    secret ← require_length 32 (λ n. encrypt_failed (secret_length n)) input.secret
    dk ←
        map_err (λ e. encrypt_err (kdf e))
          (derive_scrypt ciphers input.password input.salt input.scrypt.n input.scrypt.r
            input.scrypt.p input.scrypt.dklen)
    tall ← require_key (λ n. encrypt_failed (derived_key_too_short n)) dk
    encrypt_v3_with input dk

  unfoldable pub decrypt_v3 : Bytes → Bytes → Result (Stop (KeystoreError F S)) Bytes
  unfolding read_v3 require_key decrypt_v3_with
  decrypt_v3 file password = do
    envelope ← map_err (λ e. malformed v3_path (json_error e)) (json.from_slice file)
    texts ← read_v3 hex envelope
    let (salt, iv, ciphertext, mac) = texts
    dk ←
        map_err (λ e. malformed v3_path (kdf e))
          (derive_scrypt ciphers password salt envelope.crypto.kdfparams.n
            envelope.crypto.kdfparams.r envelope.crypto.kdfparams.p envelope.crypto.kdfparams.dklen)
    tall ← require_key (λ n. keystore_malformed v3_path (derived_key_too_short n)) dk
    decrypt_v3_with ciphers dk iv ciphertext mac

-- ===== src/Keystore/Json.antt =====
-- The JSON of keystore files: the structures that encrypt.rs writes and keystore.rs reads
-- (crates/ethernal-keystore/src), and what is used of `serde_json`, which is not part of the
-- repository.
use eth_utils.Prelude.{ℕ, ℤ, ◌≡◌, Option, some, Result, ok}
use eth_utils.Prelude.Bytes.{Bytes}

-- The parameters of `scrypt` with the salt as hexadecimal digits.
pub record ScryptParamsOut : Type 0 where
  pub dklen : ℕ
  pub n : ℕ
  pub p : ℕ
  pub r : ℕ
  pub salt : Bytes

pub record CipherParamsOut : Type 0 where
  pub iv : Bytes

pub record Pbkdf2Params : Type 0 where
  pub dklen : ℕ
  pub c : ℕ
  pub prf : Bytes
  pub salt : Bytes

pub record ModuleOut (P : Type 0) : Type 0 where
  pub function : Bytes
  pub params : P
  pub message : Bytes

pub record CryptoOut : Type 0 where
  pub kdf : ModuleOut ScryptParamsOut
  pub checksum : ModuleOut (Unit {0})
  pub cipher : ModuleOut CipherParamsOut

pub record KeystoreOut : Type 0 where
  pub crypto : CryptoOut
  pub description : Bytes
  pub pubkey : Bytes
  pub path : Bytes
  pub uuid : Bytes
  pub version : ℤ

-- `V` is `serde_json::Value`.
pub record CryptoModule (V : Type 0) : Type 0 where
  pub function : Bytes
  pub message : Bytes
  pub params : V

pub record Crypto (V : Type 0) : Type 0 where
  pub kdf : CryptoModule V
  pub checksum : CryptoModule V
  pub cipher : CryptoModule V

pub record Envelope (V : Type 0) : Type 0 where
  pub crypto : Option V
  pub pubkey : Bytes
  pub version : ℤ

abbrev pub as_module : {P V : Type 0} → ModuleOut P → V → CryptoModule V
as_module m v = record { function = m.function; message = m.message; params = v }

-- `serde_json::from_slice`, `from_value` at the types that are read, and `to_vec`, with the text of
-- the error. What `to_vec` wrote is read as the fields that it was given.
pub record Json (V : Type 0) : Type 0 where
  pub from_slice : Bytes → Result Bytes (Envelope V)
  pub crypto_from_value : V → Result Bytes (Crypto V)
  pub scrypt_from_value : V → Result Bytes ScryptParamsOut
  pub pbkdf2_from_value : V → Result Bytes Pbkdf2Params
  pub cipher_from_value : V → Result Bytes CipherParamsOut
  pub to_vec : KeystoreOut → Result Bytes Bytes
  pub from_slice-to_vec :
      (out : KeystoreOut) (b : Bytes)
      → to_vec out ≡ ok b
      → (crypto : V) × (scrypt : V) × (empty : V) × (cipher : V) × (from_slice b
          ≡ ok (record { crypto = some crypto; pubkey = out.pubkey; version = out.version }))
        × (crypto_from_value crypto
            ≡ ok (record {
              kdf = as_module out.crypto.kdf scrypt;
              checksum = as_module out.crypto.checksum empty;
              cipher = as_module out.crypto.cipher cipher;
            }))
        × (scrypt_from_value scrypt ≡ ok out.crypto.kdf.params)
        × (cipher_from_value cipher ≡ ok out.crypto.cipher.params)

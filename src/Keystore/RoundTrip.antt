-- ===== src/Keystore/RoundTrip.antt =====
-- What `encrypt` writes, `load` reads.
use eth_utils.Prelude.{
  ℕ, ◌≤◌, ◌≡◌, refl, inl, inr, some, ok, err-ne-ok, ◌>>=◌, >>=-eq-ok, map_err-eq-ok, Result-cases,
  Bool-cases, le→ltb_false, length, take, drop, slice_lem, ◌++◌, All, ltb, ◌==◌, is_pos, arith,
}
use eth_utils.Prelude.Bytes.{Bytes, IsByte, bytes_eq, bytes_eq_refl}
use eth_utils.Hex.{Hex}
use eth_utils.Keystore.Errors.{KeystoreError, encrypt_failed, derived_key_too_short}
use eth_utils.Keystore.Crypto.{
  Ciphers, normalize_passphrase, derive_scrypt, checksum_message, or_panic, require_key,
}
use eth_utils.Keystore.Json.{Json}
use eth_utils.Keystore.Encrypt.{EncryptInput, keystore_out, encrypt_with, encrypt, require_length}
use eth_utils.Keystore.Loader.{
  normalize_pubkey, load, decrypt, decrypt_with, derive_key, derive_with_scrypt, decode_hex, ensure,
  require_crypto,
}

-- The arrays of an input hold bytes.
pub record IsEncryptInput (input : EncryptInput) : Type 0 where
  pub secret : All IsByte input.secret
  pub salt : All IsByte input.salt
  pub iv : All IsByte input.iv

pub require_key-eq-ok :
    {E : Type 0} → (e : ℕ → E) (dk : Bytes) → require_key e dk ≡ ok tt → 32 ≤ length dk
unfolding require_key
require_key-eq-ok e dk h = elim (Bool-cases (ltb (length dk) 32)) [
  | inl short ↦ absurd (err-ne-ok (rw short at h))
  | inr long ↦ ground arith
]

pub require_key_passes :
    {E : Type 0} → (e : ℕ → E) (dk : Bytes) → 32 ≤ length dk → require_key e dk ≡ ok tt
unfolding require_key
require_key_passes e dk h = rw (le→ltb_false (length dk) 32 h) refl

module _ (ciphers : Ciphers) where
  pub checksum_message-tall :
      (dk ciphertext : Bytes)
      → 32 ≤ length dk
      → checksum_message ciphers dk ciphertext
        ≡ some (ciphers.sha256 (take 16 (drop 16 dk) ++ ciphertext))
  unfolding checksum_message
  checksum_message-tall dk ciphertext h = rw (slice_lem 16 32 dk (omega arith) h) refl

module _ {F V : Type 0} (hex : Hex F) (ciphers : Ciphers) (json : Json V) where
  -- What a run of `encrypt` that succeeds went through.
  pub record Encrypted (input : EncryptInput) (b : Bytes) : Type 0 where
    pub dk : Bytes
    pub cipher : Bytes → Bytes
    pub derived :
        derive_scrypt ciphers
          (normalize_passphrase ciphers input.password)
          input.salt
          input.scrypt.n
          input.scrypt.r
          input.scrypt.p
          input.scrypt.dklen
        ≡ ok dk
    pub tall : 32 ≤ length dk
    pub keyed : ciphers.aes128_ctr (take 16 dk) input.iv ≡ ok cipher
    pub written :
        json.to_vec (
          keystore_out hex input
            (ciphers.sha256 (take 16 (drop 16 dk) ++ cipher input.secret))
            (cipher input.secret))
        ≡ ok b

module _ {F S V : Type 0} (hex : Hex F) (ciphers : Ciphers) (json : Json V) where
  encrypt_with-Encrypted :
      (input : EncryptInput) (dk b : Bytes)
      → derive_scrypt ciphers
          (normalize_passphrase ciphers input.password)
          input.salt
          input.scrypt.n
          input.scrypt.r
          input.scrypt.p
          input.scrypt.dklen
        ≡ ok dk
      → 32 ≤ length dk
      → encrypt_with {S = S} hex ciphers json input dk ≡ ok b
      → Encrypted hex ciphers json input b
  unfolding encrypt_with or_panic
  encrypt_with-Encrypted input dk b derived tall h =
      elim (Result-cases (ciphers.aes128_ctr (take 16 dk) input.iv)) [
        | inr (e, bad) ↦ absurd (err-ne-ok (rw bad at h))
        | inl (cipher, keyed) ↦ record {
          dk = dk;
          cipher = cipher;
          derived = derived;
          tall = tall;
          keyed = keyed;
          written =
              map_err-eq-ok _ _
                (rw (keyed, checksum_message-tall ciphers dk (cipher input.secret) tall) at h);
        }
      ]

  pub encrypt-Encrypted :
      (input : EncryptInput) (b : Bytes)
      → encrypt {S = S} hex ciphers json input ≡ ok b
      → Encrypted hex ciphers json input b
  unfolding encrypt require_length
  encrypt-Encrypted input b h = elim (Bool-cases (length input.secret == 32)) [
    | inr bad ↦ absurd (err-ne-ok (rw bad at h))
    | inl secret ↦ elim (Bool-cases (length input.pubkey == 48)) [
      | inr bad ↦ absurd (err-ne-ok (rw (secret, bad) at h))
      | inl pubkey ↦
          elim (Result-cases (
            derive_scrypt ciphers (normalize_passphrase ciphers input.password) input.salt
              input.scrypt.n input.scrypt.r input.scrypt.p input.scrypt.dklen)) [
                | inr (e, bad) ↦ absurd (err-ne-ok (rw (secret, pubkey, bad) at h))
                | inl (dk, derived) ↦ with_key dk derived (rw (secret, pubkey, derived) at h)
              ]
    ]
  ]
    where
      with_key :
          (dk : Bytes)
          → derive_scrypt ciphers
              (normalize_passphrase ciphers input.password)
              input.salt
              input.scrypt.n
              input.scrypt.r
              input.scrypt.p
              input.scrypt.dklen
            ≡ ok dk
          → (require_key {E = KeystoreError F S} (λ n. encrypt_failed (derived_key_too_short n)) dk
              >>= (λ t. encrypt_with {S = S} hex ciphers json input dk))
            ≡ ok b
          → Encrypted hex ciphers json input b
      with_key dk derived rest =
          let (t, tall, last) =
            >>=-eq-ok
              (require_key {E = KeystoreError F S} (λ n. encrypt_failed (derived_key_too_short n))
                dk)
              (λ t. encrypt_with hex ciphers json input dk) rest in
          encrypt_with-Encrypted input dk b derived
            (require_key-eq-ok {E = KeystoreError F S}
              (λ n. encrypt_failed (derived_key_too_short n)) dk tall)
            last

  -- Loading a file that holds what `encrypt` returned, with a passphrase that is normalized to the same
  -- text, returns the secret of the input and the public key of the input in hexadecimal digits,
  -- normalized. The secret, the salt and the IV of the input are bytes.
  pub load-encrypt :
      (to_lowercase : Bytes → Bytes) (input : EncryptInput) (b path passphrase : Bytes)
      → IsEncryptInput input
      → normalize_passphrase ciphers passphrase ≡ normalize_passphrase ciphers input.password
      → encrypt {S = S} hex ciphers json input ≡ ok b
      → load {S = S} hex ciphers json to_lowercase path (ok b) (ok passphrase)
        ≡ ok (record {
          secret = input.secret;
          pubkey_hex = normalize_pubkey to_lowercase (hex.encode input.pubkey);
        })
  unfolding load decrypt derive_key derive_with_scrypt decode_hex ensure require_crypto keystore_out
      or_panic decrypt_with is_pos bytes_eq
  load-encrypt to_lowercase input b path passphrase is same h =
      let e = encrypt-Encrypted input b h in
      let (crypto, scrypt, empty, cipher, envelope, module_, params, iv) =
        json.from_slice-to_vec _ b e.written in
      let sealed = ciphers.keystream_bytes _ _ e.cipher e.keyed input.secret is.secret in
      rw
        (
          envelope,
          module_,
          hex.decode_encode _ sealed,
          params,
          hex.decode_encode _ is.salt,
          same,
          e.derived,
          require_key_passes _ e.dk e.tall,
          hex.decode_encode _ (ciphers.sha256_bytes _),
          checksum_message-tall ciphers e.dk _ e.tall,
          bytes_eq_refl _,
          iv,
          hex.decode_encode _ is.iv,
          e.keyed,
          ciphers.keystream_twice _ _ e.cipher e.keyed input.secret is.secret,
        )
        refl

-- ===== src/Keystore/Web3/RoundTrip.antt =====
-- What `encrypt_v3` writes, `decrypt_v3` reads, and what `decrypt_v3` accepts has the right MAC.
use eth_utils.Prelude.{
  ℕ, ◌≤◌, ◌≡◌, refl, sym, ap, ◌∙◌, map_err, inl, inr, some, ◌++◌, Result, ok, ok-injective,
  err-ne-ok, ◌>>=◌, >>=-eq-ok, map_err-eq-ok, Result-cases, Bool-cases, is_pos, length, take, drop,
  slice_lem, All, ◌==◌, ==_iff, arith,
}
use eth_utils.Prelude.Bytes.{Bytes, IsByte, bytes_eq}
use eth_utils.Hex.{Hex}
use eth_utils.Keystore.Errors.{
  KeystoreError, encrypt_failed, derived_key_too_short, secret_length, kdf, Stop,
  keystore_malformed, plaintext_length,
}
use eth_utils.Keystore.Crypto.{Ciphers, derive_scrypt, v3_mac, or_panic, require_key}
use eth_utils.Keystore.Encrypt.{require_length}
use eth_utils.Keystore.Loader.{malformed, decode_hex, ensure}
use eth_utils.Keystore.RoundTrip.{require_key-eq-ok, require_key_passes}
use eth_utils.Keystore.Web3.{
  EncryptV3Input, JsonV3, keystore_v3_out, encrypt_v3_with, encrypt_v3, decrypt_v3_with, decrypt_v3,
  read_v3, EnvelopeV3, v3_path,
}
use eth_utils.Keystore.Web3.Compare.{ct_eq, ct_eq_iff}

-- The arrays of an input hold bytes.
pub record IsEncryptV3Input (input : EncryptV3Input) : Type 0 where
  pub secret : All IsByte input.secret
  pub salt : All IsByte input.salt
  pub iv : All IsByte input.iv

v3_mac-tall :
    (ciphers : Ciphers) (dk ciphertext : Bytes)
    → 32 ≤ length dk
    → v3_mac ciphers dk ciphertext ≡ some (ciphers.keccak256 (take 16 (drop 16 dk) ++ ciphertext))
unfolding v3_mac
v3_mac-tall ciphers dk ciphertext h = rw (slice_lem 16 32 dk (omega arith) h) refl

require_length-eq-ok :
    {E : Type 0} → (n : ℕ) (e : ℕ → E) (b : Bytes) → require_length n e b ≡ ok tt → length b ≡ n
unfolding require_length
require_length-eq-ok n e b h = elim (Bool-cases (length b == n)) [
  | inl same ↦ (==_iff (length b) n).0 same
  | inr bad ↦ absurd (err-ne-ok (rw bad at h))
]

module _ {F : Type 0} (hex : Hex F) (ciphers : Ciphers) (json : JsonV3) where
  -- What a run of `encrypt_v3` that succeeds went through.
  record EncryptedV3 (input : EncryptV3Input) (b : Bytes) : Type 0 where
    pub dk : Bytes
    pub cipher : Bytes → Bytes
    pub derived :
        derive_scrypt ciphers input.password input.salt input.scrypt.n input.scrypt.r input.scrypt.p
          input.scrypt.dklen
        ≡ ok dk
    pub tall : 32 ≤ length dk
    pub whole : length input.secret ≡ 32
    pub keyed : ciphers.aes128_ctr (take 16 dk) input.iv ≡ ok cipher
    pub written :
        json.to_vec (
          keystore_v3_out hex input
            (ciphers.keccak256 (take 16 (drop 16 dk) ++ cipher input.secret))
            (cipher input.secret))
        ≡ ok b

module _ {F S : Type 0} (hex : Hex F) (ciphers : Ciphers) (json : JsonV3) where
  encrypt_v3-EncryptedV3 :
      (input : EncryptV3Input) (b : Bytes)
      → encrypt_v3 {S = S} hex ciphers json input ≡ ok b
      → EncryptedV3 hex ciphers json input b
  unfolding encrypt_v3 encrypt_v3_with or_panic
  encrypt_v3-EncryptedV3 input b h =
      elim (Result-cases (
        require_length {E = KeystoreError F S} 32 (λ n. encrypt_failed (secret_length n))
          input.secret)) [
            | inr (e, bad) ↦ absurd (err-ne-ok (rw bad at h))
            | inl (u, whole) ↦
                elim (Result-cases (
                  derive_scrypt ciphers input.password input.salt input.scrypt.n input.scrypt.r
                    input.scrypt.p input.scrypt.dklen)) [
                      | inr (e, bad) ↦ absurd (err-ne-ok (rw (whole, bad) at h))
                      | inl (dk, derived) ↦
                          with_key dk derived
                            (require_length-eq-ok {E = KeystoreError F S} 32
                              (λ n. encrypt_failed (secret_length n)) input.secret whole)
                            (rw (whole, derived) at h)
                    ]
          ]
    where
      with_key :
          (dk : Bytes)
          → derive_scrypt ciphers input.password input.salt input.scrypt.n input.scrypt.r
              input.scrypt.p input.scrypt.dklen
            ≡ ok dk
          → length input.secret ≡ 32
          → (require_key {E = KeystoreError F S} (λ n. encrypt_failed (derived_key_too_short n)) dk
              >>= (λ t. encrypt_v3_with {S = S} hex ciphers json input dk))
            ≡ ok b
          → EncryptedV3 hex ciphers json input b
      with_key dk derived whole h =
          elim (Result-cases (
            require_key {E = KeystoreError F S} (λ n. encrypt_failed (derived_key_too_short n))
              dk)) [
                | inr (e, bad) ↦ absurd (err-ne-ok (rw bad at h))
                | inl (t, long) ↦
                    let tall : 32 ≤ length dk =
                      require_key-eq-ok {E = KeystoreError F S}
                        (λ n. encrypt_failed (derived_key_too_short n)) dk long in
                    elim (Result-cases (ciphers.aes128_ctr (take 16 dk) input.iv)) [
                      | inr (e, bad) ↦ absurd (err-ne-ok (rw (long, bad) at h))
                      | inl (cipher, keyed) ↦ record {
                        dk = dk;
                        cipher = cipher;
                        derived = derived;
                        tall = tall;
                        whole = whole;
                        keyed = keyed;
                        written = map_err-eq-ok _ _ (
                            rw (long, keyed, v3_mac-tall ciphers dk (cipher input.secret) tall) at
                              h);
                      }
                    ]
              ]

  -- Decrypting what `encrypt_v3` returned with the password of the input returns the secret of the
  -- input; the secret, the salt and the IV of the input are bytes.
  pub decrypt_v3-encrypt_v3 :
      (input : EncryptV3Input) (b : Bytes)
      → IsEncryptV3Input input
      → encrypt_v3 {S = S} hex ciphers json input ≡ ok b
      → decrypt_v3 {S = S} hex ciphers json b input.password ≡ ok input.secret
  unfolding decrypt_v3 read_v3 decode_hex ensure decrypt_v3_with or_panic keystore_v3_out is_pos
      bytes_eq
  decrypt_v3-encrypt_v3 input b is h =
      let e = encrypt_v3-EncryptedV3 input b h in
      let sealed = ciphers.keystream_bytes _ _ e.cipher e.keyed input.secret is.secret in
      rw
        (
          json.from_slice-to_vec _ b e.written,
          hex.decode_encode _ is.salt,
          hex.decode_encode _ is.iv,
          hex.decode_encode _ sealed,
          hex.decode_encode _ (ciphers.keccak256_bytes _),
          e.derived,
          require_key_passes _ e.dk e.tall,
          v3_mac-tall ciphers e.dk _ e.tall,
          (ct_eq_iff _ _).1 refl,
          e.keyed,
          ciphers.keystream_twice _ _ e.cipher e.keyed input.secret is.secret,
          (==_iff (length input.secret) 32).1 e.whole,
        )
        refl

module _ {F : Type 0} (S : Type 0) (hex : Hex F) (ciphers : Ciphers) (json : JsonV3) where
  -- What a file and a password went through when a secret came out: the MAC of the file is the hash
  -- of the second half of the key and of the ciphertext that is decrypted.
  pub record IsUnlocked (file password secret : Bytes) : Type 0 where
    pub envelope : EnvelopeV3
    pub salt : Bytes
    pub iv : Bytes
    pub ciphertext : Bytes
    pub mac : Bytes
    pub dk : Bytes
    pub cipher : Bytes → Bytes
    pub parsed : json.from_slice file ≡ ok envelope
    pub texts : read_v3 {S = S} hex envelope ≡ ok (salt, iv, ciphertext, mac)
    pub derived :
        derive_scrypt ciphers password salt envelope.crypto.kdfparams.n envelope.crypto.kdfparams.r
          envelope.crypto.kdfparams.p envelope.crypto.kdfparams.dklen
        ≡ ok dk
    pub authentic : mac ≡ ciphers.keccak256 (take 16 (drop 16 dk) ++ ciphertext)
    pub keyed : ciphers.aes128_ctr (take 16 dk) iv ≡ ok cipher
    pub plain : secret ≡ cipher ciphertext
    pub whole : length secret ≡ 32

module _ {F S : Type 0} (ciphers : Ciphers) where
  decrypt_v3_with_lem :
      (dk iv ciphertext mac secret : Bytes)
      → 32 ≤ length dk
      → decrypt_v3_with {F = F} {S = S} ciphers dk iv ciphertext mac ≡ ok secret
      → (cipher : Bytes → Bytes) × (mac ≡ ciphers.keccak256 (take 16 (drop 16 dk) ++ ciphertext))
        × (ciphers.aes128_ctr (take 16 dk) iv ≡ ok cipher)
        × (secret ≡ cipher ciphertext)
        × (length secret ≡ 32)
  unfolding decrypt_v3_with or_panic ensure
  decrypt_v3_with_lem dk iv ciphertext mac secret tall h =
      let hash = v3_mac-tall ciphers dk ciphertext tall in
      let expected = ciphers.keccak256 (take 16 (drop 16 dk) ++ ciphertext) in
      elim (Bool-cases (ct_eq expected mac)) [
        | inr bad ↦ absurd (err-ne-ok (rw (hash, bad) at h))
        | inl same ↦ elim (Result-cases (ciphers.aes128_ctr (take 16 dk) iv)) [
          | inr (e, bad) ↦ absurd (err-ne-ok (rw (hash, same, bad) at h))
          | inl (cipher, keyed) ↦
              let rest = rw (hash, same, keyed) at h in
              elim (Result-cases (
                require_length {E = KeystoreError F S} 32
                  (λ n. keystore_malformed v3_path (plaintext_length n)) (cipher ciphertext))) [
                    | inr (e, bad) ↦ absurd (err-ne-ok (rw bad at rest))
                    | inl (u, whole) ↦
                        let is : cipher ciphertext ≡ secret = ok-injective (rw whole at rest) in
                        (
                          cipher,
                          sym ((ct_eq_iff expected mac).0 same),
                          keyed,
                          sym is,
                          ap length (sym is)
                              ∙ require_length-eq-ok {E = KeystoreError F S} 32
                                  (λ n. keystore_malformed v3_path (plaintext_length n))
                                  (cipher ciphertext) whole,
                        )
                  ]
        ]
      ]

module _ {F S : Type 0} (hex : Hex F) (ciphers : Ciphers) (json : JsonV3) where
  -- Whatever file `decrypt_v3` returns a secret from, the file is a keystore that `read_v3` accepts,
  -- the key is derived from the unnormalized password with the file's parameters, the MAC of the file
  -- is the hash of the second half of that key and the ciphertext, and the secret is the ciphertext
  -- under the key stream of the first half, of 32 bytes.
  pub decrypt_v3-IsUnlocked :
      (file password secret : Bytes)
      → decrypt_v3 {S = S} hex ciphers json file password ≡ ok secret
      → IsUnlocked S hex ciphers json file password secret
  unfolding decrypt_v3
  decrypt_v3-IsUnlocked file password secret h = elim (Result-cases (json.from_slice file)) [
    | inr (e, bad) ↦ absurd (err-ne-ok (rw bad at h))
    | inl (envelope, parsed) ↦ with_envelope envelope parsed (rw parsed at h)
  ]
    where
      after : EnvelopeV3 → Bytes × Bytes × Bytes × Bytes → Result (Stop (KeystoreError F S)) Bytes
      after envelope (salt, iv, ciphertext, mac) = do
        dk ←
            map_err (λ e. malformed v3_path (kdf e))
              (derive_scrypt ciphers password salt envelope.crypto.kdfparams.n
                envelope.crypto.kdfparams.r envelope.crypto.kdfparams.p
                envelope.crypto.kdfparams.dklen)
        tall ← require_key (λ n. keystore_malformed v3_path (derived_key_too_short n)) dk
        decrypt_v3_with ciphers dk iv ciphertext mac

      with_envelope :
          (envelope : EnvelopeV3)
          → json.from_slice file ≡ ok envelope
          → (read_v3 {S = S} hex envelope >>= after envelope) ≡ ok secret
          → IsUnlocked S hex ciphers json file password secret
      with_envelope envelope parsed rest = elim (Result-cases (read_v3 {S = S} hex envelope)) [
        | inr (e, bad) ↦ absurd (err-ne-ok (rw bad at rest))
        | inl ((salt, iv, ciphertext, mac), texts) ↦
            let last = rw texts at rest in
            elim (Result-cases (
              derive_scrypt ciphers password salt envelope.crypto.kdfparams.n
                envelope.crypto.kdfparams.r envelope.crypto.kdfparams.p
                envelope.crypto.kdfparams.dklen)) [
                  | inr (e, bad) ↦ absurd (err-ne-ok (rw bad at last))
                  | inl (dk, derived) ↦
                      let (t, long, end) =
                        >>=-eq-ok
                          (require_key {E = KeystoreError F S}
                            (λ n. keystore_malformed v3_path (derived_key_too_short n)) dk)
                          (λ t. decrypt_v3_with ciphers dk iv ciphertext mac)
                          (rw derived at last) in
                      let tall =
                        require_key-eq-ok {E = KeystoreError F S}
                          (λ n. keystore_malformed v3_path (derived_key_too_short n)) dk long in
                      let (cipher, authentic, keyed, plain, whole) =
                        decrypt_v3_with_lem {F = F} {S = S} ciphers dk iv ciphertext mac secret tall
                          end in
                      record {
                        envelope = envelope;
                        salt = salt;
                        iv = iv;
                        ciphertext = ciphertext;
                        mac = mac;
                        dk = dk;
                        cipher = cipher;
                        parsed = parsed;
                        texts = texts;
                        derived = derived;
                        authentic = authentic;
                        keyed = keyed;
                        plain = plain;
                        whole = whole;
                      }
                ]
      ]

-- ===== src/Runs/Instances.antt =====
-- Functions with the documented behaviour of the crates that the keystores use: the laws of
-- `Ciphers`, `Json` and `JsonV3` can hold. The JSON is a list of fields with their lengths.
use Prim.Native.Nat.{◌-◌}
use eth_utils.Prelude.{
  ℕ, zero, suc, ◌≡◌, refl, sym, ap, ◌∙◌, ℤ, pos, negsuc, none, some, List, [], ◌∷◌, ◌++◌, map,
  Result, ok, err, ok-injective, length, take, drop, replicate, length-replicate, All,
  All-replicate, take-append, drop-append, arith,
}
use eth_utils.Prelude.Bytes.{Bytes, IsByte}
use eth_utils.Keystore.Crypto.{Ciphers}
use eth_utils.Keystore.Json.{Json, KeystoreOut, CryptoOut, Envelope, as_module}
use eth_utils.Keystore.Web3.{JsonV3, KeystoreV3Out, EnvelopeV3}

-- A key stream of ones only.
abbrev pub complement : Bytes → Bytes
complement bytes = map (λ b. 255 - b) bytes

pub complement_bytes : (m : Bytes) → All IsByte m → All IsByte (complement m)
complement_bytes [] h = tt
complement_bytes (b ∷ m) (small, h) = (omega arith, complement_bytes m h)

pub length-complement : (m : Bytes) → length (complement m) ≡ length m
length-complement [] = refl
length-complement (b ∷ m) = ap suc (length-complement m)

pub complement_twice : (m : Bytes) → All IsByte m → complement (complement m) ≡ m
complement_twice [] h = refl
complement_twice (b ∷ m) (small, h) =
    let back : 255 - (255 - b) ≡ b = omega arith in rw (back, complement_twice m h) refl

abbrev pub aes : Bytes → Bytes → Result Bytes (Bytes → Bytes)
aes key iv = ok complement

pub is_complement : (key iv : Bytes) (f : Bytes → Bytes) → aes key iv ≡ ok f → complement ≡ f
is_complement key iv f h = ok-injective {E = Bytes} h

abbrev pub ciphers : Ciphers
ciphers = record {
  nfkd = λ s. s;
  utf8 = λ s. s;
  new_params = λ log_n r p dklen. none;
  scrypt = λ password salt log_n r p dklen. ok (replicate dklen 7);
  pbkdf2 = λ password salt c dklen. replicate dklen 9;
  sha256 = λ b. replicate 32 1;
  keccak256 = λ b. replicate 32 2;
  aes128_ctr = aes;
  length-scrypt = λ password salt log_n r p dklen dk h.
      ap length (sym (ok-injective {E = Bytes} h)) ∙ length-replicate dklen 7;
  length-pbkdf2 = λ password salt c dklen. length-replicate dklen 9;
  sha256_bytes = λ b. All-replicate IsByte 32 1 (omega arith);
  keccak256_bytes = λ b. All-replicate IsByte 32 2 (omega arith);
  keystream_bytes =
      λ key iv f h m small. rw (sym (is_complement key iv f h)) (complement_bytes m small);
  length-keystream = λ key iv f h m. rw (sym (is_complement key iv f h)) (length-complement m);
  keystream_twice =
      λ key iv f h m small. rw (sym (is_complement key iv f h)) (complement_twice m small);
}

abbrev pub join : List Bytes → Bytes
join [] = []
join (f ∷ fs) = length f ∷ (f ++ join fs)

abbrev pub fields : ℕ → Bytes → List Bytes
fields zero b = []
fields (suc k) [] = []
fields (suc k) (n ∷ b) = take n b ∷ fields k (drop n b)

pub fields-join : (fs : List Bytes) → fields (length fs) (join fs) ≡ fs
fields-join [] = refl
fields-join (f ∷ fs) =
    rw
      (
        take-append (length f) f (join fs) refl,
        drop-append (length f) f (join fs) refl,
        fields-join fs,
      )
      refl

abbrev pub field : ℕ → List Bytes → Bytes
field k [] = []
field zero (f ∷ fs) = f
field (suc k) (f ∷ fs) = field k fs

abbrev pub number : Bytes → ℕ
number [] = 0
number (n ∷ b) = n

abbrev pub integer : Bytes → ℤ
integer [] = pos 0
integer (n ∷ []) = pos n
integer (n ∷ m ∷ b) = negsuc n

abbrev pub integer_field : ℤ → Bytes
integer_field (pos n) = n ∷ []
integer_field (negsuc n) = n ∷ 0 ∷ []

pub integer-integer_field : (z : ℤ) → integer (integer_field z) ≡ z
integer-integer_field (pos n) = refl
integer-integer_field (negsuc n) = refl

abbrev pub keystore_fields : KeystoreOut → List Bytes
keystore_fields out =
    out.crypto.kdf.function
    ∷ out.crypto.kdf.message
    ∷ (out.crypto.kdf.params.dklen ∷ [])
    ∷ (out.crypto.kdf.params.n ∷ [])
    ∷ (out.crypto.kdf.params.p ∷ [])
    ∷ (out.crypto.kdf.params.r ∷ [])
    ∷ out.crypto.kdf.params.salt
    ∷ out.crypto.checksum.function
    ∷ out.crypto.checksum.message
    ∷ out.crypto.cipher.function
    ∷ out.crypto.cipher.message
    ∷ out.crypto.cipher.params.iv
    ∷ out.pubkey
    ∷ integer_field out.version
    ∷ []

abbrev pub crypto_of : List Bytes → CryptoOut
crypto_of f = record {
  kdf = record {
    function = field 0 f;
    params = record {
      dklen = number (field 2 f);
      n = number (field 3 f);
      p = number (field 4 f);
      r = number (field 5 f);
      salt = field 6 f;
    };
    message = field 1 f;
  };
  checksum = record { function = field 7 f; params = tt; message = field 8 f };
  cipher = record {
    function = field 9 f;
    params = record { iv = field 11 f };
    message = field 10 f;
  };
}

abbrev pub envelope_of : List Bytes → Envelope CryptoOut
envelope_of f = record {
  crypto = some (crypto_of f);
  pubkey = field 12 f;
  version = integer (field 13 f);
}

pub envelope-keystore_fields :
    (out : KeystoreOut)
    → ◌≡◌ {A = Result Bytes (Envelope CryptoOut)}
        (ok (envelope_of (fields 14 (join (keystore_fields out)))))
        (ok (record { crypto = some out.crypto; pubkey = out.pubkey; version = out.version }))
envelope-keystore_fields out =
    ap (λ f. ok (envelope_of f)) (fields-join (keystore_fields out))
    ∙ ap (λ v. ok (record { crypto = some out.crypto; pubkey = out.pubkey; version = v }))
        (integer-integer_field out.version)

abbrev pub json : Json CryptoOut
json = record {
  from_slice = λ b. ok (envelope_of (fields 14 b));
  crypto_from_value = λ v. ok (record {
    kdf = as_module v.kdf v;
    checksum = as_module v.checksum v;
    cipher = as_module v.cipher v;
  });
  scrypt_from_value = λ v. ok v.kdf.params;
  pbkdf2_from_value = λ v. err [];
  cipher_from_value = λ v. ok v.cipher.params;
  to_vec = λ out. ok (join (keystore_fields out));
  from_slice-to_vec = λ out b h. (
    out.crypto,
    out.crypto,
    out.crypto,
    out.crypto,
    rw (sym (ok-injective {E = Bytes} h)) (envelope-keystore_fields out),
    refl,
    refl,
    refl,
  );
}

abbrev pub v3_fields : KeystoreV3Out → List Bytes
v3_fields out =
    out.crypto.cipher
    ∷ out.crypto.cipherparams.iv
    ∷ out.crypto.ciphertext
    ∷ out.crypto.kdf
    ∷ (out.crypto.kdfparams.dklen ∷ [])
    ∷ (out.crypto.kdfparams.n ∷ [])
    ∷ (out.crypto.kdfparams.p ∷ [])
    ∷ (out.crypto.kdfparams.r ∷ [])
    ∷ out.crypto.kdfparams.salt
    ∷ out.crypto.mac
    ∷ integer_field out.version
    ∷ []

abbrev pub envelope_v3_of : List Bytes → EnvelopeV3
envelope_v3_of f = record {
  crypto = record {
    cipher = field 0 f;
    cipherparams = record { iv = field 1 f };
    ciphertext = field 2 f;
    kdf = field 3 f;
    kdfparams = record {
      dklen = number (field 4 f);
      n = number (field 5 f);
      p = number (field 6 f);
      r = number (field 7 f);
      salt = field 8 f;
    };
    mac = field 9 f;
  };
  version = integer (field 10 f);
}

pub envelope-v3_fields :
    (out : KeystoreV3Out)
    → ◌≡◌ {A = Result Bytes EnvelopeV3}
        (ok (envelope_v3_of (fields 11 (join (v3_fields out)))))
        (ok (record { crypto = out.crypto; version = out.version }))
envelope-v3_fields out =
    ap (λ f. ok (envelope_v3_of f)) (fields-join (v3_fields out))
    ∙ ap (λ v. ok (record { crypto = out.crypto; version = v })) (integer-integer_field out.version)

abbrev pub json_v3 : JsonV3
json_v3 = record {
  from_slice = λ b. ok (envelope_v3_of (fields 11 b));
  to_vec = λ out. ok (join (v3_fields out));
  from_slice-to_vec = λ out b h. rw (sym (ok-injective {E = Bytes} h)) (envelope-v3_fields out);
}

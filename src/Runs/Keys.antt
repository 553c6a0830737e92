-- ===== src/Runs/Keys.antt =====
-- The theorems on keystores at concrete inputs.
use eth_utils.Prelude.{
  ℕ, ◌≤◌, ◌≡◌, ◌↔◌, refl, true, false, Option, some, none, Result, ◌==◌, List, [], ◌∷◌, map, ok,
  err, length, replicate, get_elem?, slice, All, All-replicate, arith,
}
use eth_utils.Prelude.Bytes.{Bytes, IsByte, text, bytes_eq, strip_prefix}
use eth_utils.Hex.Reference.{reference}
use eth_utils.Keystore.Crypto.{
  normalize_passphrase, check_scrypt, derive_scrypt, is_power_of_two, or_overflow, times_128,
}
use eth_utils.Keystore.Crypto.Limits.{IsDerived, derive_scrypt-IsDerived_iff}
use eth_utils.Keystore.Encrypt.{EncryptInput, fast, encrypt, keystore_out}
use eth_utils.Keystore.Loader.{load, normalize_pubkey}
use eth_utils.Keystore.RoundTrip.{IsEncryptInput, load-encrypt}
use eth_utils.Keystore.Web3.{EncryptV3Input, encrypt_v3, decrypt_v3, keystore_v3_out}
use eth_utils.Keystore.Web3.Compare.{ct_eq, ct_eq_iff}
use eth_utils.Keystore.Web3.RoundTrip.{
  IsEncryptV3Input, IsUnlocked, decrypt_v3-encrypt_v3, decrypt_v3-IsUnlocked,
}
use eth_utils.Keystore.Passphrase.{read_new_passphrase}
use eth_utils.Keystore.Passphrase.Rules.{read_new_passphrase_iff}
use eth_utils.Keystore.Scan.{DirEntry, scan_dir, lookup}
use eth_utils.Cli.Send.{to_ascii_lowercase}
use eth_utils.Keystore.Scan.Last.{IsLast, NoneDeclares, lookup-IsLast_iff}
use eth_utils.Cli.Gen.{gather}
use eth_utils.Cli.Gen.Select.{no_later, errors_of, gather_first_error}
use eth_utils.Runs.Instances.{ciphers, json, json_v3, join, keystore_fields, v3_fields}

derive_scrypt_example :
    (derive_scrypt ciphers (text "correct horse") (replicate 32 5) 8192 8 1 32
      ≡ ok (replicate 32 7))
    ↔ IsDerived ciphers (text "correct horse") (replicate 32 5) 8192 8 1 32 (replicate 32 7)
derive_scrypt_example =
    derive_scrypt-IsDerived_iff ciphers (text "correct horse") (replicate 32 5) 8192 8 1 32
      (replicate 32 7) (omega arith)

abbrev pub input : EncryptInput
input = record {
  secret = replicate 32 3;
  password = text "correct horse";
  path = text "m/12381/3600/0/0/0";
  pubkey = replicate 48 4;
  salt = replicate 32 5;
  iv = replicate 16 6;
  uuid_bytes = replicate 16 8;
  scrypt = fast;
}

pub input-IsEncryptInput : IsEncryptInput input
input-IsEncryptInput = record {
  secret = All-replicate IsByte 32 3 (omega arith);
  salt = All-replicate IsByte 32 5 (omega arith);
  iv = All-replicate IsByte 16 6 (omega arith);
}

abbrev pub keystore : Bytes
keystore = join (keystore_fields (keystore_out reference input (replicate 32 1) (replicate 32 252)))

pub encrypted : encrypt {S = Unit {0}} reference ciphers json input ≡ ok keystore
unfolding encrypt derive_scrypt check_scrypt is_power_of_two or_overflow times_128 slice
encrypted = refl

load-encrypt_example :
    load {S = Unit {0}} reference ciphers json
      (λ s. s)
      (text "k.json")
      (ok keystore)
      (ok (text "correct horse"))
    ≡ ok (record {
      secret = replicate 32 3;
      pubkey_hex = normalize_pubkey (λ s. s) (reference.encode (replicate 48 4));
    })
load-encrypt_example =
    load-encrypt reference ciphers json (λ s. s) input keystore (text "k.json")
      (text "correct horse") input-IsEncryptInput refl encrypted

abbrev input_v3 : EncryptV3Input
input_v3 = record {
  secret = replicate 32 3;
  password = text "correct horse";
  address = replicate 20 4;
  salt = replicate 32 5;
  iv = replicate 16 6;
  uuid_bytes = replicate 16 8;
  scrypt = fast;
}

input_v3-IsEncryptV3Input : IsEncryptV3Input input_v3
input_v3-IsEncryptV3Input = record {
  secret = All-replicate IsByte 32 3 (omega arith);
  salt = All-replicate IsByte 32 5 (omega arith);
  iv = All-replicate IsByte 16 6 (omega arith);
}

abbrev keystore_v3 : Bytes
keystore_v3 =
    join (v3_fields (keystore_v3_out reference input_v3 (replicate 32 2) (replicate 32 252)))

encrypted_v3 : encrypt_v3 {S = Unit {0}} reference ciphers json_v3 input_v3 ≡ ok keystore_v3
unfolding encrypt_v3 derive_scrypt check_scrypt is_power_of_two or_overflow times_128 slice
encrypted_v3 = refl

decrypt_v3-encrypt_v3_example :
    decrypt_v3 {S = Unit {0}} reference ciphers json_v3 keystore_v3 (text "correct horse")
    ≡ ok (replicate 32 3)
decrypt_v3-encrypt_v3_example =
    decrypt_v3-encrypt_v3 reference ciphers json_v3 input_v3 keystore_v3 input_v3-IsEncryptV3Input
      encrypted_v3

decrypted_v3 :
    decrypt_v3 {S = Unit {0}} reference ciphers json_v3 keystore_v3 (text "correct horse")
    ≡ ok (replicate 32 3)
decrypted_v3 =
    decrypt_v3-encrypt_v3 reference ciphers json_v3 input_v3 keystore_v3 input_v3-IsEncryptV3Input
      encrypted_v3

decrypt_v3-IsUnlocked_example :
    IsUnlocked
      (Unit {0})
      reference
      ciphers
      json_v3
      keystore_v3
      (text "correct horse")
      (replicate 32 3)
decrypt_v3-IsUnlocked_example =
    decrypt_v3-IsUnlocked reference ciphers json_v3 keystore_v3 (text "correct horse")
      (replicate 32 3) decrypted_v3

abbrev mac : Bytes
mac = 1 ∷ 2 ∷ []

abbrev other_mac : Bytes
other_mac = 1 ∷ 3 ∷ []

ct_eq_example : (ct_eq mac other_mac ≡ true) ↔ (mac ≡ other_mac)
ct_eq_example = ct_eq_iff mac other_mac

abbrev tty : Result Bytes (Unit {0})
tty = ok tt

abbrev typed : Result Bytes Bytes
typed = ok (text "hunter22")

read_new_passphrase_example :
    ((read_new_passphrase {F = Unit {0}} {S = Unit {0}} ciphers tty typed typed).result
      ≡ ok (text "hunter22"))
    ↔ ((tty ≡ ok tt)
        × (typed ≡ ok (text "hunter22"))
        × (typed ≡ ok (text "hunter22"))
        × (8 ≤ length (normalize_passphrase ciphers (text "hunter22"))))
read_new_passphrase_example = read_new_passphrase_iff ciphers tty typed typed (text "hunter22")

abbrev listed : List (Option DirEntry)
listed =
    some (record {
      file_type = some false;
      file_name = text "a.json";
      path = text "d/a.json";
      content = some (text "0xAb");
    })
    ∷ some (record {
      file_type = some false;
      file_name = text "b.json";
      path = text "d/b.json";
      content = some (text "ab");
    })
    ∷ none
    ∷ []

abbrev lower : Bytes → Bytes
lower s = map to_ascii_lowercase s

scanned : scan_dir lower some {E = Unit {0}} (ok listed) ≡ ok ((text "ab", text "d/b.json") ∷ [])
unfolding scan_dir bytes_eq normalize_pubkey strip_prefix to_ascii_lowercase
scanned = refl

lookup-IsLast_example :
    ((lookup lower (text "0xAB") ((text "ab", text "d/b.json") ∷ []) ≡ some (text "d/b.json"))
      ↔ IsLast lower some (text "0xAB") listed (text "d/b.json"))
    × ((lookup lower (text "0xAB") ((text "ab", text "d/b.json") ∷ []) ≡ none)
        ↔ NoneDeclares lower some (text "0xAB") listed)
lookup-IsLast_example =
    lookup-IsLast_iff lower some {E = Unit {0}} listed ((text "ab", text "d/b.json") ∷ [])
      (text "0xAB") (text "d/b.json") scanned

-- An error is a cancellation if it is 0.
abbrev arrivals : List (ℕ × Result ℕ ℕ)
arrivals = (2, err 0) ∷ (1, err 5) ∷ (0, ok 9) ∷ (3, err 6) ∷ []

gathered : gather {A = ℕ} (λ e. e == 0) 4 arrivals ≡ some (err 5)
unfolding gather
gathered = refl

gather_first_error_example :
    (i : ℕ) × (k : ℕ) × (get_elem? (errors_of {A = ℕ} arrivals) k ≡ some (i, 5))
    × All (λ other. no_later (λ e. e == 0) (i, 5) other ≡ true) (errors_of {A = ℕ} arrivals)
gather_first_error_example = gather_first_error (λ e. e == 0) 4 arrivals 5 gathered

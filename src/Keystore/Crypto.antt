-- ===== src/Keystore/Crypto.antt =====
-- The primitives that encryption and decryption share (crates/ethernal-keystore/src/crypto.rs).
pub mod Limits
use eth_utils.Prelude.{
  ℕ, zero, suc, ◌+◌, ◌*◌, ◌/◌, ◌%◌, ◌^◌, ◌≤◌, ◌≡◌, Bool, true, false, not, ◌&&◌, ◌||◌, Option, none,
  some, List, [], ◌∷◌, ◌++◌, Result, ok, err, ◌>>=◌, map_err, length, take, drop, All, slice,
  and_then, ltb, leb, ◌==◌, if◌then◌else◌,
}
use eth_utils.Prelude.Bytes.{Bytes, IsByte}
use eth_utils.Keystore.Errors.{
  ScryptError, not_power_of_two, memory_overflows, too_much_memory, too_parallel,
  key_length_out_of_range, invalid_scrypt_params, scrypt_failed, Stop, panic, fails,
}

-- What is used of the crates for text, hashes and ciphers, with their documented behaviour.
pub record Ciphers : Type 0 where
  -- `String::from_utf8_lossy` and then `nfkd`: the code points.
  pub nfkd : Bytes → List ℕ
  pub utf8 : List ℕ → Bytes
  -- `scrypt::Params::new`: its error, if it fails.
  pub new_params : ℕ → ℕ → ℕ → ℕ → Option Bytes
  -- `scrypt::scrypt` with a password, a salt, log n, r, p and the length of the key.
  pub scrypt : Bytes → Bytes → ℕ → ℕ → ℕ → ℕ → Result Bytes Bytes
  -- `pbkdf2_hmac::<Sha256>` with a password, a salt, the rounds and the length of the key.
  pub pbkdf2 : Bytes → Bytes → ℕ → ℕ → Bytes
  pub sha256 : Bytes → Bytes
  pub keccak256 : Bytes → Bytes
  -- `Aes128Ctr::new_from_slices` with a key and an IV, and `apply_keystream`.
  pub aes128_ctr : Bytes → Bytes → Result Bytes (Bytes → Bytes)
  pub length-scrypt :
      (password salt : Bytes) (log_n r p dklen : ℕ) (dk : Bytes)
      → scrypt password salt log_n r p dklen ≡ ok dk
      → length dk ≡ dklen
  pub length-pbkdf2 :
      (password salt : Bytes) (c dklen : ℕ) → length (pbkdf2 password salt c dklen) ≡ dklen
  pub sha256_bytes : (b : Bytes) → All IsByte (sha256 b)
  pub keccak256_bytes : (b : Bytes) → All IsByte (keccak256 b)
  -- A key stream is applied to any bytes, keeps their number, and is undone by itself.
  pub keystream_bytes :
      (key iv : Bytes) (f : Bytes → Bytes)
      → aes128_ctr key iv ≡ ok f
      → (m : Bytes) → All IsByte m
      → All IsByte (f m)
  pub length-keystream :
      (key iv : Bytes) (f : Bytes → Bytes)
      → aes128_ctr key iv ≡ ok f
      → (m : Bytes) → length (f m) ≡ length m
  pub keystream_twice :
      (key iv : Bytes) (f : Bytes → Bytes)
      → aes128_ctr key iv ≡ ok f
      → (m : Bytes) → All IsByte m
      → f (f m) ≡ m

abbrev pub scrypt_max_mem_bytes : ℕ
scrypt_max_mem_bytes = 2 ^ 30

abbrev pub scrypt_max_p : ℕ
scrypt_max_p = 16

abbrev pub scrypt_min_dklen : ℕ
scrypt_min_dklen = 32

abbrev pub scrypt_max_dklen : ℕ
scrypt_max_dklen = 128

unfoldable pub is_stripped_control : ℕ → Bool
is_stripped_control u = leb u 0x1f || (leb 0x80 u && leb u 0x9f) || u == 0x7f

-- `chars.filter(|c| !is_stripped_control(c))`
unfoldable pub strip_controls : List ℕ → List ℕ
unfolding is_stripped_control
strip_controls [] = []
strip_controls (c ∷ cs) =
    let rest = strip_controls cs in if is_stripped_control c then rest else c ∷ rest

-- `n.trailing_zeros()` of a number below 2 ^ bits.
unfoldable pub trailing_zeros : ℕ → ℕ → ℕ
trailing_zeros zero n = 0
trailing_zeros (suc bits) n =
    let rest = trailing_zeros bits (n / 2) in if n % 2 == 0 then suc rest else 0

-- `n.is_power_of_two()` of a `u64`.
unfoldable pub is_power_of_two : ℕ → Bool
unfolding trailing_zeros
is_power_of_two n = n == 2 ^ trailing_zeros 64 n

-- `a.checked_mul(b)` on a `u64`.
unfoldable pub checked_mul : ℕ → ℕ → Option ℕ
checked_mul a b = if ltb (a * b) (2 ^ 64) then some (a * b) else none

unfoldable pub or_overflow : ℕ → ℕ → Option ℕ → Result ScryptError ℕ
or_overflow n r none = err (memory_overflows n r)
or_overflow n r (some m) = ok m

unfoldable pub times_128 : Option ℕ → Option ℕ
unfolding checked_mul
times_128 none = none
times_128 (some nr) = checked_mul nr 128

unfoldable pub check_limits : ℕ → ℕ → ℕ → ℕ → ℕ → Result ScryptError (Unit {0})
check_limits n r p dklen mem_bytes =
    if ltb scrypt_max_mem_bytes mem_bytes
    then err (too_much_memory mem_bytes n r)
    else if ltb scrypt_max_p p
    then err (too_parallel p)
    else if leb scrypt_min_dklen dklen && leb dklen scrypt_max_dklen
    then ok tt
    else err (key_length_out_of_range dklen)

-- The tests of `derive_scrypt`, in their order.
unfoldable pub check_scrypt : ℕ → ℕ → ℕ → ℕ → Result ScryptError (Unit {0})
unfolding check_limits
check_scrypt n r p dklen =
    if is_power_of_two n
    then or_overflow n r (times_128 (checked_mul n r)) >>= check_limits n r p dklen
    else err (not_power_of_two n)

unfoldable pub params_result : Option Bytes → Result ScryptError (Unit {0})
params_result none = ok tt
params_result (some e) = err (invalid_scrypt_params e)

module _ (ciphers : Ciphers) where
  unfoldable pub normalize_passphrase : Bytes → Bytes
  normalize_passphrase passphrase = ciphers.utf8 (strip_controls (ciphers.nfkd passphrase))

  unfoldable pub derive_scrypt : Bytes → Bytes → ℕ → ℕ → ℕ → ℕ → Result ScryptError Bytes
  unfolding params_result
  derive_scrypt password salt n r p dklen = do
    checked ← check_scrypt n r p dklen
    params ← params_result (ciphers.new_params (trailing_zeros 64 n) r p dklen)
    map_err scrypt_failed (ciphers.scrypt password salt (trailing_zeros 64 n) r p dklen)

  -- `none` is the panic of a key that is too short.
  unfoldable pub checksum_message : Bytes → Bytes → Option Bytes
  checksum_message dk ciphertext =
      and_then (slice 16 32 dk) (λ upper. some (ciphers.sha256 (upper ++ ciphertext)))

  unfoldable pub v3_mac : Bytes → Bytes → Option Bytes
  v3_mac dk ciphertext =
      and_then (slice 16 32 dk) (λ upper. some (ciphers.keccak256 (upper ++ ciphertext)))

unfoldable pub or_panic : {E : Type 0} → Option Bytes → Result (Stop E) Bytes
or_panic none = err panic
or_panic (some b) = ok b

-- `if dk.len() < 32 { return Err(...) }` with the error that the caller makes.
unfoldable pub require_key : {E : Type 0} → (ℕ → E) → Bytes → Result (Stop E) (Unit {0})
require_key too_short dk = if ltb (length dk) 32 then err (fails (too_short (length dk))) else ok tt

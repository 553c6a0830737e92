-- ===== src/Keystore/Crypto/Limits.antt =====
-- Which parameters `derive_scrypt` accepts, and the key that it returns.
use native.Mathlib.Nat.{pow-suc}
use eth_utils.Prelude.{
  Option, none, some, Result-cases, map_err-eq-ok, ℕ, zero, suc, ◌*◌, ◌/◌, ◌^◌, ◌≤◌, ◌<◌, ◌≡◌, ◌↔◌,
  refl, sym, ap, ◌∙◌, inl, inr, true, false, ok, err-ne-ok, >>=-eq-ok, ltb, ==_iff, Bool-cases,
  arith,
}
use eth_utils.Prelude.Bytes.{Bytes}
use eth_utils.Keystore.Errors.{scrypt_failed}
use eth_utils.Keystore.Crypto.{
  Ciphers, params_result, derive_scrypt, trailing_zeros, is_power_of_two, checked_mul, times_128,
  or_overflow, check_scrypt, check_limits,
}

-- The parameters that are accepted: the memory of 128 * n * r bytes is at most 1 GiB.
pub record IsAffordable (n r p dklen : ℕ) : Type 0 where
  pub exponent : ℕ
  pub fits : exponent < 64
  pub is_power : n ≡ 2 ^ exponent
  pub memory : n * r * 128 ≤ 2 ^ 30
  pub parallel : p ≤ 16
  pub long_enough : 32 ≤ dklen
  pub short_enough : dklen ≤ 128

-- The size of the memory, if it does not overflow.
memory_cost :
    (n r m : ℕ)
    → or_overflow n r (times_128 (checked_mul n r)) ≡ ok m
    → (m ≡ n * r * 128) × (m < 2 ^ 64)
unfolding or_overflow times_128 checked_mul
memory_cost n r m h = ground arith

memory_fits :
    (n r : ℕ)
    → n * r * 128 ≤ 2 ^ 30
    → or_overflow n r (times_128 (checked_mul n r)) ≡ ok (n * r * 128)
unfolding or_overflow times_128 checked_mul
memory_fits n r h = ground arith

trailing_zeros-le : (bits n : ℕ) → trailing_zeros bits n ≤ bits
unfolding trailing_zeros
trailing_zeros-le zero n = omega arith
trailing_zeros-le (suc bits) n = ground (arith, trailing_zeros-le bits (n / 2))

trailing_zeros-power : (bits k : ℕ) → k < bits → trailing_zeros bits (2 ^ k) ≡ k
unfolding trailing_zeros
trailing_zeros-power zero k h = absurd (omega arith)
trailing_zeros-power (suc bits) zero h = refl
trailing_zeros-power (suc bits) (suc k) h =
    let double : 2 ^ suc k ≡ 2 * 2 ^ k = omega (arith, pow-suc 2 k) in
    let half : 2 ^ suc k / 2 ≡ 2 ^ k = omega (arith, double) in
    rw half (ground (arith, double, trailing_zeros-power bits k))

limits :
    (n r p dklen m : ℕ)
    → check_limits n r p dklen m ≡ ok tt
    → (m ≤ 2 ^ 30) × (p ≤ 16) × (32 ≤ dklen) × (dklen ≤ 128)
unfolding check_limits
limits n r p dklen m h = ground arith

within_limits :
    (n r p dklen m : ℕ)
    → m ≤ 2 ^ 30
    → p ≤ 16
    → 32 ≤ dklen
    → dklen ≤ 128
    → check_limits n r p dklen m ≡ ok tt
unfolding check_limits
within_limits n r p dklen m a b c d = ground arith

at_top : (t : ℕ) → t ≤ 64 → ltb t 64 ≡ false → t ≡ 64
at_top t h e = ground arith

below_top : (t : ℕ) → ltb t 64 ≡ true → t < 64
below_top t e = ground arith

is_power_of_two_lem : (n : ℕ) → n ≡ 2 ^ trailing_zeros 64 n → is_power_of_two n ≡ true
unfolding is_power_of_two
is_power_of_two_lem n e = (==_iff n (2 ^ trailing_zeros 64 n)).1 e

not_top : (n : ℕ) → n < 2 ^ 64 → n ≡ 2 ^ 64 → ⊥
not_top n h e = omega arith

power_exponent :
    (n : ℕ)
    → n < 2 ^ 64
    → is_power_of_two n ≡ true
    → (n ≡ 2 ^ trailing_zeros 64 n) × (trailing_zeros 64 n < 64)
unfolding is_power_of_two
power_exponent n h e =
    let is : n ≡ 2 ^ trailing_zeros 64 n = (==_iff n (2 ^ trailing_zeros 64 n)).0 e in
    elim (Bool-cases (ltb (trailing_zeros 64 n) 64)) [
      | inl small ↦ (is, below_top (trailing_zeros 64 n) small)
      | inr large ↦
          let top : trailing_zeros 64 n ≡ 64 =
            at_top (trailing_zeros 64 n) (trailing_zeros-le 64 n) large in
          absurd (not_top n h (is ∙ ap (λ k. 2 ^ k) top))
    ]

-- `check_scrypt` accepts exactly the affordable parameters.
check_scrypt-IsAffordable_iff :
    (n r p dklen : ℕ) → n < 2 ^ 64 → (check_scrypt n r p dklen ≡ ok tt) ↔ IsAffordable n r p dklen
unfolding check_scrypt
check_scrypt-IsAffordable_iff n r p dklen h = (accepted, affordable)
  where
    accepted : check_scrypt n r p dklen ≡ ok tt → IsAffordable n r p dklen
    accepted e = elim (Bool-cases (is_power_of_two n)) [
      | inr bad ↦ absurd (err-ne-ok (rw bad at e))
      | inl power ↦
          let (m, cost, rest) =
            >>=-eq-ok (or_overflow n r (times_128 (checked_mul n r))) (check_limits n r p dklen)
              (rw power at e) in
          let (small, parallel, long, short) = limits n r p dklen m rest in
          let (is, fits) = power_exponent n h power in
          record {
            exponent = trailing_zeros 64 n;
            fits = fits;
            is_power = is;
            memory = omega (arith, memory_cost n r m cost);
            parallel = parallel;
            long_enough = long;
            short_enough = short;
          }
    ]

    affordable : IsAffordable n r p dklen → check_scrypt n r p dklen ≡ ok tt
    affordable a =
        let same : trailing_zeros 64 n ≡ a.exponent =
          ap (trailing_zeros 64) a.is_power ∙ trailing_zeros-power 64 a.exponent a.fits in
        let power : is_power_of_two n ≡ true =
          is_power_of_two_lem n (a.is_power ∙ ap (λ k. 2 ^ k) (sym same)) in
        rw (power, memory_fits n r a.memory)
          (within_limits n r p dklen (n * r * 128) a.memory a.parallel a.long_enough a.short_enough)

trailing_zeros-exponent :
    (n r p dklen : ℕ) (a : IsAffordable n r p dklen) → trailing_zeros 64 n ≡ a.exponent
trailing_zeros-exponent n r p dklen a =
    ap (trailing_zeros 64) a.is_power ∙ trailing_zeros-power 64 a.exponent a.fits

params_result-eq-ok : (o : Option Bytes) → params_result o ≡ ok tt → o ≡ none
unfolding params_result
params_result-eq-ok none h = refl
params_result-eq-ok (some e) h = absurd (err-ne-ok h)

module _ (ciphers : Ciphers) where
  -- How a key is derived: with affordable parameters that `scrypt::Params::new` accepts, by the
  -- function of the crate on the binary logarithm of the rounds.
  pub record IsDerived (password salt : Bytes) (n r p dklen : ℕ) (dk : Bytes) : Type 0 where
    pub affordable : IsAffordable n r p dklen
    pub params : ciphers.new_params affordable.exponent r p dklen ≡ none
    pub derived : ciphers.scrypt password salt affordable.exponent r p dklen ≡ ok dk

  -- `derive_scrypt` returns a key exactly if the rounds are a power of two, the memory of
  -- 128 * n * r bytes is at most 1 GiB, the parallelization is at most 16, the key has 32 to 128
  -- bytes, `scrypt::Params::new` accepts these parameters too, and the derivation of the crate, on the
  -- binary logarithm of the rounds, returns that key. The rounds are a 64-bit number, and no product
  -- wraps around.
  pub derive_scrypt-IsDerived_iff :
      (password salt : Bytes) (n r p dklen : ℕ) (dk : Bytes)
      → n < 2 ^ 64
      → (derive_scrypt ciphers password salt n r p dklen ≡ ok dk)
        ↔ IsDerived password salt n r p dklen dk
  unfolding derive_scrypt
  derive_scrypt-IsDerived_iff password salt n r p dklen dk h = (run, made)
    where
      run :
          derive_scrypt ciphers password salt n r p dklen ≡ ok dk
          → IsDerived password salt n r p dklen dk
      run e = elim (Result-cases (check_scrypt n r p dklen)) [
        | inr (x, bad) ↦ absurd (err-ne-ok (rw bad at e))
        | inl (u, checked) ↦
            elim (Result-cases
              (params_result (ciphers.new_params (trailing_zeros 64 n) r p dklen))) [
                | inr (x, bad) ↦ absurd (err-ne-ok (rw (checked, bad) at e))
                | inl (v, accepted) ↦
                    let a = (check_scrypt-IsAffordable_iff n r p dklen h).0 checked in
                    let same = trailing_zeros-exponent n r p dklen a in
                    record {
                      affordable = a;
                      params =
                          ap (λ k. ciphers.new_params k r p dklen) (sym same)
                          ∙ params_result-eq-ok (ciphers.new_params (trailing_zeros 64 n) r p dklen)
                              accepted;
                      derived =
                          ap (λ k. ciphers.scrypt password salt k r p dklen) (sym same)
                          ∙ map_err-eq-ok scrypt_failed
                              (ciphers.scrypt password salt (trailing_zeros 64 n) r p dklen)
                              (rw (checked, accepted) at e);
                    }
              ]
      ]

      made :
          IsDerived password salt n r p dklen dk
          → derive_scrypt ciphers password salt n r p dklen ≡ ok dk
      made d = rw (
        (check_scrypt-IsAffordable_iff n r p dklen h).1 d.affordable,
        trailing_zeros-exponent n r p dklen d.affordable,
        d.params,
        d.derived,
      )

-- ===== src/Keystore/Web3/Compare.antt =====
-- The comparison of two MACs in constant time (crates/ethernal-keystore/src/decrypt_v3.rs).
use Prim.Native.Nat.{max, bit_or, bit_xor, bit_or-bitwise, bit_xor-bitwise, digits, differ}
use eth_utils.Prelude.{
  ℕ, zero, suc, ◌/◌, ◌%◌, ◌≤◌, ◌≡◌, ◌↔◌, refl, sym, ap, ◌∙◌, inl, inr, Bool, true, false, [], ◌∷◌,
  length, ◌==◌, ==_iff, Bool-cases, if◌then◌else◌, arith,
}
use eth_utils.Prelude.Bytes.{Bytes}

-- The loop over the pairs of bytes: `acc |= x ^ y`.
unfoldable pub ct_loop : ℕ → Bytes → Bytes → ℕ
ct_loop acc [] ys = acc
ct_loop acc (x ∷ xs) [] = acc
ct_loop acc (x ∷ xs) (y ∷ ys) = ct_loop (bit_or acc (bit_xor x y)) xs ys

unfoldable pub ct_eq : Bytes → Bytes → Bool
unfolding ct_loop
ct_eq a b = if length a == length b then ct_loop 0 a b == 0 else false

differ_zero : (x y : ℕ) → differ x y ≡ 0 → x ≡ y
differ_zero zero y h = omega (arith, h)
differ_zero (suc x) zero h = absurd (omega (arith, h))
differ_zero (suc x) (suc y) h = ap suc (differ_zero x y h)

differ_self : (x : ℕ) → differ x x ≡ 0
differ_self zero = refl
differ_self (suc x) = differ_self x

xor_digits_zero : (n a b : ℕ) → a ≤ n → digits (λ b. b) differ n a b ≡ 0 → a ≡ b
xor_digits_zero zero zero b p h = sym h
xor_digits_zero zero (suc a) b p h = absurd (omega arith)
xor_digits_zero (suc n) zero b p h = sym h
xor_digits_zero (suc n) (suc a) b p h =
    let halves : suc a / 2 ≡ b / 2 =
      xor_digits_zero n (suc a / 2) (b / 2) (omega arith) (omega (arith, h)) in
    let units : suc a % 2 ≡ b % 2 = differ_zero (suc a % 2) (b % 2) (omega (arith, h)) in
    omega arith

xor_digits_self : (n a : ℕ) → a ≤ n → digits (λ b. b) differ n a a ≡ 0
xor_digits_self zero zero p = refl
xor_digits_self zero (suc a) p = absurd (omega arith)
xor_digits_self (suc n) zero p = refl
xor_digits_self (suc n) (suc a) p =
    omega (arith, xor_digits_self n (suc a / 2) (omega arith), differ_self (suc a % 2))

or_digits_zero : (n a b : ℕ) → a ≤ n → digits (λ b. b) max n a b ≡ 0 → (a ≡ 0) × (b ≡ 0)
or_digits_zero zero zero b p h = (refl, h)
or_digits_zero zero (suc a) b p h = absurd (omega arith)
or_digits_zero (suc n) zero b p h = (refl, h)
or_digits_zero (suc n) (suc a) b p h =
    let halves = or_digits_zero n (suc a / 2) (b / 2) (omega arith) (omega (arith, h)) in
    absurd (omega (arith, halves.0, halves.1, h))

bit_xor_zero : (a b : ℕ) → bit_xor a b ≡ 0 → a ≡ b
bit_xor_zero a b h = xor_digits_zero a a b (omega arith) (sym (bit_xor-bitwise a b) ∙ h)

bit_xor_self : (a : ℕ) → bit_xor a a ≡ 0
bit_xor_self a = bit_xor-bitwise a a ∙ xor_digits_self a a (omega arith)

bit_or_zero : (a b : ℕ) → bit_or a b ≡ 0 → (a ≡ 0) × (b ≡ 0)
bit_or_zero a b h = or_digits_zero a a b (omega arith) (sym (bit_or-bitwise a b) ∙ h)

ct_loop_zero :
    (acc : ℕ) (xs ys : Bytes)
    → length xs ≡ length ys
    → ct_loop acc xs ys ≡ 0
    → (acc ≡ 0) × (xs ≡ ys)
unfolding ct_loop
ct_loop_zero acc [] [] e h = (h, refl)
ct_loop_zero acc [] (y ∷ ys) e h = absurd (omega arith)
ct_loop_zero acc (x ∷ xs) [] e h = absurd (omega arith)
ct_loop_zero acc (x ∷ xs) (y ∷ ys) e h =
    let (met, rest) = ct_loop_zero (bit_or acc (bit_xor x y)) xs ys (omega arith) h in
    let (acc_zero, same) = bit_or_zero acc (bit_xor x y) met in
    (acc_zero, rw (bit_xor_zero x y same, rest) refl)

ct_loop_self : (xs : Bytes) → ct_loop 0 xs xs ≡ 0
unfolding ct_loop
ct_loop_self [] = refl
ct_loop_self (x ∷ xs) = rw (bit_xor_self x) (ct_loop_self xs)

-- The comparison that looks at every byte before it answers says that two MACs are the same exactly
-- if they are: the exclusive ors of all pairs, put together with or, are 0 only if no pair differs.
pub ct_eq_iff : (a b : Bytes) → (ct_eq a b ≡ true) ↔ (a ≡ b)
unfolding ct_eq
ct_eq_iff a b = (found, λ e. rw e (all_same b))
  where
    found : ct_eq a b ≡ true → a ≡ b
    found h = elim (Bool-cases (length a == length b)) [
      | inr unequal ↦ absurd (cc (rw unequal at h))
      | inl equal ↦
          let met : ct_loop 0 a b ≡ 0 = (==_iff (ct_loop 0 a b) 0).0 (rw equal at h) in
          let (z, same) = ct_loop_zero 0 a b ((==_iff (length a) (length b)).0 equal) met in same
    ]

    all_same : (c : Bytes) → ct_eq c c ≡ true
    all_same c = rw ((==_iff (length c) (length c)).1 refl, ct_loop_self c) refl

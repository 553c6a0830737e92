-- ===== src/Prelude/Bytes/Digits.antt =====
-- Positional notation in a base: the digits of a number at a fixed width, most significant first,
-- and the number that a list of digits stands for.
use Prim.Native.Nat.{ℕ, zero, suc, ◌+◌, ◌-◌, ◌*◌, ◌/◌, ◌%◌, ◌^◌, ◌≤◌, ◌<◌}
use mathlib.Core.Path.{◌≡◌, refl, sym, ap, ◌∙◌}
use mathlib.Core.Logic.{◌≢◌}
use mathlib.Core.List.{List, [], ◌∷◌, ◌++◌}
use native.Mathlib.Omega.{arith}
use native.Mathlib.Nat.{pow-zero, pow-suc, div-add-mod', div-lt_iff_lt-mul, mod-lt}
use eth_utils.Prelude.Lists.{length, replicate, length-append, All, All-append}

module _ (base : ℕ) where
  -- The last `w` digits of `v`.
  unfoldable pub digits_be : ℕ → ℕ → List ℕ
  digits_be zero v = []
  digits_be (suc w) v = digits_be w (v / base) ++ ((v % base) ∷ [])

  unfoldable pub value_be : ℕ → List ℕ → ℕ
  value_be acc [] = acc
  value_be acc (d ∷ ds) = value_be (acc * base + d) ds

-- The digits behind the leading zeros.
unfoldable pub skip_zeros : List ℕ → List ℕ
skip_zeros [] = []
skip_zeros (zero ∷ ds) = skip_zeros ds
skip_zeros (suc d ∷ ds) = suc d ∷ ds

pub length-digits_be : (base w v : ℕ) → length (digits_be base w v) ≡ w
unfolding digits_be
length-digits_be base zero v = refl
length-digits_be base (suc w) v = omega (
  arith,
  length-append (digits_be base w (v / base)) ((v % base) ∷ []),
  length-digits_be base w (v / base),
)

pub All-digits_be : (base w v : ℕ) → 0 < base → All (λ d. d < base) (digits_be base w v)
unfolding digits_be
All-digits_be base zero v h = tt
All-digits_be base (suc w) v h =
    All-append (λ d. d < base) (digits_be base w (v / base)) ((v % base) ∷ [])
      (All-digits_be base w (v / base) h) (mod-lt v h, tt)

pub value_be-append :
    (base acc : ℕ) (xs ys : List ℕ)
    → value_be base acc (xs ++ ys) ≡ value_be base (value_be base acc xs) ys
unfolding value_be
value_be-append base acc [] ys = refl
value_be-append base acc (x ∷ xs) ys = value_be-append base (acc * base + x) xs ys

-- The fixed-width digits of a number that fits stand for it.
pub value_be-digits_be :
    (base w v : ℕ) → 0 < base → v < base ^ w → value_be base 0 (digits_be base w v) ≡ v
unfolding digits_be value_be
value_be-digits_be base zero v p h = omega (arith, pow-zero base)
value_be-digits_be base (suc w) v p h =
    rw
      (
        value_be-append,
        value_be-digits_be base w (v / base) p ((div-lt_iff_lt-mul p).1 (rw pow-suc at h)),
      )
      (div-add-mod' v base)

pub value_be-skip_zeros :
    (base : ℕ) (ds : List ℕ) → value_be base 0 (skip_zeros ds) ≡ value_be base 0 ds
unfolding skip_zeros value_be
value_be-skip_zeros base [] = refl
value_be-skip_zeros base (zero ∷ ds) =
    let here : 0 * base + 0 ≡ 0 = omega arith in rw here (value_be-skip_zeros base ds)
value_be-skip_zeros base (suc d ∷ ds) = refl

pub length-skip_zeros : (ds : List ℕ) → length (skip_zeros ds) ≤ length ds
unfolding skip_zeros
length-skip_zeros [] = omega arith
length-skip_zeros (zero ∷ ds) = omega (arith, length-skip_zeros ds)
length-skip_zeros (suc d ∷ ds) = omega arith

pub All-skip_zeros {ℓ} : (P : ℕ → Type ℓ) (ds : List ℕ) → All P ds → All P (skip_zeros ds)
unfolding skip_zeros
All-skip_zeros P [] h = tt
All-skip_zeros P (zero ∷ ds) (p, h) = All-skip_zeros P ds h
All-skip_zeros P (suc d ∷ ds) (p, h) = (p, h)

-- What `skip_zeros` leaves does not begin with a zero.
pub skip_zeros_head : (ds rest : List ℕ) → skip_zeros ds ≢ 0 ∷ rest
unfolding skip_zeros
skip_zeros_head [] rest = λ e. cc
skip_zeros_head (zero ∷ ds) rest = skip_zeros_head ds rest
skip_zeros_head (suc d ∷ ds) rest = λ e. ground arith

-- The zeros that were skipped are as many as the length says.
pub skip_zeros_pad :
    (ds : List ℕ) → replicate (length ds - length (skip_zeros ds)) 0 ++ skip_zeros ds ≡ ds
unfolding skip_zeros
skip_zeros_pad [] = refl
skip_zeros_pad (zero ∷ ds) =
    let more : length (zero ∷ ds) - length (skip_zeros ds)
        ≡ suc (length ds - length (skip_zeros ds)) =
      omega (arith, length-skip_zeros ds) in
    rw more (ap (λ t. 0 ∷ t) (skip_zeros_pad ds))
skip_zeros_pad (suc d ∷ ds) =
    let none_more : suc (length ds) - suc (length ds) ≡ 0 = omega arith in rw none_more

pub skip_zeros-injective :
    (xs ys : List ℕ) → length xs ≡ length ys → skip_zeros xs ≡ skip_zeros ys → xs ≡ ys
skip_zeros-injective xs ys h e = sym (skip_zeros_pad xs) ∙ (rw (h, e) (skip_zeros_pad ys))

-- ===== src/Prelude/Bytes/Format.antt =====
-- Texts of numbers: `{:x}`, `{}`, `from_str_radix(_, 16)` and `strip_prefix` of Rust's standard
-- library.
use Prim.Native.Nat.{ℕ, ◌+◌, ◌-◌, ◌*◌, ◌^◌, ◌≤◌, ◌<◌}
use mathlib.Core.Path.{◌≡◌, refl, ap, ◌∙◌}
use mathlib.Core.Bool.{◌&&◌, ◌||◌}
use mathlib.Core.Option.{Option, none, some}
use mathlib.Core.List.{List, [], ◌∷◌, map}
use mathlib.Core.Logic.{◌≢◌}
use native.Mathlib.Omega.{arith}
use eth_utils.Prelude.Tests.{ltb, lt→ltb, leb, ◌==◌, if◌then◌else◌}
use eth_utils.Prelude.Lists.{All}
use eth_utils.Prelude.Outcome.{and_then}
use eth_utils.Prelude.Bytes.Bits.{lower_digit}
use eth_utils.Prelude.Bytes.Digits.{
  digits_be, skip_zeros, value_be, value_be-digits_be, value_be-skip_zeros, All-digits_be,
  All-skip_zeros,
}

-- `s.strip_prefix(p)`
unfoldable pub strip_prefix : List ℕ → List ℕ → Option (List ℕ)
strip_prefix [] s = some s
strip_prefix (p ∷ ps) [] = none
strip_prefix (p ∷ ps) (c ∷ cs) = let rest = strip_prefix ps cs in if p == c then rest else none

shortest : List ℕ → List ℕ
shortest [] = 0 ∷ []
shortest (d ∷ ds) = d ∷ ds

-- The digits of a number without leading zeros, but for the single digit of 0.
unfoldable pub number_digits : ℕ → ℕ → ℕ → List ℕ
unfolding shortest
number_digits base w v = shortest (skip_zeros (digits_be base w v))

-- `{:x}` of a value below 2 ^ 128: at most 32 digits.
unfoldable pub lower_hex : ℕ → List ℕ
unfolding number_digits
lower_hex v = map lower_digit (number_digits 16 32 v)

-- `{}` of a value below 10 ^ 20, which every `u64` is.
unfoldable pub decimal : ℕ → List ℕ
unfolding number_digits
decimal v = map lower_digit (number_digits 10 20 v)

-- The value of a hexadecimal digit of either case.
unfoldable pub hex_digit : ℕ → Option ℕ
hex_digit c =
    if leb b'0' c && leb c b'9'
    then some (c - b'0')
    else if leb b'a' c && leb c b'f'
    then some (c - b'a' + 10)
    else if leb b'A' c && leb c b'F'
    then some (c - b'A' + 10)
    else none

-- The checked accumulation of `from_str_radix`: `none` for a character that is no digit, or for a
-- value that does not fit.
unfoldable pub radix_loop : ℕ → ℕ → List ℕ → Option ℕ
radix_loop limit acc [] = some acc
radix_loop limit acc (c ∷ cs) =
    let next = and_then (hex_digit c) (λ d.
      let rest = radix_loop limit (acc * 16 + d) cs in
      if ltb (acc * 16 + d) limit then rest else none) in
    next

-- `u64::from_str_radix(s, 16)` and `u128::from_str_radix(s, 16)`, with `limit` 2 ^ 64 or 2 ^ 128:
-- the empty text and a lone sign are refused, and one leading `+` is skipped.
unfoldable pub from_str_radix : ℕ → List ℕ → Option ℕ
from_str_radix limit [] = none
from_str_radix limit (c ∷ []) = if c == b'+' || c == b'-' then none else radix_loop limit 0 (c ∷ [])
from_str_radix limit (c ∷ d ∷ cs) =
    if c == b'+' then radix_loop limit 0 (d ∷ cs) else radix_loop limit 0 (c ∷ d ∷ cs)

hex_digit-lower_digit : (d : ℕ) → d < 16 → hex_digit (lower_digit d) ≡ some d
unfolding hex_digit lower_digit
hex_digit-lower_digit d h = ground arith

pub lower_digit_range : (d : ℕ) → d < 16 → (48 ≤ lower_digit d) × (lower_digit d ≤ 102)
unfolding lower_digit
lower_digit_range d h = ground arith

value_be-ge : (acc : ℕ) (ds : List ℕ) → acc ≤ value_be 16 acc ds
unfolding value_be
value_be-ge acc [] = omega arith
value_be-ge acc (d ∷ ds) = omega (arith, value_be-ge (acc * 16 + d) ds)

radix_loop-digits :
    (limit acc : ℕ) (ds : List ℕ)
    → All (λ d. d < 16) ds
    → value_be 16 acc ds < limit
    → radix_loop limit acc (map lower_digit ds) ≡ some (value_be 16 acc ds)
unfolding radix_loop value_be
radix_loop-digits limit acc [] h fits = refl
radix_loop-digits limit acc (d ∷ ds) (hd, h) fits =
    let small = lt→ltb (acc * 16 + d) limit (omega (arith, value_be-ge (acc * 16 + d) ds)) in
    rw (hex_digit-lower_digit d hd, small) (radix_loop-digits limit (acc * 16 + d) ds h fits)

value_be-shortest : (base : ℕ) (ds : List ℕ) → value_be base 0 (shortest ds) ≡ value_be base 0 ds
unfolding value_be shortest
value_be-shortest base [] = omega arith
value_be-shortest base (d ∷ ds) = refl

All-shortest :
    (base : ℕ) (ds : List ℕ) → 0 < base → All (λ d. d < base) ds → All (λ d. d < base) (shortest ds)
unfolding shortest
All-shortest base [] p h = (p, tt)
All-shortest base (d ∷ ds) p h = h

-- The written digits stand for the number, and each is a digit of the base.
value_be-number_digits :
    (base w v : ℕ) → 0 < base → v < base ^ w → value_be base 0 (number_digits base w v) ≡ v
unfolding number_digits
value_be-number_digits base w v p h =
    value_be-shortest base (skip_zeros (digits_be base w v))
    ∙ value_be-skip_zeros base (digits_be base w v)
    ∙ value_be-digits_be base w v p h

All-number_digits : (base w v : ℕ) → 0 < base → All (λ d. d < base) (number_digits base w v)
unfolding number_digits
All-number_digits base w v p =
    All-shortest base (skip_zeros (digits_be base w v)) p
      (All-skip_zeros (λ d. d < base) (digits_be base w v) (All-digits_be base w v p))

no_sign :
    (limit : ℕ) (ds : List ℕ)
    → All (λ d. d < 16) ds
    → ds ≢ []
    → from_str_radix limit (map lower_digit ds) ≡ radix_loop limit 0 (map lower_digit ds)
unfolding from_str_radix
no_sign limit [] h n = absurd (n refl)
no_sign limit (d ∷ []) (hd, h) n = ground (arith, lower_digit_range d)
no_sign limit (d ∷ e ∷ ds) (hd, h) n = ground (arith, lower_digit_range d)

shortest-ne-nil : (ds : List ℕ) → shortest ds ≢ []
unfolding shortest
shortest-ne-nil [] = λ e. cc
shortest-ne-nil (d ∷ ds) = λ e. cc

number_digits-ne-nil : (base w v : ℕ) → number_digits base w v ≢ []
unfolding number_digits
number_digits-ne-nil base w v = shortest-ne-nil (skip_zeros (digits_be base w v))

-- Reading back what `{:x}` wrote gives the number, where it fits the type that is read.
pub from_str_radix-lower_hex :
    (limit v : ℕ) → v < 2 ^ 128 → v < limit → from_str_radix limit (lower_hex v) ≡ some v
unfolding lower_hex
from_str_radix-lower_hex limit v h fits =
    let ds = number_digits 16 32 v in
    let digits = All-number_digits 16 32 v (omega arith) in
    let value = value_be-number_digits 16 32 v (omega arith) h in
    no_sign limit ds digits (number_digits-ne-nil 16 32 v)
    ∙ radix_loop-digits limit 0 ds digits (omega (arith, value))
    ∙ ap some value

-- ===== src/Hex/Reference.antt =====
-- A codec with the documented behaviour of the `hex` crate: the laws of `Hex` can hold.
use eth_utils.Prelude.{
  ℕ, ◌+◌, ◌*◌, ◌/◌, ◌%◌, ◌<◌, ◌≡◌, refl, sym, Option, none, some, [], ◌∷◌, Result, ok, err,
  ok-injective, err-ne-ok, length, All, arith,
}
use eth_utils.Prelude.Bytes.{Bytes, IsByte, lower_digit, hex_digit}
use eth_utils.Hex.{Hex}

abbrev encode_all : Bytes → Bytes
encode_all [] = []
encode_all (b ∷ bs) = lower_digit (b / 16) ∷ lower_digit (b % 16) ∷ encode_all bs

abbrev pair : Option ℕ → Option ℕ → Result (Unit {0}) Bytes → Result (Unit {0}) Bytes
pair (some hi) (some lo) (ok bs) = ok ((hi * 16 + lo) ∷ bs)
pair (some hi) (some lo) (err e) = err e
pair (some hi) none rest = err tt
pair none lo rest = err tt

abbrev decode_all : Bytes → Result (Unit {0}) Bytes
decode_all [] = ok []
decode_all (c ∷ []) = err tt
decode_all (c ∷ d ∷ rest) = let more = decode_all rest in pair (hex_digit c) (hex_digit d) more

hex_digit_small : (c d : ℕ) → hex_digit c ≡ some d → d < 16
unfolding hex_digit
hex_digit_small c d h = ground arith

hex_digit-lower_digit : (d : ℕ) → d < 16 → hex_digit (lower_digit d) ≡ some d
unfolding hex_digit lower_digit
hex_digit-lower_digit d h = ground arith

pub decode_all-encode_all : (bs : Bytes) → All IsByte bs → decode_all (encode_all bs) ≡ ok bs
decode_all-encode_all [] h = refl
decode_all-encode_all (b ∷ bs) (hb, h) =
    let whole : b / 16 * 16 + b % 16 ≡ b = omega arith in
    rw (
      hex_digit-lower_digit (b / 16) (omega arith),
      hex_digit-lower_digit (b % 16) (omega arith),
      decode_all-encode_all bs h,
      whole,
    )

pair_shape :
    (hi lo : Option ℕ) (rest : Result (Unit {0}) Bytes) (bs : Bytes)
    → pair hi lo rest ≡ ok bs
    → (h : ℕ) × (l : ℕ) × (more : Bytes) × (hi ≡ some h)
      × (lo ≡ some l)
      × (rest ≡ ok more)
      × (bs ≡ (h * 16 + l) ∷ more)
pair_shape (some hi) (some lo) (ok more) bs e =
    (hi, lo, more, refl, refl, refl, sym (ok-injective e))
pair_shape (some hi) (some lo) (err x) bs e = absurd (err-ne-ok e)
pair_shape (some hi) none rest bs e = absurd (err-ne-ok e)
pair_shape none lo rest bs e = absurd (err-ne-ok e)

pub decode_all_shape :
    (s bs : Bytes) → decode_all s ≡ ok bs → All IsByte bs × (length s ≡ 2 * length bs)
decode_all_shape [] bs e = rw (sym (ok-injective e)) (tt, omega arith)
decode_all_shape (c ∷ []) bs e = absurd (err-ne-ok e)
decode_all_shape (c ∷ d ∷ rest) bs e =
    let (h, l, more, eh, el, er, eb) =
      pair_shape (hex_digit c) (hex_digit d) (decode_all rest) bs e in
    let (bytes, size) = decode_all_shape rest more er in
    let hs = hex_digit_small c h eh in
    let ls = hex_digit_small d l el in rw eb ((omega arith, bytes), omega arith)

abbrev pub reference : Hex (Unit {0})
reference = record {
  encode = encode_all;
  decode = decode_all;
  encode_nil = refl;
  encode_cons = λ b bs. refl;
  decode_encode = decode_all-encode_all;
  decode_shape = decode_all_shape;
}

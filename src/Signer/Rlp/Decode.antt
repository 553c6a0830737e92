-- ===== src/Signer/Rlp/Decode.antt =====
-- A reader of RLP, written apart from the encoder, and what it reads back.
use mathlib.Core.List.{append_assoc}
use eth_utils.Prelude.{
  ℕ, zero, suc, ◌+◌, ◌-◌, ◌^◌, ◌≤◌, ◌<◌, ◌≡◌, refl, ◌∙◌, Option, none, some, List, [], ◌∷◌, ◌++◌,
  All, and_then, length, take, drop, length-append, take-append, drop-append, ltb, leb, le→leb,
  lt→leb_false, le→ltb_false, if◌then◌else◌, arith, Bool-cases, leb→le, inl, inr,
}
use eth_utils.Prelude.Bytes.{
  Bytes, value_be, digits_be, value_be-digits_be, value_be-skip_zeros, length-skip_zeros,
  length-digits_be,
}
use eth_utils.Signer.Rlp.{uint_be, header, is_single, encode_str}

-- The first `n` bytes and the others, if there are as many.
abbrev pub chunk : ℕ → Bytes → Option (Bytes × Bytes)
chunk n bs = if leb n (length bs) then some (take n bs, drop n bs) else none

-- The bytes that a header announces, and what follows them. A first byte up to `long` holds the
-- length itself, and a larger one the length of the length.
abbrev pub open_header : ℕ → ℕ → Bytes → Option (Bytes × Bytes)
open_header short long [] = none
open_header short long (c ∷ rest) =
    if leb c long
    then chunk (c - short) rest
    else and_then (chunk (c - long) rest) λ (digits, more). chunk (value_be 256 0 digits) more

-- A byte string and what follows it.
abbrev pub read_str : Bytes → Option (Bytes × Bytes)
read_str [] = none
read_str (c ∷ rest) = if ltb c 0x80 then some (c ∷ [], rest) else open_header 0x80 0xb7 (c ∷ rest)

abbrev pub read_list : Bytes → Option (Bytes × Bytes)
read_list bs = open_header 0xc0 0xf7 bs

pub value_be-uint_be : (v : ℕ) → v < 2 ^ 128 → value_be 256 0 (uint_be v) ≡ v
unfolding uint_be
value_be-uint_be v h =
    value_be-skip_zeros 256 (digits_be 256 16 v) ∙ value_be-digits_be 256 16 v (omega arith) h

pub length-uint_be : (v : ℕ) → length (uint_be v) ≤ 16
unfolding uint_be
length-uint_be v = omega (arith, length-skip_zeros (digits_be 256 16 v), length-digits_be 256 16 v)

some_digit : (v : ℕ) (ds : Bytes) → 0 < v → value_be 256 0 ds ≡ v → 0 < length ds
unfolding value_be
some_digit v [] p e = absurd (omega arith)
some_digit v (d ∷ ds) p e = omega arith

chunk-append : (n : ℕ) (xs ys : Bytes) → length xs ≡ n → chunk n (xs ++ ys) ≡ some (xs, ys)
chunk-append n xs ys h = rw (
  le→leb n (length (xs ++ ys)) (omega (arith, length-append xs ys)),
  take-append n xs ys h,
  drop-append n xs ys h,
)

open_long :
    (short long len : ℕ) (payload rest : Bytes)
    → length payload ≡ len
    → 0 < length (uint_be len)
    → len < 2 ^ 128
    → open_header short long ((long + length (uint_be len)) ∷ (uint_be len ++ (payload ++ rest)))
      ≡ some (payload, rest)
open_long short long len payload rest e p h =
    let n = length (uint_be len) in
    let digits : long + n - long ≡ n = omega arith in
    rw (
      lt→leb_false (long + n) long (omega arith),
      digits,
      chunk-append n (uint_be len) (payload ++ rest) refl,
      value_be-uint_be len h,
      chunk-append len payload rest e,
    )

open_short :
    (short long len : ℕ) (payload rest : Bytes)
    → length payload ≡ len
    → short + len ≤ long
    → open_header short long ((short + len) ∷ (payload ++ rest)) ≡ some (payload, rest)
open_short short long len payload rest e h =
    let size : short + len - short ≡ len = omega arith in
    rw (le→leb (short + len) long h, size, chunk-append len payload rest e)

-- Reading a header and its bytes gives the bytes and the rest.
pub open_header-header :
    (short long : ℕ) (payload rest : Bytes)
    → long ≡ short + 55
    → length payload < 2 ^ 64
    → open_header short long (header short long (length payload) ++ (payload ++ rest))
      ≡ some (payload, rest)
unfolding header
open_header-header short long payload rest e h =
    let len = length payload in
    elim (Bool-cases (leb len 55)) [
      | inl few ↦
          rw few (open_short short long len payload rest refl (omega (arith, leb→le len 55 few)))
      | inr many ↦ rw many (
          open_long short long len payload rest refl
            (some_digit len (uint_be len) (grind (arith, le→leb len 55))
              (value_be-uint_be len (omega arith)))
            (omega arith))
    ]

header_start :
    (short long len : ℕ)
    → short ≤ long
    → (c : ℕ) × (more : Bytes) × (header short long len ≡ c ∷ more) × (short ≤ c)
unfolding header
header_start short long len h = elim (Bool-cases (leb len 55)) [
  | inl few ↦ (short + len, [], rw few, omega arith)
  | inr many ↦ (long + length (uint_be len), uint_be len, rw many, omega arith)
]

read_header :
    (hd tail : Bytes) (c : ℕ) (more : Bytes)
    → hd ≡ c ∷ more
    → 0x80 ≤ c
    → read_str (hd ++ tail) ≡ open_header 0x80 0xb7 (hd ++ tail)
read_header hd tail c more e h = rw (e, le→ltb_false c 0x80 h)

read_long :
    (b rest : Bytes)
    → length b < 2 ^ 64
    → read_str (header 0x80 0xb7 (length b) ++ (b ++ rest)) ≡ some (b, rest)
read_long b rest h =
    let (c, more, e, le) = header_start 0x80 0xb7 (length b) (omega arith) in
    read_header (header 0x80 0xb7 (length b)) (b ++ rest) c more e le
    ∙ open_header-header 0x80 0xb7 b rest (omega arith) h

-- Reading an encoded string gives the string and what follows it.
pub read_str-encode_str :
    (b rest : Bytes) → length b < 2 ^ 64 → read_str (encode_str b ++ rest) ≡ some (b, rest)
unfolding encode_str is_single
read_str-encode_str [] rest h =
    rw (append_assoc (header 0x80 0xb7 (length {A = ℕ} [])) [] rest) (read_long [] rest h)
read_str-encode_str (b ∷ []) rest h = elim (Bool-cases (ltb b 0x80)) [
  | inl small ↦ rw small (rw small)
  | inr large ↦
      rw (large, append_assoc (header 0x80 0xb7 (length (b ∷ []))) (b ∷ []) rest)
        (read_long (b ∷ []) rest h)
]
read_str-encode_str (b ∷ c ∷ bs) rest h =
    rw (append_assoc (header 0x80 0xb7 (length (b ∷ c ∷ bs))) (b ∷ c ∷ bs) rest)
      (read_long (b ∷ c ∷ bs) rest h)

-- `n` byte strings and what follows them.
abbrev pub read_items : ℕ → Bytes → Option (List Bytes × Bytes)
read_items zero bs = some ([], bs)
read_items (suc n) bs =
    and_then (read_str bs)
      λ (item, more). and_then (read_items n more) λ (items, rest). some (item ∷ items, rest)

abbrev pub encode_items : List Bytes → Bytes
encode_items [] = []
encode_items (b ∷ bs) = encode_str b ++ encode_items bs

pub read_items-encode_items :
    (bs : List Bytes) (rest : Bytes)
    → All (λ b. length b < 2 ^ 64) bs
    → read_items (length bs) (encode_items bs ++ rest) ≡ some (bs, rest)
read_items-encode_items [] rest h = refl
read_items-encode_items (b ∷ bs) rest (hb, h) = rw (
  append_assoc (encode_str b) (encode_items bs) rest,
  read_str-encode_str b (encode_items bs ++ rest) hb,
  read_items-encode_items bs rest h,
)

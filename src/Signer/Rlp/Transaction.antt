-- ===== src/Signer/Rlp/Transaction.antt =====
-- A reader of EIP-1559 transactions, written apart from the encoder, and the two encodings read
-- back.
use mathlib.Core.List.{append_assoc, append-nil}
use eth_utils.Prelude.{
  ℕ, ◌^◌, ◌≤◌, ◌<◌, ◌≡◌, ◌≢◌, sym, Option, none, some, List, [], ◌∷◌, ◌++◌, All, and_then, length,
  length-append, leb, if◌then◌else◌, arith,
}
use eth_utils.Prelude.Bytes.{
  Bytes, IsByte, value_be, skip_zeros, length-skip_zeros, All-skip_zeros, digits_be, All-digits_be,
  value_be-skip_zeros, skip_zeros_head,
}
use eth_utils.Signer.Parse.{ParsedTx}
use eth_utils.Signer.Rlp.{
  header, uint_be, trim_leading_zeros, encode_str, encode_list, base_fields,
  eip1559_signing_payload, eip1559_envelope,
}
use eth_utils.Signer.Rlp.Decode.{
  read_list, read_items, encode_items, open_header-header, read_items-encode_items,
  value_be-uint_be, length-uint_be,
}

-- A transaction's eight fields, and the strings behind the access list.
pub record Transaction : Type 0 where
  pub parsed : ParsedTx
  pub nonce : ℕ
  pub gas : ℕ
  pub signature : List Bytes

abbrev nonempty : Bytes → List Bytes → Option (List Bytes)
nonempty [] items = some items
nonempty (b ∷ bs) items = none

-- The empty access list, and then `k` strings to the end.
abbrev read_tail : ℕ → Bytes → Option (List Bytes)
read_tail k bs = and_then (read_list bs) λ (access, rest).
    and_then (nonempty access [])
      λ _. and_then (read_items k rest) λ (items, end). nonempty end items

abbrev of_items : List Bytes → List Bytes → Option Transaction
of_items (chain ∷ nonce ∷ tip ∷ max_fee ∷ gas ∷ to ∷ value ∷ calldata ∷ []) signature =
    some (record {
      parsed = record {
        chain_id = value_be 256 0 chain;
        value = value_be 256 0 value;
        max_fee = value_be 256 0 max_fee;
        tip = value_be 256 0 tip;
        to = to;
        calldata = calldata;
      };
      nonce = value_be 256 0 nonce;
      gas = value_be 256 0 gas;
      signature = signature;
    })
of_items _ signature = none

-- The type byte 2, and one list of eight strings, the empty list, and `k` strings more.
abbrev pub read_transaction : ℕ → Bytes → Option Transaction
read_transaction k [] = none
read_transaction k (c ∷ bs) =
    and_then (if leb 2 c then (if leb c 2 then read_list bs else none) else none) λ (payload, end).
      and_then (nonempty end []) λ _.
        and_then (read_items 8 payload)
          λ (items, rest). and_then (read_tail k rest) λ signature. of_items items signature

-- The fields fit the source's types: integers of 64 and 128 bits, an address of 20 bytes, and
-- calldata of less than 2 ^ 63 bytes.
pub record IsEncodable (p : ParsedTx) (n g : ℕ) : Type 0 where
  pub chain_id : p.chain_id < 2 ^ 64
  pub nonce : n < 2 ^ 64
  pub gas : g < 2 ^ 64
  pub value : p.value < 2 ^ 128
  pub max_fee : p.max_fee < 2 ^ 128
  pub tip : p.tip < 2 ^ 128
  pub to : length p.to ≡ 20
  pub calldata : length p.calldata < 2 ^ 63

abbrev items_of : ParsedTx → ℕ → ℕ → List Bytes
items_of p nonce gas =
    uint_be p.chain_id
    ∷ uint_be nonce
    ∷ uint_be p.tip
    ∷ uint_be p.max_fee
    ∷ uint_be gas
    ∷ p.to
    ∷ uint_be p.value
    ∷ p.calldata
    ∷ []

base_fields_items :
    (p : ParsedTx) (nonce gas : ℕ) (more : Bytes)
    → base_fields p nonce gas ++ more
      ≡ encode_items (items_of p nonce gas) ++ (encode_list [] ++ more)
unfolding base_fields
base_fields_items p nonce gas more = simp append_assoc

fields_fit :
    (p : ParsedTx) (nonce gas : ℕ)
    → IsEncodable p nonce gas
    → All (λ b. length b < 2 ^ 64) (items_of p nonce gas)
fields_fit p nonce gas h =
    let small : (v : ℕ) → length (uint_be v) < 2 ^ 64 = λ v. omega (arith, length-uint_be v) in
    let to : length p.to < 2 ^ 64 = omega (arith, h.to) in
    let calldata : length p.calldata < 2 ^ 64 = omega (arith, h.calldata) in
    (
      small p.chain_id,
      (
        small nonce,
        (small p.tip, (small p.max_fee, (small gas, (to, (small p.value, (calldata, tt)))))),
      ),
    )

read_tail-encode_items :
    (items : List Bytes)
    → All (λ b. length b < 2 ^ 64) items
    → read_tail (length items) (encode_list [] ++ encode_items items) ≡ some items
unfolding encode_list
read_tail-encode_items items h = rw (
  append_assoc (header 0xc0 0xf7 0) [] (encode_items items),
  open_header-header 0xc0 0xf7 [] (encode_items items) (omega arith) (omega arith),
  sym (append-nil (encode_items items)),
  read_items-encode_items items [] h,
)

payload_le : (payload : Bytes) → length payload ≤ length (encode_list payload)
unfolding encode_list
payload_le payload = omega (arith, length-append (header 0xc0 0xf7 (length payload)) payload)

read_list-encode_list :
    (payload : Bytes)
    → length payload < 2 ^ 64
    → read_list (encode_list payload) ≡ some (payload, [])
unfolding encode_list
read_list-encode_list payload h =
    let whole = open_header-header 0xc0 0xf7 payload [] (omega arith) h in
    rw (append-nil payload) at whole

read_back :
    (p : ParsedTx) (nonce gas : ℕ) (items : List Bytes)
    → IsEncodable p nonce gas
    → All (λ b. length b < 2 ^ 64) items
    → length (base_fields p nonce gas ++ encode_items items) < 2 ^ 64
    → read_transaction
        (length items)
        (0x02 ∷ encode_list (base_fields p nonce gas ++ encode_items items))
      ≡ some (record { parsed = p; nonce = nonce; gas = gas; signature = items })
read_back p nonce gas items h fits size = rw (
  read_list-encode_list (base_fields p nonce gas ++ encode_items items) size,
  base_fields_items p nonce gas (encode_items items),
  read_items-encode_items (items_of p nonce gas) (encode_list [] ++ encode_items items)
      (fields_fit p nonce gas h),
  read_tail-encode_items items fits,
  value_be-uint_be p.chain_id (omega (arith, h.chain_id)),
  value_be-uint_be nonce (omega (arith, h.nonce)),
  value_be-uint_be p.tip h.tip,
  value_be-uint_be p.max_fee h.max_fee,
  value_be-uint_be gas (omega (arith, h.gas)),
  value_be-uint_be p.value h.value,
)

-- For fields that fit their types, with calldata below 2 ^ 63 bytes, and a signing payload below
-- 2 ^ 64 bytes, reading the signing payload gives the transaction back.
pub read_transaction-eip1559_signing_payload :
    (p : ParsedTx) (nonce gas : ℕ)
    → IsEncodable p nonce gas
    → length (eip1559_signing_payload p nonce gas) < 2 ^ 64
    → read_transaction 0 (eip1559_signing_payload p nonce gas)
      ≡ some (record { parsed = p; nonce = nonce; gas = gas; signature = [] })
unfolding eip1559_signing_payload
read_transaction-eip1559_signing_payload p nonce gas h size =
    let whole = append-nil (base_fields p nonce gas) in
    let back =
      read_back p nonce gas [] h tt
        (rw whole (omega (arith, payload_le (base_fields p nonce gas)))) in
    rw whole at back

-- The items of the signed envelope, as the encoder makes them.
pub read_envelope :
    (p : ParsedTx) (nonce gas y_parity : ℕ) (r s : Bytes)
    → IsEncodable p nonce gas
    → length r ≡ 32
    → length s ≡ 32
    → length (eip1559_envelope p nonce gas y_parity r s) < 2 ^ 64
    → read_transaction 3 (eip1559_envelope p nonce gas y_parity r s)
      ≡ some (record {
        parsed = p;
        nonce = nonce;
        gas = gas;
        signature = uint_be y_parity ∷ trim_leading_zeros r ∷ trim_leading_zeros s ∷ [];
      })
unfolding eip1559_envelope trim_leading_zeros
read_envelope p nonce gas y_parity r s h hr hs size =
    let items = uint_be y_parity ∷ skip_zeros r ∷ skip_zeros s ∷ [] in
    let last = append-nil (encode_str (skip_zeros s)) in
    let y_fits : length (uint_be y_parity) < 2 ^ 64 = omega (arith, length-uint_be y_parity) in
    let r_fits : length (skip_zeros r) < 2 ^ 64 = omega (arith, length-skip_zeros r) in
    let s_fits : length (skip_zeros s) < 2 ^ 64 = omega (arith, length-skip_zeros s) in
    let fields =
      base_fields p nonce gas
      ++ (encode_str (uint_be y_parity)
          ++ (encode_str (skip_zeros r) ++ encode_str (skip_zeros s))) in
    let back =
      read_back p nonce gas items h (y_fits, (r_fits, (s_fits, tt)))
        (rw last (omega (arith, payload_le fields))) in
    rw last at back

-- A string of bytes is the number `v` as RLP has it: big-endian, and without leading zeros.
pub record IsIntegerText (v : ℕ) (b : Bytes) : Type 0 where
  pub bytes : All IsByte b
  pub value : value_be 256 0 b ≡ v
  pub minimal : (rest : Bytes) → b ≢ 0 ∷ rest

uint_be-IsIntegerText : (v : ℕ) → v < 2 ^ 128 → IsIntegerText v (uint_be v)
uint_be-IsIntegerText v h = record {
  bytes =
      unfold uint_be in
      All-skip_zeros IsByte (digits_be 256 16 v) (All-digits_be 256 16 v (omega arith));
  value = value_be-uint_be v h;
  minimal = unfold uint_be in skip_zeros_head (digits_be 256 16 v);
}

trim_leading_zeros-IsIntegerText :
    (b : Bytes) → All IsByte b → IsIntegerText (value_be 256 0 b) (trim_leading_zeros b)
unfolding trim_leading_zeros
trim_leading_zeros-IsIntegerText b h = record {
  bytes = All-skip_zeros IsByte b h;
  value = value_be-skip_zeros 256 b;
  minimal = skip_zeros_head b;
}

-- For fields that fit their types, with calldata below 2 ^ 63 bytes, a parity of 8 bits, two scalars
-- of 32 bytes, and an envelope below 2 ^ 64 bytes: reading the signed envelope gives the transaction
-- back, and three strings that are the parity and the big-endian numbers of the two scalars, each
-- without leading zeros.
pub read_transaction-eip1559_envelope :
    (p : ParsedTx) (nonce gas y_parity : ℕ) (r s : Bytes)
    → IsEncodable p nonce gas
    → y_parity < 2 ^ 8
    → length r ≡ 32
    → length s ≡ 32
    → All IsByte r
    → All IsByte s
    → length (eip1559_envelope p nonce gas y_parity r s) < 2 ^ 64
    → (y_text : Bytes) × (r_text : Bytes) × (s_text : Bytes) × (read_transaction 3
          (eip1559_envelope p nonce gas y_parity r s)
        ≡ some (record {
          parsed = p;
          nonce = nonce;
          gas = gas;
          signature = y_text ∷ r_text ∷ s_text ∷ [];
        }))
      × IsIntegerText y_parity y_text
      × IsIntegerText (value_be 256 0 r) r_text
      × IsIntegerText (value_be 256 0 s) s_text
read_transaction-eip1559_envelope p nonce gas y_parity r s h small hr hs r_bytes s_bytes size = (
  uint_be y_parity,
  trim_leading_zeros r,
  trim_leading_zeros s,
  read_envelope p nonce gas y_parity r s h hr hs size,
  uint_be-IsIntegerText y_parity (omega arith),
  trim_leading_zeros-IsIntegerText r r_bytes,
  trim_leading_zeros-IsIntegerText s s_bytes,
)

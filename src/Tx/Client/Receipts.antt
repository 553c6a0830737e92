-- ===== src/Tx/Client/Receipts.antt =====
-- What the client posts, and what it reads of a receipt.
use eth_utils.Prelude.{
  ℕ, ◌^◌, ◌<◌, ◌≡◌, ◌↔◌, refl, ap, ◌∙◌, Option, none, some, [], ◌∷◌, ◌++◌, Result, ok, ◌>>=◌,
  err-ne-ok, Bool-cases, inl, inr, ==_iff, >>=-eq-ok, map_err-eq-ok, map_err, arith, ◌==◌,
}
use eth_utils.Prelude.Bytes.{Bytes, text, strip_prefix, lower_hex, from_str_radix-lower_hex}
use eth_utils.Hex.{Hex}
use eth_utils.Tx.Types.{RpcClientError}
use eth_utils.Tx.Client.{
  RawReceipt, call_failed, without_0x, parse_hex_u64, parse_hex_u128, hex_u64_or_zero,
  format_hex_u128, gas_price, read_receipt, transaction_receipt, some_hash, submit,
  send_raw_transaction,
}

-- The wire form of a receipt, with the quantities in hexadecimal.
abbrev pub price_text : Option ℕ → Bytes
price_text none = []
price_text (some p) = format_hex_u128 p

abbrev pub shown : Option ℕ → Option Bytes
shown none = none
shown (some p) = some (format_hex_u128 p)

abbrev pub FitsPrice : Option ℕ → Type 0
FitsPrice none = Unit {0}
FitsPrice (some p) = p < 2 ^ 128

without_0x-prefixed : (s : Bytes) → without_0x (text "0x" ++ s) ≡ s
unfolding without_0x strip_prefix
without_0x-prefixed s = refl

read_u64 : (method : Bytes) (v : ℕ) → v < 2 ^ 64 → hex_u64_or_zero method (format_hex_u128 v) ≡ ok v
unfolding format_hex_u128 hex_u64_or_zero parse_hex_u64
read_u64 method v h =
    rw (without_0x-prefixed (lower_hex v), from_str_radix-lower_hex (2 ^ 64) v (omega arith) h)

read_price :
    (method : Bytes) (p : Option ℕ) → FitsPrice p → gas_price method (price_text p) ≡ ok (shown p)
unfolding format_hex_u128 gas_price parse_hex_u128
read_price method none h = refl
read_price method (some v) h =
    rw (without_0x-prefixed (lower_hex v), from_str_radix-lower_hex (2 ^ 128) v h h)

-- A receipt whose three quantities, below 2 ^ 64, and whose gas price, below 2 ^ 128 where there is
-- one, the node writes as `0x` and lowercase digits is read as those quantities, with the price
-- kept as a text.
pub transaction_receipt-quantities :
    (call : Bytes → Result RpcClientError (Option RawReceipt)) (tx_hash hash block_hash : Bytes)
    (status block_number gas_used : ℕ) (price : Option ℕ)
    → status < 2 ^ 64
    → block_number < 2 ^ 64
    → gas_used < 2 ^ 64
    → FitsPrice price
    → call tx_hash
      ≡ ok (
          some (record {
            transaction_hash = hash;
            status = format_hex_u128 status;
            block_number = format_hex_u128 block_number;
            block_hash = block_hash;
            gas_used = format_hex_u128 gas_used;
            effective_gas_price = price_text price;
          }))
    → transaction_receipt call tx_hash
      ≡ ok (
          some (record {
            transaction_hash = hash;
            status = status;
            block_number = block_number;
            block_hash = block_hash;
            gas_used = gas_used;
            effective_gas_price = shown price;
          }))
unfolding transaction_receipt read_receipt
transaction_receipt-quantities call tx_hash hash block_hash status block_number gas_used price hs hb
      hg hp e =
    rw (
      e,
      read_u64 (text "eth_getTransactionReceipt") status hs,
      read_u64 (text "eth_getTransactionReceipt") block_number hb,
      read_u64 (text "eth_getTransactionReceipt") gas_used hg,
      read_price (text "eth_getTransactionReceipt") price hp,
    )

module _ {E : Type 0} (hex : Hex E) (call : Bytes → Result RpcClientError (Option Bytes)) where
  hash_sound : (o : Option Bytes) (h : Bytes) → some_hash hex call o ≡ ok h → o ≡ some h
  unfolding some_hash
  hash_sound none h e = absurd (err-ne-ok e)
  hash_sound (some x) h e = cc

  submit_sound :
      (bs h : Bytes)
      → submit hex call bs ≡ ok h
      → (rest : Bytes) × (bs ≡ 2 ∷ rest)
        × (map_err call_failed (call (text "0x" ++ hex.encode (2 ∷ rest))) >>= some_hash hex call
            ≡ ok h)
  unfolding submit
  submit_sound [] h e = absurd (err-ne-ok e)
  submit_sound (b ∷ bs) h e = elim (Bool-cases (b == 2)) [
    | inl tagged ↦
        let two = (==_iff b 2).0 tagged in
        let posted = rw tagged at e in (bs, ap (λ x. x ∷ bs) two, rw two at posted)
    | inr other ↦ absurd (err-ne-ok (rw other at e))
  ]

  -- A transaction is sent and the node's hash returned exactly if the text decodes to bytes with
  -- the tag of type 2 in front, and the node answers the post of exactly these bytes, in lowercase
  -- with the prefix `0x`, with that hash.
  pub send_raw_transaction_iff :
      (raw_rlp h : Bytes)
      → (send_raw_transaction hex call raw_rlp ≡ ok h) ↔ (
          (rest : Bytes) × (hex.decode (without_0x raw_rlp) ≡ ok (2 ∷ rest))
          × (call (text "0x" ++ hex.encode (2 ∷ rest)) ≡ ok (some h)))
  unfolding send_raw_transaction
  send_raw_transaction_iff raw_rlp h = (
    λ sent.
        let (bs, decoded, posted) = >>=-eq-ok _ _ sent in
        let (rest, tagged, answered) = submit_sound bs h posted in
        let (o, got, hash) = >>=-eq-ok _ _ answered in
        (
          rest,
          map_err-eq-ok _ _ decoded ∙ ap ok tagged,
          map_err-eq-ok _ _ got ∙ ap ok (hash_sound o h hash),
        ),
    λ (rest, decoded, answered). unfold submit some_hash in simp (decoded, answered),
  )

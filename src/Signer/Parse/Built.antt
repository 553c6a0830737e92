-- ===== src/Signer/Parse/Built.antt =====
-- What the signer decodes of a transaction that the builder wrote.
use eth_utils.Prelude.{
  ℕ, ◌+◌, ◌-◌, ◌*◌, ◌/◌, ◌%◌, ◌^◌, ◌<◌, ◌≡◌, ◌≢◌, refl, some, [], ◌∷◌, ◌++◌, ok, length, All, ◌==◌,
  ==_iff, le→ltb_false, arith, false,
}
use eth_utils.Prelude.Bytes.{
  Bytes, IsByte, text, strip_prefix, from_str_radix, lower_hex, hex_digit, lower_digit,
  from_str_radix-lower_hex,
}
use eth_utils.Hex.{Hex, length-encode}
use eth_utils.Tx.Types.{BuildConfig, Resolved}
use eth_utils.Tx.Builder.{value_32_eth_wei, deposit_contract_address_hex}
use eth_utils.Tx.Builder.Build.{unsigned_of}
use eth_utils.Signer.Errors.{SignerError}
use eth_utils.Signer.Parse.{
  strip_0x, parse_quantity, pad_odd, pairs_loop, push_pair, right_align, hex_to_address, ok_or,
  required_fee, decode_data, parse_unsigned_tx,
}

-- A digit and its value.
hex_digit-lower_digit : (d : ℕ) → d < 16 → hex_digit (lower_digit d) ≡ some d
unfolding hex_digit lower_digit
hex_digit-lower_digit d h = ground arith

strip_0x-prefixed : (s : Bytes) → strip_0x (text "0x" ++ s) ≡ s
unfolding strip_0x strip_prefix
strip_0x-prefixed s = refl

nonzero : (id : ℕ) → id ≢ 0 → (id == 0) ≡ false
nonzero id h = ground (arith, ==_iff id 0)

module _ {F : Type 0} (hex : Hex F) where
  -- The loop reads back the pairs that the crate writes.
  pairs_loop-encode : (bs : Bytes) → All IsByte bs → pairs_loop (hex.encode bs) ≡ bs
  unfolding pairs_loop push_pair
  pairs_loop-encode [] h = rw hex.encode_nil
  pairs_loop-encode (b ∷ bs) (hb, h) =
      let whole : b / 16 * 16 + b % 16 ≡ b = omega arith in
      rw (
        hex.encode_cons b bs,
        hex_digit-lower_digit (b / 16) (omega arith),
        hex_digit-lower_digit (b % 16) (omega arith),
        whole,
        pairs_loop-encode bs h,
      )

  pad_odd-encode : (bs : Bytes) → pad_odd (hex.encode bs) ≡ hex.encode bs
  unfolding pad_odd
  pad_odd-encode bs = ground (arith, length-encode hex bs)

  -- The address text of 20 bytes is read back.
  pub hex_to_address-encode :
      (addr : Bytes)
      → length addr ≡ 20
      → All IsByte addr
      → hex_to_address (text "0x" ++ hex.encode addr) ≡ addr
  unfolding hex_to_address strip_prefix right_align
  hex_to_address-encode addr n h =
      let full : 20 - length addr ≡ 0 = omega arith in
      rw (
        pad_odd-encode addr,
        pairs_loop-encode addr h,
        le→ltb_false 20 (length addr) (omega arith),
        full,
      )

  module _ {S : Type 0} where
    decode_data_any :
        (s bs : Bytes)
        → hex.decode s ≡ ok bs
        → length s ≡ 2 * length bs
        → decode_data {S = S} hex s ≡ ok bs
    unfolding decode_data
    decode_data_any [] [] e n = refl
    decode_data_any [] (b ∷ bs) e n = absurd (omega arith)
    decode_data_any (c ∷ cs) bs e n = rw e

    required_fee-some :
        (missing invalid : SignerError F S) (s : Bytes) (v : ℕ)
        → from_str_radix (2 ^ 128) s ≡ some v
        → required_fee hex missing invalid s ≡ ok v
    unfolding required_fee ok_or from_str_radix
    required_fee-some missing invalid [] v e = cc
    required_fee-some missing invalid (c ∷ []) v e = rw e
    required_fee-some missing invalid (c ∷ d ∷ cs) v e = rw e

    fee_text :
        (missing invalid : SignerError F S) (v : ℕ)
        → v < 2 ^ 128
        → required_fee hex missing invalid (strip_0x (text "0x" ++ lower_hex v)) ≡ ok v
    fee_text missing invalid v h = rw (strip_0x-prefixed (lower_hex v)) (
        required_fee-some missing invalid (lower_hex v) v
          (from_str_radix-lower_hex (2 ^ 128) v h h))

    value_text :
        (invalid : SignerError F S) (v : ℕ)
        → v < 2 ^ 128
        → ok_or hex invalid (parse_quantity (text "0x" ++ lower_hex v)) ≡ ok v
    unfolding ok_or parse_quantity
    value_text invalid v h =
        rw (strip_0x-prefixed (lower_hex v), from_str_radix-lower_hex (2 ^ 128) v h h)

    data_text :
        (bs : Bytes)
        → All IsByte bs
        → decode_data {S = S} hex (strip_0x (text "0x" ++ hex.encode bs)) ≡ ok bs
    data_text bs h =
        rw (strip_0x-prefixed (hex.encode bs))
          (decode_data_any (hex.encode bs) bs (hex.decode_encode bs h) (length-encode hex bs))

    -- The signer decodes what the builder wrote: of a transaction with a nonzero chain ID, a
    -- contract address of 20 bytes, calldata of bytes and fees below 2 ^ 128, the decoded fields
    -- are the network's chain ID and contract address, 32 * 10 ^ 18 wei, the two fees and the
    -- calldata.
    pub parse_unsigned_tx-unsigned_of :
        (cfg : BuildConfig) (calldata : Bytes) (r : Resolved)
        → cfg.network_params.chain_id ≢ 0
        → length cfg.network_params.deposit_contract_address ≡ 20
        → All IsByte cfg.network_params.deposit_contract_address
        → All IsByte calldata
        → r.max_fee < 2 ^ 128
        → r.tip < 2 ^ 128
        → parse_unsigned_tx {S = S} hex (unsigned_of hex cfg calldata r)
          ≡ ok (record {
            chain_id = cfg.network_params.chain_id;
            value = 32 * 10 ^ 18;
            max_fee = r.max_fee;
            tip = r.tip;
            to = cfg.network_params.deposit_contract_address;
            calldata = calldata;
          })
    unfolding parse_unsigned_tx deposit_contract_address_hex
    parse_unsigned_tx-unsigned_of cfg calldata r chain n addr bytes fee tip = rw (
      nonzero cfg.network_params.chain_id chain,
      value_text _ value_32_eth_wei (omega arith),
      fee_text _ _ r.max_fee fee,
      fee_text _ _ r.tip tip,
      data_text calldata bytes,
      hex_to_address-encode cfg.network_params.deposit_contract_address n addr,
    )

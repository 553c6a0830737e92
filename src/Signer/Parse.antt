-- ===== src/Signer/Parse.antt =====
-- The decoding of an unsigned transaction's hexadecimal fields
-- (crates/ethernal-signer/src/parse.rs).
pub mod Built
use eth_utils.Prelude.{
  ℕ, ◌+◌, ◌-◌, ◌*◌, ◌%◌, ◌^◌, Option, none, some, List, [], ◌∷◌, ◌++◌, Result, ok, err, ◌>>=◌,
  map_err, length, drop, replicate, ltb, ◌==◌, if◌then◌else◌,
}
use eth_utils.Prelude.Bytes.{Bytes, text, strip_prefix, from_str_radix, hex_digit}
use eth_utils.Hex.{Hex}
use eth_utils.Tx.Types.{UnsignedTx}
use eth_utils.Signer.Errors.{
  SignerError, context, invalid_chain_id, msg, invalid_value, invalid_max_fee,
  invalid_max_priority_fee, max_fee_required, max_priority_fee_required, invalid_data,
}

pub record ParsedTx : Type 0 where
  pub chain_id : ℕ
  pub value : ℕ
  pub max_fee : ℕ
  pub tip : ℕ
  pub to : Bytes
  pub calldata : Bytes

unfoldable pub unwrap_or : Bytes → Option Bytes → Bytes
unwrap_or s none = s
unwrap_or s (some rest) = rest

unfoldable pub strip_0x : Bytes → Bytes
unfolding unwrap_or
strip_0x s = unwrap_or s (strip_prefix (text "0x") s)

unfoldable pub parse_quantity : Bytes → Option ℕ
parse_quantity s = from_str_radix (2 ^ 128) (strip_0x s)

-- The prefix of either case.
unfoldable pub strip_0x_any_case : Bytes → Option Bytes → Bytes
unfolding unwrap_or
strip_0x_any_case s none = unwrap_or s (strip_prefix (text "0X") s)
strip_0x_any_case s (some rest) = rest

unfoldable pub pad_odd : Bytes → Bytes
pad_odd s = if length s % 2 == 1 then text "0" ++ s else s

-- A byte before what follows, if both characters are digits; else the loop ends.
unfoldable pub push_pair : Option ℕ → Option ℕ → Bytes → Bytes
push_pair none lo rest = []
push_pair (some hi) none rest = []
push_pair (some hi) (some lo) rest = (hi * 16 + lo) ∷ rest

unfoldable pub pairs_loop : Bytes → Bytes
unfolding push_pair
pairs_loop [] = []
pairs_loop (c ∷ []) = []
pairs_loop (c ∷ d ∷ rest) = let more = pairs_loop rest in push_pair (hex_digit c) (hex_digit d) more

-- The last 20 bytes, behind zeros where there are fewer.
unfoldable pub right_align : Bytes → Bytes
right_align bytes =
    let tail = if ltb 20 (length bytes) then drop (length bytes - 20) bytes else bytes in
    replicate (20 - length tail) 0 ++ tail

unfoldable pub hex_to_address : Bytes → Bytes
unfolding strip_0x_any_case pad_odd pairs_loop right_align
hex_to_address s =
    right_align (pairs_loop (pad_odd (strip_0x_any_case s (strip_prefix (text "0x") s))))

module _ {F S : Type 0} (hex : Hex F) where
  unfoldable pub ok_or : SignerError F S → Option ℕ → Result (SignerError F S) ℕ
  ok_or e none = err e
  ok_or e (some v) = ok v

  -- A fee that must be there.
  unfoldable pub required_fee :
      SignerError F S → SignerError F S → Bytes → Result (SignerError F S) ℕ
  unfolding ok_or
  required_fee missing invalid [] = err missing
  required_fee missing invalid (c ∷ cs) = ok_or invalid (from_str_radix (2 ^ 128) (c ∷ cs))

  unfoldable pub decode_data : Bytes → Result (SignerError F S) Bytes
  decode_data [] = ok []
  decode_data (c ∷ cs) = map_err (λ e. msg (invalid_data e)) (hex.decode (c ∷ cs))

  unfoldable pub parse_unsigned_tx : UnsignedTx → Result (SignerError F S) ParsedTx
  unfolding ok_or required_fee decode_data
  parse_unsigned_tx unsigned =
      if unsigned.chain_id == 0
      then err (context (text "ChainID must be non-zero") invalid_chain_id)
      else do
        value ← ok_or (msg (invalid_value unsigned.value)) (parse_quantity unsigned.value)
        max_fee ←
            required_fee (msg max_fee_required) (msg (invalid_max_fee unsigned.max_fee_per_gas))
              (strip_0x unsigned.max_fee_per_gas)
        tip ←
            required_fee (msg max_priority_fee_required)
              (msg (invalid_max_priority_fee unsigned.max_priority_fee_per_gas))
              (strip_0x unsigned.max_priority_fee_per_gas)
        calldata ← decode_data (strip_0x unsigned.calldata)
        ok (record {
          chain_id = unsigned.chain_id;
          value = value;
          max_fee = max_fee;
          tip = tip;
          to = hex_to_address unsigned.to;
          calldata = calldata;
        })

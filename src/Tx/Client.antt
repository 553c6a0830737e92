-- ===== src/Tx/Client.antt =====
-- The broadcast side of the JSON-RPC client (crates/ethernal-tx/src/rpc_client.rs). The node's
-- answer to a call is a parameter: `serde_json` has decoded it. A formatted message is a
-- constructor with the values that it shows.
pub mod Receipts
use eth_utils.Prelude.{
  ℕ, ◌^◌, Option, none, some, List, [], ◌∷◌, ◌++◌, Result, ok, err, ◌>>=◌, map_err, ◌==◌,
  if◌then◌else◌,
}
use eth_utils.Prelude.Bytes.{Bytes, text, strip_prefix, from_str_radix, lower_hex}
use eth_utils.Hex.{Hex}
use eth_utils.Tx.Types.{RpcClientError}

pub record Receipt : Type 0 where
  pub transaction_hash : Bytes
  pub status : ℕ
  pub block_number : ℕ
  pub block_hash : Bytes
  pub gas_used : ℕ
  pub effective_gas_price : Option Bytes

pub record RawReceipt : Type 0 where
  pub transaction_hash : Bytes
  pub status : Bytes
  pub block_number : Bytes
  pub block_hash : Bytes
  pub gas_used : Bytes
  pub effective_gas_price : Bytes

-- `failed` is an error of the call itself.
pub data ReceiptError : Type 0 where
  failed : RpcClientError → ReceiptError
  invalid_quantity : Bytes → Bytes → ReceiptError

pub data BroadcastError (E : Type 0) : Type 0 where
  invalid_raw_rlp : E → BroadcastError E
  not_type_2 no_transaction_hash : BroadcastError E
  call_failed : RpcClientError → BroadcastError E

-- `s.strip_prefix("0x").or_else(|| s.strip_prefix("0X")).unwrap_or(s)`
unfoldable pub first_of : Option Bytes → Option Bytes → Bytes → Bytes
first_of (some t) u s = t
first_of none (some u) s = u
first_of none none s = s

unfoldable pub without_0x : Bytes → Bytes
unfolding first_of
without_0x s = first_of (strip_prefix (text "0x") s) (strip_prefix (text "0X") s) s

unfoldable pub quantity : ReceiptError → Option ℕ → Result ReceiptError ℕ
quantity e none = err e
quantity e (some v) = ok v

unfoldable pub parse_hex_u64 : Bytes → Bytes → Result ReceiptError ℕ
unfolding quantity
parse_hex_u64 method s =
    quantity (invalid_quantity method s) (from_str_radix (2 ^ 64) (without_0x s))

unfoldable pub parse_hex_u128 : Bytes → Bytes → Result ReceiptError ℕ
unfolding quantity
parse_hex_u128 method s =
    quantity (invalid_quantity method s) (from_str_radix (2 ^ 128) (without_0x s))

unfoldable pub hex_u64_or_zero : Bytes → Bytes → Result ReceiptError ℕ
hex_u64_or_zero method [] = ok 0
hex_u64_or_zero method (c ∷ cs) = parse_hex_u64 method (c ∷ cs)

unfoldable pub format_hex_u128 : ℕ → Bytes
format_hex_u128 v = text "0x" ++ lower_hex v

unfoldable pub gas_price : Bytes → Bytes → Result ReceiptError (Option Bytes)
gas_price method [] = ok none
gas_price method (c ∷ cs) = parse_hex_u128 method (c ∷ cs) >>= λ v. ok (some (format_hex_u128 v))

unfoldable pub read_receipt : Option RawReceipt → Result ReceiptError (Option Receipt)
read_receipt none = ok none
read_receipt (some raw) = do
  status ← hex_u64_or_zero (text "eth_getTransactionReceipt") raw.status
  block_number ← hex_u64_or_zero (text "eth_getTransactionReceipt") raw.block_number
  gas_used ← hex_u64_or_zero (text "eth_getTransactionReceipt") raw.gas_used
  price ← gas_price (text "eth_getTransactionReceipt") raw.effective_gas_price
  ok (
      some (record {
        transaction_hash = raw.transaction_hash;
        status = status;
        block_number = block_number;
        block_hash = raw.block_hash;
        gas_used = gas_used;
        effective_gas_price = price;
      }))

-- The answer is `none` for a JSON null.
unfoldable pub transaction_receipt :
    (Bytes → Result RpcClientError (Option RawReceipt))
    → Bytes
    → Result ReceiptError (Option Receipt)
transaction_receipt call tx_hash = map_err failed (call tx_hash) >>= read_receipt

module _ {E : Type 0} (hex : Hex E) (call : Bytes → Result RpcClientError (Option Bytes)) where
  unfoldable pub some_hash : Option Bytes → Result (BroadcastError E) Bytes
  some_hash none = err no_transaction_hash
  some_hash (some hash) = ok hash

  -- The bytes are posted if the first one is the tag of type 2.
  unfoldable pub submit : Bytes → Result (BroadcastError E) Bytes
  unfolding some_hash
  submit [] = err not_type_2
  submit (b ∷ bs) =
      if b == 2
      then map_err call_failed (call (text "0x" ++ hex.encode (b ∷ bs))) >>= some_hash
      else err not_type_2

  unfoldable pub send_raw_transaction : Bytes → Result (BroadcastError E) Bytes
  unfolding submit
  send_raw_transaction raw_rlp =
      map_err invalid_raw_rlp (hex.decode (without_0x raw_rlp)) >>= submit

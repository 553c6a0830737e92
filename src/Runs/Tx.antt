-- ===== src/Runs/Tx.antt =====
-- The theorems on the crate ethernal-tx at concrete inputs.
use eth_utils.Prelude.{
  ◌*◌, ◌/◌, ◌<◌, ◌^◌, ◌≡◌, ◌↔◌, refl, Bool, false, none, some, ok, err, length, take, replicate,
  arith, ◌∷◌, Result, Option,
}
use eth_utils.Prelude.Bytes.{Bytes, text}
use eth_utils.Hex.Reference.{reference}
use eth_utils.Core.Network.{lookup, hoodi}
use eth_utils.Tx.Types.{RpcClientError, EthRpc, BuildConfig, Resolved}
use eth_utils.Tx.Abi.{pack_deposit, deposit_selector}
use eth_utils.Tx.Abi.Decode.{dynamic_argument, static_argument, pack_deposit-arguments}
use eth_utils.Tx.Validation.{validate}
use eth_utils.Tx.Validation.Exact.{IsDepositable, validate-IsDepositable_iff}
use eth_utils.Tx.Builder.{Check, resolve_rpc, resolve_gas_limit, resolve_fields, build_unsigned}
use eth_utils.Tx.Builder.Resolve.{Resolves, resolve_rpc_iff}
use eth_utils.Tx.Builder.Build.{
  unsigned_of, calldata_of, resolve_gas_limit_margin, build_unsigned_iff,
}
use eth_utils.Tx.Client.{RawReceipt, without_0x, format_hex_u128, send_raw_transaction}
use eth_utils.Tx.Client.Receipts.{send_raw_transaction_iff}
use eth_utils.Runs.Data.{key, signature, credentials, deposit, sized_deposit}

pack_deposit_example :
    (calldata : Bytes) × (pack_deposit key credentials signature (replicate 32 2) ≡ some calldata)
    × (length calldata ≡ 420)
    × (take 4 calldata ≡ deposit_selector)
    × (dynamic_argument 0 calldata ≡ key)
    × (dynamic_argument 1 calldata ≡ credentials)
    × (dynamic_argument 2 calldata ≡ signature)
    × (static_argument 3 calldata ≡ replicate 32 2)
pack_deposit_example =
    pack_deposit-arguments key credentials signature (replicate 32 2) refl refl refl refl

-- A node without a chain ID that estimates 60000 units of gas.
abbrev node : EthRpc
node = record {
  suggest_gas_tip_cap = ok 1_000_000_000;
  block_base_fee = ok 20_000_000_000;
  pending_nonce_at = λ from. ok 7;
  estimate_gas = λ call. ok 60_000;
  chain_id = err (record { method = text "eth_chainId"; detail = text "timeout" });
}

abbrev config : BuildConfig
config = record {
  network_params = lookup hoodi;
  rpc = some node;
  from = replicate 20 8;
  gas_limit = 0;
  max_fee_per_gas = none;
  max_priority_fee_per_gas = none;
  nonce = none;
}

abbrev fields : Resolved
fields = record { gas_limit = 72_000; max_fee = 41_000_000_000; tip = 1_000_000_000; nonce = 7 }

never : Check → Bool
never c = false

validate-IsDepositable_example : (validate deposit config ≡ ok tt) ↔ IsDepositable deposit config
validate-IsDepositable_example = validate-IsDepositable_iff deposit config refl

resolve_rpc_example :
    (resolve_rpc (λ c. false) config node (replicate 420 0) ≡ ok fields)
    ↔ Resolves config node (replicate 420 0) fields
resolve_rpc_example = resolve_rpc_iff (λ c. false) config node (λ c. refl) (replicate 420 0) fields

resolve_gas_limit_example :
    (resolve_gas_limit (λ c. false) config node (replicate 420 0) ≡ ok (60_000 * 6 / 5))
    ↔ (60_000 * 6 < 2 ^ 64)
resolve_gas_limit_example =
    resolve_gas_limit_margin (λ c. false) config node (replicate 420 0) 60_000 refl refl refl
      (omega arith)

build_unsigned_example :
    (build_unsigned reference (λ c. false) deposit config
      ≡ ok
          (unsigned_of reference config (calldata_of reference (λ c. false) deposit config) fields))
    ↔ ((false ≡ false)
        × IsDepositable deposit config
        × ((r : Resolved) × (resolve_fields
                (λ c. false)
                config
                (calldata_of reference (λ c. false) deposit config)
              ≡ ok r)
            × (unsigned_of reference config
                  (calldata_of reference (λ c. false) deposit config)
                  fields
                ≡ unsigned_of reference config
                    (calldata_of reference (λ c. false) deposit config)
                    r)))
build_unsigned_example =
    build_unsigned_iff reference (λ c. false) deposit config sized_deposit
      (unsigned_of reference config (calldata_of reference (λ c. false) deposit config) fields)

abbrev raw_receipt : RawReceipt
raw_receipt = record {
  transaction_hash = text "0xaa";
  status = format_hex_u128 1;
  block_number = format_hex_u128 1000;
  block_hash = text "0xbb";
  gas_used = format_hex_u128 60_000;
  effective_gas_price = format_hex_u128 21_000_000_000;
}

send_raw_transaction_example :
    (send_raw_transaction reference (λ raw. ok (some (text "0xaa"))) (text "0x02c0")
      ≡ ok (text "0xaa"))
    ↔ ((rest : Bytes) × (reference.decode (without_0x (text "0x02c0")) ≡ ok (2 ∷ rest))
        × (◌≡◌ {A = Result RpcClientError (Option Bytes)}
            (ok (some (text "0xaa")))
            (ok (some (text "0xaa")))))
send_raw_transaction_example =
    send_raw_transaction_iff reference (λ raw. ok (some (text "0xaa"))) (text "0x02c0")
      (text "0xaa")

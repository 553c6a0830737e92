-- ===== src/Tx/Builder.antt =====
-- The construction of the unsigned transaction (crates/ethernal-tx/src/builder.rs). The `hex`
-- crate is a parameter. The token is shared with a signal handler: what its `is_cancelled` returns
-- is a function of the place that asks, and each place asks at most once in a build. A `u128` and a
-- `u64` wrap around, as they do in a release build.
pub mod Resolve
pub mod Build
use eth_utils.Prelude.{
  ℕ, ◌+◌, ◌*◌, ◌/◌, ◌%◌, ◌^◌, Bool, ◌&&◌, not, Option, none, some, List, [], ◌∷◌, ◌++◌, Result, ok,
  err, ◌>>=◌, ◌>>◌, map_err, replicate, ◌==◌, if◌then◌else◌,
}
use eth_utils.Prelude.Bytes.{Bytes, text, bytes_eq, lower_hex}
use eth_utils.Hex.{Hex}
use eth_utils.Core.Network.{Params}
use eth_utils.Core.Deposit.{Entry}
use eth_utils.Tx.Types.{
  RpcClientError, TxError, chain_id_mismatch, missing_from_for_nonce, rpc_estimation, cancelled,
  panicked, CallMsg, EthRpc, BuildConfig, Resolved, UnsignedTx,
}
use eth_utils.Tx.Abi.{pack_deposit}
use eth_utils.Tx.Validation.{validate, validate_static_config}

abbrev pub value_32_eth_wei : ℕ
value_32_eth_wei = 32_000_000_000_000_000_000

-- The places that read the cancellation token.
pub data Check : Type 0 where
  at_start at_chain_id at_tip at_base_fee at_nonce at_gas : Check

-- A step of the build that fails if the token is set when it begins.
unfoldable pub unless_cancelled {ℓ} : {A : Type ℓ} → Bool → Result TxError A → Result TxError A
unless_cancelled c r = if c then err cancelled else r

-- The fields of a configuration that passed `validate_static_config`; `expect` would panic.
unfoldable pub expect {ℓ} : {A : Type ℓ} → Option A → Result TxError A
expect none = err panicked
expect (some a) = ok a

unfoldable pub resolve_static : BuildConfig → Result TxError Resolved
unfolding expect
resolve_static cfg = do
  validate_static_config cfg
  max_fee ← expect cfg.max_fee_per_gas
  tip ← expect cfg.max_priority_fee_per_gas
  nonce ← expect cfg.nonce
  ok (record { gas_limit = cfg.gas_limit; max_fee = max_fee; tip = tip; nonce = nonce })

module _ (cancel : Check → Bool) (cfg : BuildConfig) (rpc : EthRpc) where
  unfoldable pub check_chain_id : Result RpcClientError ℕ → Result TxError (Unit {0})
  check_chain_id (err e) = ok tt
  check_chain_id (ok id) =
      if not (id == 0) && not (id == cfg.network_params.chain_id)
      then err (chain_id_mismatch id cfg.network_params.chain_id)
      else ok tt

  unfoldable pub resolve_tip : Option ℕ → Result TxError ℕ
  unfolding unless_cancelled
  resolve_tip (some t) = ok t
  resolve_tip none =
      unless_cancelled (cancel at_tip)
        (map_err (rpc_estimation (text "SuggestGasTipCap")) rpc.suggest_gas_tip_cap)

  unfoldable pub resolve_max_fee : Option ℕ → ℕ → Result TxError ℕ
  unfolding unless_cancelled
  resolve_max_fee (some m) tip = ok m
  resolve_max_fee none tip = unless_cancelled (cancel at_base_fee) (
      map_err (rpc_estimation (text "BlockBaseFee")) rpc.block_base_fee >>= λ base_fee.
      ok ((2 * base_fee + tip) % 2 ^ 128))

  unfoldable pub resolve_nonce : Option ℕ → Result TxError ℕ
  unfolding unless_cancelled
  resolve_nonce (some n) = ok n
  resolve_nonce none =
      if bytes_eq cfg.from (replicate 20 0)
      then err missing_from_for_nonce
      else unless_cancelled (cancel at_nonce)
          (map_err (rpc_estimation (text "PendingNonceAt")) (rpc.pending_nonce_at cfg.from))

  unfoldable pub resolve_gas_limit : Bytes → Result TxError ℕ
  unfolding unless_cancelled
  resolve_gas_limit calldata =
      if cfg.gas_limit == 0
      then unless_cancelled (cancel at_gas) (
          map_err (rpc_estimation (text "EstimateGas")) (
            rpc.estimate_gas (record {
              from = cfg.from;
              to = cfg.network_params.deposit_contract_address;
              value = value_32_eth_wei;
              calldata = calldata;
            }))
          >>= λ estimate. ok (estimate * 6 % 2 ^ 64 / 5))
      else ok cfg.gas_limit

  unfoldable pub resolve_rpc : Bytes → Result TxError Resolved
  unfolding unless_cancelled
  resolve_rpc calldata = unless_cancelled (cancel at_chain_id) (do
    check_chain_id rpc.chain_id
    tip ← resolve_tip cfg.max_priority_fee_per_gas
    max_fee ← resolve_max_fee cfg.max_fee_per_gas tip
    nonce ← resolve_nonce cfg.nonce
    gas_limit ← resolve_gas_limit calldata
    ok (record { gas_limit = gas_limit; max_fee = max_fee; tip = tip; nonce = nonce }))

unfoldable pub resolve_with :
    (Check → Bool) → BuildConfig → Option EthRpc → Bytes → Result TxError Resolved
resolve_with cancel cfg none calldata = resolve_static cfg
resolve_with cancel cfg (some rpc) calldata = resolve_rpc cancel cfg rpc calldata

unfoldable pub resolve_fields : (Check → Bool) → BuildConfig → Bytes → Result TxError Resolved
unfolding resolve_with
resolve_fields cancel cfg calldata = resolve_with cancel cfg cfg.rpc calldata

module _ {E : Type 0} (hex : Hex E) where
  unfoldable pub deposit_contract_address_hex : Params → Bytes
  deposit_contract_address_hex p = text "0x" ++ hex.encode p.deposit_contract_address

  unfoldable pub build_unsigned : (Check → Bool) → Entry → BuildConfig → Result TxError UnsignedTx
  unfolding unless_cancelled expect
  build_unsigned cancel entry cfg = unless_cancelled (cancel at_start) (do
    validate entry cfg
    calldata ← expect (
        pack_deposit entry.pubkey entry.withdrawal_credentials entry.signature
          entry.deposit_data_root)
    resolved ← resolve_fields cancel cfg calldata
    ok (record {
      chain_id = cfg.network_params.chain_id;
      to = deposit_contract_address_hex cfg.network_params;
      from = [];
      value = text "0x" ++ lower_hex value_32_eth_wei;
      calldata = text "0x" ++ hex.encode calldata;
      gas = resolved.gas_limit;
      max_fee_per_gas = text "0x" ++ lower_hex resolved.max_fee;
      max_priority_fee_per_gas = text "0x" ++ lower_hex resolved.tip;
      nonce = resolved.nonce;
      tx_type = text "0x2";
    }))

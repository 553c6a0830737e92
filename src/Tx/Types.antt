-- ===== src/Tx/Types.antt =====
-- The records, the RPC trait and the errors of the transaction builder
-- (crates/ethernal-tx/src/types.rs, errors.rs, and the head of builder.rs and rpc_client.rs).
use eth_utils.Prelude.{ℕ, Option, Result}
use eth_utils.Prelude.Bytes.{Bytes}
use eth_utils.Core.Network.{Params}

pub record RpcClientError : Type 0 where
  pub method : Bytes
  pub detail : Bytes

-- A boxed error source is the error itself, or its text.
pub data TxError : Type 0 where
  invalid_amount invalid_wc_prefix invalid_wc_format : ℕ → TxError
  zero_pubkey zero_signature zero_deposit_root unconfigured_chain_id : TxError
  missing_fee_static missing_priority_fee_static missing_nonce_static : TxError
  missing_gas_limit_static missing_from_for_nonce : TxError
  chain_id_mismatch : ℕ → ℕ → TxError
  rpc_estimation : Bytes → RpcClientError → TxError
  rpc_dial : Bytes → Bytes → TxError
  broadcast_failed : Bytes → TxError
  broadcast_chain_id_mismatch : ℕ → ℕ → TxError
  cancelled : TxError
  -- No value of the source: it stands for a panic.
  panicked : TxError

pub record CallMsg : Type 0 where
  pub from : Bytes
  pub to : Bytes
  pub value : ℕ
  pub calldata : Bytes

-- What the node answers to each call. A build makes each call at most once.
pub record EthRpc : Type 0 where
  pub suggest_gas_tip_cap : Result RpcClientError ℕ
  pub block_base_fee : Result RpcClientError ℕ
  pub pending_nonce_at : Bytes → Result RpcClientError ℕ
  pub estimate_gas : CallMsg → Result RpcClientError ℕ
  pub chain_id : Result RpcClientError ℕ

pub record BuildConfig : Type 0 where
  pub network_params : Params
  pub rpc : Option EthRpc
  pub from : Bytes
  pub gas_limit : ℕ
  pub max_fee_per_gas : Option ℕ
  pub max_priority_fee_per_gas : Option ℕ
  pub nonce : Option ℕ

pub record Resolved : Type 0 where
  pub gas_limit : ℕ
  pub max_fee : ℕ
  pub tip : ℕ
  pub nonce : ℕ

pub record UnsignedTx : Type 0 where
  pub chain_id : ℕ
  pub to : Bytes
  pub from : Bytes
  pub value : Bytes
  pub calldata : Bytes
  pub gas : ℕ
  pub max_fee_per_gas : Bytes
  pub max_priority_fee_per_gas : Bytes
  pub nonce : ℕ
  pub tx_type : Bytes

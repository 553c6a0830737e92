-- ===== src/Tx/Validation.antt =====
-- The checks before a transaction is built (crates/ethernal-tx/src/validation.rs).
pub mod Exact
use eth_utils.Prelude.{
  ℕ, zero, suc, ◌==◌, ◌||◌, Option, none, some, List, [], ◌∷◌, Result, ok, err, replicate, take,
  drop, get_elem?, slice, if◌then◌else◌,
}
use eth_utils.Prelude.Bytes.{Bytes, bytes_eq}
use eth_utils.Core.Deposit.{Entry}
use eth_utils.Tx.Types.{
  TxError, invalid_amount, invalid_wc_prefix, invalid_wc_format, zero_pubkey, zero_signature,
  zero_deposit_root, unconfigured_chain_id, missing_fee_static, missing_priority_fee_static,
  missing_nonce_static, missing_gas_limit_static, panicked, BuildConfig,
}

-- `for &b in &wc[1..=11]`, over the bytes that are left.
unfoldable pub zeros_loop : ℕ → List ℕ → Result TxError (Unit {0})
zeros_loop prefix [] = ok tt
zeros_loop prefix (zero ∷ bs) = zeros_loop prefix bs
zeros_loop prefix (suc b ∷ bs) = err (invalid_wc_format prefix)

unfoldable pub zeros_slice : ℕ → Option (List ℕ) → Result TxError (Unit {0})
zeros_slice prefix none = err panicked
zeros_slice prefix (some bs) = zeros_loop prefix bs

-- The `match` on `wc[0]`; an empty array is a panic.
unfoldable pub check_credentials : Bytes → Result TxError (Unit {0})
check_credentials [] = err panicked
check_credentials (zero ∷ rest) = ok tt
check_credentials (suc zero ∷ rest) = zeros_slice 0x01 (slice 1 12 (0x01 ∷ rest))
check_credentials (suc (suc zero) ∷ rest) = zeros_slice 0x02 (slice 1 12 (0x02 ∷ rest))
check_credentials (prefix ∷ rest) = err (invalid_wc_prefix prefix)

unfoldable pub validate : Entry → BuildConfig → Result TxError (Unit {0})
validate entry cfg =
    if cfg.network_params.chain_id == 0
    then err unconfigured_chain_id
    else if entry.amount == 32_000_000_000
    then (if bytes_eq entry.pubkey (replicate 48 0)
        then err zero_pubkey
        else if bytes_eq entry.signature (replicate 96 0)
        then err zero_signature
        else if bytes_eq entry.deposit_data_root (replicate 32 0)
        then err zero_deposit_root
        else check_credentials entry.withdrawal_credentials)
    else err (invalid_amount entry.amount)

required_gas : ℕ → Result TxError (Unit {0})
required_gas gas_limit = if gas_limit == 0 then err missing_gas_limit_static else ok tt

required_nonce : Option ℕ → ℕ → Result TxError (Unit {0})
unfolding required_gas
required_nonce none gas_limit = err missing_nonce_static
required_nonce (some n) gas_limit = required_gas gas_limit

required_tip : Option ℕ → Option ℕ → ℕ → Result TxError (Unit {0})
unfolding required_nonce
required_tip none n gas_limit = err missing_priority_fee_static
required_tip (some t) n gas_limit = required_nonce n gas_limit

required_fee : Option ℕ → Option ℕ → Option ℕ → ℕ → Result TxError (Unit {0})
unfolding required_tip
required_fee none tip n gas_limit = err missing_fee_static
required_fee (some f) tip n gas_limit = required_tip tip n gas_limit

-- The four checks of `is_none()` and of the gas limit, in their order.
unfoldable pub validate_static_config : BuildConfig → Result TxError (Unit {0})
unfolding required_fee
validate_static_config cfg =
    required_fee cfg.max_fee_per_gas cfg.max_priority_fee_per_gas cfg.nonce cfg.gas_limit

-- ===== src/Core/Deposit.antt =====
-- Deposit generation and the read side of the deposit data files
-- (crates/ethernal-core/src/deposit.rs), with the signer and verifier traits of bls.rs and the
-- cancellation token of cancel.rs. `E` is the error type of the `hex` crate. The token is shared
-- with a signal handler: what its `is_cancelled` returns is a function of the round that asks.
mod Errors
mod Types
pub mod Generate
pub mod Json
pub mod Validate
pub use Errors.{
  BlsError, bad_secret_length, bad_secret, bad_pubkey, bad_signature, DepositError, pubkey_mismatch,
  self_verify_failed, network_mismatch, cancelled, bls, invalid_hex, bad_length, unmarshal_entry,
  unmarshal_entries, entry_at, validation, panicked,
}
pub use Types.{Signer, Verifier, Request, Entry, IsSizedEntry}

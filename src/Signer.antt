-- ===== src/Signer.antt =====
-- The signer crate's transaction encoding and decoding (crates/ethernal-signer/src).
pub mod Errors
pub mod Parse
pub mod Rlp
pub mod Signed
pub mod Local
pub mod Ledger

-- ===== src/Tx.antt =====
-- The crate `ethernal-tx` (crates/ethernal-tx).
pub mod Types
pub mod Abi
pub mod Validation
pub mod Builder
pub mod Client

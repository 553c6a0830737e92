-- ===== src/Core.antt =====
-- The crate `ethernal-core` (crates/ethernal-core).
pub mod Network
pub mod Ssz
pub mod Deposit
pub mod Disk
pub mod Output

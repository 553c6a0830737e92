-- ===== src/Keystore.antt =====
-- The keystores of validators and accounts (crates/ethernal-keystore).
pub mod Errors
pub mod Crypto
pub mod Json
pub mod Encrypt
pub mod Loader
pub mod RoundTrip
pub mod Web3
pub mod Passphrase
pub mod Scan

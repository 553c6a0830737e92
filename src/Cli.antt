-- ===== src/Cli.antt =====
-- The command-line program (bins/ethernal).
pub mod Errors
pub mod Send
pub mod Gen

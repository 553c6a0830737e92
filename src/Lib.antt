-- ===== src/Lib.antt =====
-- The deposit tool `ethernal`: the parts of it that make a validator deposit, sign it and send it.
--
-- The program generates deposits (crates/ethernal-core: deposit.rs with ssz.rs, network.rs and the
-- JSON of output.rs), builds the transaction that calls the deposit contract (crates/ethernal-tx),
-- and signs that transaction (crates/ethernal-signer); the command `send` (bins/ethernal) broadcasts
-- it. The keys come out of keystores (crates/ethernal-keystore), and the command `gen` collects the
-- entries that its worker threads make. An entry goes from `Generator::generate` through
-- `marshal_entries` and `entries_from_json` into `Builder::build_unsigned`, whose `UnsignedTx` the
-- signer parses with `parse_unsigned_tx` and encodes with `eip1559_signing_payload` and `eip1559_envelope`.
--
-- - Core.Network: network.rs, the table of networks and its lookups.
-- - Core.Ssz: ssz.rs, the in-place Merkle loops and the roots of the four containers; Merkle, Roots
--   and Binding hold the recursive tree, the specification's roots and what a root binds.
-- - Core.Deposit: deposit.rs. Generate is the batch loop, Json the read side, Validate the checks.
-- - Core.Output: the write side of output.rs. Files are the writers, on the file system of Core.Disk;
--   its children are the stages of a write and what a whole write does to the files.
-- - Tx: Abi is abi.rs, Validation is validation.rs, Builder is builder.rs, Client is the
--   broadcast side of rpc_client.rs; Types has the records.
-- - Signer: Rlp is rlp.rs, Parse is parse.rs, Errors is errors.rs, Local is local.rs, Ledger is
--   ledger.rs; Signed is what the two signers share, with SignedTx of types.rs and the address check
--   of lib.rs.
-- - SecretFile: crates/ethernal-secretfile, the reader of passphrase and key files; Reads is its
--   loop, Lines the rule for a line.
-- - Keystore: crates/ethernal-keystore. Crypto is crypto.rs, Encrypt is encrypt.rs, Loader is
--   keystore.rs, Json has the structures of both; Web3 is encrypt_v3.rs and decrypt_v3.rs, Passphrase
--   is passphrase.rs, Scan is scandir.rs. A step that may panic or fail gives a `Stop`.
-- - Cli: Gen is bins/ethernal/src/gen_cmd.rs, the checks, the work for a key and the collected
--   results; Errors is bins/ethernal/src/errors.rs, Send is bins/ethernal/src/send_cmd.rs.
-- - Hex: the interface of the `hex` crate, and a codec that meets it.
-- - Prelude: lists, bytes, digits, texts of numbers, results.
-- - Runs: the theorems at concrete inputs.
--
-- A byte string is a list of numbers; that they are bytes, and how many, is a hypothesis where the
-- source's types say so. The loops over a `usize` that doubles or halves have fuel for 65 rounds,
-- and sizes up to 2 ^ 63 are shown to end within it. A vector of more than `isize::MAX` bytes is a
-- panic, and a smaller one is taken to fit into memory. Where the source indexes or copies a slice
-- the model returns an option, and `none` (or an error `panicked`) is a panic. Machine integers
-- wrap around as in a release build. The loop for the receipt has fuel for the rounds that the
-- timeout allows, given that a sleep takes its interval. The attempts for a temporary file are the
-- 10,000 of the source.
--
-- The files are a function of the path, and a disk says which system calls fail; the umask is taken
-- to clear no bit of the mode 0600. A device is what it answers, and an operation
-- returns the calls that it made on it.
--
-- Parameters: SHA-256, Keccak-256 and secp256k1; the `hex` crate and `serde_json`, with their
-- documented round trips; the BLS signer and verifier; the key derivations, the cipher and the
-- normalization of passphrases; the node's answers; the answers of the disk and of the device; the
-- names of temporary files; the clock; `str::trim`, `str::to_lowercase` and the test for UTF-8; and the
-- cancellation token, a function of the place that asks.
--
-- Not modelled: the cryptography; mnemonics and key derivation; zeroizing; the HTTP and the HID
-- transport; the commands but for the error codes, the broadcast and the results of
-- `gen`, and their arguments.
pub mod Prelude
pub mod Hex
pub mod Core
pub mod Tx
pub mod Signer
pub mod SecretFile
pub mod Keystore
pub mod Cli
pub mod Runs

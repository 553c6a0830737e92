-- ===== src/Cli/Errors.antt =====
-- The error type of the commands and its exit codes (bins/ethernal/src/errors.rs). `F` is
-- `FromHexError`, `S` is `SecretFileError`, and an I/O error is its text.
pub mod Codes
use eth_utils.Prelude.{ℕ}
use eth_utils.Prelude.Bytes.{Bytes}
use eth_utils.Keystore.Errors.{KeystoreError, wrong_passphrase, encrypt_failed}
use eth_utils.Core.Network.{NetworkError}
use eth_utils.Core.Deposit
use eth_utils.Core.Deposit.{DepositError, BlsError}
use eth_utils.Core.Output.Files.{OutputError}
use eth_utils.Tx.Types
use eth_utils.Tx.Types.{TxError}
use eth_utils.Signer.Errors
use eth_utils.Signer.Errors.{SignerError, sentinel}

-- crates/ethernal-core/src/bip39.rs
pub data Bip39Error : Type 0 where
  unknown_word word_count : ℕ → Bip39Error
  checksum passphrase_not_utf8 : Bip39Error

-- crates/ethernal-core/src/hd.rs and hd_secp256k1.rs
pub data HdError : Type 0 where
  master : Bytes → HdError

pub data Bip32Error : Type 0 where
  master_32 : Bytes → Bip32Error
  invalid_child_key : ℕ → Bip32Error

pub data AppError (F S : Type 0) : Type 0 where
  exit : Bytes → ℕ → AppError F S
  input context : Bytes → AppError F S → AppError F S
  aborted bls_init deposit_cli_failed internal : Bytes → AppError F S
  bip39 : Bip39Error → AppError F S
  hd : HdError → AppError F S
  bip32 : Bip32Error → AppError F S
  keystore : KeystoreError F S → AppError F S
  deposit : DepositError F → AppError F S
  network : NetworkError → AppError F S
  output : OutputError → AppError F S
  tx : TxError → AppError F S
  signer : SignerError F S → AppError F S
  bls : BlsError → AppError F S
  keystore_not_found_for deposit_cli_not_found : Bytes → Bytes → AppError F S
  mainnet_ack_required : AppError F S
  key_verify_failed : Bytes → ℕ → Bytes → Bytes → AppError F S

unfoldable pub keystore_code : {F S : Type 0} → KeystoreError F S → ℕ
keystore_code (wrong_passphrase e) = 3
keystore_code (encrypt_failed e) = 3
keystore_code _ = 2

unfoldable pub deposit_code : {F : Type 0} → DepositError F → ℕ
deposit_code Deposit.cancelled = 4
deposit_code (Deposit.pubkey_mismatch i pk) = 2
deposit_code (Deposit.self_verify_failed i pk) = 3
deposit_code _ = 1

unfoldable pub tx_code : TxError → ℕ
tx_code Types.cancelled = 4
tx_code (Types.chain_id_mismatch rpc configured) = 2
tx_code Types.missing_from_for_nonce = 2
tx_code (Types.rpc_dial url e) = 5
tx_code (Types.rpc_estimation call e) = 5
tx_code (Types.broadcast_failed e) = 5
tx_code (Types.broadcast_chain_id_mismatch signed rpc) = 5
tx_code _ = 1

-- On the innermost error of a chain of contexts.
unfoldable pub sentinel_code : {F S : Type 0} → SignerError F S → ℕ
sentinel_code Errors.user_rejected = 4
sentinel_code Errors.cancelled = 4
sentinel_code (Errors.key_file e) = 2
sentinel_code Errors.signer_closed = 3
sentinel_code Errors.no_device = 3
sentinel_code Errors.app_not_open = 3
sentinel_code Errors.invalid_key = 3
sentinel_code Errors.invalid_chain_id = 3
sentinel_code Errors.chain_id_mismatch = 3
sentinel_code Errors.ledger_not_supported = 3
sentinel_code _ = 1

module _ {F S : Type 0} where
  unfoldable pub exit2 : Bytes → AppError F S
  exit2 m = exit m 2

  unfoldable pub unwrap_context : AppError F S → AppError F S
  unwrap_context (context m source) = unwrap_context source
  unwrap_context (exit m code) = exit m code
  unwrap_context (input what source) = input what source
  unwrap_context (aborted e) = aborted e
  unwrap_context (bls_init e) = bls_init e
  unwrap_context (deposit_cli_failed e) = deposit_cli_failed e
  unwrap_context (internal e) = internal e
  unwrap_context (bip39 e) = bip39 e
  unwrap_context (hd e) = hd e
  unwrap_context (bip32 e) = bip32 e
  unwrap_context (keystore e) = keystore e
  unwrap_context (deposit e) = deposit e
  unwrap_context (network e) = network e
  unwrap_context (output e) = output e
  unwrap_context (tx e) = tx e
  unwrap_context (signer e) = signer e
  unwrap_context (bls e) = bls e
  unwrap_context (keystore_not_found_for pk dir) = keystore_not_found_for pk dir
  unwrap_context (deposit_cli_not_found cli e) = deposit_cli_not_found cli e
  unwrap_context mainnet_ack_required = mainnet_ack_required
  unwrap_context (key_verify_failed check i path e) = key_verify_failed check i path e

  unfoldable pub code_of : AppError F S → ℕ
  unfolding keystore_code deposit_code tx_code sentinel_code sentinel
  code_of (aborted e) = 4
  code_of (deposit e) = deposit_code e
  code_of (tx e) = tx_code e
  code_of (exit m code) = code
  code_of (input what source) = 2
  code_of (bip39 e) = 2
  code_of (keystore e) = keystore_code e
  code_of (keystore_not_found_for pk dir) = 2
  code_of mainnet_ack_required = 2
  code_of (deposit_cli_not_found cli e) = 2
  code_of (network e) = 2
  code_of (hd e) = 3
  code_of (bip32 e) = 3
  code_of (key_verify_failed check i path e) = 3
  code_of (bls_init e) = 3
  code_of (deposit_cli_failed e) = 3
  code_of (signer e) = sentinel_code (sentinel e)
  code_of (output e) = 1
  code_of (bls e) = 1
  code_of (internal e) = 1
  code_of (context m source) = 1

  unfoldable pub exit_code_for : AppError F S → ℕ
  exit_code_for e = code_of (unwrap_context e)

-- ===== src/Cli/Gen/Worker.antt =====
-- What a worker thread does for one public key (`process_pubkey` of bins/ethernal/src/gen_cmd.rs):
-- the keystore is looked up, loaded, and its key signs the deposit.
pub mod Processed
pub mod Deposit
use eth_utils.Prelude.{
  ℕ, ◌^◌, Bool, true, false, Option, none, some, List, [], ◌∷◌, Result, ok, err, ◌>>=◌, map_err,
}
use eth_utils.Prelude.Bytes.{Bytes, text}
use eth_utils.Hex.{Hex}
use eth_utils.Core.Disk.{IoKind}
use eth_utils.Core.Network.{Network, Params}
use eth_utils.Core.Deposit.{BlsError, Signer, Verifier, Request, Entry}
use eth_utils.Core.Deposit.Generate.{Generator, new, generate}
use eth_utils.Keystore.Errors.{KeystoreError, Stop, panic, fails}
use eth_utils.Keystore.Crypto.{Ciphers}
use eth_utils.Keystore.Json.{Json}
use eth_utils.Keystore.Loader.{load}
use eth_utils.Keystore.Scan.{Index, lookup}
use eth_utils.Cli.Errors
use eth_utils.Cli.Errors.{AppError, keystore_not_found_for}

-- `CLI_VERSION`
abbrev pub cli_version : Bytes
cli_version = text "2.7.0"

-- The rest of the configuration, what the system answers, and the dependencies of the command.
pub record Worker (F S V : Type 0) : Type 1 where
  pub network : Network
  pub withdrawal_credentials : Bytes
  pub keystore_dir : Bytes
  pub params : Params
  pub index : Index
  pub read : Bytes → Result (IoKind × Bytes) Bytes
  pub passphrase : Result (KeystoreError F S) Bytes
  pub new_signer : Bytes → Result BlsError Signer
  pub verifier : Verifier
  pub hex : Hex F
  pub ciphers : Ciphers
  pub json : Json V
  pub sha256 : Bytes → Bytes
  pub to_lowercase : Bytes → Bytes

module _ {F S : Type 0} where
  unfoldable pub keystore_stop : Stop (KeystoreError F S) → Stop (AppError F S)
  keystore_stop panic = panic
  keystore_stop (fails e) = fails (AppError.keystore e)

  unfoldable pub require_path : Bytes → Bytes → Option Bytes → Result (Stop (AppError F S)) Bytes
  require_path pk_hex dir none = err (fails (keystore_not_found_for pk_hex dir))
  require_path pk_hex dir (some path) = ok path

unfoldable pub require_generator : {E : Type 0} → Option Generator → Result (Stop E) Generator
require_generator none = err panic
require_generator (some g) = ok g

-- `entries.into_iter().next().expect("one entry per request")`
unfoldable pub first_entry : {E : Type 0} → List Entry → Result (Stop E) Entry
first_entry [] = err panic
first_entry (entry ∷ rest) = ok entry

module _ {F S V : Type 0} (w : Worker F S V) (cancel : ℕ → Bool) where
  abbrev pub request : Bytes → Request
  request pk = record {
    network = w.network;
    pubkeys = pk ∷ [];
    withdrawal_credentials = w.withdrawal_credentials;
    amount_gwei = 32_000_000_000;
    deposit_cli_version = cli_version;
  }

  unfoldable pub process_pubkey : Bytes → Result (Stop (AppError F S)) Entry
  unfolding keystore_stop require_path require_generator first_entry
  process_pubkey pk = do
    path ←
        require_path (w.hex.encode pk) w.keystore_dir
          (lookup w.to_lowercase (w.hex.encode pk) w.index)
    key ←
        map_err keystore_stop
          (load w.hex w.ciphers w.json w.to_lowercase path (w.read path) w.passphrase)
    signer ← map_err (λ e. fails (AppError.bls e)) (w.new_signer key.secret)
    g ← require_generator (new w.sha256 w.hex w.params)
    entries ←
        map_err (λ e. fails (AppError.deposit e))
          (generate w.sha256 w.hex signer w.verifier g (request pk) cancel)
    first_entry entries

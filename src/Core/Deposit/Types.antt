-- ===== src/Core/Deposit/Types.antt =====
-- The traits of bls.rs and the records of deposit.rs.
use eth_utils.Prelude.{ℕ, ◌≡◌, Bool, List, Result, length, All}
use eth_utils.Prelude.Bytes.{Bytes, IsByte}
use eth_utils.Core.Network.{Network}
use eth_utils.Core.Deposit.Errors.{BlsError}

-- The arguments of `verify` are the public key, the signing root and the signature.
pub record Signer : Type 0 where
  pub sign : Bytes → Result BlsError Bytes
  pub public_key : Result BlsError Bytes

pub record Verifier : Type 0 where
  pub verify : Bytes → Bytes → Bytes → Result BlsError Bool

pub record Request : Type 0 where
  pub network : Network
  pub pubkeys : List Bytes
  pub withdrawal_credentials : Bytes
  pub amount_gwei : ℕ
  pub deposit_cli_version : Bytes

pub record Entry : Type 0 where
  pub pubkey : Bytes
  pub withdrawal_credentials : Bytes
  pub amount : ℕ
  pub signature : Bytes
  pub deposit_message_root : Bytes
  pub deposit_data_root : Bytes
  pub fork_version : Bytes
  pub network_name : Bytes
  pub deposit_cli_version : Bytes

-- What the source's array types say of an entry.
pub record IsSizedEntry (e : Entry) : Type 0 where
  pub pubkey_size : length e.pubkey ≡ 48
  pub credentials_size : length e.withdrawal_credentials ≡ 32
  pub signature_size : length e.signature ≡ 96
  pub message_root_size : length e.deposit_message_root ≡ 32
  pub data_root_size : length e.deposit_data_root ≡ 32
  pub fork_version_size : length e.fork_version ≡ 4
  pub pubkey_bytes : All IsByte e.pubkey
  pub credentials_bytes : All IsByte e.withdrawal_credentials
  pub signature_bytes : All IsByte e.signature
  pub message_root_bytes : All IsByte e.deposit_message_root
  pub data_root_bytes : All IsByte e.deposit_data_root
  pub fork_version_bytes : All IsByte e.fork_version

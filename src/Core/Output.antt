-- ===== src/Core/Output.antt =====
-- The JSON write side of output.rs (crates/ethernal-core/src/output.rs): the conversion of
-- entries. `serde_json` and SHA-256 are parameters. The writers of files are in Files.
pub mod RoundTrip
pub mod Files
use eth_utils.Prelude.{ℕ, ◌≡◌, List, map, Result, ok}
use eth_utils.Prelude.Bytes.{Bytes}
use eth_utils.Hex.{Hex}
use eth_utils.Core.Deposit.{Entry}
use eth_utils.Core.Deposit.Json.{JsonEntryIn}

pub record JsonEntryOut : Type 0 where
  pub pubkey : Bytes
  pub withdrawal_credentials : Bytes
  pub amount : ℕ
  pub signature : Bytes
  pub deposit_message_root : Bytes
  pub deposit_data_root : Bytes
  pub fork_version : Bytes
  pub network_name : Bytes
  pub deposit_cli_version : Bytes

-- The fields that the reader's object has of the writer's: all, under the same names.
abbrev pub as_read : JsonEntryOut → JsonEntryIn
as_read o = record {
  pubkey = o.pubkey;
  withdrawal_credentials = o.withdrawal_credentials;
  amount = o.amount;
  signature = o.signature;
  deposit_message_root = o.deposit_message_root;
  deposit_data_root = o.deposit_data_root;
  fork_version = o.fork_version;
  network_name = o.network_name;
  deposit_cli_version = o.deposit_cli_version;
}

-- What is used of `serde_json`: an array that was serialized is read back, field by field.
pub record Serde : Type 0 where
  pub to_vec : List JsonEntryOut → Result Bytes Bytes
  pub from_slice : Bytes → Result Bytes (List JsonEntryIn)
  pub from_slice-to_vec :
      (outs : List JsonEntryOut) (json : Bytes)
      → to_vec outs ≡ ok json
      → from_slice json ≡ ok (map as_read outs)

module _ {E : Type 0} (hex : Hex E) where
  unfoldable pub to_json_entry : Entry → JsonEntryOut
  to_json_entry e = record {
    pubkey = hex.encode e.pubkey;
    withdrawal_credentials = hex.encode e.withdrawal_credentials;
    amount = e.amount;
    signature = hex.encode e.signature;
    deposit_message_root = hex.encode e.deposit_message_root;
    deposit_data_root = hex.encode e.deposit_data_root;
    fork_version = hex.encode e.fork_version;
    network_name = e.network_name;
    deposit_cli_version = e.deposit_cli_version;
  }

  unfoldable pub marshal_entries : Serde → List Entry → Result Bytes Bytes
  marshal_entries serde entries = serde.to_vec (map to_json_entry entries)

  unfoldable pub digest_hex : (Bytes → Bytes) → Bytes → Bytes
  digest_hex sha256 b = hex.encode (sha256 b)

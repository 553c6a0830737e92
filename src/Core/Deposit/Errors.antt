-- ===== src/Core/Deposit/Errors.antt =====
-- The error types of bls.rs and deposit.rs.
use eth_utils.Prelude.{ℕ}
use eth_utils.Prelude.Bytes.{Bytes}

pub data BlsError : Type 0 where
  bad_secret_length : ℕ → BlsError
  bad_secret bad_pubkey bad_signature : Bytes → BlsError

-- `panicked` is no value of the source: it stands for a panic in the code below.
pub data DepositError (E : Type 0) : Type 0 where
  pubkey_mismatch self_verify_failed : ℕ → Bytes → DepositError E
  network_mismatch : Bytes → Bytes → DepositError E
  cancelled : DepositError E
  bls : BlsError → DepositError E
  invalid_hex : Bytes → Bytes → E → DepositError E
  bad_length : Bytes → ℕ → ℕ → DepositError E
  unmarshal_entry unmarshal_entries : Bytes → DepositError E
  entry_at : ℕ → DepositError E → DepositError E
  validation : Bytes → DepositError E
  panicked : DepositError E

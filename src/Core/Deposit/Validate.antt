-- ===== src/Core/Deposit/Validate.antt =====
-- The withdrawal credentials of an address and the checks of `Entry::validate`.
pub mod Exact
use eth_utils.Prelude.{ℕ, ◌++◌, ◌∷◌, [], Result, ok, err, replicate, ◌==◌, if◌then◌else◌}
use eth_utils.Prelude.Bytes.{Bytes, text, bytes_eq}
use eth_utils.Core.Network.{Params, NetworkError, network_error_text, lookup_name}
use eth_utils.Core.Deposit.Errors.{DepositError, validation}
use eth_utils.Core.Deposit.Types.{Entry}

-- The byte 0x01, eleven zeros and the 20 bytes of the address.
unfoldable pub eth1_withdrawal_credentials : Bytes → Bytes
eth1_withdrawal_credentials addr = 0x01 ∷ (replicate 11 0 ++ addr)

check_network :
    {E : Type 0} → Bytes → Result NetworkError Params → Result (DepositError E) (Unit {0})
check_network name (ok p) = ok tt
check_network name (err e) = err (
    validation
      (text "network_name \"" ++ (name ++ (text "\" is not recognised: " ++ network_error_text e))))

unfoldable pub validate : {E : Type 0} → Entry → Result (DepositError E) (Unit {0})
unfolding check_network
validate e =
    if bytes_eq e.pubkey (replicate 48 0)
    then err (validation (text "pubkey is all-zero"))
    else if bytes_eq e.signature (replicate 96 0)
    then err (validation (text "signature is all-zero"))
    else if bytes_eq e.deposit_data_root (replicate 32 0)
    then err (validation (text "deposit_data_root is all-zero"))
    else if e.amount == 0
    then err (validation (text "amount is zero"))
    else check_network e.network_name (lookup_name e.network_name)

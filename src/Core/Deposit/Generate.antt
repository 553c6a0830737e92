-- ===== src/Core/Deposit/Generate.antt =====
-- `Generator::new` and `Generator::generate`.
pub mod Sound
pub mod Batch
use eth_utils.Prelude.{
  ℕ, zero, suc, ◌+◌, ◌≡◌, Bool, true, false, Option, none, some, List, [], ◌∷◌, ◌++◌, Result, ok,
  err, ◌>>=◌, map_err, and_then, if◌then◌else◌,
}
use eth_utils.Prelude.Bytes.{Bytes, bytes_eq}
use eth_utils.Hex.{Hex}
use eth_utils.Core.Network.{
  Network, mainnet, hoodi, sepolia, holesky, Params, as_str, domain_deposit,
  zero_genesis_validators_root,
}
use eth_utils.Core.Ssz.{
  DepositMessage, DepositData, message_hash_tree_root, data_hash_tree_root, compute_domain,
  compute_signing_root,
}
use eth_utils.Core.Deposit.Errors.{
  DepositError, pubkey_mismatch, self_verify_failed, network_mismatch, cancelled, bls, panicked,
}
use eth_utils.Core.Deposit.Types.{Signer, Verifier, Request, Entry}

-- The signer and the verifier that a generator holds are arguments of `generate`.
pub record Generator : Type 0 where
  pub domain : Bytes
  pub params : Params

-- `a != b` on the derived equality of networks.
unfoldable pub same_network : Network → Network → Bool
same_network mainnet mainnet = true
same_network hoodi hoodi = true
same_network sepolia sepolia = true
same_network holesky holesky = true
same_network _ _ = false

unfoldable pub or_panic {ℓ} : {E : Type 0} {A : Type ℓ} → Option A → Result (DepositError E) A
or_panic none = err panicked
or_panic (some a) = ok a

module _ {E : Type 0} (sha256 : Bytes → Bytes) (hex : Hex E) where
  unfoldable pub new : Params → Option Generator
  new params =
      and_then
        (compute_domain sha256 domain_deposit params.genesis_fork_version
          zero_genesis_validators_root)
        λ domain. some (record { domain = domain; params = params })

  module _ (signer : Signer) (verifier : Verifier) (g : Generator) (req : Request) where
    -- Steps 2 to 9 of a round: the key has been compared.
    unfoldable pub make_entry : ℕ → Bytes → Result (DepositError E) Entry
    make_entry i pk = do
      msg_root ← or_panic (
          message_hash_tree_root sha256 (record {
            pubkey = pk;
            withdrawal_credentials = req.withdrawal_credentials;
            amount = req.amount_gwei;
          }))
      signing_root ← or_panic (compute_signing_root sha256 msg_root g.domain)
      sig ← map_err bls (signer.sign signing_root)
      verified ← map_err bls (verifier.verify pk signing_root sig)
      data_root ←
          if verified
          then or_panic (
              data_hash_tree_root sha256 (record {
                pubkey = pk;
                withdrawal_credentials = req.withdrawal_credentials;
                amount = req.amount_gwei;
                signature = sig;
              }))
          else err (self_verify_failed i (hex.encode pk))
      ok (record {
        pubkey = pk;
        withdrawal_credentials = req.withdrawal_credentials;
        amount = req.amount_gwei;
        signature = sig;
        deposit_message_root = msg_root;
        deposit_data_root = data_root;
        fork_version = g.params.genesis_fork_version;
        network_name = as_str g.params.name;
        deposit_cli_version = req.deposit_cli_version;
      })

    -- One round: steps 0 and 1, then the rest.
    unfoldable pub generate_one : (ℕ → Bool) → Bytes → ℕ → Bytes → Result (DepositError E) Entry
    generate_one cancel signer_pub i pk =
        if cancel i
        then err cancelled
        else if bytes_eq signer_pub pk
        then make_entry i pk
        else err (pubkey_mismatch i (hex.encode pk))

    -- The loop over the keys that are left, from index `i` on.
    unfoldable pub generate_loop :
        (ℕ → Bool) → Bytes → ℕ → List Bytes → List Entry → Result (DepositError E) (List Entry)
    generate_loop cancel signer_pub i [] entries = ok entries
    generate_loop cancel signer_pub i (pk ∷ pks) entries =
        generate_one cancel signer_pub i pk >>= λ e.
        generate_loop cancel signer_pub (i + 1) pks (entries ++ (e ∷ []))

    unfoldable pub generate : (ℕ → Bool) → Result (DepositError E) (List Entry)
    generate cancel =
        if same_network req.network g.params.name
        then (do
          signer_pub ← map_err bls signer.public_key
          generate_loop cancel signer_pub 0 req.pubkeys [])
        else err (network_mismatch (as_str req.network) (as_str g.params.name))

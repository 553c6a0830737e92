-- ===== src/Core/Deposit/Validate/Exact.antt =====
-- `Entry::validate` accepts exactly the entries that meet its five conditions.
use eth_utils.Prelude.{
  ℕ, ◌≡◌, ◌≢◌, ◌↔◌, refl, ap, sym, ◌∙◌, Result, ok, err, false, replicate, arith, ◌==◌,
}
use eth_utils.Prelude.Bytes.{Bytes, bytes_eq, bytes_eq_false→ne, ne→bytes_eq_false}
use eth_utils.Core.Network.{Network, NetworkError, as_str, lookup, lookup_name, parse_flag}
use eth_utils.Core.Network.Laws.{named, parse_flag_iff, lookup_name-parse_flag}
use eth_utils.Core.Deposit.Types.{Entry}
use eth_utils.Core.Deposit.Validate.{check_network, validate}

-- The conditions of the source's comment.
pub record IsMeaningful (e : Entry) : Type 0 where
  pub pubkey_set : e.pubkey ≢ replicate 48 0
  pub signature_set : e.signature ≢ replicate 96 0
  pub data_root_set : e.deposit_data_root ≢ replicate 32 0
  pub amount_set : e.amount ≢ 0
  pub network_known : (n : Network) × (e.network_name ≡ as_str n)

known_network :
    {E : Type 0} (name : Bytes) (r : Result NetworkError Network)
    → parse_flag name ≡ r
    → check_network {E = E} name (named name r) ≡ ok tt
    → (n : Network) × (name ≡ as_str n)
unfolding check_network
known_network name (ok n) e h = (n, (parse_flag_iff name n).0 e)
known_network name (err x) e h = cc

nonzero : (n : ℕ) → n ≢ 0 → (n == 0) ≡ false
nonzero n h = ground arith

module _ {E : Type 0} (e : Entry) where
  gates :
      validate {E = E} e ≡ ok tt
      → (bytes_eq e.pubkey (replicate 48 0) ≡ false)
        × (bytes_eq e.signature (replicate 96 0) ≡ false)
        × (bytes_eq e.deposit_data_root (replicate 32 0) ≡ false)
        × (e.amount ≢ 0)
        × (check_network {E = E} e.network_name (lookup_name e.network_name) ≡ ok tt)
  unfolding validate
  gates h = ground arith

  validate-IsMeaningful : validate {E = E} e ≡ ok tt → IsMeaningful e
  validate-IsMeaningful h =
      let (key, sig, root, amount, net) = gates h in
      record {
        pubkey_set = bytes_eq_false→ne _ _ key;
        signature_set = bytes_eq_false→ne _ _ sig;
        data_root_set = bytes_eq_false→ne _ _ root;
        amount_set = amount;
        network_known =
            known_network e.network_name (parse_flag e.network_name) refl (
              ap (check_network e.network_name) (sym (lookup_name-parse_flag e.network_name))
              ∙ net);
      }

  IsMeaningful-validate : IsMeaningful e → validate {E = E} e ≡ ok tt
  unfolding validate
  IsMeaningful-validate m =
      let (n, name) = m.network_known in
      let known : lookup_name e.network_name ≡ ok (lookup n) =
        lookup_name-parse_flag e.network_name
        ∙ ap (named e.network_name) ((parse_flag_iff e.network_name n).1 name) in
      simp (
        ne→bytes_eq_false _ _ m.pubkey_set,
        ne→bytes_eq_false _ _ m.signature_set,
        ne→bytes_eq_false _ _ m.data_root_set,
        nonzero e.amount m.amount_set,
        known,
      )

  -- `Entry::validate` accepts an entry exactly if its key, its signature and its data root are not
  -- all zeros, its amount is not zero, and its network name is that of a supported network.
  pub validate-IsMeaningful_iff : (validate {E = E} e ≡ ok tt) ↔ IsMeaningful e
  validate-IsMeaningful_iff = (validate-IsMeaningful, IsMeaningful-validate)

-- ===== src/Tx/Validation/Exact.antt =====
-- `validate` accepts exactly the deposits of 32 ETH with set fields and known credentials.
use eth_utils.Prelude.{
  ℕ, zero, suc, ◌≡◌, ◌≢◌, ◌↔◌, ◌⊎◌, inl, inr, refl, ap, sym, ◌∙◌, false, ok, List, [], ◌∷◌, ◌++◌,
  length, replicate, take, drop, slice, slice_lem, length-take, arith, ◌==◌,
}
use eth_utils.Prelude.Bytes.{Bytes, bytes_eq, bytes_eq_false→ne, ne→bytes_eq_false}
use eth_utils.Core.Deposit.{Entry}
use eth_utils.Core.Deposit.Validate.{eth1_withdrawal_credentials}
use eth_utils.Tx.Types.{BuildConfig}
use eth_utils.Tx.Validation.{zeros_loop, zeros_slice, check_credentials, validate}

nonzero : (n : ℕ) → n ≢ 0 → (n == 0) ≡ false
nonzero n h = ground arith

-- The prefix 0, or the prefix 1 or 2 with eleven zeros behind it.
abbrev pub WellFormedCredentials : Bytes → Type 0
WellFormedCredentials wc =
    (take 1 wc ≡ 0 ∷ []) ⊎ (take 12 wc ≡ 1 ∷ replicate 11 0) ⊎ (take 12 wc ≡ 2 ∷ replicate 11 0)

pub record IsDepositable (entry : Entry) (cfg : BuildConfig) : Type 0 where
  pub chain_set : cfg.network_params.chain_id ≢ 0
  pub full_amount : entry.amount ≡ 32_000_000_000
  pub pubkey_set : entry.pubkey ≢ replicate 48 0
  pub signature_set : entry.signature ≢ replicate 96 0
  pub data_root_set : entry.deposit_data_root ≢ replicate 32 0
  pub credentials : WellFormedCredentials entry.withdrawal_credentials

zeros_loop-zeros : (p : ℕ) (bs : List ℕ) → zeros_loop p bs ≡ ok tt → bs ≡ replicate (length bs) 0
unfolding zeros_loop
zeros_loop-zeros p [] h = refl
zeros_loop-zeros p (zero ∷ bs) h = ap (λ t. 0 ∷ t) (zeros_loop-zeros p bs h)
zeros_loop-zeros p (suc b ∷ bs) h = cc

zeros-zeros_loop : (p n : ℕ) → zeros_loop p (replicate n 0) ≡ ok tt
unfolding zeros_loop
zeros-zeros_loop p zero = refl
zeros-zeros_loop p (suc n) = zeros-zeros_loop p n

zeros_behind :
    (p : ℕ) (rest : Bytes)
    → length rest ≡ 31
    → zeros_slice p (slice 1 12 (p ∷ rest)) ≡ zeros_loop p (take 11 rest)
unfolding zeros_slice
zeros_behind p rest h = rw (slice_lem 1 12 (p ∷ rest) (omega arith) (omega arith))

eleven : (rest : Bytes) → length rest ≡ 31 → length (take 11 rest) ≡ 11
eleven rest h = omega (arith, length-take 11 rest)

zeros_found :
    (p : ℕ) (rest : Bytes)
    → length rest ≡ 31
    → zeros_slice p (slice 1 12 (p ∷ rest)) ≡ ok tt
    → p ∷ take 11 rest ≡ p ∷ replicate 11 0
zeros_found p rest h e =
    ap (λ t. p ∷ t)
      (zeros_loop-zeros p (take 11 rest) (sym (zeros_behind p rest h) ∙ e)
        ∙ ap (λ n. replicate n 0) (eleven rest h))

check_credentials_sound :
    (wc : Bytes) → length wc ≡ 32 → check_credentials wc ≡ ok tt → WellFormedCredentials wc
unfolding check_credentials
check_credentials_sound [] h e = absurd (omega arith)
check_credentials_sound (zero ∷ rest) h e = inl refl
check_credentials_sound (suc zero ∷ rest) h e = inr (inl (zeros_found 1 rest (omega arith) e))
check_credentials_sound (suc (suc zero) ∷ rest) h e = inr (inr (zeros_found 2 rest (omega arith) e))
check_credentials_sound (suc (suc (suc n)) ∷ rest) h e = cc

zeros_accepted :
    (p q : ℕ) (rest : Bytes)
    → length rest ≡ 31
    → q ∷ take 11 rest ≡ p ∷ replicate 11 0
    → zeros_slice q (slice 1 12 (q ∷ rest)) ≡ ok tt
zeros_accepted p q rest h e =
    zeros_behind q rest h ∙ ap (zeros_loop q) (ap (drop 1) e) ∙ zeros-zeros_loop q 11

check_credentials_complete :
    (wc : Bytes) → length wc ≡ 32 → WellFormedCredentials wc → check_credentials wc ≡ ok tt
unfolding check_credentials
check_credentials_complete [] h w = absurd (omega arith)
check_credentials_complete (zero ∷ rest) h w = refl
check_credentials_complete (suc zero ∷ rest) h (inl e) = cc
check_credentials_complete (suc zero ∷ rest) h (inr (inl e)) =
    zeros_accepted 1 1 rest (omega arith) e
check_credentials_complete (suc zero ∷ rest) h (inr (inr e)) =
    zeros_accepted 2 1 rest (omega arith) e
check_credentials_complete (suc (suc zero) ∷ rest) h (inl e) = cc
check_credentials_complete (suc (suc zero) ∷ rest) h (inr (inl e)) =
    zeros_accepted 1 2 rest (omega arith) e
check_credentials_complete (suc (suc zero) ∷ rest) h (inr (inr e)) =
    zeros_accepted 2 2 rest (omega arith) e
check_credentials_complete (suc (suc (suc n)) ∷ rest) h (inl e) = cc
check_credentials_complete (suc (suc (suc n)) ∷ rest) h (inr (inl e)) = cc
check_credentials_complete (suc (suc (suc n)) ∷ rest) h (inr (inr e)) = cc

module _ (entry : Entry) (cfg : BuildConfig) where
  gates :
      validate entry cfg ≡ ok tt
      → (cfg.network_params.chain_id ≢ 0)
        × (entry.amount ≡ 32_000_000_000)
        × (bytes_eq entry.pubkey (replicate 48 0) ≡ false)
        × (bytes_eq entry.signature (replicate 96 0) ≡ false)
        × (bytes_eq entry.deposit_data_root (replicate 32 0) ≡ false)
        × (check_credentials entry.withdrawal_credentials ≡ ok tt)
  unfolding validate
  gates h = ground arith

  -- For 32 bytes of credentials `validate` accepts an entry exactly if the network has a chain ID,
  -- the amount is 32 ETH, the key, the signature and the data root are set, and the credentials
  -- have the prefix 0, or the prefix 1 or 2 with eleven zeros behind it.
  pub validate-IsDepositable_iff :
      length entry.withdrawal_credentials ≡ 32
      → (validate entry cfg ≡ ok tt) ↔ IsDepositable entry cfg
  validate-IsDepositable_iff h = (
    λ e.
        let (chain, amount, key, sig, root, wc) = gates e in
        record {
          chain_set = chain;
          full_amount = amount;
          pubkey_set = bytes_eq_false→ne _ _ key;
          signature_set = bytes_eq_false→ne _ _ sig;
          data_root_set = bytes_eq_false→ne _ _ root;
          credentials = check_credentials_sound entry.withdrawal_credentials h wc;
        },
    λ d.
        unfold validate in
        simp (
          nonzero cfg.network_params.chain_id d.chain_set,
          d.full_amount,
          ne→bytes_eq_false _ _ d.pubkey_set,
          ne→bytes_eq_false _ _ d.signature_set,
          ne→bytes_eq_false _ _ d.data_root_set,
          check_credentials_complete entry.withdrawal_credentials h d.credentials,
        ),
  )

-- The credentials that `eth1_withdrawal_credentials` makes of a 20-byte address have 32 bytes, end
-- in the address, and pass the credentials check of the transaction builder.
pub eth1_credentials_pass :
    (addr : Bytes)
    → length addr ≡ 20
    → (length (eth1_withdrawal_credentials addr) ≡ 32)
      × (drop 12 (eth1_withdrawal_credentials addr) ≡ addr)
      × (check_credentials (eth1_withdrawal_credentials addr) ≡ ok tt)
unfolding eth1_withdrawal_credentials
eth1_credentials_pass addr h = (
  omega arith,
  refl,
  check_credentials_complete (0x01 ∷ (replicate 11 0 ++ addr)) (omega arith) (inr (inl refl)),
)

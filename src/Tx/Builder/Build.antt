-- ===== src/Tx/Builder/Build.antt =====
-- The whole build: which configurations give a transaction, and which one.
use mathlib.Core.Path.{subst}
use eth_utils.Prelude.{
  ℕ, ◌*◌, ◌/◌, ◌%◌, ◌^◌, ◌<◌, ◌≡◌, ◌↔◌, sym, ap, ◌∙◌, inl, inr, Bool, false, some, [], ◌++◌, ok,
  ◌>>=◌, err-ne-ok, ok-injective, Bool-cases, >>=-eq-ok, arith,
}
use eth_utils.Prelude.Bytes.{Bytes, text, lower_hex}
use eth_utils.Hex.{Hex}
use eth_utils.Core.Deposit.{Entry, IsSizedEntry}
use eth_utils.Tx.Types.{EthRpc, BuildConfig, Resolved, UnsignedTx}
use eth_utils.Tx.Abi.{pack_deposit}
use eth_utils.Tx.Validation.{validate}
use eth_utils.Tx.Abi.Layout.{join, segments, pack_deposit-join}
use eth_utils.Tx.Validation.Exact.{IsDepositable, validate-IsDepositable_iff}
use eth_utils.Tx.Builder.{
  Check, at_start, at_gas, value_32_eth_wei, expect, resolve_gas_limit, resolve_fields,
  deposit_contract_address_hex, build_unsigned,
}
use eth_utils.Tx.Builder.Resolve.{call_of}

-- The overflow of the margin: if no gas limit is set, the step is not cancelled and the node's
-- estimate is a 64-bit number, the gas limit is six fifths of the estimate exactly if six times the
-- estimate is less than 2 ^ 64.
pub resolve_gas_limit_margin :
    (cancel : Check → Bool) (cfg : BuildConfig) (rpc : EthRpc) (calldata : Bytes) (estimate : ℕ)
    → cancel at_gas ≡ false
    → cfg.gas_limit ≡ 0
    → rpc.estimate_gas (call_of cfg calldata) ≡ ok estimate
    → estimate < 2 ^ 64
    → (resolve_gas_limit cancel cfg rpc calldata ≡ ok (estimate * 6 / 5)) ↔ (estimate * 6 < 2 ^ 64)
unfolding resolve_gas_limit
resolve_gas_limit_margin cancel cfg rpc calldata estimate clear unset e h =
    let computed : resolve_gas_limit cancel cfg rpc calldata ≡ ok (estimate * 6 % 2 ^ 64 / 5) =
      simp (unset, clear, e) in
    (λ k. omega (arith, ok-injective (sym computed ∙ k)), λ small. computed ∙ ap ok (omega arith))

module _ {E : Type 0} (hex : Hex E) where
  abbrev pub unsigned_of : BuildConfig → Bytes → Resolved → UnsignedTx
  unsigned_of cfg calldata r = record {
    chain_id = cfg.network_params.chain_id;
    to = deposit_contract_address_hex hex cfg.network_params;
    from = [];
    value = text "0x" ++ lower_hex value_32_eth_wei;
    calldata = text "0x" ++ hex.encode calldata;
    gas = r.gas_limit;
    max_fee_per_gas = text "0x" ++ lower_hex r.max_fee;
    max_priority_fee_per_gas = text "0x" ++ lower_hex r.tip;
    nonce = r.nonce;
    tx_type = text "0x2";
  }

  module _ (cancel : Check → Bool) (entry : Entry) (cfg : BuildConfig) where
    enter :
        (tx : UnsignedTx)
        → build_unsigned hex cancel entry cfg ≡ ok tx
        → (cancel at_start ≡ false)
          × ((validate entry cfg >>= λ _.
                expect (
                  pack_deposit entry.pubkey entry.withdrawal_credentials entry.signature
                    entry.deposit_data_root)
                >>= λ calldata.
                    resolve_fields cancel cfg calldata >>= λ r. ok (unsigned_of cfg calldata r))
              ≡ ok tx)
    unfolding build_unsigned
    enter tx h = elim (Bool-cases (cancel at_start)) [
      | inl set ↦ absurd (err-ne-ok (rw set at h))
      | inr clear ↦ (clear, rw clear at h)
    ]

    abbrev pub calldata_of : Bytes
    calldata_of =
        join (
          segments entry.pubkey entry.withdrawal_credentials entry.signature
            entry.deposit_data_root)

    packed :
        IsSizedEntry entry
        → pack_deposit entry.pubkey entry.withdrawal_credentials entry.signature
            entry.deposit_data_root
          ≡ some calldata_of
    packed h =
        pack_deposit-join entry.pubkey entry.withdrawal_credentials entry.signature
          entry.deposit_data_root h.pubkey_size h.credentials_size h.signature_size h.data_root_size

    -- For an entry of the source's array sizes, the build returns `tx` exactly if it is not
    -- cancelled at its start, the entry passes all the checks, the fields resolve, and `tx` has the
    -- network's chain ID and contract address, 32 ETH, the calldata of the documented layout and
    -- the resolved fields, each written as the transaction's texts are.
    pub build_unsigned_iff :
        IsSizedEntry entry
        → (tx : UnsignedTx)
        → (build_unsigned hex cancel entry cfg ≡ ok tx) ↔ (
            (cancel at_start ≡ false)
            × IsDepositable entry cfg
            × ((r : Resolved) × (resolve_fields cancel cfg calldata_of ≡ ok r)
                × (tx ≡ unsigned_of cfg calldata_of r)))
    unfolding build_unsigned
    build_unsigned_iff sized tx = (
      λ h.
          let (clear, r1) = enter tx h in
          let (_, valid, r2) = >>=-eq-ok _ _ r1 in
          let (calldata, taken, r3) = >>=-eq-ok _ _ r2 in
          let (r, resolved, last) = >>=-eq-ok _ _ r3 in
          let same : calldata_of ≡ calldata =
            ok-injective (sym (unfold expect in ap expect (packed sized)) ∙ taken) in
          (
            clear,
            (validate-IsDepositable_iff entry cfg sized.credentials_size).0 valid,
            subst
                (λ c.
                  (r : Resolved) × (resolve_fields cancel cfg c ≡ ok r)
                  × (tx ≡ unsigned_of cfg c r))
                (sym same) (r, resolved, sym (ok-injective last)),
          ),
      λ (clear, valid, (r, resolved, e)).
          unfold expect in
          simp (
            clear,
            (validate-IsDepositable_iff entry cfg sized.credentials_size).1 valid,
            packed sized,
            resolved,
            e,
          ),
    )

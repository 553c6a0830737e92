-- ===== src/Tx/Builder/Resolve.antt =====
-- Where the gas limit, the fees and the nonce come from: explicit values win, and what is missing
-- comes from the node.
use mathlib.Core.Path.{subst}
use eth_utils.Prelude.{
  ℕ, ◌+◌, ◌*◌, ◌/◌, ◌%◌, ◌^◌, ◌≡◌, ◌≢◌, ◌↔◌, ◌⊎◌, inl, inr, refl, ap, sym, Bool, false, Option,
  none, some, Result, ok, err, err-ne-ok, Bool-cases, >>=-eq-ok, ok-injective, ◌>>=◌, replicate,
  arith,
}
use eth_utils.Prelude.Bytes.{Bytes, bytes_eq, bytes_eq_false→ne, ne→bytes_eq_false}
use eth_utils.Tx.Types.{RpcClientError, CallMsg, EthRpc, BuildConfig, Resolved}
use eth_utils.Tx.Builder.{
  Check, at_chain_id, at_tip, at_base_fee, at_nonce, at_gas, value_32_eth_wei, check_chain_id,
  resolve_tip, resolve_max_fee, resolve_nonce, resolve_gas_limit, resolve_rpc,
}

-- An explicit value is taken as it is; without one the fact about the node holds.
abbrev pub Chosen : Option ℕ → ℕ → Type 0 → Type 0
Chosen (some t) v P = v ≡ t
Chosen none v P = P

abbrev pub call_of : BuildConfig → Bytes → CallMsg
call_of cfg calldata = record {
  from = cfg.from;
  to = cfg.network_params.deposit_contract_address;
  value = value_32_eth_wei;
  calldata = calldata;
}

pub record Resolves (cfg : BuildConfig) (rpc : EthRpc) (calldata : Bytes) (r : Resolved)
    : Type 0 where
  pub chain : (id : ℕ) → rpc.chain_id ≡ ok id → (id ≡ 0) ⊎ (id ≡ cfg.network_params.chain_id)
  pub tip : Chosen cfg.max_priority_fee_per_gas r.tip (rpc.suggest_gas_tip_cap ≡ ok r.tip)
  pub max_fee : Chosen cfg.max_fee_per_gas r.max_fee (
      (base_fee : ℕ) × (rpc.block_base_fee ≡ ok base_fee)
      × (r.max_fee ≡ (2 * base_fee + r.tip) % 2 ^ 128))
  pub nonce :
      Chosen cfg.nonce r.nonce
        ((cfg.from ≢ replicate 20 0) × (rpc.pending_nonce_at cfg.from ≡ ok r.nonce))
  pub gas_limit :
      ((cfg.gas_limit ≢ 0) × (r.gas_limit ≡ cfg.gas_limit))
      ⊎ ((cfg.gas_limit ≡ 0)
          × ((estimate : ℕ) × (rpc.estimate_gas (call_of cfg calldata) ≡ ok estimate)
              × (r.gas_limit ≡ estimate * 6 % 2 ^ 64 / 5)))

module _ (cancel : Check → Bool) (cfg : BuildConfig) (rpc : EthRpc) where
  chain_sound :
      check_chain_id cancel cfg rpc rpc.chain_id ≡ ok tt
      → (id : ℕ) → rpc.chain_id ≡ ok id
      → (id ≡ 0) ⊎ (id ≡ cfg.network_params.chain_id)
  unfolding check_chain_id
  chain_sound h id e = ground arith

  tip_sound :
      (o : Option ℕ) (t : ℕ)
      → resolve_tip cancel cfg rpc o ≡ ok t
      → Chosen o t (rpc.suggest_gas_tip_cap ≡ ok t)
  unfolding resolve_tip
  tip_sound none t h = ground arith
  tip_sound (some x) t h = ground arith

  fee_sound :
      (o : Option ℕ) (tip m : ℕ)
      → resolve_max_fee cancel cfg rpc o tip ≡ ok m
      → Chosen o m ((b : ℕ) × (rpc.block_base_fee ≡ ok b) × (m ≡ (2 * b + tip) % 2 ^ 128))
  unfolding resolve_max_fee
  fee_sound none tip m h = ground arith
  fee_sound (some x) tip m h = ground arith

  nonce_gate :
      (n : ℕ)
      → resolve_nonce cancel cfg rpc none ≡ ok n
      → (bytes_eq cfg.from (replicate 20 0) ≡ false) × (rpc.pending_nonce_at cfg.from ≡ ok n)
  unfolding resolve_nonce
  nonce_gate n h = ground arith

  nonce_sound :
      (o : Option ℕ) (n : ℕ)
      → resolve_nonce cancel cfg rpc o ≡ ok n
      → Chosen o n ((cfg.from ≢ replicate 20 0) × (rpc.pending_nonce_at cfg.from ≡ ok n))
  unfolding resolve_nonce
  nonce_sound none n h =
      let (sender, answer) = nonce_gate n h in (bytes_eq_false→ne _ _ sender, answer)
  nonce_sound (some x) n h = ground arith

  gas_sound :
      (calldata : Bytes) (g : ℕ)
      → resolve_gas_limit cancel cfg rpc calldata ≡ ok g
      → ((cfg.gas_limit ≢ 0) × (g ≡ cfg.gas_limit))
        ⊎ ((cfg.gas_limit ≡ 0)
            × ((estimate : ℕ) × (rpc.estimate_gas (call_of cfg calldata) ≡ ok estimate)
                × (g ≡ estimate * 6 % 2 ^ 64 / 5)))
  unfolding resolve_gas_limit
  gas_sound calldata g h = ground arith

  enter :
      (calldata : Bytes) (r : Resolved)
      → resolve_rpc cancel cfg rpc calldata ≡ ok r
      → (check_chain_id cancel cfg rpc rpc.chain_id >>= λ _.
          resolve_tip cancel cfg rpc cfg.max_priority_fee_per_gas >>= λ tip.
          resolve_max_fee cancel cfg rpc cfg.max_fee_per_gas tip >>= λ max_fee.
          resolve_nonce cancel cfg rpc cfg.nonce >>= λ nonce.
          resolve_gas_limit cancel cfg rpc calldata >>= λ gas_limit.
          ok (record { gas_limit = gas_limit; max_fee = max_fee; tip = tip; nonce = nonce }))
        ≡ ok r
  unfolding resolve_rpc
  enter calldata r h = elim (Bool-cases (cancel at_chain_id)) [
    | inl set ↦ absurd (err-ne-ok (rw set at h))
    | inr clear ↦ rw clear at h
  ]

  -- What the RPC path returns is what `Resolves` says.
  pub resolve_rpc-Resolves :
      (calldata : Bytes) (r : Resolved)
      → resolve_rpc cancel cfg rpc calldata ≡ ok r
      → Resolves cfg rpc calldata r
  resolve_rpc-Resolves calldata r h =
      let (_, chain, r1) = >>=-eq-ok _ _ (enter calldata r h) in
      let (tip, etip, r2) = >>=-eq-ok _ _ r1 in
      let (fee, efee, r3) = >>=-eq-ok _ _ r2 in
      let (nonce, enonce, r4) = >>=-eq-ok _ _ r3 in
      let (gas, egas, r5) = >>=-eq-ok _ _ r4 in
      subst (Resolves cfg rpc calldata) (ok-injective r5) (record {
        chain = chain_sound chain;
        tip = tip_sound cfg.max_priority_fee_per_gas tip etip;
        max_fee = fee_sound cfg.max_fee_per_gas tip fee efee;
        nonce = nonce_sound cfg.nonce nonce enonce;
        gas_limit = gas_sound calldata gas egas;
      })

  module _ (never : (c : Check) → cancel c ≡ false) where
    chain_complete :
        ((id : ℕ) → rpc.chain_id ≡ ok id → (id ≡ 0) ⊎ (id ≡ cfg.network_params.chain_id))
        → check_chain_id cancel cfg rpc rpc.chain_id ≡ ok tt
    chain_complete h = answer rpc.chain_id h
      where
        answer :
            (a : Result RpcClientError ℕ)
            → ((id : ℕ) → a ≡ ok id → (id ≡ 0) ⊎ (id ≡ cfg.network_params.chain_id))
            → check_chain_id cancel cfg rpc a ≡ ok tt
        answer (ok id) k = unfold check_chain_id in ground (arith, k id refl)
        answer (err e) k = unfold check_chain_id in refl

    tip_complete :
        (o : Option ℕ) (t : ℕ)
        → Chosen o t (rpc.suggest_gas_tip_cap ≡ ok t)
        → resolve_tip cancel cfg rpc o ≡ ok t
    unfolding resolve_tip
    tip_complete none t h = ground (arith, never at_tip)
    tip_complete (some x) t h = ground arith

    fee_complete :
        (o : Option ℕ) (tip m : ℕ)
        → Chosen o m ((b : ℕ) × (rpc.block_base_fee ≡ ok b) × (m ≡ (2 * b + tip) % 2 ^ 128))
        → resolve_max_fee cancel cfg rpc o tip ≡ ok m
    unfolding resolve_max_fee
    fee_complete none tip m (b, e, v) = ground (arith, never at_base_fee)
    fee_complete (some x) tip m h = ground arith

    nonce_complete :
        (o : Option ℕ) (n : ℕ)
        → Chosen o n ((cfg.from ≢ replicate 20 0) × (rpc.pending_nonce_at cfg.from ≡ ok n))
        → resolve_nonce cancel cfg rpc o ≡ ok n
    unfolding resolve_nonce
    nonce_complete none n (sender, e) =
        simp (ne→bytes_eq_false cfg.from (replicate 20 0) sender, never at_nonce, e)
    nonce_complete (some x) n h = ap ok (sym h)

    gas_complete :
        (calldata : Bytes) (g : ℕ)
        → ((cfg.gas_limit ≢ 0) × (g ≡ cfg.gas_limit))
          ⊎ ((cfg.gas_limit ≡ 0)
              × ((estimate : ℕ) × (rpc.estimate_gas (call_of cfg calldata) ≡ ok estimate)
                  × (g ≡ estimate * 6 % 2 ^ 64 / 5)))
        → resolve_gas_limit cancel cfg rpc calldata ≡ ok g
    unfolding resolve_gas_limit
    gas_complete calldata g (inl (set, e)) = ground arith
    gas_complete calldata g (inr (unset, (estimate, e, v))) = ground (arith, never at_gas)

    -- Unless it is cancelled, the RPC path returns `r` exactly if the node's chain ID is not another
    -- nonzero one and each value of `r` is the explicit one, or else the node's: the suggested tip;
    -- twice the base fee plus the tip, modulo 2 ^ 128; the pending nonce of a nonzero sender; and
    -- the estimate times 6, modulo 2 ^ 64, divided by 5.
    pub resolve_rpc_iff :
        (calldata : Bytes) (r : Resolved)
        → (resolve_rpc cancel cfg rpc calldata ≡ ok r) ↔ Resolves cfg rpc calldata r
    resolve_rpc_iff calldata r = (
      resolve_rpc-Resolves calldata r,
      λ s.
          unfold resolve_rpc in
          simp (
            never at_chain_id,
            chain_complete s.chain,
            tip_complete cfg.max_priority_fee_per_gas r.tip s.tip,
            fee_complete cfg.max_fee_per_gas r.tip r.max_fee s.max_fee,
            nonce_complete cfg.nonce r.nonce s.nonce,
            gas_complete calldata r.gas_limit s.gas_limit,
          ),
    )

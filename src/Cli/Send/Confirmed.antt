-- ===== src/Cli/Send/Confirmed.antt =====
-- What is handed to the node, and when.
use eth_utils.Prelude.{
  ℕ, ◌≡◌, refl, ap, ◌∙◌, ◌⊎◌, inl, inr, true, List, [], ◌∷◌, Result, ok, err, Bool-cases,
  Result-cases, map_err, ◌==◌, ==_iff,
}
use eth_utils.Prelude.Bytes.{Bytes, text}
use eth_utils.Tx.Types
use eth_utils.Tx.Types.{RpcClientError}
use eth_utils.Signer.Signed.{SignedTx}
use eth_utils.Cli.Errors.{AppError, aborted, tx}
use eth_utils.Cli.Send.{
  Broadcaster, SendConfig, Surroundings, net_name, eq_ignore_ascii_case, ends_with_newline, confirm,
  consent, broadcast_confirmed, broadcast_on, broadcast_dialled, broadcast_parsed, broadcast,
}

module _ {F S : Type 0} (cfg : SendConfig) (around : Surroundings F S) where
  -- A whole line that is the name of the network, in either case.
  pub record IsTyped (name : Bytes) : Type 0 where
    pub line : Bytes
    pub was_read : around.line ≡ ok line
    pub is_whole : ends_with_newline line ≡ true
    pub is_name : eq_ignore_ascii_case (around.trim line) name ≡ true

  -- The input is a signed transaction, the node is on its chain, and the user agreed. Its bytes
  -- were handed to the node once, and the outcome is the node's answer.
  pub record IsConfirmed (input : Result Bytes Bytes)
      (outcome : List Bytes × Result (AppError F S) Bytes) : Type 0 where
    pub json : Bytes
    pub signed : SignedTx
    pub node : Broadcaster
    pub was_read : input ≡ ok json
    pub is_signed : around.from_slice json ≡ ok signed
    pub was_dialled : around.new_broadcaster cfg.rpc_url ≡ ok node
    pub same_chain : node.chain_id ≡ ok signed.unsigned.chain_id
    pub agreed : (cfg.yes ≡ true) ⊎ IsTyped (net_name signed.unsigned.chain_id)
    pub posted : outcome.0 ≡ signed.raw_rlp ∷ []
    pub answered : outcome.1 ≡ map_err tx (node.send_raw_transaction signed.raw_rlp)

  -- Nothing was handed to the node, and the outcome is an error.
  abbrev pub IsKept : List Bytes × Result (AppError F S) Bytes → Type 0
  IsKept outcome = (outcome.0 ≡ []) × ((e : AppError F S) × (outcome.1 ≡ err e))

  confirm_cases :
      (name : Bytes)
      → ((e : AppError F S) × (confirm cfg around name around.line ≡ err e))
        ⊎ ((confirm cfg around name around.line ≡ ok tt) × IsTyped name)
  unfolding confirm
  confirm_cases name = read around.line refl
    where
      read :
          (l : Result Bytes Bytes)
          → around.line ≡ l
          → ((e : AppError F S) × (confirm cfg around name l ≡ err e))
            ⊎ ((confirm cfg around name l ≡ ok tt) × IsTyped name)
      read (err d) p = inl (_, refl)
      read (ok line) p = elim (Bool-cases (ends_with_newline line)) [
        | inr w ↦ inl (aborted (text "EOF"), rw w refl)
        | inl w ↦ elim (Bool-cases (eq_ignore_ascii_case (around.trim line) name)) [
          | inr v ↦ inl (aborted [], rw (w, v) refl)
          | inl v ↦
              inr (rw (w, v) refl, record { line = line; was_read = p; is_whole = w; is_name = v })
        ]
      ]

  consent_cases :
      (id : ℕ)
      → ((e : AppError F S) × (consent cfg around id ≡ err e))
        ⊎ ((consent cfg around id ≡ ok tt) × ((cfg.yes ≡ true) ⊎ IsTyped (net_name id)))
  unfolding consent
  consent_cases id = elim (Bool-cases cfg.yes) [
    | inl y ↦ inr (rw y refl, inl y)
    | inr n ↦ elim (confirm_cases (net_name id)) [
      | inl (e, h) ↦ inl (e, rw (n, h) refl)
      | inr (h, typed) ↦ inr (rw (n, h) refl, inr typed)
    ]
  ]

  on_node :
      (json : Bytes) (signed : SignedTx) (node : Broadcaster)
      → around.from_slice json ≡ ok signed
      → around.new_broadcaster cfg.rpc_url ≡ ok node
      → (answer : Result RpcClientError ℕ) → node.chain_id ≡ answer
      → IsKept (broadcast_on cfg around node signed answer)
        ⊎ IsConfirmed (ok json) (broadcast_on cfg around node signed answer)
  unfolding broadcast_on broadcast_confirmed
  on_node json signed node p d (err e) c = inl (refl, (_, refl))
  on_node json signed node p d (ok id) c = elim (Bool-cases (id == signed.unsigned.chain_id)) [
    | inr differ ↦ inl (
        rw differ
          (refl, (tx (Types.broadcast_chain_id_mismatch signed.unsigned.chain_id id), refl)))
    | inl same ↦ elim (consent_cases id) [
      | inl (e, h) ↦ inl (rw (same, h) (refl, (e, refl)))
      | inr (h, agreed) ↦
          let e : id ≡ signed.unsigned.chain_id = (==_iff id signed.unsigned.chain_id).0 same in
          inr (record {
            json = json;
            signed = signed;
            node = node;
            was_read = refl;
            is_signed = p;
            was_dialled = d;
            same_chain = c ∙ ap ok e;
            agreed = rw⁻¹ e agreed;
            posted = rw (same, h) refl;
            answered = rw (same, h) refl;
          })
    ]
  ]

  -- Either nothing is handed to the node and the command fails; or the input is a signed
  -- transaction, the dialled node reports its chain ID, `--yes` was given or a whole line was read
  -- that is the network's name but for the case of its letters, the node is handed the
  -- transaction's bytes, once, and the outcome is the node's answer.
  pub broadcast-IsConfirmed :
      (input : Result Bytes Bytes)
      → IsKept (broadcast cfg around input) ⊎ IsConfirmed input (broadcast cfg around input)
  unfolding broadcast broadcast_parsed broadcast_dialled
  broadcast-IsConfirmed (err e) = inl (refl, (_, refl))
  broadcast-IsConfirmed (ok json) = elim (Result-cases (around.from_slice json)) [
    | inr (e, p) ↦ inl (rw p (refl, (_, refl)))
    | inl (signed, p) ↦ elim (Result-cases (around.new_broadcaster cfg.rpc_url)) [
      | inr (e, d) ↦ inl (rw (p, d) (refl, (e, refl)))
      | inl (node, d) ↦ rw (p, d) (on_node json signed node p d node.chain_id refl)
    ]
  ]

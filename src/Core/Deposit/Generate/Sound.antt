-- ===== src/Core/Deposit/Generate/Sound.antt =====
-- What `generate` returns, and when.
use eth_utils.Prelude.{
  ℕ, ◌≡◌, refl, ap, sym, ◌∙◌, Bool, true, false, List, [], ◌∷◌, Result, ok, err, length, arith,
  map_err, ◌>>=◌, >>=-eq-ok, map_err-eq-ok, if◌then◌else◌,
}
use eth_utils.Prelude.Bytes.{Bytes}
use eth_utils.Hex.{Hex}
use eth_utils.Core.Network.{as_str}
use eth_utils.Core.Ssz.{DepositMessage, DepositData, data_hash_tree_root}
use eth_utils.Core.Ssz.Roots.{
  pair, message_root, data_root, message_hash_tree_root_lem, data_hash_tree_root_lem,
  compute_signing_root_lem,
}
use eth_utils.Core.Deposit.Errors.{DepositError, BlsError, bls, self_verify_failed}
use eth_utils.Core.Deposit.Types.{Signer, Verifier, Request, Entry}
use eth_utils.Core.Deposit.Generate.{Generator, or_panic, make_entry}

-- The message and the data that a request asks for, for one key.
abbrev pub message_for : Request → Bytes → DepositMessage
message_for req pk = record {
  pubkey = pk;
  withdrawal_credentials = req.withdrawal_credentials;
  amount = req.amount_gwei;
}

abbrev pub data_for : Request → Bytes → Bytes → DepositData
data_for req pk sig = record {
  pubkey = pk;
  withdrawal_credentials = req.withdrawal_credentials;
  amount = req.amount_gwei;
  signature = sig;
}

module _ (sha256 : Bytes → Bytes) (signer : Signer) (verifier : Verifier) (g : Generator)
    (req : Request) where
  abbrev pub signing_root_for : Bytes → Bytes
  signing_root_for pk = pair sha256 (message_root sha256 (message_for req pk)) g.domain

  abbrev pub entry_for : Bytes → Bytes → Entry
  entry_for pk sig = record {
    pubkey = pk;
    withdrawal_credentials = req.withdrawal_credentials;
    amount = req.amount_gwei;
    signature = sig;
    deposit_message_root = message_root sha256 (message_for req pk);
    deposit_data_root = data_root sha256 (data_for req pk sig);
    fork_version = g.params.genesis_fork_version;
    network_name = as_str g.params.name;
    deposit_cli_version = req.deposit_cli_version;
  }

  -- The entry of a key: the signer holds this key, its signature over the signing root of the
  -- requested message was verified, and the entry is made of the request and the two roots.
  pub record IsEntryFor (pk : Bytes) (e : Entry) : Type 0 where
    pub key : signer.public_key ≡ ok pk
    pub signed : signer.sign (signing_root_for pk) ≡ ok e.signature
    pub verified : verifier.verify pk (signing_root_for pk) e.signature ≡ ok true
    pub content : e ≡ entry_for pk e.signature

  -- The entries are those of the keys, one for each, in order.
  abbrev pub AreEntriesFor : List Bytes → List Entry → Type 0
  AreEntriesFor [] [] = Unit {0}
  AreEntriesFor [] (e ∷ es) = ⊥
  AreEntriesFor (pk ∷ pks) [] = ⊥
  AreEntriesFor (pk ∷ pks) (e ∷ es) = IsEntryFor pk e × AreEntriesFor pks es

module _ {E : Type 0} (sha256 : Bytes → Bytes) (hex : Hex E) (signer : Signer) (verifier : Verifier)
    (g : Generator) (req : Request)
    (sizes : (r s : Bytes) → signer.sign r ≡ ok s → length s ≡ 96) where
  -- The rest of `make_entry` once the signature is there.
  finish : ℕ → Bytes → Bytes → Bool → Result (DepositError E) Entry
  finish i pk sig true = ok (entry_for sha256 signer verifier g req pk sig)
  finish i pk sig false = err (self_verify_failed i (hex.encode pk))

  -- The signature has been verified or not; the data root is computed.
  conclude : ℕ → Bytes → Bytes → Bool → Result (DepositError E) Entry
  conclude i pk sig ok? =
      (if ok?
        then or_panic (data_hash_tree_root sha256 (data_for req pk sig))
        else err (self_verify_failed i (hex.encode pk)))
      >>= λ root.
          ok (record (entry_for sha256 signer verifier g req pk sig) { deposit_data_root = root })

  conclude-finish :
      (i : ℕ) (pk sig : Bytes) (v : Bool)
      → length pk ≡ 48
      → length sig ≡ 96
      → conclude i pk sig v ≡ finish i pk sig v
  unfolding conclude finish or_panic
  conclude-finish i pk sig true h k = rw (data_hash_tree_root_lem sha256 (data_for req pk sig) h k)
  conclude-finish i pk sig false h k = refl

  verify_cases :
      (i : ℕ) (pk sig : Bytes) (r : Result BlsError Bool)
      → length pk ≡ 48
      → length sig ≡ 96
      → (map_err bls r >>= conclude i pk sig) ≡ (map_err bls r >>= finish i pk sig)
  verify_cases i pk sig (ok v) h k = conclude-finish i pk sig v h k
  verify_cases i pk sig (err e) h k = refl

  make_entry_lem :
      (i : ℕ) (pk : Bytes)
      → length pk ≡ 48
      → make_entry sha256 hex signer verifier g req i pk ≡ (
          map_err bls (signer.sign (signing_root_for sha256 signer verifier g req pk)) >>= λ sig.
          map_err bls (verifier.verify pk (signing_root_for sha256 signer verifier g req pk) sig)
          >>= finish i pk sig)
  unfolding make_entry or_panic conclude
  make_entry_lem i pk h =
      rw
        (
          message_hash_tree_root_lem sha256 (message_for req pk) h,
          compute_signing_root_lem sha256 (message_root sha256 (message_for req pk)) g.domain,
        )
        (sign_cases (signer.sign root) refl)
    where
      root : Bytes
      root = signing_root_for sha256 signer verifier g req pk

      sign_cases :
          (r : Result BlsError Bytes)
          → signer.sign root ≡ r
          → (map_err bls r >>= λ sig.
              map_err bls (verifier.verify pk root sig) >>= conclude i pk sig)
            ≡ (map_err bls r >>= λ sig.
                map_err bls (verifier.verify pk root sig) >>= finish i pk sig)
      sign_cases (ok sig) e =
          verify_cases i pk sig (verifier.verify pk root sig) h (sizes root sig e)
      sign_cases (err x) e = refl

  entry_of_finish :
      (i : ℕ) (pk sig : Bytes) (v : Bool) (e : Entry)
      → finish i pk sig v ≡ ok e
      → (v ≡ true) × (entry_for sha256 signer verifier g req pk sig ≡ e)
  unfolding finish
  entry_of_finish i pk sig true e h = (refl, ground arith)
  entry_of_finish i pk sig false e h = cc

  pub make_entry_sound :
      (i : ℕ) (pk : Bytes) (e : Entry)
      → signer.public_key ≡ ok pk
      → length pk ≡ 48
      → make_entry sha256 hex signer verifier g req i pk ≡ ok e
      → IsEntryFor sha256 signer verifier g req pk e
  make_entry_sound i pk e known h made =
      let root = signing_root_for sha256 signer verifier g req pk in
      let (sig, signed, rest) = >>=-eq-ok _ _ (sym (make_entry_lem i pk h) ∙ made) in
      let (v, checked, last) = >>=-eq-ok _ _ rest in
      let (yes_v, content) = entry_of_finish i pk sig v e last in
      let same : sig ≡ e.signature = ap (λ (t : Entry). t.signature) content in
      record {
        key = known;
        signed = map_err-eq-ok bls (signer.sign root) signed ∙ ap ok same;
        verified =
            ap (λ s. verifier.verify pk root s) (sym same)
            ∙ map_err-eq-ok bls (verifier.verify pk root sig) checked
            ∙ ap ok yes_v;
        content = sym content ∙ ap (λ s. entry_for sha256 signer verifier g req pk s) same;
      }

  pub make_entry_complete :
      (i : ℕ) (pk : Bytes) (e : Entry)
      → length pk ≡ 48
      → IsEntryFor sha256 signer verifier g req pk e
      → make_entry sha256 hex signer verifier g req i pk ≡ ok e
  unfolding finish
  make_entry_complete i pk e h w =
      make_entry_lem i pk h ∙ rw (w.signed, w.verified) (ap ok (sym w.content))

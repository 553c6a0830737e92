-- ===== src/Signer/Ledger/Signing.antt =====
-- What the device is asked to sign.
use eth_utils.Prelude.{
  ◌≡◌, refl, sym, ◌∙◌, Bool, true, false, [], ◌∷◌, Result, ok, err, err-ne-ok, ok-injective,
  >>=-eq-ok, map_err-eq-ok, map_err, Bool-cases, inl, inr,
}
use eth_utils.Prelude.Bytes.{Bytes}
use eth_utils.Hex.{Hex}
use eth_utils.Tx.Types.{UnsignedTx}
use eth_utils.Signer.Errors.{SignerError, msg, recovery_failed}
use eth_utils.Signer.Parse.{ParsedTx, parse_unsigned_tx}
use eth_utils.Signer.Rlp.{eip1559_signing_payload, eip1559_envelope}
use eth_utils.Signer.Signed.{SignedTx, Curve, recover_address, build_signed_tx}
use eth_utils.Signer.Signed.Contract.{IsSigned}
use eth_utils.Signer.Ledger.{
  LedgerSignature, sign_tx, LedgerSigner, assemble, after_device, ask_device, sign_with_cancel,
}

module _ (lower : Bytes → Bytes) (F S : Type 0) (hex : Hex F) (curve : Curve) where
  gates :
      (before after : Bool) (signer : LedgerSigner) (unsigned : UnsignedTx) (signed : SignedTx)
      → (sign_with_cancel lower {F = F} {S = S} hex curve before after signer unsigned).0
        ≡ ok signed
      → (signer.closed ≡ false)
        × (before ≡ false)
        × ((ask_device lower hex curve after signer unsigned
              (parse_unsigned_tx {S = S} hex unsigned)).0
            ≡ ok signed)
  unfolding sign_with_cancel
  gates before after signer unsigned signed h = elim (Bool-cases signer.closed) [
    | inl shut ↦ absurd (err-ne-ok (rw shut at h))
    | inr live ↦ elim (Bool-cases before) [
      | inl set ↦ absurd (err-ne-ok (rw (live, set) at h))
      | inr clear ↦ (live, clear, rw (live, clear) at h)
    ]
  ]

  reached :
      (before after : Bool) (signer : LedgerSigner) (unsigned : UnsignedTx)
      → signer.closed ≡ false
      → before ≡ false
      → (sign_with_cancel lower {F = F} {S = S} hex curve before after signer unsigned).1
        ≡ (ask_device lower {F = F} {S = S} hex curve after signer unsigned
            (parse_unsigned_tx hex unsigned)).1
  unfolding sign_with_cancel
  reached before after signer unsigned live early = simp (live, early)

  asked :
      (after : Bool) (signer : LedgerSigner) (unsigned : UnsignedTx) (signed : SignedTx)
      (o : Result (SignerError F S) ParsedTx)
      → (ask_device lower hex curve after signer unsigned o).0 ≡ ok signed
      → (p : ParsedTx) × (o ≡ ok p)
        × ((ask_device lower hex curve after signer unsigned o).1
            ≡ sign_tx p unsigned.nonce unsigned.gas ∷ [])
        × (after_device lower {F = F} {S = S} hex curve after unsigned p
              (signer.wallet.signs p unsigned.nonce unsigned.gas)
            ≡ ok signed)
  unfolding ask_device
  asked after signer unsigned signed (err e) h = absurd (err-ne-ok h)
  asked after signer unsigned signed (ok p) h = (p, refl, refl, h)

  answered_ok :
      (after : Bool) (unsigned : UnsignedTx) (p : ParsedTx) (signed : SignedTx)
      (answer : Result Bytes LedgerSignature)
      → after_device lower {F = F} {S = S} hex curve after unsigned p answer ≡ ok signed
      → (after ≡ false)
        × (sig : LedgerSignature) × (answer ≡ ok sig)
        × (assemble lower {F = F} {S = S} hex curve unsigned p sig ≡ ok signed)
  unfolding after_device
  answered_ok true unsigned p signed answer h = absurd (err-ne-ok h)
  answered_ok false unsigned p signed (err e) h = absurd (err-ne-ok h)
  answered_ok false unsigned p signed (ok sig) h = (refl, sig, refl, h)

  assembled_ok :
      (unsigned : UnsignedTx) (p : ParsedTx) (sig : LedgerSignature) (signed : SignedTx)
      → assemble lower {F = F} {S = S} hex curve unsigned p sig ≡ ok signed
      → (from : Bytes) × (recover_address hex curve
            (curve.keccak256 (eip1559_signing_payload p unsigned.nonce unsigned.gas))
            sig.r
            sig.s
            sig.v
          ≡ ok from)
        × (signed
            ≡ build_signed_tx hex curve unsigned from
                (eip1559_envelope p unsigned.nonce unsigned.gas sig.v sig.r sig.s)
                sig.r
                sig.s
                sig.v)
  unfolding assemble
  assembled_ok unsigned p sig signed h =
      let (from, recovered, made) =
        >>=-eq-ok {Fault = SignerError F S}
          (map_err (λ e. msg (recovery_failed e))
            (recover_address hex curve
              (curve.keccak256 (eip1559_signing_payload p unsigned.nonce unsigned.gas)) sig.r sig.s
              sig.v))
          (λ from. ok (
            build_signed_tx hex curve unsigned from
              (eip1559_envelope p unsigned.nonce unsigned.gas sig.v sig.r sig.s) sig.r sig.s sig.v))
          h in
      (from, map_err-eq-ok _ _ recovered, sym (ok-injective made))

  -- An operation that returns a signed transaction found the signer open and was not cancelled,
  -- before or after the device, made one call on the device, for the decoded transaction, and the
  -- signature is the device's.
  pub sign_with_cancel-IsSigned :
      (before after : Bool) (signer : LedgerSigner) (unsigned : UnsignedTx) (signed : SignedTx)
      → (sign_with_cancel lower {F = F} {S = S} hex curve before after signer unsigned).0
        ≡ ok signed
      → (signer.closed ≡ false)
        × (before ≡ false)
        × (after ≡ false)
        × ((from : Bytes) × (is : IsSigned S hex curve unsigned from signed) × (signer.wallet.signs
                is.parsed unsigned.nonce unsigned.gas
              ≡ ok (record { v = is.y_parity; r = is.r; s = is.s }))
            × ((sign_with_cancel lower {F = F} {S = S} hex curve before after signer unsigned).1
                ≡ sign_tx is.parsed unsigned.nonce unsigned.gas ∷ []))
  sign_with_cancel-IsSigned before after signer unsigned signed h =
      let (live, early, asked_ok) = gates before after signer unsigned signed h in
      let (p, parses, called, answered) =
        asked after signer unsigned signed (parse_unsigned_tx {S = S} hex unsigned) asked_ok in
      let (late, sig, device, assembled) =
        answered_ok after unsigned p signed (signer.wallet.signs p unsigned.nonce unsigned.gas)
          answered in
      let (from, recovers, content) = assembled_ok unsigned p sig signed assembled in
      (
        live,
        early,
        late,
        (
          from,
          record {
            parsed = p;
            r = sig.r;
            s = sig.s;
            y_parity = sig.v;
            parses = parses;
            recovers = recovers;
            content = content;
          },
          device,
          reached before after signer unsigned live early ∙ called,
        ),
      )

-- ===== src/Signer/Local/Lifecycle.antt =====
-- Signing with a local key, and the life of the key in memory.
use eth_utils.Prelude.{
  ℕ, ◌≡◌, refl, sym, ap, ◌∙◌, inl, inr, Bool, true, false, Option, none, some, List, [], ◌∷◌, ok,
  err, ok-injective, err-ne-ok, >>=-eq-ok, map_err-eq-ok, ◌>>=◌, map_err, replicate, Bool-cases,
}
use eth_utils.Prelude.Bytes.{Bytes, text, bytes_eq, bytes_eq_iff}
use eth_utils.Hex.{Hex}
use eth_utils.Tx.Types.{UnsignedTx}
use eth_utils.Signer.Errors.{signer_closed, msg, sign_failed, recovery_failed}
use eth_utils.Signer.Parse.{ParsedTx, parse_unsigned_tx}
use eth_utils.Signer.Rlp.{eip1559_signing_payload, eip1559_envelope}
use eth_utils.Signer.Signed.{SignedTx, Curve, pubkey_address, recover_address, build_signed_tx}
use eth_utils.Signer.Signed.Contract.{IsSigned}
use eth_utils.Signer.Local.{
  LocalSigner, signing_point, normalize_low_s, check_sender, finish, sign_with_cancel, close,
}

module _ {F : Type 0} (S : Type 0) (hex : Hex F) (curve : Curve) where
  point_of :
      (m : Bytes) (o : Option Bytes) (point : Bytes)
      → signing_point {F = F} {S = S} hex curve m o ≡ ok point
      → o ≡ some point
  unfolding signing_point
  point_of m none point h = absurd (err-ne-ok h)
  point_of m (some p) point h = cc

  module _ (cancel : Bool) (signer : LocalSigner) (unsigned : UnsignedTx) (signed : SignedTx) where
    -- The signer is open and holds a key of the curve, and the signature is one by this key.
    pub record IsSignedByKey : Type 0 where
      pub open_signer : signer.closed ≡ false
      pub not_cancelled : cancel ≡ false
      pub point : Bytes
      pub is_key : curve.public_point signer.key ≡ some point
      pub contract : IsSigned S hex curve unsigned (pubkey_address hex curve point) signed

    gates :
        sign_with_cancel {F = F} {S = S} hex curve cancel signer unsigned ≡ ok signed
        → (signer.closed ≡ false)
          × (cancel ≡ false)
          × ((parse_unsigned_tx {S = S} hex unsigned >>= λ p.
                signing_point hex curve
                  (text "failed to parse signing key")
                  (curve.public_point signer.key)
                >>= λ point.
                    map_err
                      (λ e. msg (sign_failed e))
                      (curve.sign_prehash signer.key
                        (curve.keccak256 (eip1559_signing_payload p unsigned.nonce unsigned.gas)))
                    >>= λ sig. finish hex curve unsigned p point (normalize_low_s curve sig))
              ≡ ok signed)
    unfolding sign_with_cancel
    gates h = elim (Bool-cases signer.closed) [
      | inl shut ↦ absurd (err-ne-ok (rw shut at h))
      | inr live ↦ elim (Bool-cases cancel) [
        | inl set ↦ absurd (err-ne-ok (rw (live, set) at h))
        | inr clear ↦ (live, clear, rw (live, clear) at h)
      ]
    ]

    sender_checked :
        (p : ParsedTx) (expected r s : Bytes) (y_parity : ℕ) (from : Bytes)
        → check_sender {F = F} {S = S} hex curve unsigned p expected r s y_parity from ≡ ok signed
        → (from ≡ expected)
          × (build_signed_tx hex curve unsigned from
                (eip1559_envelope p unsigned.nonce unsigned.gas y_parity r s)
                r
                s
                y_parity
              ≡ signed)
    unfolding check_sender
    sender_checked p expected r s y_parity from h = elim (Bool-cases (bytes_eq from expected)) [
      | inl same ↦ ((bytes_eq_iff from expected).0 same, ok-injective (rw same at h))
      | inr apart ↦ absurd (err-ne-ok (rw apart at h))
    ]

    finished :
        (p : ParsedTx) (point r s : Bytes) (y_parity : ℕ)
        → finish {F = F} {S = S} hex curve unsigned p point (r, s, y_parity) ≡ ok signed
        → (recover_address hex curve
              (curve.keccak256 (eip1559_signing_payload p unsigned.nonce unsigned.gas))
              r
              s
              y_parity
            ≡ ok (pubkey_address hex curve point))
          × (signed
              ≡ build_signed_tx hex curve unsigned
                  (pubkey_address hex curve point)
                  (eip1559_envelope p unsigned.nonce unsigned.gas y_parity r s)
                  r
                  s
                  y_parity)
    unfolding finish
    finished p point r s y_parity h =
        let (from, recovered, made) =
          >>=-eq-ok
            (map_err (λ e. msg (recovery_failed e))
              (recover_address hex curve
                (curve.keccak256 (eip1559_signing_payload p unsigned.nonce unsigned.gas)) r s
                y_parity))
            (check_sender {S = S} hex curve unsigned p (pubkey_address hex curve point) r s
              y_parity)
            h in
        let (same, built) =
          sender_checked p (pubkey_address hex curve point) r s y_parity from made in
        (
          map_err-eq-ok _ _ recovered ∙ ap ok same,
          sym built
              ∙ ap
                  (λ a.
                    build_signed_tx hex curve unsigned a
                      (eip1559_envelope p unsigned.nonce unsigned.gas y_parity r s) r s y_parity)
                  same,
        )

    -- A signature is returned only by an open signer that was not cancelled, of a transaction that
    -- decodes, over the hash of its signing payload, and only if the key's own address is recovered
    -- from it.
    pub sign_with_cancel-IsSignedByKey :
        sign_with_cancel {F = F} {S = S} hex curve cancel signer unsigned ≡ ok signed
        → IsSignedByKey
    sign_with_cancel-IsSignedByKey h =
        let (live, clear, r1) = gates h in
        let (p, parses, r2) = >>=-eq-ok (parse_unsigned_tx {S = S} hex unsigned) _ r1 in
        let (point, keyed, r3) =
          >>=-eq-ok
            (signing_point {S = S} hex curve (text "failed to parse signing key")
              (curve.public_point signer.key))
            _ r2 in
        let (sig, made, r4) =
          >>=-eq-ok
            (map_err (λ e. msg (sign_failed e))
              (curve.sign_prehash signer.key
                (curve.keccak256 (eip1559_signing_payload p unsigned.nonce unsigned.gas))))
            (λ sig. finish {S = S} hex curve unsigned p point (normalize_low_s curve sig)) r3 in
        let (r, s, y_parity) = normalize_low_s curve sig in
        let (recovers, content) = finished p point r s y_parity r4 in
        record {
          open_signer = live;
          not_cancelled = clear;
          point = point;
          is_key =
              point_of (text "failed to parse signing key") (curve.public_point signer.key) point
                keyed;
          contract = record {
            parsed = p;
            r = r;
            s = s;
            y_parity = y_parity;
            parses = parses;
            recovers = recovers;
            content = content;
          };
        }

-- What a caller does with a signer, and what happens to it.
pub data Use : Type 0 where
  sign_it : Bool → UnsignedTx → Use
  close_it : Use

unfoldable pub after : Use → LocalSigner → LocalSigner
after (sign_it cancel unsigned) signer = signer
after close_it signer = close signer

unfoldable pub after_all : List Use → LocalSigner → LocalSigner
after_all [] signer = signer
after_all (u ∷ us) signer = after_all us (after u signer)

abbrev pub IsErased : LocalSigner → Type 0
IsErased signer = (signer.closed ≡ true) × (signer.key ≡ replicate 32 0)

close-IsErased : (signer : LocalSigner) → signer.closed ≡ false → IsErased (close signer)
unfolding close
close-IsErased signer h = rw h (refl, refl)

after-IsErased : (u : Use) (signer : LocalSigner) → IsErased signer → IsErased (after u signer)
unfolding after close
after-IsErased (sign_it cancel unsigned) signer h = h
after-IsErased close_it signer h = rw h.0 (refl, h.1)

after_all-IsErased :
    (us : List Use) (signer : LocalSigner) → IsErased signer → IsErased (after_all us signer)
unfolding after_all
after_all-IsErased [] signer h = h
after_all-IsErased (u ∷ us) signer h =
    after_all-IsErased us (after u signer) (after-IsErased u signer h)

-- Once an open signer is closed, its key is zeroized and stays so whatever is called on it, and
-- every later attempt to sign returns the error of a closed signer.
pub close-after_all :
    {F S : Type 0} (hex : Hex F) (curve : Curve) (signer : LocalSigner) (us : List Use)
    (cancel : Bool) (unsigned : UnsignedTx)
    → signer.closed ≡ false
    → IsErased (after_all us (close signer))
      × (sign_with_cancel {F = F} {S = S} hex curve cancel (after_all us (close signer)) unsigned
          ≡ err signer_closed)
unfolding sign_with_cancel
close-after_all hex curve signer us cancel unsigned h =
    let erased = after_all-IsErased us (close signer) (close-IsErased signer h) in
    (erased, rw erased.0)

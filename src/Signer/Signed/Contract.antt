-- ===== src/Signer/Signed/Contract.antt =====
-- What a caller may rely on in a signed transaction, whichever signer made it.
use eth_utils.Prelude.{
  ℕ, ◌^◌, ◌<◌, ◌≡◌, refl, ap, sym, ok-injective, ◌∙◌, Option, some, [], ◌∷◌, ◌++◌, Result, ok,
  length, All,
}
use eth_utils.Prelude.Bytes.{Bytes, IsByte, text, strip_prefix}
use eth_utils.Hex.{Hex}
use eth_utils.Tx.Types.{RpcClientError, UnsignedTx}
use eth_utils.Tx.Client.{without_0x, send_raw_transaction}
use eth_utils.Tx.Client.Receipts.{send_raw_transaction_iff}
use eth_utils.Signer.Parse.{ParsedTx, parse_unsigned_tx}
use eth_utils.Signer.Rlp.{uint_be, trim_leading_zeros, eip1559_signing_payload, eip1559_envelope}
use eth_utils.Signer.Rlp.Transaction.{IsEncodable, read_transaction, read_envelope}
use eth_utils.Signer.Signed.{SignedTx, Curve, recover_address, build_signed_tx}

module _ {F : Type 0} (S : Type 0) (hex : Hex F) (curve : Curve) (unsigned : UnsignedTx) where
  -- The parts that a signed transaction is made of: what the unsigned one decodes to, and a
  -- signature from which the sender is recovered, over the hash of the signing payload.
  pub record IsSigned (from : Bytes) (signed : SignedTx) : Type 0 where
    pub parsed : ParsedTx
    pub r : Bytes
    pub s : Bytes
    pub y_parity : ℕ
    pub parses : parse_unsigned_tx {S = S} hex unsigned ≡ ok parsed
    pub recovers :
        recover_address hex curve
          (curve.keccak256 (eip1559_signing_payload parsed unsigned.nonce unsigned.gas))
          r
          s
          y_parity
        ≡ ok from
    pub content :
        signed
        ≡ build_signed_tx hex curve unsigned from
            (eip1559_envelope parsed unsigned.nonce unsigned.gas y_parity r s)
            r
            s
            y_parity

module _ {F : Type 0} (S : Type 0) (hex : Hex F) (curve : Curve)
    (call : Bytes → Result RpcClientError (Option Bytes)) where
  -- A signed transaction whose fields fit their types is posted as it was signed, and the posted
  -- bytes, read back, are the transaction that the unsigned one decodes to, with its nonce and gas.
  pub send_raw_transaction-IsSigned :
      (unsigned : UnsignedTx) (from : Bytes) (signed : SignedTx)
      (is : IsSigned S hex curve unsigned from signed)
      → IsEncodable is.parsed unsigned.nonce unsigned.gas
      → length is.r ≡ 32
      → length is.s ≡ 32
      → length (eip1559_envelope is.parsed unsigned.nonce unsigned.gas is.y_parity is.r is.s)
        < 2 ^ 64
      → All IsByte (eip1559_envelope is.parsed unsigned.nonce unsigned.gas is.y_parity is.r is.s)
      → (hash : Bytes) → send_raw_transaction hex call signed.raw_rlp ≡ ok hash
      → (envelope : Bytes) × (call (text "0x" ++ hex.encode envelope) ≡ ok (some hash))
        × (read_transaction 3 envelope
            ≡ some (record {
              parsed = is.parsed;
              nonce = unsigned.nonce;
              gas = unsigned.gas;
              signature =
                  uint_be is.y_parity ∷ trim_leading_zeros is.r ∷ trim_leading_zeros is.s ∷ [];
            }))
  send_raw_transaction-IsSigned unsigned from signed is fits hr hs size bytes hash sent =
      let envelope = eip1559_envelope is.parsed unsigned.nonce unsigned.gas is.y_parity is.r is.s in
      let (rest, decoded, answered) =
        (send_raw_transaction_iff hex call signed.raw_rlp hash).0 sent in
      let raw : signed.raw_rlp ≡ text "0x" ++ hex.encode envelope =
        ap (λ (t : SignedTx). t.raw_rlp) is.content ∙ (unfold build_signed_tx in refl) in
      let back : hex.decode (without_0x signed.raw_rlp) ≡ ok envelope =
        ap (λ t. hex.decode (without_0x t)) raw
        ∙ (unfold without_0x strip_prefix in hex.decode_encode envelope bytes) in
      let same : envelope ≡ 2 ∷ rest = ok-injective (sym back ∙ decoded) in
      (
        envelope,
        ap (λ b. call (text "0x" ++ hex.encode b)) same ∙ answered,
        read_envelope is.parsed unsigned.nonce unsigned.gas is.y_parity is.r is.s fits hr hs size,
      )

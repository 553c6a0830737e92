-- ===== src/Signer/Local.antt =====
-- The local signer (crates/ethernal-signer/src/local.rs). The environment variable and the secret
-- file are parameters.
pub mod Lifecycle
use eth_utils.Prelude.{
  ℕ, Bool, true, false, not, Option, none, some, List, [], ◌∷◌, ◌++◌, Result, ok, err, ◌>>=◌,
  map_err, length, replicate, ◌==◌, if◌then◌else◌,
}
use eth_utils.Prelude.Bytes.{Bytes, text, bytes_eq}
use eth_utils.Hex.{Hex}
use eth_utils.Tx.Types.{UnsignedTx}
use eth_utils.Signer.Errors.{
  SignerError, context, msg, invalid_key, signer_closed, cancelled, key_file, sign_failed,
  recovery_failed, sender_mismatch, user_rejected, no_device, app_not_open, chain_id_mismatch,
  invalid_chain_id, ledger_not_supported,
}
use eth_utils.Signer.Parse.{ParsedTx, strip_0x, parse_unsigned_tx}
use eth_utils.Signer.Rlp.{eip1559_signing_payload, eip1559_envelope}
use eth_utils.Signer.Signed.{
  SignedTx, Signature, Curve, pubkey_address, recover_address, eip55_checksum, build_signed_tx,
}

pub record LocalSigner : Type 0 where
  pub key : Bytes
  pub closed : Bool

-- The low form, with the parity flipped where the scalar was negated.
unfoldable pub normalized : Signature → Option Signature → Bytes × Bytes × ℕ
normalized sig none = (sig.r, sig.s, if sig.is_y_odd then 1 else 0)
normalized sig (some low) = (low.r, low.s, if not sig.is_y_odd then 1 else 0)

unfoldable pub normalize_low_s : Curve → Signature → Bytes × Bytes × ℕ
unfolding normalized
normalize_low_s curve sig = normalized sig (curve.normalize_s sig)

module _ {F S : Type 0} (hex : Hex F) (curve : Curve) where
  -- The public point of a key that is a scalar of the curve.
  unfoldable pub signing_point : Bytes → Option Bytes → Result (SignerError F S) Bytes
  signing_point message none = err (context message invalid_key)
  signing_point message (some point) = ok point

  unfoldable pub new_local_signer_from_hex : Bytes → Result (SignerError F S) LocalSigner
  unfolding signing_point
  new_local_signer_from_hex hex_key =
      if length (strip_0x hex_key) == 64
      then (do
        key ←
            map_err (λ e. context (text "private key is not valid hex") invalid_key)
              (hex.decode (strip_0x hex_key))
        signing_point (text "invalid secp256k1 private key") (curve.public_point key) >>= λ point.
            ok (record { key = key; closed = false }))
      else err (context (text "expected 32-byte (64 hex char) private key") invalid_key)

  -- `debug` is `{:?}` of the variable's name, and `value` the variable's value, or nothing.
  unfoldable pub new_local_signer_from_env :
      (Bytes → Bytes) → Bytes → Bytes → Result (SignerError F S) LocalSigner
  new_local_signer_from_env debug env_var [] = err (
      context (text "environment variable " ++ debug env_var ++ text " is not set or empty")
        invalid_key)
  new_local_signer_from_env debug env_var (c ∷ cs) =
      map_err (λ e. context (text "environment variable " ++ debug env_var) invalid_key)
        (new_local_signer_from_hex (c ∷ cs))

  unfoldable pub name_key_file : Bytes → SignerError F S → SignerError F S
  name_key_file path (context m source) =
      context (m ++ (text " (key file " ++ (path ++ text ")"))) source
  name_key_file path user_rejected = context (text "key file " ++ path) user_rejected
  name_key_file path no_device = context (text "key file " ++ path) no_device
  name_key_file path app_not_open = context (text "key file " ++ path) app_not_open
  name_key_file path invalid_key = context (text "key file " ++ path) invalid_key
  name_key_file path chain_id_mismatch = context (text "key file " ++ path) chain_id_mismatch
  name_key_file path invalid_chain_id = context (text "key file " ++ path) invalid_chain_id
  name_key_file path signer_closed = context (text "key file " ++ path) signer_closed
  name_key_file path ledger_not_supported = context (text "key file " ++ path) ledger_not_supported
  name_key_file path cancelled = context (text "key file " ++ path) cancelled
  name_key_file path (key_file e) = context (text "key file " ++ path) (key_file e)
  name_key_file path (msg m) = context (text "key file " ++ path) (msg m)

  -- `contents` is what `read_secret_trimmed` returns for the path.
  unfoldable pub new_local_signer_from_file :
      Bytes → Result S Bytes → Result (SignerError F S) LocalSigner
  unfolding name_key_file
  new_local_signer_from_file path contents =
      map_err key_file contents >>= λ s. map_err (name_key_file path) (new_local_signer_from_hex s)

  unfoldable pub secret_to_address : Bytes → Result (SignerError F S) Bytes
  unfolding signing_point
  secret_to_address secret =
      signing_point (text "failed to parse signing key") (curve.public_point secret) >>= λ point.
      ok (pubkey_address hex curve point)

  unfoldable pub address : LocalSigner → Result (SignerError F S) Bytes
  address signer = if signer.closed then err signer_closed else secret_to_address signer.key

  -- The self-check of the sender and the signed transaction.
  unfoldable pub check_sender :
      UnsignedTx → ParsedTx → Bytes → Bytes → Bytes → ℕ → Bytes → Result (SignerError F S) SignedTx
  check_sender unsigned p expected r s y_parity from =
      if bytes_eq from expected
      then ok (
          build_signed_tx hex curve unsigned from
            (eip1559_envelope p unsigned.nonce unsigned.gas y_parity r s) r s y_parity)
      else err (
          msg (sender_mismatch (eip55_checksum hex curve from) (eip55_checksum hex curve expected)))

  unfoldable pub finish :
      UnsignedTx → ParsedTx → Bytes → Bytes × Bytes × ℕ → Result (SignerError F S) SignedTx
  finish unsigned p point (r, s, y_parity) =
      map_err (λ e. msg (recovery_failed e))
        (recover_address hex curve
          (curve.keccak256 (eip1559_signing_payload p unsigned.nonce unsigned.gas)) r s y_parity)
      >>= check_sender unsigned p (pubkey_address hex curve point) r s y_parity

  -- `cancel` is what `is_cancelled` returns at the start.
  unfoldable pub sign_with_cancel :
      Bool → LocalSigner → UnsignedTx → Result (SignerError F S) SignedTx
  unfolding signing_point
  sign_with_cancel cancel signer unsigned =
      if signer.closed then err signer_closed else if cancel then err cancelled else (do
        p ← parse_unsigned_tx hex unsigned
        point ← signing_point (text "failed to parse signing key") (curve.public_point signer.key)
        sig ←
            map_err (λ e. msg (sign_failed e))
              (curve.sign_prehash signer.key
                (curve.keccak256 (eip1559_signing_payload p unsigned.nonce unsigned.gas)))
        finish unsigned p point (normalize_low_s curve sig))

-- The key is zeroized at the first call.
unfoldable pub close : LocalSigner → LocalSigner
close signer = if signer.closed then signer else record { key = replicate 32 0; closed = true }

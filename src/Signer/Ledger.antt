-- ===== src/Signer/Ledger.antt =====
-- The Ledger signer (crates/ethernal-signer/src/ledger.rs). A wallet is what the device answers, and
-- each operation returns the calls that it made on the device. `lower` is `str::to_lowercase`.
pub mod Device
pub mod Signing
use eth_utils.Prelude.{
  ℕ, Bool, true, false, ◌&&◌, ◌||◌, not, Option, none, some, List, [], ◌∷◌, ◌++◌, Result, ok, err,
  ◌>>=◌, map_err, if◌then◌else◌, ◌==◌,
}
use eth_utils.Prelude.Bytes.{Bytes, text, decimal}
use eth_utils.Hex.{Hex}
use eth_utils.Tx.Types.{UnsignedTx}
use eth_utils.Signer.Errors.{
  SignerError, context, msg, no_device, app_not_open, user_rejected, chain_id_mismatch,
  signer_closed, cancelled, ledger_not_supported, device_derive_failed, device_sign_failed,
  device_close_failed, recovery_failed,
}
use eth_utils.Signer.Parse.{ParsedTx, parse_unsigned_tx}
use eth_utils.Signer.Rlp.{eip1559_signing_payload, eip1559_envelope}
use eth_utils.Signer.Signed.{SignedTx, Curve, recover_address, build_signed_tx}

pub record LedgerSignature : Type 0 where
  pub v : ℕ
  pub r : Bytes
  pub s : Bytes

-- The error of each call, if it fails. An error is the text of a `LedgerTransportError`.
pub record LedgerWallet : Type 0 where
  pub opens : Option Bytes
  pub status : Option Bytes
  pub derives : Option Bytes
  pub signs : ParsedTx → ℕ → ℕ → Result Bytes LedgerSignature
  pub closes : Option Bytes

pub data DeviceCall : Type 0 where
  open_it status_of derive_default close_it : DeviceCall
  sign_tx : ParsedTx → ℕ → ℕ → DeviceCall

pub record LedgerSigner : Type 0 where
  pub wallet : LedgerWallet
  pub closed : Bool

unfoldable pub starts_with : Bytes → Bytes → Bool
starts_with [] s = true
starts_with (p ∷ ps) [] = false
starts_with (p ∷ ps) (c ∷ cs) = (p == c) && starts_with ps cs

-- `s.contains(p)`
unfoldable pub contains : Bytes → Bytes → Bool
unfolding starts_with
contains p [] = starts_with p []
contains p (c ∷ cs) = starts_with p (c ∷ cs) || contains p cs

module _ (lower : Bytes → Bytes) where
  unfoldable pub is_app_not_open_err : Bytes → Bool
  is_app_not_open_err e =
      contains (text "6e00") (lower e)
      || contains (text "6e01") (lower e)
      || contains (text "6d00") (lower e)
      || (contains (text "app") (lower e)
          && (contains (text "not open") (lower e) || contains (text "open the") (lower e)))

  unfoldable pub is_user_rejected_err : Bytes → Bool
  is_user_rejected_err e =
      contains (text "rejected") (lower e)
      || contains (text "denied") (lower e)
      || contains (text "cancel") (lower e)
      || contains (text "6985") (lower e)

  unfoldable pub is_chain_id_mismatch_err : Bytes → Bool
  is_chain_id_mismatch_err e =
      contains (text "chain") (lower e)
      && (contains (text "unknown") (lower e)
          || contains (text "mismatch") (lower e)
          || contains (text "6a80") (lower e)
          || contains (text "6a81") (lower e))

  module _ {F S : Type 0} where
    unfoldable pub device_error : Bytes → Bytes → SignerError F S
    device_error message e =
        if is_app_not_open_err e then app_not_open else context message no_device

    unfoldable pub after_derive :
        LedgerWallet → Option Bytes → Result (SignerError F S) LedgerSigner × List DeviceCall
    after_derive w none =
        (ok (record { wallet = w; closed = false }), open_it ∷ status_of ∷ derive_default ∷ [])
    after_derive w (some e) =
        (err (msg (device_derive_failed e)), open_it ∷ status_of ∷ derive_default ∷ close_it ∷ [])

    unfoldable pub after_status :
        LedgerWallet → Option Bytes → Result (SignerError F S) LedgerSigner × List DeviceCall
    unfolding after_derive
    after_status w none = after_derive w w.derives
    after_status w (some e) = (
      err (device_error (text "ledger status check failed") e),
      open_it ∷ status_of ∷ close_it ∷ [],
    )

    unfoldable pub after_open :
        LedgerWallet → Option Bytes → Result (SignerError F S) LedgerSigner × List DeviceCall
    unfolding after_status
    after_open w none = after_status w w.status
    after_open w (some e) = (err (device_error (text "ledger init failed") e), open_it ∷ [])

    -- The first wallet that was found, if there is one.
    unfoldable pub connect :
        Result (SignerError F S) (List LedgerWallet)
        → Result (SignerError F S) LedgerSigner × List DeviceCall
    unfolding after_open
    connect (err e) = (err e, [])
    connect (ok []) = (err no_device, [])
    connect (ok (w ∷ ws)) = after_open w w.opens

    -- `factory` is the hub's wallets, or the error of making the hub.
    unfoldable pub new_with_hub_factory :
        Result (SignerError F S) (List LedgerWallet)
        → Result (SignerError F S) LedgerSigner × List DeviceCall
    unfolding connect
    new_with_hub_factory factory = connect (map_err (context (text "ledger hub init")) factory)

    unfoldable pub close_result : Option Bytes → Result (SignerError F S) (Unit {0})
    close_result none = ok tt
    close_result (some e) = err (msg (device_close_failed e))

    -- The first call closes the device.
    unfoldable pub close :
        LedgerSigner → Result (SignerError F S) (Unit {0}) × LedgerSigner × List DeviceCall
    unfolding close_result
    close signer =
        if signer.closed
        then (ok tt, signer, [])
        else (close_result signer.wallet.closes, record signer { closed = true }, close_it ∷ [])

    unfoldable pub sign_error : UnsignedTx → Bytes → SignerError F S
    sign_error unsigned e =
        if is_chain_id_mismatch_err e
        then context (text "ledger rejected chain ID " ++ decimal unsigned.chain_id)
            chain_id_mismatch
        else if is_user_rejected_err e
        then context (text "user rejected signing on ledger") user_rejected
        else msg (device_sign_failed e)

    module _ (hex : Hex F) (curve : Curve) where
      unfoldable pub assemble :
          UnsignedTx → ParsedTx → LedgerSignature → Result (SignerError F S) SignedTx
      assemble unsigned p sig =
          map_err (λ e. msg (recovery_failed e))
            (recover_address hex curve
              (curve.keccak256 (eip1559_signing_payload p unsigned.nonce unsigned.gas)) sig.r sig.s
              sig.v)
          >>= λ from. ok (
              build_signed_tx hex curve unsigned from
                (eip1559_envelope p unsigned.nonce unsigned.gas sig.v sig.r sig.s) sig.r sig.s
                sig.v)

      -- The device has answered; `after` is what `is_cancelled` returns then.
      unfoldable pub after_device :
          Bool
          → UnsignedTx
          → ParsedTx
          → Result Bytes LedgerSignature
          → Result (SignerError F S) SignedTx
      after_device after unsigned p answer =
          if after
          then err cancelled
          else map_err (sign_error unsigned) answer >>= assemble unsigned p

      unfoldable pub ask_device :
          Bool
          → LedgerSigner
          → UnsignedTx
          → Result (SignerError F S) ParsedTx
          → Result (SignerError F S) SignedTx × List DeviceCall
      ask_device after signer unsigned (err e) = (err e, [])
      ask_device after signer unsigned (ok p) = (
        after_device after unsigned p (signer.wallet.signs p unsigned.nonce unsigned.gas),
        sign_tx p unsigned.nonce unsigned.gas ∷ [],
      )

      unfoldable pub sign_with_cancel :
          Bool
          → Bool
          → LedgerSigner
          → UnsignedTx
          → Result (SignerError F S) SignedTx × List DeviceCall
      unfolding ask_device
      sign_with_cancel before after signer unsigned =
          if signer.closed
          then (err signer_closed, [])
          else if before
          then (err cancelled, [])
          else ask_device after signer unsigned (parse_unsigned_tx hex unsigned)

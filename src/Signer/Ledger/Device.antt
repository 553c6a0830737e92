-- ===== src/Signer/Ledger/Device.antt =====
-- When the device is held, and what closing it does.
use eth_utils.Prelude.{
  ◌≡◌, refl, ap, Bool, true, false, Option, none, some, List, [], ◌∷◌, ◌++◌, Result, ok, err, inl,
  inr, ◌⊎◌,
}
use eth_utils.Prelude.Bytes.{Bytes}
use eth_utils.Hex.{Hex}
use eth_utils.Tx.Types.{UnsignedTx}
use eth_utils.Signer.Signed.{Curve}
use eth_utils.Signer.Ledger.{
  LedgerWallet, DeviceCall, open_it, status_of, derive_default, close_it, sign_tx, LedgerSigner,
  after_derive, after_status, after_open, new_with_hub_factory, close, sign_with_cancel,
}

-- Whether the device is held after some calls, if it was before: `can_open` says that opening works.
abbrev pub held : Bool → Bool → List DeviceCall → Bool
held can_open now [] = now
held can_open now (open_it ∷ calls) = held can_open can_open calls
held can_open now (close_it ∷ calls) = held can_open false calls
held can_open now (status_of ∷ calls) = held can_open now calls
held can_open now (derive_default ∷ calls) = held can_open now calls
held can_open now (sign_tx p n g ∷ calls) = held can_open now calls

abbrev pub works : Option Bytes → Bool
works none = true
works (some e) = false

abbrev pub is_ok : {E A : Type 0} → Result E A → Bool
is_ok (ok a) = true
is_ok (err e) = false

-- What a caller does with a signer.
pub data Use : Type 0 where
  sign_it : Bool → Bool → UnsignedTx → Use
  release : Use

module _ (lower : Bytes → Bytes) (F S : Type 0) where
  after_derive-held :
      (w : LedgerWallet) (o : Option Bytes)
      → held true false (after_derive lower {F = F} {S = S} w o).1
        ≡ is_ok (after_derive lower {F = F} {S = S} w o).0
  unfolding after_derive
  after_derive-held w none = refl
  after_derive-held w (some e) = refl

  after_status-held :
      (w : LedgerWallet) (o : Option Bytes)
      → held true false (after_status lower {F = F} {S = S} w o).1
        ≡ is_ok (after_status lower {F = F} {S = S} w o).0
  unfolding after_status
  after_status-held w none = after_derive-held w w.derives
  after_status-held w (some e) = refl

  after_open-held :
      (w : LedgerWallet) (o : Option Bytes)
      → held (works o) false (after_open lower {F = F} {S = S} w o).1
        ≡ is_ok (after_open lower {F = F} {S = S} w o).0
  unfolding after_open
  after_open-held w none = after_status-held w w.status
  after_open-held w (some e) = refl

  -- However opening, the status check and the derivation end, the first device is held afterwards
  -- exactly if a signer is returned: no error leaves it open.
  pub new_with_hub_factory-held :
      (w : LedgerWallet) (ws : List LedgerWallet)
      → held (works w.opens) false (new_with_hub_factory lower {F = F} {S = S} (ok (w ∷ ws))).1
        ≡ is_ok (new_with_hub_factory lower {F = F} {S = S} (ok (w ∷ ws))).0
  unfolding new_with_hub_factory
  new_with_hub_factory-held w ws = after_open-held w w.opens

  module _ (hex : Hex F) (curve : Curve) where
    -- What becomes of the signer, and the calls on the device.
    unfoldable pub step : Use → LedgerSigner → LedgerSigner × List DeviceCall
    step (sign_it before after unsigned) signer =
        (signer, (sign_with_cancel lower {F = F} {S = S} hex curve before after signer unsigned).1)
    step release signer =
        let (result, next, calls) = close lower {F = F} {S = S} signer in (next, calls)

    unfoldable pub run : List Use → LedgerSigner → List DeviceCall
    run [] signer = []
    run (u ∷ us) signer = let (next, calls) = step u signer in calls ++ run us next

    step-closed :
        (u : Use) (signer : LedgerSigner) → signer.closed ≡ true → step u signer ≡ (signer, [])
    unfolding step close sign_with_cancel
    step-closed (sign_it before after unsigned) signer h = simp h
    step-closed release signer h = simp h

    run-closed : (us : List Use) (signer : LedgerSigner) → signer.closed ≡ true → run us signer ≡ []
    unfolding run
    run-closed [] signer h = refl
    run-closed (u ∷ us) signer h = rw (step-closed u signer h) (run-closed us signer h)

    -- A step on an open signer leaves it open and does not close the device, or closes both.
    step-open :
        (u : Use) (signer : LedgerSigner)
        → signer.closed ≡ false
        → ((step u signer).0 ≡ signer)
          ⊎ (((step u signer).0.closed ≡ true) × ((step u signer).1 ≡ close_it ∷ []))
    unfolding step close
    step-open (sign_it before after unsigned) signer h = inl refl
    step-open release signer h = inr (rw h refl, rw h refl)

    -- After the first `close` of an open signer, no operation calls the device again: neither
    -- signing nor another `close`.
    pub run-release :
        (us : List Use) (signer : LedgerSigner)
        → signer.closed ≡ false
        → run (release ∷ us) signer ≡ close_it ∷ []
    unfolding run step close
    run-release us signer h =
        let shut : LedgerSigner = record signer { closed = true } in
        rw h (ap (λ calls. close_it ∷ calls) (run-closed us shut refl))

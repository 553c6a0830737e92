-- ===== src/Cli/Errors/Codes.antt =====
-- Which errors end the program with which code.
use eth_utils.Prelude.{◌≤◌, ◌≡◌, ◌↔◌, refl, ◌⊎◌, inl, inr, arith}
use eth_utils.Prelude.Bytes.{Bytes}
use eth_utils.Core.Deposit
use eth_utils.Core.Deposit.{DepositError}
use eth_utils.Tx.Types
use eth_utils.Tx.Types.{TxError}
use eth_utils.Signer.Errors
use eth_utils.Signer.Errors.{SignerError, sentinel}
use eth_utils.Keystore.Errors.{KeystoreError}
use eth_utils.Cli.Errors.{
  AppError, keystore_code, deposit_code, tx_code, sentinel_code, unwrap_context, code_of,
  exit_code_for,
}

-- The user gave up: an interrupt, or a refusal on the device.
pub data IsRefusal {F S : Type 0} : SignerError F S → Type 0 where
  user_rejected : IsRefusal Errors.user_rejected
  cancelled : IsRefusal Errors.cancelled
  context : {e : SignerError F S} (m : Bytes) → IsRefusal e → IsRefusal (Errors.context m e)

-- The program was given up by its user, or a command asks for this code, under any messages.
pub data IsAbort {F S : Type 0} : AppError F S → Type 0 where
  aborted : (e : Bytes) → IsAbort (AppError.aborted e)
  deposit_cancelled : IsAbort (AppError.deposit Deposit.cancelled)
  tx_cancelled : IsAbort (AppError.tx Types.cancelled)
  refused : {e : SignerError F S} → IsRefusal e → IsAbort (AppError.signer e)
  asked : (m : Bytes) → IsAbort (AppError.exit m 4)
  context : {e : AppError F S} (m : Bytes) → IsAbort e → IsAbort (AppError.context m e)

-- The error that the messages stand in front of leaves with a code of its own.
unfoldable pub AsksCode : {F S : Type 0} → AppError F S → Type 0
AsksCode (AppError.exit m code) = Unit
AsksCode (AppError.context m e) = AsksCode e
AsksCode _ = ⊥

keystore_bounds :
    {F S : Type 0} (e : KeystoreError F S) → (2 ≤ keystore_code e) × (keystore_code e ≤ 3)
unfolding keystore_code
keystore_bounds (KeystoreError.wrong_passphrase m) = omega arith
keystore_bounds (KeystoreError.encrypt_failed m) = omega arith
keystore_bounds _ = omega arith

deposit_bounds : {F : Type 0} (e : DepositError F) → (1 ≤ deposit_code e) × (deposit_code e ≤ 5)
unfolding deposit_code
deposit_bounds Deposit.cancelled = omega arith
deposit_bounds _ = omega arith

tx_bounds : (e : TxError) → (1 ≤ tx_code e) × (tx_code e ≤ 5)
unfolding tx_code
tx_bounds Types.cancelled = omega arith
tx_bounds _ = omega arith

module _ {F S : Type 0} where
  sentinel_bounds : (e : SignerError F S) → (1 ≤ sentinel_code e) × (sentinel_code e ≤ 4)
  unfolding sentinel_code
  sentinel_bounds Errors.user_rejected = omega arith
  sentinel_bounds _ = omega arith

  refusal : (e : SignerError F S) → sentinel_code (sentinel e) ≡ 4 → IsRefusal e
  unfolding sentinel_code sentinel
  refusal Errors.user_rejected h = user_rejected
  refusal Errors.cancelled h = cancelled
  refusal (Errors.context m e) h = context m (refusal e h)
  refusal (Errors.key_file e) h = absurd (omega arith)
  refusal (Errors.msg m) h = absurd (omega arith)
  refusal Errors.no_device h = absurd (omega arith)
  refusal Errors.app_not_open h = absurd (omega arith)
  refusal Errors.invalid_key h = absurd (omega arith)
  refusal Errors.chain_id_mismatch h = absurd (omega arith)
  refusal Errors.invalid_chain_id h = absurd (omega arith)
  refusal Errors.signer_closed h = absurd (omega arith)
  refusal Errors.ledger_not_supported h = absurd (omega arith)

  abort : (e : AppError F S) → exit_code_for e ≡ 4 → IsAbort e
  unfolding exit_code_for unwrap_context code_of keystore_code deposit_code tx_code
  abort (AppError.exit m code) h = rw h (asked m)
  abort (AppError.context m e) h = context m (abort e h)
  abort (AppError.aborted m) h = aborted m
  abort (AppError.signer e) h = refused (refusal e h)
  abort (AppError.deposit Deposit.cancelled) h = deposit_cancelled
  abort (AppError.deposit _) h = absurd (omega arith)
  abort (AppError.tx Types.cancelled) h = tx_cancelled
  abort (AppError.tx _) h = absurd (omega arith)
  abort (AppError.keystore e) h = absurd (omega (arith, keystore_bounds e))
  abort _ h = absurd (omega arith)

  code_of_refusal : {e : SignerError F S} → IsRefusal e → sentinel_code (sentinel e) ≡ 4
  unfolding sentinel_code sentinel
  code_of_refusal user_rejected = refl
  code_of_refusal cancelled = refl
  code_of_refusal (context m r) = code_of_refusal r

  code_of_abort : {e : AppError F S} → IsAbort e → exit_code_for e ≡ 4
  unfolding exit_code_for unwrap_context code_of deposit_code tx_code
  code_of_abort (aborted m) = refl
  code_of_abort deposit_cancelled = refl
  code_of_abort tx_cancelled = refl
  code_of_abort (refused r) = code_of_refusal r
  code_of_abort (asked m) = refl
  code_of_abort (context m a) = code_of_abort a

  -- The program ends with the code 4 exactly if, under any number of messages, the error is an
  -- abort, a cancelled deposit or transaction, a signer's cancellation or refusal on the device,
  -- or an exit with this code.
  pub exit_code_for-IsAbort_iff : (e : AppError F S) → (exit_code_for e ≡ 4) ↔ IsAbort e
  exit_code_for-IsAbort_iff e = (abort e, code_of_abort)

  -- Unless a command asks for a code of its own, under any number of messages, the code is between
  -- 1 and 5, and never 0.
  pub exit_code_for_range :
      (e : AppError F S) → AsksCode e ⊎ ((1 ≤ exit_code_for e) × (exit_code_for e ≤ 5))
  unfolding exit_code_for unwrap_context code_of deposit_code tx_code AsksCode
  exit_code_for_range (AppError.exit m code) = inl tt
  exit_code_for_range (AppError.context m e) = exit_code_for_range e
  exit_code_for_range (AppError.signer e) = inr (omega (arith, sentinel_bounds (sentinel e)))
  exit_code_for_range (AppError.keystore e) = inr (omega (arith, keystore_bounds e))
  exit_code_for_range (AppError.deposit e) = inr (deposit_bounds e)
  exit_code_for_range (AppError.tx e) = inr (tx_bounds e)
  exit_code_for_range _ = inr (omega arith)

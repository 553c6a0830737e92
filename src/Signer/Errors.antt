-- ===== src/Signer/Errors.antt =====
-- The errors of the signer (crates/ethernal-signer/src/errors.rs). A formatted message is a
-- constructor with the values that it shows. `F` is `FromHexError` and `S` is `SecretFileError`.
use eth_utils.Prelude.Bytes.{Bytes}

pub data Message (F : Type 0) : Type 0 where
  invalid_value invalid_max_fee invalid_max_priority_fee : Bytes → Message F
  max_fee_required max_priority_fee_required : Message F
  invalid_data : F → Message F
  sign_failed recovery_failed device_derive_failed device_sign_failed device_close_failed :
      Bytes → Message F
  sender_mismatch : Bytes → Bytes → Message F

pub data SignerError (F S : Type 0) : Type 0 where
  user_rejected no_device app_not_open invalid_key chain_id_mismatch : SignerError F S
  invalid_chain_id signer_closed ledger_not_supported cancelled : SignerError F S
  key_file : S → SignerError F S
  msg : Message F → SignerError F S
  context : Bytes → SignerError F S → SignerError F S

module _ {F S : Type 0} where
  unfoldable pub sentinel : SignerError F S → SignerError F S
  sentinel (context m source) = sentinel source
  sentinel user_rejected = user_rejected
  sentinel no_device = no_device
  sentinel app_not_open = app_not_open
  sentinel invalid_key = invalid_key
  sentinel chain_id_mismatch = chain_id_mismatch
  sentinel invalid_chain_id = invalid_chain_id
  sentinel signer_closed = signer_closed
  sentinel ledger_not_supported = ledger_not_supported
  sentinel cancelled = cancelled
  sentinel (key_file e) = key_file e
  sentinel (msg m) = msg m

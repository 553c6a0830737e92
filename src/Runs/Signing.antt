-- ===== src/Runs/Signing.antt =====
-- The theorems on the local and the Ledger signer at concrete inputs.
use eth_utils.Prelude.{
  ◌*◌, ◌^◌, ◌<◌, ◌≡◌, refl, true, false, Option, none, some, List, [], ◌∷◌, ◌++◌, Result, ok, err,
  length, replicate, drop, All, All-replicate, arith,
}
use eth_utils.Prelude.Bytes.{
  Bytes, IsByte, text, strip_prefix, bytes_eq, hex_digit, lower_digit, digits_be, skip_zeros,
}
use eth_utils.Hex.Reference.{reference}
use eth_utils.Core.Network.{lookup, hoodi}
use eth_utils.Core.Network.Laws.{lookup_lengths}
use eth_utils.Tx.Types.{RpcClientError, UnsignedTx}
use eth_utils.Tx.Client.Receipts.{send_raw_transaction_iff}
use eth_utils.Tx.Builder.Build.{unsigned_of}
use eth_utils.Tx.Client.{send_raw_transaction, without_0x}
use eth_utils.Signer.Errors.{signer_closed}
use eth_utils.Signer.Parse.{ParsedTx, parse_unsigned_tx, hex_to_address}
use eth_utils.Signer.Parse.Built.{parse_unsigned_tx-unsigned_of}
use eth_utils.Signer.Rlp.{
  uint_be, trim_leading_zeros, header, is_single, encode_str, encode_list, base_fields,
  eip1559_signing_payload, eip1559_envelope,
}
use eth_utils.Signer.Rlp.Transaction.{IsEncodable, read_transaction}
use eth_utils.Signer.Signed.{
  SignedTx, Curve, pubkey_address, recover_address, eip55_checksum, build_signed_tx,
}
use eth_utils.Signer.Signed.Contract.{IsSigned, send_raw_transaction-IsSigned}
use eth_utils.Signer.Signed.Address.{
  validate_eip55_address, check_address, or_whole, validate_eip55_address-hex_to_address,
}
use eth_utils.Signer.Signed.{
  checksum_loop, checksum_digit, hash_nibble, is_alphabetic, to_ascii_uppercase,
}
use eth_utils.Signer.Local
use eth_utils.Signer.Local.{
  LocalSigner, normalize_low_s, normalized, check_sender, finish, signing_point,
}
use eth_utils.Signer.Local.Lifecycle
use eth_utils.Signer.Local.Lifecycle.{
  IsSignedByKey, sign_with_cancel-IsSignedByKey, IsErased, after_all, close-after_all,
}
use eth_utils.Signer.Ledger
use eth_utils.Signer.Ledger.{
  LedgerSignature, LedgerWallet, LedgerSigner, DeviceCall, new_with_hub_factory, sign_tx, close_it,
  ask_device, after_device, assemble,
}
use eth_utils.Signer.Ledger.Device.{
  held, is_ok, new_with_hub_factory-held, run, release, run-release,
}
use eth_utils.Signer.Ledger.Signing.{sign_with_cancel-IsSigned}
use eth_utils.Runs.Signer.{config, fields, chain_set}

-- The key 7 … 7, whose point and signatures do not depend on anything.
abbrev curve : Curve
curve = record {
  keccak256 = λ b. replicate 32 0x90;
  public_point = λ key. some (replicate 65 4);
  sign_prehash =
      λ key hash. ok (record { r = replicate 32 0x80; s = replicate 32 1; is_y_odd = true });
  normalize_s = λ sig. none;
  recover_point = λ hash r s v. ok (replicate 65 4);
}

abbrev unsigned : UnsignedTx
unsigned = unsigned_of reference config (replicate 4 0x22) fields

abbrev parsed : ParsedTx
parsed = record {
  chain_id = (lookup hoodi).chain_id;
  value = 32 * 10 ^ 18;
  max_fee = 41_000_000_000;
  tip = 1_000_000_000;
  to = (lookup hoodi).deposit_contract_address;
  calldata = replicate 4 0x22;
}

parses : parse_unsigned_tx {S = Bytes} reference unsigned ≡ ok parsed
parses =
    parse_unsigned_tx-unsigned_of reference config (replicate 4 0x22) fields chain_set
      (lookup_lengths hoodi).0 (lookup_lengths hoodi).1 (All-replicate IsByte 4 0x22 (omega arith))
      (omega arith) (omega arith)

abbrev envelope : Bytes
envelope = eip1559_envelope parsed 7 250_000 1 (replicate 32 0x80) (replicate 32 1)

abbrev pub signed : SignedTx
signed =
    build_signed_tx reference curve unsigned (replicate 20 0x90) envelope (replicate 32 0x80)
      (replicate 32 1) 1

abbrev key_signer : LocalSigner
key_signer = record { key = replicate 32 7; closed = false }

signs_locally :
    Local.sign_with_cancel {S = Bytes} reference curve false key_signer unsigned ≡ ok signed
unfolding Local.sign_with_cancel signing_point normalize_low_s normalized finish check_sender
    recover_address pubkey_address bytes_eq
signs_locally = rw parses refl

sign_locally_example : IsSignedByKey Bytes reference curve false key_signer unsigned signed
sign_locally_example =
    sign_with_cancel-IsSignedByKey Bytes reference curve false key_signer unsigned signed
      signs_locally

close-after_all_example :
    IsErased (
      after_all
        (Lifecycle.sign_it false unsigned ∷ Lifecycle.close_it ∷ [])
        (Local.close key_signer))
    × (Local.sign_with_cancel {S = Bytes} reference curve false
          (after_all
            (Lifecycle.sign_it false unsigned ∷ Lifecycle.close_it ∷ [])
            (Local.close key_signer))
          unsigned
        ≡ err signer_closed)
close-after_all_example =
    close-after_all reference curve key_signer
      (Lifecycle.sign_it false unsigned ∷ Lifecycle.close_it ∷ []) false unsigned refl

abbrev wallet : LedgerWallet
wallet = record {
  opens = none;
  status = some (text "6e00");
  derives = none;
  signs = λ p nonce gas. ok (record { v = 1; r = replicate 32 0x80; s = replicate 32 1 });
  closes = none;
}

abbrev device_signer : LedgerSigner
device_signer = record { wallet = wallet; closed = false }

abbrev same : Bytes → Bytes
same s = s

signs_on_device :
    (Ledger.sign_with_cancel same {S = Bytes} reference curve false false device_signer unsigned).0
    ≡ ok signed
unfolding Ledger.sign_with_cancel ask_device after_device assemble recover_address pubkey_address
signs_on_device = rw parses refl

new_with_hub_factory_example :
    held true false (new_with_hub_factory same {F = Unit {0}} {S = Bytes} (ok (wallet ∷ []))).1
    ≡ is_ok (new_with_hub_factory same {F = Unit {0}} {S = Bytes} (ok (wallet ∷ []))).0
new_with_hub_factory_example = new_with_hub_factory-held same (Unit {0}) Bytes wallet []

run-release_example :
    run same (Unit {0}) Bytes reference curve (release ∷ release ∷ []) device_signer ≡ close_it ∷ []
run-release_example =
    run-release same (Unit {0}) Bytes reference curve (release ∷ []) device_signer refl

abbrev device_calls : List DeviceCall
device_calls =
    (Ledger.sign_with_cancel same {S = Bytes} reference curve false false device_signer unsigned).1

sign_on_device_example :
    (device_signer.closed ≡ false)
    × (false ≡ false)
    × (false ≡ false)
    × ((from : Bytes) × (is : IsSigned Bytes reference curve unsigned from signed) × (wallet.signs
            is.parsed unsigned.nonce unsigned.gas
          ≡ ok (record { v = is.y_parity; r = is.r; s = is.s }))
        × (device_calls ≡ sign_tx is.parsed unsigned.nonce unsigned.gas ∷ []))
sign_on_device_example =
    sign_with_cancel-IsSigned same (Unit {0}) Bytes reference curve false false device_signer
      unsigned signed signs_on_device

abbrev address : Bytes
address = replicate 20 0xAB

-- Every first digit of a byte is in upper case.
abbrev checksummed : Bytes
checksummed = text "0xAbAbAbAbAbAbAbAbAbAbAbAbAbAbAbAbAbAbAbAb"

accepted : validate_eip55_address reference curve checksummed ≡ ok address
unfolding validate_eip55_address check_address or_whole strip_prefix eip55_checksum checksum_loop
    checksum_digit hash_nibble is_alphabetic to_ascii_uppercase bytes_eq hex_digit lower_digit
accepted = refl

validate_eip55_address_example :
    (length address ≡ 20)
    × (checksummed ≡ eip55_checksum reference curve address)
    × (hex_to_address checksummed ≡ address)
validate_eip55_address_example =
    validate_eip55_address-hex_to_address reference curve checksummed address accepted

recovered :
    recover_address reference curve
      (curve.keccak256 (eip1559_signing_payload parsed unsigned.nonce unsigned.gas))
      (replicate 32 0x80)
      (replicate 32 1)
      1
    ≡ ok (replicate 20 0x90)
unfolding recover_address pubkey_address
recovered = refl

abbrev is_signed : IsSigned Bytes reference curve unsigned (replicate 20 0x90) signed
is_signed = record {
  parsed = parsed;
  r = replicate 32 0x80;
  s = replicate 32 1;
  y_parity = 1;
  parses = parses;
  recovers = recovered;
  content = refl;
}

-- A node that answers every post with one hash.
abbrev call : Bytes → Result RpcClientError (Option Bytes)
call b = ok (some (text "0xaa"))

encodable : IsEncodable parsed 7 250_000
unfolding lookup
encodable = record {
  chain_id = omega arith;
  nonce = omega arith;
  gas = omega arith;
  value = omega arith;
  max_fee = omega arith;
  tip = omega arith;
  to = (lookup_lengths hoodi).0;
  calldata = omega arith;
}

envelope_size : length envelope < 2 ^ 64
unfolding eip1559_envelope encode_list base_fields encode_str is_single header uint_be
    trim_leading_zeros digits_be skip_zeros lookup
envelope_size = omega arith

envelope_bytes : All IsByte envelope
unfolding eip1559_envelope encode_list base_fields encode_str is_single header uint_be
    trim_leading_zeros digits_be skip_zeros lookup
envelope_bytes = omega arith

decoded : reference.decode (without_0x signed.raw_rlp) ≡ ok (2 ∷ drop 1 envelope)
unfolding build_signed_tx without_0x strip_prefix eip1559_envelope
decoded = reference.decode_encode envelope envelope_bytes

sent : send_raw_transaction reference call signed.raw_rlp ≡ ok (text "0xaa")
sent =
    (send_raw_transaction_iff reference call signed.raw_rlp (text "0xaa")).1
      (drop 1 envelope, decoded, refl)

send_signed_example :
    (posted : Bytes) × (call (text "0x" ++ reference.encode posted) ≡ ok (some (text "0xaa")))
    × (read_transaction 3 posted
        ≡ some (record {
          parsed = parsed;
          nonce = 7;
          gas = 250_000;
          signature =
              uint_be 1
              ∷ trim_leading_zeros (replicate 32 0x80)
              ∷ trim_leading_zeros (replicate 32 1)
              ∷ [];
        }))
send_signed_example =
    send_raw_transaction-IsSigned Bytes reference curve call unsigned (replicate 20 0x90) signed
      is_signed encodable refl refl envelope_size envelope_bytes (text "0xaa") sent

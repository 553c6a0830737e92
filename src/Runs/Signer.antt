-- ===== src/Runs/Signer.antt =====
-- The theorems on the crate ethernal-signer at concrete inputs.
use eth_utils.Prelude.{
  ◌*◌, ◌^◌, ◌<◌, ◌≡◌, ◌≢◌, refl, none, some, [], ◌∷◌, ok, length, replicate, All-replicate, arith,
}
use eth_utils.Prelude.Bytes.{IsByte, digits_be, skip_zeros}
use eth_utils.Hex.Reference.{reference}
use eth_utils.Core.Network.{lookup, hoodi}
use eth_utils.Core.Network.Laws.{lookup_lengths}
use eth_utils.Prelude.{All-replicate}
use eth_utils.Prelude.Bytes.{Bytes, IsByte, value_be}
use eth_utils.Tx.Types.{BuildConfig, Resolved}
use eth_utils.Tx.Builder.Build.{unsigned_of}
use eth_utils.Signer.Parse.{ParsedTx, parse_unsigned_tx}
use eth_utils.Signer.Parse.Built.{parse_unsigned_tx-unsigned_of}
use eth_utils.Signer.Rlp.{
  uint_be, trim_leading_zeros, header, is_single, encode_str, encode_list, base_fields,
  eip1559_signing_payload, eip1559_envelope,
}
use eth_utils.Signer.Rlp.Transaction.{
  IsEncodable, read_transaction, read_transaction-eip1559_signing_payload,
  read_transaction-eip1559_envelope, IsIntegerText,
}

abbrev pub config : BuildConfig
config = record {
  network_params = lookup hoodi;
  rpc = none;
  from = replicate 20 0;
  gas_limit = 250_000;
  max_fee_per_gas = some 41_000_000_000;
  max_priority_fee_per_gas = some 1_000_000_000;
  nonce = some 7;
}

pub chain_set : (lookup hoodi).chain_id ≢ 0
unfolding lookup
chain_set e = omega arith

abbrev pub fields : Resolved
fields = record { gas_limit = 250_000; max_fee = 41_000_000_000; tip = 1_000_000_000; nonce = 7 }

parse_unsigned_tx_example :
    parse_unsigned_tx {S = Unit {0}} reference
      (unsigned_of reference config (replicate 420 1) fields)
    ≡ ok (record {
      chain_id = (lookup hoodi).chain_id;
      value = 32 * 10 ^ 18;
      max_fee = 41_000_000_000;
      tip = 1_000_000_000;
      to = (lookup hoodi).deposit_contract_address;
      calldata = replicate 420 1;
    })
parse_unsigned_tx_example =
    parse_unsigned_tx-unsigned_of reference config (replicate 420 1) fields chain_set
      (lookup_lengths hoodi).0 (lookup_lengths hoodi).1 (All-replicate IsByte 420 1 (omega arith))
      (omega arith) (omega arith)

abbrev parsed : ParsedTx
parsed = record {
  chain_id = 560_048;
  value = 32 * 10 ^ 18;
  max_fee = 41_000_000_000;
  tip = 1_000_000_000;
  to = replicate 20 0x42;
  calldata = replicate 4 0x22;
}

encodable : IsEncodable parsed 7 250_000
encodable = record {
  chain_id = omega arith;
  nonce = omega arith;
  gas = omega arith;
  value = omega arith;
  max_fee = omega arith;
  tip = omega arith;
  to = refl;
  calldata = omega arith;
}

payload_size : length (eip1559_signing_payload parsed 7 250_000) < 2 ^ 64
unfolding eip1559_signing_payload encode_list base_fields encode_str is_single header uint_be
    digits_be skip_zeros
payload_size = omega arith

envelope_size :
    length (eip1559_envelope parsed 7 250_000 1 (replicate 32 0x80) (0 ∷ replicate 31 0x01))
    < 2 ^ 64
unfolding eip1559_envelope encode_list base_fields encode_str is_single header uint_be
    trim_leading_zeros digits_be skip_zeros
envelope_size = omega arith

signing_payload_example :
    read_transaction 0 (eip1559_signing_payload parsed 7 250_000)
    ≡ some (record { parsed = parsed; nonce = 7; gas = 250_000; signature = [] })
signing_payload_example =
    read_transaction-eip1559_signing_payload parsed 7 250_000 encodable payload_size

envelope_example :
    (y_text : Bytes) × (r_text : Bytes) × (s_text : Bytes) × (read_transaction 3
        (eip1559_envelope parsed 7 250_000 1 (replicate 32 0x80) (0 ∷ replicate 31 0x01))
      ≡ some (record {
        parsed = parsed;
        nonce = 7;
        gas = 250_000;
        signature = y_text ∷ r_text ∷ s_text ∷ [];
      }))
    × IsIntegerText 1 y_text
    × IsIntegerText (value_be 256 0 (replicate 32 0x80)) r_text
    × IsIntegerText (value_be 256 0 (0 ∷ replicate 31 0x01)) s_text
envelope_example =
    read_transaction-eip1559_envelope parsed 7 250_000 1 (replicate 32 0x80) (0 ∷ replicate 31 0x01)
      encodable (omega arith) refl refl (All-replicate IsByte 32 0x80 (omega arith))
      (omega arith, All-replicate IsByte 31 0x01 (omega arith)) envelope_size

-- ===== src/Runs/Core.antt =====
-- The theorems on the crate ethernal-core at concrete inputs.
use eth_utils.Prelude.{
  ℕ, zero, suc, ◌^◌, ◌<◌, ◌≡◌, ◌↔◌, ◌⊎◌, refl, ap, sym, ok-injective, false, some, List, [], ◌∷◌,
  ok, length, replicate, arith,
}
use eth_utils.Prelude.Bytes.{Bytes, text, strip_prefix, hex_digit}
use eth_utils.Hex.Reference.{reference}
use eth_utils.Core.Ssz.{DepositMessage, DepositData, merkleize, data_hash_tree_root}
use eth_utils.Core.Ssz.Merkle.{tree_root, leaves, merkleize-tree_root}
use eth_utils.Core.Ssz.Roots.{data_root, data_hash_tree_root_lem}
use eth_utils.Core.Ssz.Binding.{Collision, message_hash_tree_root_binds}
use eth_utils.Core.Deposit.{entry_at, invalid_hex}
use eth_utils.Core.Deposit.Generate.{generate}
use eth_utils.Core.Deposit.Generate.Sound.{AreEntriesFor, entry_for}
use eth_utils.Core.Deposit.Generate.Batch.{generate_iff}
use eth_utils.Core.Deposit.Json.{
  JsonEntryIn, entry_from_raw, entries_from_json, entries_loop, decode_fixed_hex, decode_hex,
}
use eth_utils.Core.Deposit.Json.Laws.{FirstBad, entries_from_json_error}
use eth_utils.Core.Deposit.Validate.{validate}
use eth_utils.Core.Deposit.Validate.Exact.{IsMeaningful, validate-IsMeaningful_iff}
use eth_utils.Core.Output.{as_read, to_json_entry, marshal_entries}
use eth_utils.Core.Output.RoundTrip.{entries_from_json-marshal_entries}
use eth_utils.Runs.Data.{
  last_word, length-last_word, counted, put_objects, key, signature, credentials, signs, accepts,
  generator, request, deposit, sized_deposit,
}

small_powers : (j : ℕ) → j < 2 → 2 ^ j < 3
small_powers zero h = omega arith
small_powers (suc zero) h = omega arith
small_powers (suc (suc j)) h = absurd (omega arith)

one_power : (j : ℕ) → j < 1 → 2 ^ j < 2
one_power zero h = omega arith
one_power (suc j) h = absurd (omega arith)

abbrev three : List Bytes
three = replicate 32 1 ∷ replicate 32 2 ∷ replicate 32 3 ∷ []

merkleize-tree_root_example :
    merkleize last_word three 0 ≡ some (tree_root last_word 2 (leaves last_word 2 three))
merkleize-tree_root_example =
    merkleize-tree_root last_word three 0 2 (omega arith) (omega arith) small_powers

abbrev message : DepositMessage
message = record { pubkey = key; withdrawal_credentials = credentials; amount = 32_000_000_000 }

abbrev data_of_key : DepositData
data_of_key = record {
  pubkey = key;
  withdrawal_credentials = credentials;
  amount = 32_000_000_000;
  signature = signature;
}

data_hash_tree_root_example :
    data_hash_tree_root last_word data_of_key ≡ some (data_root last_word data_of_key)
data_hash_tree_root_example = data_hash_tree_root_lem last_word data_of_key refl refl

message_binds_example : (message ≡ message) ⊎ Collision last_word
message_binds_example =
    message_hash_tree_root_binds last_word length-last_word message message
      (record { pubkey_size = refl; credentials_size = refl; amount_fits = omega arith })
      (record { pubkey_size = refl; credentials_size = refl; amount_fits = omega arith }) refl

validate-IsMeaningful_example : (validate {E = Unit {0}} deposit ≡ ok tt) ↔ IsMeaningful deposit
validate-IsMeaningful_example = validate-IsMeaningful_iff deposit

sizes : (r s : Bytes) → signs.sign r ≡ ok s → length s ≡ 96
sizes r s h = ap length (sym (ok-injective h))

generate_example :
    (generate last_word reference signs accepts generator request (λ i. false)
      ≡ ok (entry_for last_word signs accepts generator request key signature ∷ []))
    ↔ ((request.network ≡ generator.params.name)
        × ((j : ℕ) → j < 1 → false ≡ false)
        × AreEntriesFor last_word signs accepts generator request
            (key ∷ [])
            (entry_for last_word signs accepts generator request key signature ∷ []))
generate_example =
    generate_iff last_word reference signs accepts generator request sizes (λ i. false) key refl
      (entry_for last_word signs accepts generator request key signature ∷ []) (refl, tt)

entries_from_json_example :
    entries_from_json reference counted.from_slice
      (1 ∷ put_objects (to_json_entry reference deposit ∷ []))
    ≡ ok (deposit ∷ [])
entries_from_json_example =
    entries_from_json-marshal_entries reference counted (deposit ∷ [])
      (1 ∷ put_objects (to_json_entry reference deposit ∷ [])) (sized_deposit, tt)
      (unfold marshal_entries in refl)

abbrev bad_object : JsonEntryIn
bad_object = record (as_read (to_json_entry reference deposit)) { pubkey = text "zz" }

entries_error_example :
    FirstBad reference 0 (bad_object ∷ []) (entry_at 0 (invalid_hex (text "pubkey") (text "zz") tt))
entries_error_example =
    entries_from_json_error reference (λ json. ok (bad_object ∷ [])) (text "[]") (bad_object ∷ [])
      (entry_at 0 (invalid_hex (text "pubkey") (text "zz") tt)) refl
      (unfold entries_from_json entries_loop entry_from_raw decode_fixed_hex decode_hex strip_prefix
          hex_digit in
        refl)

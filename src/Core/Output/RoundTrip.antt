-- ===== src/Core/Output/RoundTrip.antt =====
-- The entries that are written are the entries that are read.
use eth_utils.Prelude.{◌≡◌, refl, ap, ◌∙◌, List, [], ◌∷◌, map, ok, All}
use eth_utils.Prelude.Bytes.{Bytes, text}
use eth_utils.Hex.{Hex}
use eth_utils.Core.Deposit.{Entry, IsSizedEntry}
use eth_utils.Core.Deposit.Json.{entry_from_raw, entries_from_json}
use eth_utils.Core.Deposit.Json.Laws.{decode_fixed_hex-encode, entries_loop_ok}
use eth_utils.Core.Output.{Serde, as_read, to_json_entry, marshal_entries}

module _ {E : Type 0} (hex : Hex E) where
  pub entry_from_raw-to_json_entry :
      (e : Entry) → IsSizedEntry e → entry_from_raw hex (as_read (to_json_entry hex e)) ≡ ok e
  unfolding entry_from_raw to_json_entry
  entry_from_raw-to_json_entry e s = rw (
    decode_fixed_hex-encode hex (text "pubkey") e.pubkey 48 s.pubkey_size s.pubkey_bytes,
    decode_fixed_hex-encode hex (text "withdrawal_credentials") e.withdrawal_credentials 32
        s.credentials_size s.credentials_bytes,
    decode_fixed_hex-encode hex (text "signature") e.signature 96 s.signature_size
        s.signature_bytes,
    decode_fixed_hex-encode hex (text "deposit_message_root") e.deposit_message_root 32
        s.message_root_size s.message_root_bytes,
    decode_fixed_hex-encode hex (text "deposit_data_root") e.deposit_data_root 32 s.data_root_size
        s.data_root_bytes,
    decode_fixed_hex-encode hex (text "fork_version") e.fork_version 4 s.fork_version_size
        s.fork_version_bytes,
  )

  map-id : (es : List Entry) → map (λ e. e) es ≡ es
  map-id [] = refl
  map-id (e ∷ es) = ap (λ t. e ∷ t) (map-id es)

  map-as_read :
      (es : List Entry)
      → map as_read (map (to_json_entry hex) es) ≡ map (λ e. as_read (to_json_entry hex e)) es
  map-as_read [] = refl
  map-as_read (e ∷ es) = ap (λ t. as_read (to_json_entry hex e) ∷ t) (map-as_read es)

  All-read :
      (es : List Entry)
      → All IsSizedEntry es
      → All (λ e. entry_from_raw hex (as_read (to_json_entry hex e)) ≡ ok e) es
  All-read [] h = tt
  All-read (e ∷ es) (he, h) = (entry_from_raw-to_json_entry e he, All-read es h)

  -- A deposit data file that was written from entries of the source's array sizes is read back as
  -- the same entries, in order.
  pub entries_from_json-marshal_entries :
      (serde : Serde) (es : List Entry) (json : Bytes)
      → All IsSizedEntry es
      → marshal_entries hex serde es ≡ ok json
      → entries_from_json hex serde.from_slice json ≡ ok es
  unfolding entries_from_json marshal_entries
  entries_from_json-marshal_entries serde es json sizes written =
      rw (serde.from_slice-to_vec (map (to_json_entry hex) es) json written, map-as_read es)
        (entries_loop_ok hex 0 es (λ e. as_read (to_json_entry hex e)) (λ e. e) []
            (All-read es sizes)
          ∙ ap ok (map-id es))

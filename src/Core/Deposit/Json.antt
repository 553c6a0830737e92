-- ===== src/Core/Deposit/Json.antt =====
-- The JSON read side of deposit.rs. `serde_json` is a parameter: `from_slice` and `from_slice_one`
-- give the decoded objects, or the message of the error.
pub mod Laws
use eth_utils.Prelude.{
  ℕ, ◌+◌, Option, none, some, List, [], ◌∷◌, ◌++◌, Result, ok, err, ◌>>=◌, map_err, length, ◌==◌,
  if◌then◌else◌,
}
use eth_utils.Prelude.Bytes.{Bytes, text, strip_prefix}
use eth_utils.Hex.{Hex}
use eth_utils.Core.Deposit.Errors.{
  DepositError, invalid_hex, bad_length, unmarshal_entry, unmarshal_entries, entry_at,
}
use eth_utils.Core.Deposit.Types.{Entry}

pub record JsonEntryIn : Type 0 where
  pub pubkey : Bytes
  pub withdrawal_credentials : Bytes
  pub amount : ℕ
  pub signature : Bytes
  pub deposit_message_root : Bytes
  pub deposit_data_root : Bytes
  pub fork_version : Bytes
  pub network_name : Bytes
  pub deposit_cli_version : Bytes

-- The text behind an optional `0x` or `0X`.
without_prefix : Option Bytes → Option Bytes → Bytes → Bytes
without_prefix (some t) u s = t
without_prefix none (some u) s = u
without_prefix none none s = s

module _ {E : Type 0} (hex : Hex E) where
  unfoldable pub decode_hex : Bytes → Result E Bytes
  unfolding without_prefix
  decode_hex s =
      hex.decode (without_prefix (strip_prefix (text "0x") s) (strip_prefix (text "0X") s) s)

  unfoldable pub decode_fixed_hex : Bytes → Bytes → ℕ → Result (DepositError E) Bytes
  decode_fixed_hex field s want_len = do
    b ← map_err (invalid_hex field s) (decode_hex s)
    if length b == want_len then ok b else err (bad_length field (length b) want_len)

  unfoldable pub entry_from_raw : JsonEntryIn → Result (DepositError E) Entry
  entry_from_raw raw = do
    pubkey ← decode_fixed_hex (text "pubkey") raw.pubkey 48
    wc ← decode_fixed_hex (text "withdrawal_credentials") raw.withdrawal_credentials 32
    sig ← decode_fixed_hex (text "signature") raw.signature 96
    msg_root ← decode_fixed_hex (text "deposit_message_root") raw.deposit_message_root 32
    data_root ← decode_fixed_hex (text "deposit_data_root") raw.deposit_data_root 32
    fv ← decode_fixed_hex (text "fork_version") raw.fork_version 4
    ok (record {
      pubkey = pubkey;
      withdrawal_credentials = wc;
      amount = raw.amount;
      signature = sig;
      deposit_message_root = msg_root;
      deposit_data_root = data_root;
      fork_version = fv;
      network_name = raw.network_name;
      deposit_cli_version = raw.deposit_cli_version;
    })

  -- The loop over the objects that are left, from index `i` on.
  unfoldable pub entries_loop :
      ℕ → List JsonEntryIn → List Entry → Result (DepositError E) (List Entry)
  entries_loop i [] entries = ok entries
  entries_loop i (raw ∷ raws) entries = map_err (entry_at i) (entry_from_raw raw) >>= λ e.
      entries_loop (i + 1) raws (entries ++ (e ∷ []))

  unfoldable pub entry_from_json :
      (Bytes → Result Bytes JsonEntryIn) → Bytes → Result (DepositError E) Entry
  entry_from_json from_slice_one json = do
    raw ← map_err unmarshal_entry (from_slice_one json)
    entry_from_raw raw

  unfoldable pub entries_from_json :
      (Bytes → Result Bytes (List JsonEntryIn)) → Bytes → Result (DepositError E) (List Entry)
  entries_from_json from_slice json = do
    raws ← map_err unmarshal_entries (from_slice json)
    entries_loop 0 raws []

-- ===== src/Signer/Rlp.antt =====
-- The RLP encoder for EIP-1559 transactions (crates/ethernal-signer/src/rlp.rs). A length is at
-- most 55 or has at most 16 digits, so that no header byte wraps around.
pub mod Decode
pub mod Transaction
use eth_utils.Prelude.{ℕ, ◌+◌, Bool, false, List, [], ◌∷◌, ◌++◌, length, ltb, leb, if◌then◌else◌}
use eth_utils.Prelude.Bytes.{Bytes, digits_be, skip_zeros}
use eth_utils.Signer.Parse.{ParsedTx}

unfoldable pub uint_be : ℕ → Bytes
uint_be v = skip_zeros (digits_be 256 16 v)

unfoldable pub trim_leading_zeros : Bytes → Bytes
trim_leading_zeros b = skip_zeros b

unfoldable pub header : ℕ → ℕ → ℕ → Bytes
header short_base long_base len =
    if leb len 55 then (short_base + len) ∷ [] else (long_base + length (uint_be len)) ∷ uint_be len

-- `b.len() == 1 && b[0] < 0x80`
unfoldable pub is_single : Bytes → Bool
is_single [] = false
is_single (b ∷ []) = ltb b 0x80
is_single (b ∷ c ∷ bs) = false

unfoldable pub encode_str : Bytes → Bytes
encode_str b = if is_single b then b else header 0x80 0xb7 (length b) ++ b

unfoldable pub encode_list : Bytes → Bytes
encode_list payload = header 0xc0 0xf7 (length payload) ++ payload

unfoldable pub base_fields : ParsedTx → ℕ → ℕ → Bytes
base_fields p nonce gas =
    encode_str (uint_be p.chain_id)
    ++ (encode_str (uint_be nonce)
        ++ (encode_str (uint_be p.tip)
            ++ (encode_str (uint_be p.max_fee)
                ++ (encode_str (uint_be gas)
                    ++ (encode_str p.to
                        ++ (encode_str (uint_be p.value)
                            ++ (encode_str p.calldata ++ encode_list [])))))))

unfoldable pub eip1559_signing_payload : ParsedTx → ℕ → ℕ → Bytes
eip1559_signing_payload p nonce gas = 0x02 ∷ encode_list (base_fields p nonce gas)

unfoldable pub eip1559_envelope : ParsedTx → ℕ → ℕ → ℕ → Bytes → Bytes → Bytes
eip1559_envelope p nonce gas y_parity r s =
    0x02
    ∷ encode_list (
        base_fields p nonce gas
        ++ (encode_str (uint_be y_parity)
            ++ (encode_str (trim_leading_zeros r) ++ encode_str (trim_leading_zeros s))))

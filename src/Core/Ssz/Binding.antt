-- ===== src/Core/Ssz/Binding.antt =====
-- What a signature over a deposit binds: equal roots have equal contents, or they show a collision
-- of the hash function.
use mathlib.Core.Path.{ap₂}
use mathlib.Core.Option.{some-injective}
use eth_utils.Prelude.{
  ℕ, ◌^◌, ◌<◌, ◌≡◌, ap, sym, ◌∙◌, ◌≢◌, ◌⊎◌, inl, inr, ◌++◌, length, replicate, take, drop,
  length-append, append_split, take-append-drop, length-take, length-drop, length-replicate,
  take_long, ◌-◌, arith,
}
use eth_utils.Prelude.Bytes.{
  Bytes, Bytes-eq_cases, to_le_bytes, length-to_le_bytes, from_le_bytes, from_le_bytes-to_le_bytes,
}
use eth_utils.Core.Ssz.{
  zero_chunk, sha256_pair, uint64_chunk, DepositMessage, message_hash_tree_root,
}
use eth_utils.Core.Ssz.Roots.{padded, pubkey_root, message_root, message_hash_tree_root_lem}

uint64_chunk-injective :
    (v w : ℕ) → v < 2 ^ 64 → w < 2 ^ 64 → uint64_chunk v ≡ uint64_chunk w → v ≡ w
unfolding uint64_chunk
uint64_chunk-injective v w hv hw e =
    let (same, _) =
      append_split (to_le_bytes 8 v) (replicate 24 0) (to_le_bytes 8 w) (replicate 24 0)
        (length-to_le_bytes 8 v ∙ sym (length-to_le_bytes 8 w)) e in
    sym (from_le_bytes-to_le_bytes 8 v (omega arith))
    ∙ ap from_le_bytes same
    ∙ from_le_bytes-to_le_bytes 8 w (omega arith)

-- The shape of a message: what the source's array types and `u64` say.
pub record IsSized (m : DepositMessage) : Type 0 where
  pub pubkey_size : length m.pubkey ≡ 48
  pub credentials_size : length m.withdrawal_credentials ≡ 32
  pub amount_fits : m.amount < 2 ^ 64

length-uint64_chunk : (v : ℕ) → length (uint64_chunk v) ≡ 32
unfolding uint64_chunk
length-uint64_chunk v =
    omega (arith, length-append (to_le_bytes 8 v) (replicate 24 0), length-to_le_bytes 8 v)

padded-injective : (x y : Bytes) → length x ≡ length y → padded x ≡ padded y → x ≡ y
padded-injective x y h e =
    (append_split x (replicate (32 - length x) 0) y (replicate (32 - length y) 0) h e).0

length-padded : (x : Bytes) → length x ≡ 32 → length (padded x) ≡ 32
length-padded x h = omega (
  arith,
  length-append x (replicate (32 - length x) 0),
  length-replicate {A = ℕ} (32 - length x) 0,
)

first_size : (a : Bytes) → length a ≡ 48 → length (take 32 a) ≡ 32
first_size a h = omega (arith, length-take 32 a)

last_size : (a : Bytes) → length a ≡ 48 → length (take 32 (drop 32 a)) ≡ 16
last_size a h = omega (arith, length-take 32 (drop 32 a), length-drop 32 a)

from_pieces :
    (a b : Bytes)
    → length a ≡ 48
    → length b ≡ 48
    → take 32 a ≡ take 32 b
    → take 32 (drop 32 a) ≡ take 32 (drop 32 b)
    → a ≡ b
from_pieces a b ha hb p q =
    let rest_a = take_long 32 (drop 32 a) (omega (arith, length-drop 32 a)) in
    let rest_b = take_long 32 (drop 32 b) (omega (arith, length-drop 32 b)) in
    sym (take-append-drop 32 a) ∙ ap₂ ◌++◌ p (sym rest_a ∙ q ∙ rest_b) ∙ take-append-drop 32 b

message_path :
    (m n : DepositMessage)
    → m.pubkey ≡ n.pubkey
    → m.withdrawal_credentials ≡ n.withdrawal_credentials
    → m.amount ≡ n.amount
    → m ≡ n
message_path m n p q r = λ i. record { pubkey = p i; withdrawal_credentials = q i; amount = r i }

module _ (sha256 : Bytes → Bytes) where
  -- Two different inputs with one hash.
  abbrev pub Collision : Type 0
  Collision = (x : Bytes) × (y : Bytes) × (x ≢ y) × (sha256 x ≡ sha256 y)

  pub pair_binds :
      (a b c d : Bytes)
      → length a ≡ length c
      → sha256_pair sha256 a b ≡ sha256_pair sha256 c d
      → ((a ≡ c) × (b ≡ d)) ⊎ Collision
  unfolding sha256_pair
  pair_binds a b c d h e = elim (Bytes-eq_cases (a ++ b) (c ++ d)) [
    | inl same ↦ inl (append_split a b c d h same)
    | inr differ ↦ inr (a ++ b, c ++ d, differ, e)
  ]

  module _ (digest : (x : Bytes) → length (sha256 x) ≡ 32) where
    length-pair : (a b : Bytes) → length (sha256_pair sha256 a b) ≡ 32
    unfolding sha256_pair
    length-pair a b = digest (a ++ b)

    pubkey_root_binds :
        (a b : Bytes)
        → length a ≡ 48
        → length b ≡ 48
        → pubkey_root sha256 a ≡ pubkey_root sha256 b
        → (a ≡ b) ⊎ Collision
    pubkey_root_binds a b ha hb e =
        elim (pair_binds (padded (take 32 a)) (padded (take 32 (drop 32 a))) (padded (take 32 b))
          (padded (take 32 (drop 32 b)))
          (length-padded (take 32 a) (first_size a ha)
            ∙ sym (length-padded (take 32 b) (first_size b hb)))
          e) [
            | inl (p, q) ↦ inl (
                from_pieces a b ha hb
                  (padded-injective _ _ (omega (arith, length-take 32 a, length-take 32 b)) p)
                  (padded-injective _ _ (omega (arith, last_size a ha, last_size b hb)) q))
            | inr c ↦ inr c
          ]

    message_root_binds :
        (m n : DepositMessage)
        → IsSized m
        → IsSized n
        → message_root sha256 m ≡ message_root sha256 n
        → (m ≡ n) ⊎ Collision
    message_root_binds m n hm hn e =
        elim (pair_binds _ _ _ _ (length-pair _ _ ∙ sym (length-pair _ _)) e) [
          | inr c ↦ inr c
          | inl (left, right) ↦
              elim (pair_binds _ _ _ _ (length-pair _ _ ∙ sym (length-pair _ _)) left) [
                | inr c ↦ inr c
                | inl (keys, wc) ↦
                    elim (pubkey_root_binds m.pubkey n.pubkey hm.pubkey_size hn.pubkey_size keys) [
                      | inr c ↦ inr c
                      | inl pk ↦
                          elim (pair_binds (uint64_chunk m.amount) zero_chunk
                            (uint64_chunk n.amount) zero_chunk
                            (length-uint64_chunk m.amount ∙ sym (length-uint64_chunk n.amount))
                            right) [
                              | inr c ↦ inr c
                              | inl (amounts, _) ↦ inl (
                                  message_path m n pk wc (
                                    uint64_chunk-injective m.amount n.amount hm.amount_fits
                                      hn.amount_fits amounts))
                            ]
                    ]
              ]
        ]

    -- Two well-sized deposit messages with one hash tree root are the same message: key,
    -- credentials and amount. If they were not, a collision of the hash function is at hand.
    pub message_hash_tree_root_binds :
        (m n : DepositMessage)
        → IsSized m
        → IsSized n
        → message_hash_tree_root sha256 m ≡ message_hash_tree_root sha256 n
        → (m ≡ n) ⊎ Collision
    message_hash_tree_root_binds m n hm hn e = message_root_binds m n hm hn (
        some-injective _ _ (
          sym (message_hash_tree_root_lem sha256 m hm.pubkey_size)
          ∙ e
          ∙ message_hash_tree_root_lem sha256 n hn.pubkey_size))

-- ===== src/Core/Ssz/Roots.antt =====
-- The hash tree roots of the four containers, written out as the consensus specification has them.
use eth_utils.Prelude.{
  ℕ, zero, suc, ◌+◌, ◌-◌, ◌*◌, ◌/◌, ◌^◌, ◌≤◌, ◌<◌, min, max, ◌≡◌, refl, ap, ◌∙◌, some, List, [],
  ◌∷◌, ◌++◌, length, replicate, take, drop, length-take, take-min-length, drop-drop, drop-replicate,
  length-drop, slice_lem, copy_front, copy_front_lem, arith,
}
use eth_utils.Prelude.Bytes.{Bytes}
use eth_utils.Core.Ssz.{
  zero_chunk, sha256_pair, merkleize, chunk_at, chunks_loop, uint64_chunk, byte_vector_root,
  DepositMessage, DepositData, message_hash_tree_root, data_hash_tree_root, fork_hash_tree_root,
  signing_hash_tree_root, compute_domain, compute_signing_root,
}
use eth_utils.Core.Ssz.Merkle.{tree_root, leaves, merkleize_fits}

-- A piece of at most 32 bytes, filled up with zero bytes.
abbrev pub padded : Bytes → Bytes
padded b = b ++ replicate (32 - length b) 0

-- The first `k` pieces of 32 bytes, each filled up with zero bytes.
abbrev pub pieces : ℕ → Bytes → List Bytes
pieces zero b = []
pieces (suc k) b = padded (take 32 b) ∷ pieces k (drop 32 b)

chunk_at_lem :
    (i : ℕ) (b : Bytes)
    → i * 32 ≤ length b
    → chunk_at i b ≡ some (padded (take 32 (drop (i * 32) b)))
unfolding chunk_at
chunk_at_lem i b h =
    let part = drop (i * 32) b in
    let width : min (i * 32 + 32) (length b) - i * 32 ≡ min 32 (length part) =
      omega (arith, length-drop (i * 32) b) in
    let clipped : length (take 32 part) ≤ 32 = omega (arith, length-take 32 part) in
    rw (
      slice_lem (i * 32) (min (i * 32 + 32) (length b)) b (omega arith) (omega arith),
      width,
      take-min-length 32 part,
      copy_front_lem zero_chunk (take 32 part) clipped,
      drop-replicate {A = ℕ} 32 (length (take 32 part)) 0,
    )

chunks_loop-pieces :
    (k i : ℕ) (b : Bytes)
    → k * 32 + i * 32 < length b + 32
    → chunks_loop k i b ≡ some (pieces k (drop (i * 32) b))
unfolding chunks_loop
chunks_loop-pieces zero i b h = refl
chunks_loop-pieces (suc k) i b h =
    let next : (i + 1) * 32 ≡ i * 32 + 32 = omega arith in
    rw (
      chunk_at_lem i b (omega arith),
      chunks_loop-pieces k (i + 1) b (omega arith),
      next,
      drop-drop 32 (i * 32) b,
    )

below_one : (n : ℕ) → 1 < n → (j : ℕ) → j < 1 → 2 ^ j < n
below_one n h zero p = h
below_one n h (suc j) p = absurd (omega arith)

below_two : (n : ℕ) → 2 < n → (j : ℕ) → j < 2 → 2 ^ j < n
below_two n h zero p = omega arith
below_two n h (suc zero) p = h
below_two n h (suc (suc j)) p = absurd (omega arith)

module _ (sha256 : Bytes → Bytes) where
  abbrev pub pair : Bytes → Bytes → Bytes
  pair = sha256_pair sha256

  length-pieces : (k : ℕ) (b : Bytes) → length (pieces k b) ≡ k
  length-pieces zero b = refl
  length-pieces (suc k) b = ap suc (length-pieces k (drop 32 b))

  -- The root of a byte vector is the root of the tree of the least depth that holds its 32-byte
  -- pieces, the last one filled up with zeros.
  pub byte_vector_root-tree_root :
      (b : Bytes) (d : ℕ)
      → d < 58
      → (length b + 31) / 32 ≤ 2 ^ d
      → ((j : ℕ) → j < d → 2 ^ j < (length b + 31) / 32)
      → byte_vector_root sha256 b
        ≡ some (tree_root sha256 d (leaves sha256 d (pieces ((length b + 31) / 32) b)))
  unfolding byte_vector_root
  byte_vector_root-tree_root b d h fits least =
      let n = (length b + 31) / 32 in
      let front : drop (0 * 32) b ≡ b = refl in
      let count : max (length (pieces n b)) n ≡ n = omega (arith, length-pieces n b) in
      rw (chunks_loop-pieces n 0 b (omega arith))
        (merkleize_fits sha256 (pieces n b) n d h (omega arith) (λ j p. omega (arith, least j p)))

  -- The trees of the specification for the two byte vectors and the containers.
  abbrev pub pubkey_root : Bytes → Bytes
  pubkey_root b = pair (padded (take 32 b)) (padded (take 32 (drop 32 b)))

  abbrev pub signature_root : Bytes → Bytes
  signature_root b =
      pair (pair (padded (take 32 b)) (padded (take 32 (drop 32 b))))
        (pair (padded (take 32 (drop 32 (drop 32 b)))) zero_chunk)

  abbrev pub message_root : DepositMessage → Bytes
  message_root m =
      pair (pair (pubkey_root m.pubkey) m.withdrawal_credentials)
        (pair (uint64_chunk m.amount) zero_chunk)

  abbrev pub data_root : DepositData → Bytes
  data_root d =
      pair (pair (pubkey_root d.pubkey) d.withdrawal_credentials)
        (pair (uint64_chunk d.amount) (signature_root d.signature))

  byte_vector_root-48 :
      (b : Bytes) → length b ≡ 48 → byte_vector_root sha256 b ≡ some (pubkey_root b)
  byte_vector_root-48 b h =
      let two : (length b + 31) / 32 ≡ 2 = omega arith in
      byte_vector_root-tree_root b 1 (omega arith) (omega arith) (below_one _ (omega arith))
      ∙ rw two (unfold tree_root in refl)

  byte_vector_root-96 :
      (b : Bytes) → length b ≡ 96 → byte_vector_root sha256 b ≡ some (signature_root b)
  byte_vector_root-96 b h =
      let three : (length b + 31) / 32 ≡ 3 = omega arith in
      byte_vector_root-tree_root b 2 (omega arith) (omega arith) (below_two _ (omega arith))
      ∙ rw three (unfold tree_root in refl)

  merkleize_two : (a b : Bytes) → merkleize sha256 (a ∷ b ∷ []) 2 ≡ some (pair a b)
  merkleize_two a b =
      merkleize_fits sha256 (a ∷ b ∷ []) 2 1 (omega arith) (omega arith) (below_one _ (omega arith))
      ∙ unfold tree_root in refl

  -- The root of a deposit message with a 48-byte key is the tree of the specification over the
  -- key's root, the credentials and the amount.
  pub message_hash_tree_root_lem :
      (m : DepositMessage)
      → length m.pubkey ≡ 48
      → message_hash_tree_root sha256 m ≡ some (message_root m)
  unfolding message_hash_tree_root
  message_hash_tree_root_lem m h = rw (byte_vector_root-48 m.pubkey h) (
      merkleize_fits sha256 _ 3 2 (omega arith) (omega arith) (below_two _ (omega arith))
      ∙ unfold tree_root in refl)

  -- The root of deposit data with a 48-byte key and a 96-byte signature is the tree of the
  -- specification over the key's root, the credentials, the amount and the signature's root.
  pub data_hash_tree_root_lem :
      (d : DepositData)
      → length d.pubkey ≡ 48
      → length d.signature ≡ 96
      → data_hash_tree_root sha256 d ≡ some (data_root d)
  unfolding data_hash_tree_root
  data_hash_tree_root_lem d h k =
      rw (byte_vector_root-48 d.pubkey h, byte_vector_root-96 d.signature k)
        (merkleize_fits sha256 _ 4 2 (omega arith) (omega arith) (below_two _ (omega arith))
          ∙ unfold tree_root in refl)

  -- The domain is the domain type and the first 28 bytes of the hash of the padded fork version
  -- and the validators root, for a 4-byte version and a hash of 32 bytes.
  pub compute_domain_lem :
      (domain_type fork_version gvr : Bytes)
      → length fork_version ≡ 4
      → ((x : Bytes) → length (sha256 x) ≡ 32)
      → compute_domain sha256 domain_type fork_version gvr
        ≡ some (domain_type ++ take 28 (pair (fork_version ++ replicate 28 0) gvr))
  unfolding compute_domain fork_hash_tree_root
  compute_domain_lem t v gvr h digest =
      let chunk : copy_front zero_chunk v ≡ some (v ++ replicate 28 0) =
        copy_front_lem zero_chunk v (omega arith) ∙ ap (λ n. some (v ++ drop n zero_chunk)) h in
      let size : length (pair (v ++ replicate 28 0) gvr) ≡ 32 = unfold sha256_pair in digest _ in
      rw (
        chunk,
        merkleize_two (v ++ replicate 28 0) gvr,
        slice_lem 0 28 (pair (v ++ replicate 28 0) gvr) (omega arith) (omega arith),
      )

  -- The signing root is the hash of the object root and the domain.
  pub compute_signing_root_lem :
      (object_root domain : Bytes)
      → compute_signing_root sha256 object_root domain ≡ some (pair object_root domain)
  unfolding compute_signing_root signing_hash_tree_root
  compute_signing_root_lem r d = merkleize_two r d

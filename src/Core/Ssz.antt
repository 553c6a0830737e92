-- ===== src/Core/Ssz.antt =====
-- SSZ hash tree roots of the deposit containers (crates/ethernal-core/src/ssz.rs). SHA-256 is the
-- `sha2` crate's: the parameter `sha256`. A result `none` stands for a panic, or for a loop that
-- does not end.
pub mod Merkle
pub mod Roots
pub mod Binding
use eth_utils.Prelude.{
  ℕ, zero, suc, ◌+◌, ◌-◌, ◌*◌, ◌/◌, ◌%◌, ◌^◌, min, max, Option, none, some, List, [], ◌∷◌, ◌++◌,
  and_then, length, replicate, get_elem?, set, take, drop, slice, copy_front, ltb, leb,
  if◌then◌else◌,
}
use eth_utils.Prelude.Bytes.{Bytes, to_le_bytes}

abbrev pub zero_chunk : Bytes
zero_chunk = replicate 32 0

-- `vec![item; n]` of items of `width` bytes: more than `isize::MAX` bytes are a panic. An allocation
-- within that bound is taken to succeed.
unfoldable pub vec_of {ℓ} : {A : Type ℓ} → ℕ → A → ℕ → Option (List A)
vec_of width item n = if ltb (n * width) (2 ^ 63) then some (replicate n item) else none

-- `let mut size = 1; while size < n { size <<= 1; }` on a 64-bit `usize`. The size is 0 for ever
-- after 64 rounds, so 65 rounds are enough for every loop that ends.
unfoldable pub next_size : ℕ → ℕ → ℕ → Option ℕ
next_size zero size n = none
next_size (suc fuel) size n =
    let rest = next_size fuel (size * 2 % 2 ^ 64) n in if ltb size n then rest else some size

module _ (sha256 : Bytes → Bytes) where
  unfoldable pub sha256_pair : Bytes → Bytes → Bytes
  sha256_pair a b = sha256 (a ++ b)

  -- `for i in 0..half`, in place; the first argument counts the rounds that are left.
  unfoldable pub merge_loop : ℕ → ℕ → List Bytes → Option (List Bytes)
  merge_loop zero i padded = some padded
  merge_loop (suc rounds) i padded = and_then (get_elem? padded (2 * i)) λ a.
      and_then (get_elem? padded (2 * i + 1))
        λ b. merge_loop rounds (i + 1) (set padded i (sha256_pair a b))

  -- `while size > 1`. The size is halved in each round, so 65 rounds are enough.
  unfoldable pub halve_loop : ℕ → ℕ → List Bytes → Option Bytes
  halve_loop zero size padded = none
  halve_loop (suc fuel) size padded =
      let half = size / 2 in
      let next =
        and_then (merge_loop half 0 padded) (λ merged. halve_loop fuel half (take half merged)) in
      if ltb 1 size then next else get_elem? padded 0

  unfoldable pub merkleize : List Bytes → ℕ → Option Bytes
  unfolding vec_of
  merkleize chunks limit = and_then (next_size 65 1 (max (length chunks) limit)) λ size.
      and_then (vec_of 32 zero_chunk size)
        λ zeros. and_then (copy_front zeros chunks) λ padded. halve_loop 65 size padded

-- One round of the loop of `byte_vector_root`, on a fresh zero chunk.
unfoldable pub chunk_at : ℕ → Bytes → Option Bytes
chunk_at i b =
    let start = i * 32 in
    let end = min (start + 32) (length b) in
    and_then (slice start end b) (λ part. copy_front zero_chunk part)

unfoldable pub chunks_loop : ℕ → ℕ → Bytes → Option (List Bytes)
unfolding chunk_at
chunks_loop zero i b = some []
chunks_loop (suc rounds) i b =
    and_then (chunk_at i b)
      λ chunk. and_then (chunks_loop rounds (i + 1) b) (λ rest. some (chunk ∷ rest))

unfoldable pub uint64_chunk : ℕ → Bytes
uint64_chunk v = to_le_bytes 8 v ++ replicate 24 0

unfoldable pub pad_right : Bytes → ℕ → Option Bytes
pad_right b size =
    let padded = and_then (vec_of 1 0 size) (λ out. copy_front out b) in
    if leb size (length b) then some b else padded

pub record DepositMessage : Type 0 where
  pub pubkey : Bytes
  pub withdrawal_credentials : Bytes
  pub amount : ℕ

pub record DepositData : Type 0 where
  pub pubkey : Bytes
  pub withdrawal_credentials : Bytes
  pub amount : ℕ
  pub signature : Bytes

pub record ForkData : Type 0 where
  pub current_version : Bytes
  pub genesis_validators_root : Bytes

pub record SigningData : Type 0 where
  pub object_root : Bytes
  pub domain : Bytes

module _ (sha256 : Bytes → Bytes) where
  -- A vector of chunks that is too long for memory panics here in the source, and in `merkleize` in
  -- the model.
  unfoldable pub byte_vector_root : Bytes → Option Bytes
  byte_vector_root b =
      let num_chunks = (length b + 31) / 32 in
      and_then (chunks_loop num_chunks 0 b) (λ chunks. merkleize sha256 chunks num_chunks)

  unfoldable pub message_hash_tree_root : DepositMessage → Option Bytes
  message_hash_tree_root m = and_then (byte_vector_root m.pubkey) λ pubkey_root.
      merkleize sha256 (pubkey_root ∷ m.withdrawal_credentials ∷ uint64_chunk m.amount ∷ []) 3

  unfoldable pub data_hash_tree_root : DepositData → Option Bytes
  data_hash_tree_root d = and_then (byte_vector_root d.pubkey) λ pubkey_root.
      and_then (byte_vector_root d.signature) λ sig_root.
        merkleize sha256
          (pubkey_root ∷ d.withdrawal_credentials ∷ uint64_chunk d.amount ∷ sig_root ∷ []) 4

  unfoldable pub fork_hash_tree_root : ForkData → Option Bytes
  fork_hash_tree_root f =
      and_then (copy_front zero_chunk f.current_version)
        λ version_chunk. merkleize sha256 (version_chunk ∷ f.genesis_validators_root ∷ []) 2

  unfoldable pub signing_hash_tree_root : SigningData → Option Bytes
  signing_hash_tree_root s = merkleize sha256 (s.object_root ∷ s.domain ∷ []) 2

  -- `domain[..4]` and `domain[4..]` are written one after the other.
  unfoldable pub compute_domain : Bytes → Bytes → Bytes → Option Bytes
  compute_domain domain_type fork_version gvr =
      and_then
        (fork_hash_tree_root
          (record { current_version = fork_version; genesis_validators_root = gvr }))
        λ fd_root. and_then (slice 0 28 fd_root) (λ front. some (domain_type ++ front))

  unfoldable pub compute_signing_root : Bytes → Bytes → Option Bytes
  compute_signing_root object_root domain =
      signing_hash_tree_root (record { object_root = object_root; domain = domain })

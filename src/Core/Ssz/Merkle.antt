-- ===== src/Core/Ssz/Merkle.antt =====
-- The in-place, bottom-up loops of `merkleize` against the recursive definition of a Merkle tree.
use mathlib.Core.List.{append_assoc, append-nil}
use native.Mathlib.Nat.{two-pow-succ, one-le-pow, pow-suc, pow-le-pow_right}
use mathlib.Core.Path.{ap₂}
use native.Mathlib.Decide.{dec_lt}
use eth_utils.Prelude.{
  ℕ, zero, suc, ◌+◌, ◌-◌, ◌*◌, ◌/◌, ◌%◌, ◌^◌, ◌≤◌, ◌<◌, max, ◌≡◌, refl, ap, sym, ◌∙◌, none, some,
  List, [], ◌∷◌, ◌++◌, length, replicate, set, take, drop, length-append, length-take, length-drop,
  take_all, drop-replicate, length-replicate, length-set, drop-set, take-set, get_elem?_in_range,
  copy_front_lem, arith, lt→ltb, le→ltb_false, ltb, if◌then◌else◌,
}
use eth_utils.Prelude.Bytes.{Bytes}
use eth_utils.Core.Ssz.{
  zero_chunk, next_size, sha256_pair, merge_loop, halve_loop, merkleize, vec_of,
}

double_fits : (k : ℕ) → k < 63 → 2 ^ k * 2 % 2 ^ 64 ≡ 2 ^ suc k
double_fits k h =
    let fits : 2 ^ suc k ≤ 2 ^ 63 = pow-le-pow_right {n = 2} (omega arith) {j = 63} (omega arith) in
    omega (arith, pow-suc 2 k)

-- The doubling loop finds the least power of two that is not below `n`.
next_size-pow :
    (fuel k d n : ℕ)
    → k ≤ d
    → d < 64
    → d < k + fuel
    → n ≤ 2 ^ d
    → ((j : ℕ) → j < d → 2 ^ j < n)
    → next_size fuel (2 ^ k) n ≡ some (2 ^ d)
unfolding next_size
next_size-pow zero k d n kd d64 hf fits least = absurd (omega arith)
next_size-pow (suc fuel) k d n kd d64 hf fits least = elim (dec_lt k d) [
  | yes more ↦
      rw (lt→ltb _ _ (least k more), double_fits k (omega arith))
        (next_size-pow fuel (suc k) d n more d64 (omega arith) fits least)
  | no stop ↦ let last : k ≡ d = omega arith in rw (last, le→ltb_false (2 ^ d) n fits)
]

within_memory : (d : ℕ) → d < 58 → 2 ^ d * 32 < 2 ^ 63
within_memory d h =
    let small : 2 ^ d ≤ 2 ^ 57 = pow-le-pow_right {n = 2} (omega arith) {j = 57} (omega arith) in
    omega arith

beyond_memory : (d : ℕ) → 58 ≤ d → 2 ^ 63 ≤ 2 ^ d * 32
beyond_memory d h =
    let large : 2 ^ 58 ≤ 2 ^ d =
      pow-le-pow_right {n = 2} (omega arith) {i = 58} {j = d} (omega arith) in
    omega arith

module _ (sha256 : Bytes → Bytes) where
  -- One level of the tree, left to right.
  abbrev pub pairs : List Bytes → List Bytes
  pairs [] = []
  pairs (a ∷ []) = []
  pairs (a ∷ b ∷ rest) = sha256_pair sha256 a b ∷ pairs rest

  -- The root of the tree over `2 ^ depth` leaves.
  unfoldable pub tree_root : ℕ → List Bytes → Bytes
  tree_root zero [] = zero_chunk
  tree_root zero (x ∷ xs) = x
  tree_root (suc depth) xs =
      sha256_pair sha256 (tree_root depth (take (2 ^ depth) xs))
        (tree_root depth (drop (2 ^ depth) xs))

  -- What one round adds to the merged front.
  merge_step :
      (rounds i : ℕ) (p q : List Bytes) (a b : Bytes)
      → i < length p
      → drop (2 * i) p ≡ a ∷ drop (suc (2 * i)) p
      → drop (suc (2 * i)) p ≡ b ∷ drop (suc (suc (2 * i))) p
      → take (i + 1 + rounds) q
        ≡ take (i + 1) (set p i (sha256_pair sha256 a b))
          ++ pairs (take (2 * rounds) (drop (2 * (i + 1)) (set p i (sha256_pair sha256 a b))))
      → take (i + suc rounds) q ≡ take i p ++ pairs (take (2 * suc rounds) (drop (2 * i) p))
  merge_step rounds i p q a b h da db tq =
      let two_more : 2 * suc rounds ≡ suc (suc (2 * rounds)) = omega arith in
      let shift : i + suc rounds ≡ i + 1 + rounds = omega arith in
      let next : 2 * (i + 1) ≡ suc (suc (2 * i)) = omega arith in
      let one : i + 1 ≡ suc i = omega arith in
      let v = sha256_pair sha256 a b in
      rw
        (
          shift,
          tq,
          next,
          one,
          take-set p i v h,
          drop-set p i (suc (suc (2 * i))) v (omega arith),
          da,
          db,
          two_more,
        )
        (append_assoc (take i p) (v ∷ []) (pairs (take (2 * rounds) (drop (suc (suc (2 * i))) p))))

  merge_loop_lem :
      (rounds i : ℕ) (p : List Bytes)
      → 2 * i + 2 * rounds ≤ length p
      → (q : List Bytes) × (merge_loop sha256 rounds i p ≡ some q)
        × (take (i + rounds) q ≡ take i p ++ pairs (take (2 * rounds) (drop (2 * i) p)))
  unfolding merge_loop
  merge_loop_lem zero i p h =
      let same : i + 0 ≡ i = omega arith in (p, refl, rw same (sym (append-nil (take i p))))
  merge_loop_lem (suc rounds) i p h =
      let (a, ea, da) = get_elem?_in_range p (2 * i) (omega arith) in
      let (b, eb, db) = get_elem?_in_range p (suc (2 * i)) (omega arith) in
      let h' = sha256_pair sha256 a b in
      let (q, eq, tq) =
        merge_loop_lem rounds (i + 1) (set p i h') (omega (arith, length-set p i h')) in
      let odd : 2 * i + 1 ≡ suc (2 * i) = omega arith in
      (q, rw (odd, ea, eb) eq, merge_step rounds i p q a b (omega arith) da db tq)

  pairs-take : (n : ℕ) (xs : List Bytes) → pairs (take (n + n) xs) ≡ take n (pairs xs)
  pairs-take zero xs = refl
  pairs-take (suc n) [] = let two : suc n + suc n ≡ suc (suc (n + n)) = omega arith in rw two
  pairs-take (suc n) (x ∷ []) = let two : suc n + suc n ≡ suc (suc (n + n)) = omega arith in rw two
  pairs-take (suc n) (x ∷ y ∷ xs) =
      let two : suc n + suc n ≡ suc (suc (n + n)) = omega arith in
      rw two (ap (λ t. sha256_pair sha256 x y ∷ t) (pairs-take n xs))

  pairs-drop : (n : ℕ) (xs : List Bytes) → pairs (drop (n + n) xs) ≡ drop n (pairs xs)
  pairs-drop zero xs = refl
  pairs-drop (suc n) [] = let two : suc n + suc n ≡ suc (suc (n + n)) = omega arith in rw two
  pairs-drop (suc n) (x ∷ []) = let two : suc n + suc n ≡ suc (suc (n + n)) = omega arith in rw two
  pairs-drop (suc n) (x ∷ y ∷ xs) =
      let two : suc n + suc n ≡ suc (suc (n + n)) = omega arith in rw two (pairs-drop n xs)

  length-pairs : (n : ℕ) (xs : List Bytes) → length xs ≡ n + n → length (pairs xs) ≡ n
  length-pairs zero [] h = refl
  length-pairs zero (x ∷ xs) h = absurd (omega arith)
  length-pairs (suc n) [] h = absurd (omega arith)
  length-pairs (suc n) (x ∷ []) h = absurd (omega arith)
  length-pairs (suc n) (x ∷ y ∷ xs) h = ap suc (length-pairs n xs (omega arith))

  -- The tree over a level is the tree over the level above it.
  tree_root-pairs :
      (d : ℕ) (xs : List Bytes)
      → length xs ≡ 2 ^ suc d
      → tree_root (suc d) xs ≡ tree_root d (pairs xs)
  unfolding tree_root
  tree_root-pairs zero [] h = absurd (omega arith)
  tree_root-pairs zero (x ∷ []) h = absurd (omega arith)
  tree_root-pairs zero (x ∷ y ∷ xs) h = refl
  tree_root-pairs (suc d) xs h =
      ap₂ (sha256_pair sha256)
        (tree_root-pairs d (take (2 ^ suc d) xs)
            (omega (arith, length-take (2 ^ suc d) xs, two-pow-succ (suc d)))
          ∙ ap (tree_root d) (ap (λ n. pairs (take n xs)) (two-pow-succ d) ∙ pairs-take (2 ^ d) xs))
        (tree_root-pairs d (drop (2 ^ suc d) xs)
            (omega (arith, length-drop (2 ^ suc d) xs, two-pow-succ (suc d)))
          ∙ ap (tree_root d) (ap (λ n. pairs (drop n xs)) (two-pow-succ d) ∙ pairs-drop (2 ^ d) xs))

  -- One level of the in-place loop is one level of pairs.
  merge_level :
      (half : ℕ) (xs : List Bytes)
      → length xs ≡ half + half
      → (q : List Bytes) × (merge_loop sha256 half 0 xs ≡ some q) × (take half q ≡ pairs xs)
  merge_level half xs h =
      let (q, e, t) = merge_loop_lem half 0 xs (omega arith) in
      let all : 2 * half ≡ length xs = omega arith in
      let front : 0 + half ≡ half = omega arith in
      (q, e, ap (λ n. take n q) (sym front) ∙ t ∙ ap pairs (ap (λ n. take n xs) all ∙ take_all xs))

  halve_loop-tree_root :
      (d fuel : ℕ) (xs : List Bytes)
      → length xs ≡ 2 ^ d
      → d < fuel
      → halve_loop sha256 fuel (2 ^ d) xs ≡ some (tree_root d xs)
  unfolding halve_loop
  halve_loop-tree_root d zero xs h f = absurd (omega arith)
  halve_loop-tree_root zero (suc fuel) [] h f = absurd (omega arith)
  halve_loop-tree_root zero (suc fuel) (x ∷ xs) h f = unfold tree_root in refl
  halve_loop-tree_root (suc d) (suc fuel) xs h f =
      let double = two-pow-succ d in
      let positive = one-le-pow d 2 (omega arith) in
      let half : 2 ^ suc d / 2 ≡ 2 ^ d = omega (arith, double) in
      let (q, e, t) = merge_level (2 ^ d) xs (omega (arith, double)) in
      rw (lt→ltb 1 (2 ^ suc d) (omega (arith, double, positive)), half, e, t)
        (halve_loop-tree_root d fuel (pairs xs) (length-pairs (2 ^ d) xs (omega (arith, double)))
            (omega arith)
          ∙ ap some (sym (tree_root-pairs d xs h)))

  -- The leaves of the tree: the chunks, filled up with zero chunks.
  abbrev pub leaves : ℕ → List Bytes → List Bytes
  leaves d chunks = chunks ++ replicate (2 ^ d - length chunks) zero_chunk

  pub length-leaves :
      (d : ℕ) (chunks : List Bytes) → length chunks ≤ 2 ^ d → length (leaves d chunks) ≡ 2 ^ d
  length-leaves d chunks h = omega (
    arith,
    length-append chunks (replicate (2 ^ d - length chunks) zero_chunk),
    length-replicate (2 ^ d - length chunks) zero_chunk,
  )

  -- With `2 ^ d` the least power of two that is below neither the number of chunks nor the limit, for
  -- `d` below 64: if `d` is below 58, `merkleize` ends without a panic and returns the root of the
  -- Merkle tree of depth `d` over the chunks filled up with zero chunks; otherwise it panics, since
  -- `2 ^ d` chunks are more than `isize::MAX` bytes.
  pub merkleize-tree_root :
      (chunks : List Bytes) (limit d : ℕ)
      → d < 64
      → max (length chunks) limit ≤ 2 ^ d
      → ((j : ℕ) → j < d → 2 ^ j < max (length chunks) limit)
      → merkleize sha256 chunks limit
        ≡ (if ltb d 58 then some (tree_root d (leaves d chunks)) else none)
  unfolding merkleize vec_of
  merkleize-tree_root chunks limit d h fits least =
      let n = max (length chunks) limit in
      let size : next_size 65 1 n ≡ some (2 ^ d) =
        next_size-pow 65 0 d n (omega arith) h (omega arith) fits least in
      let room : length chunks ≤ 2 ^ d = omega arith in
      let full = length-replicate (2 ^ d) zero_chunk in
      elim (dec_lt d 58) [
        | yes small ↦
            rw
              (
                size,
                lt→ltb (2 ^ d * 32) (2 ^ 63) (within_memory d small),
                lt→ltb d 58 small,
                copy_front_lem (replicate (2 ^ d) zero_chunk) chunks (omega (arith, full)),
                drop-replicate (2 ^ d) (length chunks) zero_chunk,
              )
              (halve_loop-tree_root d 65 (leaves d chunks) (length-leaves d chunks room)
                (omega arith))
        | no large ↦
            rw
              (
                size,
                le→ltb_false (2 ^ d * 32) (2 ^ 63) (beyond_memory d (omega arith)),
                le→ltb_false d 58 (omega arith),
              )
              refl
      ]

  -- Within memory, the tree's root.
  pub merkleize_fits :
      (chunks : List Bytes) (limit d : ℕ)
      → d < 58
      → max (length chunks) limit ≤ 2 ^ d
      → ((j : ℕ) → j < d → 2 ^ j < max (length chunks) limit)
      → merkleize sha256 chunks limit ≡ some (tree_root d (leaves d chunks))
  merkleize_fits chunks limit d h fits least =
      merkleize-tree_root chunks limit d (omega arith) fits least ∙ rw (lt→ltb d 58 h) refl

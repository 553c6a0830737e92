-- ===== src/Tx/Abi/Decode.antt =====
-- A reader of ABI calldata, after the contract ABI's specification and not after the encoder, and
-- that it reads the arguments of `deposit()` back.
use eth_utils.Prelude.{
  ℕ, zero, suc, ◌+◌, ◌*◌, ◌<◌, ◌^◌, ◌≡◌, refl, ap, sym, ◌∙◌, some, List, [], ◌∷◌, ◌++◌, length,
  take, drop, length-append, take-append, drop-append, drop-drop, arith,
}
use eth_utils.Prelude.Bytes.{Bytes, value_be, value_be-digits_be}
use eth_utils.Tx.Abi.{deposit_selector, uint256, pack_deposit}
use eth_utils.Tx.Abi.Layout.{join, segments, length-uint256, pack_deposit-join}

-- The word at a position.
abbrev pub word : ℕ → Bytes → ℕ
word pos calldata = value_be 256 0 (take 32 (drop pos calldata))

-- The `i`-th argument as a static word, behind the four bytes of the selector.
abbrev pub static_argument : ℕ → Bytes → Bytes
static_argument i calldata = take 32 (drop (4 + 32 * i) calldata)

-- The `i`-th argument as dynamic bytes: its head is the offset of its length, counted from the
-- first head, and the bytes follow the length.
abbrev pub dynamic_argument : ℕ → Bytes → Bytes
dynamic_argument i calldata =
    let at = 4 + word (4 + 32 * i) calldata in take (word at calldata) (drop (at + 32) calldata)

word_of_uint256 : (v : ℕ) → v < 2 ^ 64 → value_be 256 0 (uint256 v) ≡ v
unfolding uint256 value_be
word_of_uint256 v h = value_be-digits_be 256 8 v (omega arith) (omega arith)

-- The total length of the first `k` segments.
abbrev total : ℕ → List Bytes → ℕ
total zero ss = 0
total (suc k) [] = 0
total (suc k) (s ∷ ss) = length s + total k ss

abbrev total_length : List Bytes → ℕ
total_length [] = 0
total_length (s ∷ ss) = length s + total_length ss

length-join : (ss : List Bytes) → length (join ss) ≡ total_length ss
length-join [] = refl
length-join (s ∷ ss) = omega (arith, length-append s (join ss), length-join ss)

abbrev tail_from : ℕ → List Bytes → List Bytes
tail_from zero ss = ss
tail_from (suc k) [] = []
tail_from (suc k) (s ∷ ss) = tail_from k ss

-- Dropping the first `k` segments.
drop-join : (k : ℕ) (ss : List Bytes) → drop (total k ss) (join ss) ≡ join (tail_from k ss)
drop-join zero ss = refl
drop-join (suc k) [] = refl
drop-join (suc k) (s ∷ ss) =
    sym (drop-drop (total k ss) (length s) (s ++ join ss))
    ∙ ap (drop (total k ss)) (drop-append (length s) s (join ss) refl)
    ∙ drop-join k ss

-- The segment that stands at a position.
segment_at :
    (k pos n : ℕ) (ss : List Bytes) {s : Bytes} {rest : List Bytes}
    → total k ss ≡ pos
    → tail_from k ss ≡ s ∷ rest
    → length s ≡ n
    → take n (drop pos (join ss)) ≡ s
segment_at k pos n ss {s} {rest} at e h =
    ap (λ p. take n (drop p (join ss))) (sym at)
    ∙ ap (take n) (drop-join k ss ∙ ap join e)
    ∙ take-append n s (join rest) h

module _ (pubkey wc sig root : Bytes) (hk : length pubkey ≡ 48) (hw : length wc ≡ 32)
    (hs : length sig ≡ 96) (hr : length root ≡ 32) where
  abbrev packed : Bytes
  packed = join (segments pubkey wc sig root)

  word_at :
      (k pos v : ℕ) {rest : List Bytes}
      → v < 2 ^ 64
      → total k (segments pubkey wc sig root) ≡ pos
      → tail_from k (segments pubkey wc sig root) ≡ uint256 v ∷ rest
      → word pos packed ≡ v
  word_at k pos v h at e =
      ap (value_be 256 0)
        (segment_at k pos 32 (segments pubkey wc sig root) at e (length-uint256 v))
      ∙ word_of_uint256 v h

  lengths :
      (length (uint256 128) ≡ 32)
      × (length (uint256 224) ≡ 32)
      × (length (uint256 288) ≡ 32)
      × (length (uint256 48) ≡ 32)
      × (length (uint256 32) ≡ 32)
      × (length (uint256 96) ≡ 32)
  lengths = (
    length-uint256 128,
    length-uint256 224,
    length-uint256 288,
    length-uint256 48,
    length-uint256 32,
    length-uint256 96,
  )

  read_pubkey : dynamic_argument 0 packed ≡ pubkey
  read_pubkey =
      let offset = word_at 1 4 128 (omega arith) refl refl in
      let size = word_at 5 132 48 (omega arith) (omega (arith, lengths)) refl in
      rw (offset, size)
        (segment_at 6 164 48 (segments pubkey wc sig root) (omega (arith, lengths)) refl hk)

  read_wc : dynamic_argument 1 packed ≡ wc
  read_wc =
      let offset = word_at 2 36 224 (omega arith) (omega (arith, lengths)) refl in
      let size = word_at 8 228 32 (omega arith) (omega (arith, lengths)) refl in
      rw (offset, size)
        (segment_at 9 260 32 (segments pubkey wc sig root) (omega (arith, lengths)) refl hw)

  read_sig : dynamic_argument 2 packed ≡ sig
  read_sig =
      let offset = word_at 3 68 288 (omega arith) (omega (arith, lengths)) refl in
      let size = word_at 10 292 96 (omega arith) (omega (arith, lengths)) refl in
      rw (offset, size)
        (segment_at 11 324 96 (segments pubkey wc sig root) (omega (arith, lengths)) refl hs)

  -- For arguments of the source's array sizes `pack_deposit` does not panic, and a reader of the
  -- contract ABI finds in its 420 bytes, behind the selector of `deposit()`, the public key, the
  -- withdrawal credentials, the signature and the data root.
  pub pack_deposit-arguments :
      (calldata : Bytes) × (pack_deposit pubkey wc sig root ≡ some calldata)
      × (length calldata ≡ 420)
      × (take 4 calldata ≡ deposit_selector)
      × (dynamic_argument 0 calldata ≡ pubkey)
      × (dynamic_argument 1 calldata ≡ wc)
      × (dynamic_argument 2 calldata ≡ sig)
      × (static_argument 3 calldata ≡ root)
  pack_deposit-arguments = (
    packed,
    pack_deposit-join pubkey wc sig root hk hw hs hr,
    omega (arith, length-join (segments pubkey wc sig root), lengths),
    refl,
    read_pubkey,
    read_wc,
    read_sig,
    segment_at 4 100 32 (segments pubkey wc sig root) (omega (arith, lengths)) refl hr,
  )

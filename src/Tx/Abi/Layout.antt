-- ===== src/Tx/Abi/Layout.antt =====
-- The layout of the calldata, and that its fields are read back from it.
use mathlib.Core.List.{append_assoc, append-nil}
use eth_utils.Prelude.{
  ℕ, ◌+◌, ◌-◌, ◌≤◌, ◌≡◌, refl, ap, sym, ◌∙◌, Option, some, List, [], ◌∷◌, ◌++◌, and_then, length,
  replicate, drop, length-append, length-replicate, take-append, drop-append, drop-drop,
  drop-replicate, le→leb, arith,
}
use eth_utils.Prelude.Bytes.{Bytes, digits_be, length-digits_be}
use eth_utils.Tx.Abi.{deposit_selector, write_at, uint256, pack_deposit}

pub length-uint256 : (v : ℕ) → length (uint256 v) ≡ 32
unfolding uint256
length-uint256 v =
    omega (arith, length-append (replicate 24 0) (digits_be 256 8 v), length-digits_be 256 8 v)

-- A write behind what has been written extends it.
write_next :
    (pos room : ℕ) (front src : Bytes)
    → length front ≡ pos
    → length src ≤ room
    → write_at pos src (front ++ replicate room 0)
      ≡ some ((front ++ src) ++ replicate (room - length src) 0)
unfolding write_at
write_next pos room front src h fits =
    let size = length-append front (replicate room 0) in
    let zeros = length-replicate {A = ℕ} room 0 in
    let rest : drop (pos + length src) (front ++ replicate room 0)
        ≡ replicate (room - length src) 0 =
      sym (drop-drop (length src) pos (front ++ replicate room 0))
      ∙ ap (drop (length src)) (drop-append pos front (replicate room 0) h)
      ∙ drop-replicate room (length src) 0 in
    rw
      (
        le→leb (pos + length src) (length (front ++ replicate room 0)) (omega (arith, size, zeros)),
        take-append pos front (replicate room 0) h,
        rest,
      )
      (ap some (sym (append_assoc front src (replicate (room - length src) 0))))

-- The segments one after the other.
abbrev pub join : List Bytes → Bytes
join [] = []
join (s ∷ ss) = s ++ join ss

-- The segments of the calldata: the selector, four head words, and the tail with the length and the
-- bytes of each dynamic argument.
abbrev pub segments : Bytes → Bytes → Bytes → Bytes → List Bytes
segments pubkey wc sig root =
    deposit_selector
    ∷ uint256 128
    ∷ uint256 224
    ∷ uint256 288
    ∷ root
    ∷ uint256 48
    ∷ pubkey
    ∷ replicate 16 0
    ∷ uint256 32
    ∷ wc
    ∷ uint256 96
    ∷ sig
    ∷ []

-- One write, and what follows it.
chain :
    (pos room n : ℕ) (front src : Bytes) (k : Bytes → Option Bytes) {out : Bytes}
    → length front ≡ pos
    → length src ≡ n
    → n ≤ room
    → k ((front ++ src) ++ replicate (room - n) 0) ≡ some out
    → and_then (write_at pos src (front ++ replicate room 0)) k ≡ some out
chain pos room n front src k h e fits rest =
    let size : room - length src ≡ room - n = omega arith in
    rw (write_next pos room front src h (omega arith), size) rest

longer :
    (p n : ℕ) (front src : Bytes)
    → length front ≡ p
    → length src ≡ n
    → length (front ++ src) ≡ p + n
longer p n front src h e = omega (arith, length-append front src)

module _ (pubkey wc sig root : Bytes) (hk : length pubkey ≡ 48) (hw : length wc ≡ 32)
    (hs : length sig ≡ 96) (hr : length root ≡ 32) where
  -- `pack_deposit` does not panic on arguments of the source's array sizes, and its calldata is the
  -- documented sequence of segments.
  pub pack_deposit-join :
      pack_deposit pubkey wc sig root ≡ some (join (segments pubkey wc sig root))
  unfolding pack_deposit
  pack_deposit-join =
      let f1 : Bytes = deposit_selector in
      let f2 = f1 ++ uint256 128 in
      let f3 = f2 ++ uint256 224 in
      let f4 = f3 ++ uint256 288 in
      let f5 = f4 ++ root in
      let f6 = f5 ++ uint256 48 in
      let f7 = f6 ++ pubkey in
      let f8 = f7 ++ replicate 16 0 in
      let f9 = f8 ++ uint256 32 in
      let f10 = f9 ++ wc in
      let f11 = f10 ++ uint256 96 in
      let n2 = longer 4 32 f1 (uint256 128) refl (length-uint256 128) in
      let n3 = longer 36 32 f2 (uint256 224) n2 (length-uint256 224) in
      let n4 = longer 68 32 f3 (uint256 288) n3 (length-uint256 288) in
      let n5 = longer 100 32 f4 root n4 hr in
      let n6 = longer 132 32 f5 (uint256 48) n5 (length-uint256 48) in
      let n7 = longer 164 48 f6 pubkey n6 hk in
      let n8 = longer 212 16 f7 (replicate 16 0) n7 refl in
      let n9 = longer 228 32 f8 (uint256 32) n8 (length-uint256 32) in
      let n10 = longer 260 32 f9 wc n9 hw in
      let n11 = longer 292 32 f10 (uint256 96) n10 (length-uint256 96) in
      let full : 96 - length sig ≡ 0 = omega arith in
      chain 0 420 4 [] deposit_selector _ refl refl (omega arith) (
        chain 4 416 32 f1 (uint256 128) _ refl (length-uint256 128) (omega arith) (
          chain 36 384 32 f2 (uint256 224) _ n2 (length-uint256 224) (omega arith) (
            chain 68 352 32 f3 (uint256 288) _ n3 (length-uint256 288) (omega arith) (
              chain 100 320 32 f4 root _ n4 hr (omega arith) (
                chain 132 288 32 f5 (uint256 48) _ n5 (length-uint256 48) (omega arith) (
                  chain 164 256 48 f6 pubkey _ n6 hk (omega arith) (
                    rw (← append_assoc f7 (replicate 16 0) (replicate 192 0)) (
                      chain 228 192 32 f8 (uint256 32) _ n8 (length-uint256 32) (omega arith) (
                        chain 260 160 32 f9 wc _ n9 hw (omega arith) (
                          chain 292 128 32 f10 (uint256 96) _ n10 (length-uint256 96) (omega arith)
                            (write_next 324 96 f11 sig n11 (omega arith)
                              ∙ rw full (simp (append_assoc, append-nil)))))))))))))

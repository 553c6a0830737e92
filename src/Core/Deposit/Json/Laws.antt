-- ===== src/Core/Deposit/Json/Laws.antt =====
-- The accepted entries have the sizes of the source's array types, and an array is read whole or
-- its first bad entry is reported.
use mathlib.Core.List.{append_assoc, append-nil}
use mathlib.Core.Path.{subst, ap₂}
use eth_utils.Prelude.{
  ℕ, suc, ◌+◌, ◌%◌, ◌<◌, ◌≡◌, ◌≢◌, refl, ap, sym, ◌∙◌, none, some, List, [], ◌∷◌, ◌++◌, Result, ok,
  err, Result-cases, inl, inr, ok-injective, err-injective, >>=-eq-ok, map_err-eq-ok, length, take,
  get_elem?, All, arith, map, ==_iff, ◌==◌, if◌then◌else◌,
}
use eth_utils.Prelude.Bytes.{Bytes, IsByte, text, strip_prefix, lower_digit}
use eth_utils.Hex.{Hex}
use eth_utils.Core.Deposit.Errors.{DepositError, entry_at, invalid_hex, bad_length}
use eth_utils.Core.Deposit.Types.{Entry, IsSizedEntry}
use eth_utils.Core.Deposit.Json.{
  JsonEntryIn, without_prefix, decode_hex, decode_fixed_hex, entry_from_raw, entries_loop,
  entries_from_json,
}

not_x : (d : ℕ) → d < 16 → lower_digit d ≢ b'x'
unfolding lower_digit
not_x d h e = ground arith

not_upper_x : (d : ℕ) → d < 16 → lower_digit d ≢ b'X'
unfolding lower_digit
not_upper_x d h e = ground arith

module _ {E : Type 0} (hex : Hex E) where
  no_prefix :
      (x : ℕ) (bs : Bytes)
      → ((d : ℕ) → d < 16 → lower_digit d ≢ x)
      → All IsByte bs
      → strip_prefix (b'0' ∷ x ∷ []) (hex.encode bs) ≡ none
  unfolding strip_prefix
  no_prefix x [] other h = rw hex.encode_nil
  no_prefix x (b ∷ bs) other (hb, h) = rw hex.encode_cons (ground (arith, other (b % 16)))

  -- The hex text that the crate writes is read back, with or without the prefix `0x`.
  pub decode_hex-encode : (bs : Bytes) → All IsByte bs → decode_hex hex (hex.encode bs) ≡ ok bs
  unfolding decode_hex
  decode_hex-encode bs h =
      ap₂ (λ p q. hex.decode (without_prefix p q (hex.encode bs))) (no_prefix b'x' bs not_x h)
        (no_prefix b'X' bs not_upper_x h)
      ∙ hex.decode_encode bs h

  pub decode_hex-prefixed : (s : Bytes) → decode_hex hex (text "0x" ++ s) ≡ hex.decode s
  unfolding decode_hex strip_prefix
  decode_hex-prefixed s = refl

  decode_hex_shape : (s bs : Bytes) → decode_hex hex s ≡ ok bs → All IsByte bs
  unfolding decode_hex
  decode_hex_shape s bs h = (hex.decode_shape _ bs h).0

  sized :
      (field b : Bytes) (n : ℕ) {bs : Bytes}
      → ◌≡◌ {A = Result (DepositError E) Bytes}
          (if length b == n then ok b else err (bad_length field (length b) n))
          (ok bs)
      → (length bs ≡ n) × (b ≡ bs)
  sized field b n e = ground arith

  fixed_shape :
      (field s : Bytes) (n : ℕ) {bs : Bytes}
      → decode_fixed_hex hex field s n ≡ ok bs
      → (length bs ≡ n) × All IsByte bs
  unfolding decode_fixed_hex
  fixed_shape field s n {bs} h =
      let (b, decoded, rest) = >>=-eq-ok _ _ h in
      let (size, same) = sized field b n rest in
      (
        size,
        decode_hex_shape s bs
            (map_err-eq-ok (invalid_hex field s) (decode_hex hex s) decoded ∙ ap ok same),
      )

  -- Whatever the text, an entry that is accepted has the sizes of the source's arrays, in bytes.
  pub entry_from_raw-IsSizedEntry :
      (raw : JsonEntryIn) (e : Entry) → entry_from_raw hex raw ≡ ok e → IsSizedEntry e
  unfolding entry_from_raw
  entry_from_raw-IsSizedEntry raw e h =
      let (pk, e1, r1) = >>=-eq-ok _ _ h in
      let (wc, e2, r2) = >>=-eq-ok _ _ r1 in
      let (sig, e3, r3) = >>=-eq-ok _ _ r2 in
      let (mr, e4, r4) = >>=-eq-ok _ _ r3 in
      let (dr, e5, r5) = >>=-eq-ok _ _ r4 in
      let (fv, e6, r6) = >>=-eq-ok _ _ r5 in
      let (n1, b1) = fixed_shape (text "pubkey") raw.pubkey 48 e1 in
      let (n2, b2) = fixed_shape (text "withdrawal_credentials") raw.withdrawal_credentials 32 e2 in
      let (n3, b3) = fixed_shape (text "signature") raw.signature 96 e3 in
      let (n4, b4) = fixed_shape (text "deposit_message_root") raw.deposit_message_root 32 e4 in
      let (n5, b5) = fixed_shape (text "deposit_data_root") raw.deposit_data_root 32 e5 in
      let (n6, b6) = fixed_shape (text "fork_version") raw.fork_version 4 e6 in
      subst IsSizedEntry (ok-injective r6) (record {
        pubkey_size = n1;
        credentials_size = n2;
        signature_size = n3;
        message_root_size = n4;
        data_root_size = n5;
        fork_version_size = n6;
        pubkey_bytes = b1;
        credentials_bytes = b2;
        signature_bytes = b3;
        message_root_bytes = b4;
        data_root_bytes = b5;
        fork_version_bytes = b6;
      })

  -- The bad entry that is reported is the first one: the entries before it are accepted, it is
  -- refused with the inner error, and the index is its position.
  abbrev pub FirstBad : ℕ → List JsonEntryIn → DepositError E → Type 0
  FirstBad i raws x =
      (k : ℕ) × (raw : JsonEntryIn) × (inner : DepositError E) × (get_elem? raws k ≡ some raw)
      × (entry_from_raw hex raw ≡ err inner)
      × (x ≡ entry_at (i + k) inner)
      × All (λ r. (e : Entry) × (entry_from_raw hex r ≡ ok e)) (take k raws)

  FirstBad-cons :
      (i : ℕ) (raw : JsonEntryIn) (raws : List JsonEntryIn) (x : DepositError E) (e : Entry)
      → entry_from_raw hex raw ≡ ok e
      → FirstBad (i + 1) raws x
      → FirstBad i (raw ∷ raws) x
  FirstBad-cons i raw raws x e read (k, r, inner, at, bad, named, before) =
      let shift : i + 1 + k ≡ i + suc k = omega arith in
      (suc k, r, inner, at, bad, named ∙ ap (λ n. entry_at n inner) shift, ((e, read), before))

  entries_loop_error :
      (i : ℕ) (raws : List JsonEntryIn) (entries : List Entry) (x : DepositError E)
      → entries_loop hex i raws entries ≡ err x
      → FirstBad i raws x
  unfolding entries_loop
  entries_loop_error i [] entries x h = cc
  entries_loop_error i (raw ∷ raws) entries x h = elim (Result-cases (entry_from_raw hex raw)) [
    | inl (e, read) ↦
        FirstBad-cons i raw raws x e read
          (entries_loop_error (i + 1) raws (entries ++ (e ∷ [])) x (rw read at h))
    | inr (inner, bad) ↦
        let zero_shift : i + 0 ≡ i = omega arith in
        (0, raw, inner, refl, bad, rw zero_shift (err-injective (sym (rw bad at h))), tt)
  ]

  -- Where the JSON is an array of objects, an error of `entries_from_json` names the first object
  -- that is no entry, by its position, with the reason: each object before it is accepted.
  pub entries_from_json_error :
      (from_slice : Bytes → Result Bytes (List JsonEntryIn)) (json : Bytes)
      (raws : List JsonEntryIn) (x : DepositError E)
      → from_slice json ≡ ok raws
      → entries_from_json hex from_slice json ≡ err x
      → FirstBad 0 raws x
  unfolding entries_from_json
  entries_from_json_error from_slice json raws x parsed h =
      entries_loop_error 0 raws [] x (rw parsed at h)

  -- Where every object is accepted, the loop appends their entries in order.
  pub entries_loop_ok :
      {A : Type 0} (i : ℕ) (items : List A) (raw_of : A → JsonEntryIn) (entry_of : A → Entry)
      (entries : List Entry)
      → All (λ a. entry_from_raw hex (raw_of a) ≡ ok (entry_of a)) items
      → entries_loop hex i (map raw_of items) entries ≡ ok (entries ++ map entry_of items)
  unfolding entries_loop
  entries_loop_ok i [] raw_of entry_of entries h = ap ok (sym (append-nil entries))
  entries_loop_ok i (a ∷ items) raw_of entry_of entries (ha, h) = rw ha (
      entries_loop_ok (i + 1) items raw_of entry_of (entries ++ (entry_of a ∷ [])) h
      ∙ ap ok (append_assoc entries (entry_of a ∷ []) (map entry_of items)))

  pub decode_fixed_hex-encode :
      (field bs : Bytes) (n : ℕ)
      → length bs ≡ n
      → All IsByte bs
      → decode_fixed_hex hex field (hex.encode bs) n ≡ ok bs
  unfolding decode_fixed_hex
  decode_fixed_hex-encode field bs n h b = rw (decode_hex-encode bs b, h, (==_iff n n).1 refl)

-- ===== src/Keystore/Passphrase/Rules.antt =====
-- What the sources of passphrases let through, and how often a file source warns.
use eth_utils.Prelude.{
  ℕ, ◌≤◌, ◌≡◌, ◌↔◌, refl, sym, ap, ◌∙◌, inl, inr, Bool, true, false, List, [], ◌∷◌, ◌++◌, Result,
  ok, err, ok-injective, err-ne-ok, length, ltb, le→ltb_false, Bool-cases, arith,
}
use eth_utils.Prelude.Bytes.{Bytes, bytes_eq, bytes_eq_iff, bytes_eq_refl}
use eth_utils.Core.Disk.{IoKind}
use eth_utils.SecretFile.{Warning, OpenFile, read_secret_line}
use eth_utils.Keystore.Crypto.{Ciphers, normalize_passphrase}
use eth_utils.Keystore.Passphrase.{read_new_passphrase, confirm, require_min_len, read_file_source}

not_short : (n m : ℕ) → ltb n m ≡ false → m ≤ n
not_short n m h = ground arith

module _ {F S : Type 0} (ciphers : Ciphers) where
  confirm-eq-ok :
      (first second pw : Bytes)
      → confirm {F = F} {S = S} ciphers first second ≡ ok pw
      → (first ≡ pw) × (second ≡ pw) × (8 ≤ length (normalize_passphrase ciphers pw))
  unfolding confirm require_min_len
  confirm-eq-ok first second pw h = elim (Bool-cases (bytes_eq first second)) [
    | inr bad ↦ absurd (err-ne-ok (rw bad at h))
    | inl same ↦ elim (Bool-cases (ltb (length (normalize_passphrase ciphers first)) 8)) [
      | inl short ↦ absurd (err-ne-ok (rw (same, short) at h))
      | inr long ↦
          let is : first ≡ pw = ok-injective (rw (same, long) at h) in
          (
            is,
            sym ((bytes_eq_iff first second).0 same) ∙ is,
            rw (sym is) (not_short (length (normalize_passphrase ciphers first)) 8 long),
          )
    ]
  ]

  confirm_passes :
      (pw : Bytes)
      → 8 ≤ length (normalize_passphrase ciphers pw)
      → confirm {F = F} {S = S} ciphers pw pw ≡ ok pw
  unfolding confirm require_min_len
  confirm_passes pw long =
      rw (bytes_eq_refl pw, le→ltb_false (length (normalize_passphrase ciphers pw)) 8 long) refl

  accepted :
      (pw : Bytes) (t : Result Bytes (Unit {0})) (a b : Result Bytes Bytes)
      → (read_new_passphrase {F = F} {S = S} ciphers t a b).result ≡ ok pw
      → (t ≡ ok tt) × (a ≡ ok pw) × (b ≡ ok pw) × (8 ≤ length (normalize_passphrase ciphers pw))
  unfolding read_new_passphrase
  accepted pw (err e) a b h = absurd (err-ne-ok h)
  accepted pw (ok tt) (err e) b h = absurd (err-ne-ok h)
  accepted pw (ok tt) (ok a) (err e) h = absurd (err-ne-ok h)
  accepted pw (ok tt) (ok a) (ok b) h =
      let (x, y, long) = confirm-eq-ok a b pw h in (refl, ap ok x, ap ok y, long)

  -- A new passphrase is accepted exactly if a terminal is there, both answers are that passphrase,
  -- and it still has 8 bytes after it is normalized.
  pub read_new_passphrase_iff :
      (tty : Result Bytes (Unit {0})) (first second : Result Bytes Bytes) (pw : Bytes)
      → ((read_new_passphrase {F = F} {S = S} ciphers tty first second).result ≡ ok pw) ↔ (
          (tty ≡ ok tt)
          × (first ≡ ok pw)
          × (second ≡ ok pw)
          × (8 ≤ length (normalize_passphrase ciphers pw)))
  unfolding read_new_passphrase
  read_new_passphrase_iff tty first second pw = (accepted pw tty first second, given)
    where
      given :
          (tty ≡ ok tt)
            × (first ≡ ok pw)
            × (second ≡ ok pw)
            × (8 ≤ length (normalize_passphrase ciphers pw))
          → (read_new_passphrase {F = F} {S = S} ciphers tty first second).result ≡ ok pw
      given (t, a, b, long) = rw (t, a, b) (confirm_passes pw long)

append_nil : {A : Type 0} → (xs : List A) → xs ++ [] ≡ xs
append_nil [] = refl
append_nil (x ∷ xs) = ap (λ ys. x ∷ ys) (append_nil xs)

module _ (is_utf8 : Bytes → Bool) (path : Bytes) where
  -- The warnings of several reads of one file source, from a state of its latch.
  abbrev pub warnings_of : Type 0 → Bool → List (Result (IoKind × Bytes) OpenFile) → List Warning
  warnings_of F already [] = []
  warnings_of F already (opened ∷ rest) =
      let (now, reading) = read_file_source {F = F} is_utf8 path already opened in
      reading.written ++ warnings_of F now rest

  latched :
      (F : Type 0) (reads : List (Result (IoKind × Bytes) OpenFile)) → warnings_of F true reads ≡ []
  unfolding read_file_source
  latched F [] = refl
  latched F (opened ∷ rest) = latched F rest

  -- One file source warns at its first read only: the warnings of all its reads are those that the
  -- first one makes.
  pub warnings_of_first :
      (F : Type 0) (opened : Result (IoKind × Bytes) OpenFile)
      (rest : List (Result (IoKind × Bytes) OpenFile))
      → warnings_of F false (opened ∷ rest) ≡ (read_secret_line path is_utf8 opened).0
  unfolding read_file_source
  warnings_of_first F opened rest =
      rw (latched F rest) (append_nil (read_secret_line path is_utf8 opened).0)

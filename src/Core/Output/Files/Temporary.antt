-- ===== src/Core/Output/Files/Temporary.antt =====
-- The temporary file: it is new, and what is done to it touches no other path.
use eth_utils.Prelude.{ℕ, zero, suc, ◌+◌, ◌≡◌, refl, ◌⊎◌, inl, inr, none, some, Result, ok, err}
use eth_utils.Prelude.Bytes.{Bytes}
use eth_utils.Core.Disk.{
  IoKind, already_exists, permission_denied, unsupported, not_found, other, File, Files, Disk, Io,
  put,
}
use eth_utils.Core.Disk.Laws.{empty_file, create_new_cases, write_all_cases, sync_all_cases}
use eth_utils.Core.Output.Files.{
  OutputError, open_tmp, write_tmp, sync_tmp, after_attempt, create_tmp_loop, create_unique_tmp,
  fill,
}

module _ (disk : Disk) (names : ℕ → Bytes) where
  abbrev pub Created : Result OutputError Bytes × Files → Files → Type 0
  Created r s =
      ((e : OutputError) × (r ≡ (err e, s)))
      ⊎ ((tmp : Bytes) × (s tmp ≡ none) × (r ≡ (ok tmp, put tmp (some empty_file) s)))

  attempt_failed :
      (name : Bytes) (rest : Io OutputError Bytes) (s : Files)
      → Created (rest s) s
      → (k : IoKind) → Created (after_attempt disk names name rest (err k) s) s
  unfolding after_attempt
  attempt_failed name rest s h already_exists = h
  attempt_failed name rest s h permission_denied = inl (open_tmp permission_denied, refl)
  attempt_failed name rest s h unsupported = inl (open_tmp unsupported, refl)
  attempt_failed name rest s h not_found = inl (open_tmp not_found, refl)
  attempt_failed name rest s h other = inl (open_tmp other, refl)

  create_tmp_loop-Created :
      (attempts n : ℕ) (s : Files) → Created (create_tmp_loop disk names attempts n s) s
  unfolding create_tmp_loop
  create_tmp_loop-Created zero n s = inl (open_tmp already_exists, refl)
  create_tmp_loop-Created (suc attempts) n s = elim (create_new_cases disk (names n) s) [
    | inl (k, e) ↦ rw e (
        attempt_failed (names n) (λ t. create_tmp_loop disk names attempts (n + 1) t) s
          (create_tmp_loop-Created attempts (n + 1) s) k)
    | inr (free, e) ↦ rw e (inr (names n, free, refl))
  ]

  -- A path is returned only where there was no file, and an empty file stands there then; else
  -- nothing has changed.
  pub create_unique_tmp-Created : (s : Files) → Created (create_unique_tmp disk names s) s
  unfolding create_unique_tmp
  create_unique_tmp-Created s = create_tmp_loop-Created 10_000 0 s

module _ (disk : Disk) where
  -- A file that was filled holds the bytes; if that fails, it holds something, and no other path has
  -- changed.
  abbrev pub Filled : Result OutputError (Unit {0}) × Files → Bytes → Bytes → File → Files → Type 0
  Filled r tmp bytes f s =
      ((e : OutputError) × (g : File) × (r ≡ (err e, put tmp (some g) s)))
      ⊎ (r ≡ (ok tt, put tmp (some (record f { content = bytes })) s))

  pub fill-Filled :
      (tmp bytes : Bytes) (f : File) (s : Files)
      → s tmp ≡ some f
      → Filled (fill disk tmp bytes s) tmp bytes f s
  unfolding fill
  fill-Filled tmp bytes f s here = elim (write_all_cases disk tmp bytes f s here) [
    | inl (k, g, e) ↦ rw e (inl (write_tmp k, g, refl))
    | inr e ↦
        let t = put tmp (some (record f { content = bytes })) s in
        rw e (elim (sync_all_cases disk tmp t) [
          | inl (k, e') ↦ rw e' (inl (sync_tmp k, record f { content = bytes }, refl))
          | inr e' ↦ rw e' (inr refl)
        ])
  ]

-- ===== src/Core/Output/Files/Replace.antt =====
-- `write_atomic` replaces the file at the final path whole, or changes nothing.
use eth_utils.Prelude.{
  ℕ, ◌≡◌, ◌≢◌, refl, sym, ◌⊎◌, inl, inr, Option, none, some, [], Result, err, arith,
}
use eth_utils.Prelude.Bytes.{Bytes, bytes_eq_iff}
use eth_utils.Core.Disk.{File, Files, Disk, put, remove_file}
use eth_utils.Core.Disk.Laws.{
  empty_file, put_self, set_permissions_cases, rename_cases, remove_file_done,
}
use eth_utils.Core.Output.Files.{
  OutputError, open_tmp, publish_failed, guarded, fill_and_rename, write_atomic,
}
use eth_utils.Core.Output.Files.Temporary.{create_unique_tmp-Created, fill-Filled}
use eth_utils.Core.Output.Files.Publish.{IsPublished, sync_parent_dir-IsPublished}
use eth_utils.Core.Output.Files.Safety.{Same}

-- An error and the files as they were; or the new file at the path, and no other path changed.
abbrev pub Replaced : Files → Bytes → File → Result OutputError (Unit {0}) × Files → Type 0
Replaced s final f r =
    ((e : OutputError) × (r.0 ≡ err e) × Same s r.1)
    ⊎ (IsPublished r.0 × (r.1 final ≡ some f) × ((q : Bytes) → q ≢ final → r.1 q ≡ s q))

-- The temporary file removed, after some writes to it.
cleared_1 :
    (tmp : Bytes) (v : Option File) (s : Files) (q : Bytes)
    → s tmp ≡ none
    → put tmp none (put tmp v s) q ≡ s q
unfolding put
cleared_1 tmp v s q free = ground (arith, bytes_eq_iff tmp q)

cleared_3 :
    (tmp : Bytes) (u v w : Option File) (s : Files) (q : Bytes)
    → s tmp ≡ none
    → put tmp none (put tmp u (put tmp v (put tmp w s))) q ≡ s q
unfolding put
cleared_3 tmp u v w s q free = ground (arith, bytes_eq_iff tmp q)

moved_other :
    (tmp final : Bytes) (u v w x : Option File) (s : Files) (q : Bytes)
    → s tmp ≡ none
    → q ≢ final
    → put final x (put tmp none (put tmp u (put tmp v (put tmp w s)))) q ≡ s q
unfolding put
moved_other tmp final u v w x s q free apart =
    ground (arith, bytes_eq_iff tmp q, bytes_eq_iff final q, λ (e : final ≡ q). apart (sym e))

module _ (disk : Disk) (removes : (p : Bytes) → disk.removes p ≡ none) where
  gone : (p : Bytes) (s : Files) → remove_file disk p s ≡ put p none s
  gone p s = remove_file_done disk p s (removes p)

  fill_and_rename-Replaced :
      (final bytes : Bytes) (mode : ℕ) (tmp : Bytes) (s : Files)
      → s tmp ≡ none
      → Replaced s final
          (record { content = bytes; mode = mode })
          (fill_and_rename disk final bytes mode tmp (put tmp (some empty_file) s))
  unfolding fill_and_rename guarded
  fill_and_rename-Replaced final bytes mode tmp s free =
      let t = put tmp (some empty_file) s in
      let moded : File = record { content = []; mode = mode } in
      let full : File = record { content = bytes; mode = mode } in
      let t1 = put tmp (some moded) t in
      let t2 = put tmp (some full) t1 in
      elim (set_permissions_cases disk tmp mode empty_file t (put_self tmp (some empty_file) s)) [
        | inl (k, e1) ↦ rw (e1, gone) (inl (open_tmp k, refl, λ q. cleared_1 tmp _ s q free))
        | inr e1 ↦ rw e1 (elim (fill-Filled disk tmp bytes moded t1 (put_self tmp (some moded) t)) [
          | inl (e, g, e2) ↦ rw (e2, gone) (inl (e, refl, λ q. cleared_3 tmp _ _ _ s q free))
          | inr e2 ↦
              rw e2 (elim (rename_cases disk tmp final full t2 (put_self tmp (some full) t1)) [
                | inl (k, e3) ↦
                    rw (e3, gone) (inl (publish_failed k, refl, λ q. cleared_3 tmp _ _ _ s q free))
                | inr e3 ↦
                    let t3 = put final (some full) (put tmp none t2) in
                    let (d, published, e4) = sync_parent_dir-IsPublished disk tmp final full t3 in
                    rw (e3, e4)
                      (inr (
                        published,
                        put_self final (some full) (put tmp none t2),
                        λ q other. moved_other tmp final _ _ _ _ s q free other,
                      ))
              ])
        ])
      ]

  -- Where files can be removed, `write_atomic` returns an error and leaves every path as it was; or
  -- the final path holds exactly the bytes with the mode, whatever it held before, no other path is
  -- changed, and it returns success, or the error that the directory was not synced.
  pub write_atomic-Replaced :
      (names : ℕ → Bytes) (final bytes : Bytes) (mode : ℕ) (s : Files)
      → Replaced s final
          (record { content = bytes; mode = mode })
          (write_atomic disk names final bytes mode s)
  unfolding write_atomic
  write_atomic-Replaced names final bytes mode s = elim (create_unique_tmp-Created disk names s) [
    | inl (e, is) ↦ rw is (inl (e, refl, λ q. refl))
    | inr (tmp, free, is) ↦ rw is (fill_and_rename-Replaced final bytes mode tmp s free)
  ]

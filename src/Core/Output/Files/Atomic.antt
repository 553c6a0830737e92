-- ===== src/Core/Output/Files/Atomic.antt =====
-- `write_new_0600` writes all or nothing, where the temporary file can be removed.
use eth_utils.Prelude.{
  ℕ, ◌≡◌, ◌≢◌, refl, sym, ap, ◌⊎◌, inl, inr, Option, none, some, Result, err, arith,
}
use eth_utils.Prelude.Bytes.{Bytes, bytes_eq_iff}
use eth_utils.Core.Disk.{File, Files, Disk, put, remove_file}
use eth_utils.Core.Disk.Laws.{empty_file, free-ne-held, put_self, remove_file_done}
use eth_utils.Core.Output.Files.{OutputError, guarded, fill_and_publish, write_new_0600}
use eth_utils.Core.Output.Files.Temporary.{create_unique_tmp-Created, fill-Filled}
use eth_utils.Core.Output.Files.Publish.{
  IsPublished, Published, refused, linked, rolled_back, renamed, publish-Published,
}
use eth_utils.Core.Output.Files.Safety.{Same, written_file, free_before}

-- An error and the files as they were; or the new file at a path that was free, with all its bytes
-- and the mode 0600, and no other path changed.
abbrev pub AllOrNothing : Files → Bytes → Bytes → Result OutputError (Unit {0}) × Files → Type 0
AllOrNothing s final bytes r =
    ((e : OutputError) × (r.0 ≡ err e) × Same s r.1)
    ⊎ ((s final ≡ none)
        × IsPublished r.0
        × (r.1 final ≡ some (written_file bytes))
        × ((q : Bytes) → q ≢ final → r.1 q ≡ s q))

-- Putting back what was there.
restored :
    (tmp : Bytes) (v w : Option File) (s : Files) (q : Bytes)
    → s tmp ≡ none
    → put tmp none (put tmp v (put tmp w s)) q ≡ s q
unfolding put
restored tmp v w s q free = ground (arith, bytes_eq_iff tmp q, ap s)

restored_final :
    (tmp final : Bytes) (u v w : Option File) (s : Files) (q : Bytes)
    → s tmp ≡ none
    → s final ≡ none
    → put tmp none (put final none (put final u (put tmp v (put tmp w s)))) q ≡ s q
unfolding put
restored_final tmp final u v w s q free free' =
    ground (arith, bytes_eq_iff tmp q, bytes_eq_iff final q)

-- The published file, with the temporary name gone.
placed_final :
    (tmp final : Bytes) (f : File) (v w : Option File) (s : Files)
    → final ≢ tmp
    → put tmp none (put final (some f) (put tmp v (put tmp w s))) final ≡ some f
unfolding put
placed_final tmp final f v w s apart =
    ground
      (arith, bytes_eq_iff tmp final, bytes_eq_iff final final, λ (e : tmp ≡ final). apart (sym e))

placed_other :
    (tmp final : Bytes) (u v w : Option File) (s : Files) (q : Bytes)
    → s tmp ≡ none
    → q ≢ final
    → put tmp none (put final u (put tmp v (put tmp w s))) q ≡ s q
unfolding put
placed_other tmp final u v w s q free apart =
    ground (arith, bytes_eq_iff tmp q, bytes_eq_iff final q, λ (e : final ≡ q). apart (sym e))

moved_other :
    (tmp final : Bytes) (u x v w : Option File) (s : Files) (q : Bytes)
    → s tmp ≡ none
    → q ≢ final
    → put final u (put tmp none (put final x (put tmp v (put tmp w s)))) q ≡ s q
unfolding put
moved_other tmp final u x v w s q free apart =
    ground (arith, bytes_eq_iff tmp q, bytes_eq_iff final q, λ (e : final ≡ q). apart (sym e))

module _ (disk : Disk) (removes : (p : Bytes) → disk.removes p ≡ none) where
  gone : (p : Bytes) (s : Files) → remove_file disk p s ≡ put p none s
  gone p s = remove_file_done disk p s (removes p)

  Published-AllOrNothing :
      (tmp final bytes : Bytes) (w : Option File) (s : Files)
      (r : Result OutputError (Unit {0}) × Files)
      → s tmp ≡ none
      → (put tmp (some (written_file bytes)) (put tmp w s) final ≡ none
          → (s final ≡ none) × (final ≢ tmp))
      → Published disk tmp final
          (written_file bytes)
          (put tmp (some (written_file bytes)) (put tmp w s))
          r
      → AllOrNothing s final bytes r
  Published-AllOrNothing tmp final bytes w s r free back (refused e is) = inl (
    e,
    ap (λ (x : Result OutputError (Unit {0}) × Files). x.0) is,
    λ q. rw (is, gone) (restored tmp _ w s q free),
  )
  Published-AllOrNothing tmp final bytes w s r free back (linked d new p is) =
      let (old, apart) = back new in
      inr (
        old,
        rw is p,
        rw (is, gone) (placed_final tmp final _ _ w s apart),
        λ q other. rw (is, gone) (placed_other tmp final _ _ w s q free other),
      )
  Published-AllOrNothing tmp final bytes w s r free back (rolled_back e new is) =
      let (old, apart) = back new in
      inl (
        e,
        ap (λ (x : Result OutputError (Unit {0}) × Files). x.0) is,
        λ q. rw (is, gone, gone) (restored_final tmp final _ _ w s q free old),
      )
  Published-AllOrNothing tmp final bytes w s r free back (renamed d new p is) =
      let (old, apart) = back new in
      inr (
        old,
        rw is p,
        rw is (put_self final (some (written_file bytes)) _),
        λ q other. rw is (moved_other tmp final _ _ _ w s q free other),
      )

  fill_and_publish-AllOrNothing :
      (final bytes tmp : Bytes) (s : Files)
      → s tmp ≡ none
      → AllOrNothing s final bytes
          (fill_and_publish disk final bytes tmp (put tmp (some empty_file) s))
  unfolding fill_and_publish guarded
  fill_and_publish-AllOrNothing final bytes tmp s free =
      let t = put tmp (some empty_file) s in
      elim (fill-Filled disk tmp bytes empty_file t (put_self tmp (some empty_file) s)) [
        | inl (e, g, is) ↦ rw (is, gone) (inl (e, refl, λ q. restored tmp (some g) _ s q free))
        | inr is ↦
            let here = put_self tmp (some (written_file bytes)) t in
            rw is (
              Published-AllOrNothing tmp final bytes (some empty_file) s _ free
                (λ new. (
                  free_before disk tmp final empty_file s
                      (free_before disk tmp final (written_file bytes) t new),
                  free-ne-held (put tmp (some (written_file bytes)) t) final tmp
                      (written_file bytes) new here,
                ))
                (publish-Published disk tmp final (written_file bytes) _ here))
      ]

  -- Where files can be removed, `write_new_0600` returns an error and leaves every path as it was;
  -- or the final path was free and now holds exactly the bytes with the mode 0600, no other path is
  -- changed, and it returns success, or the error that the directory was not synced.
  pub write_new_0600-AllOrNothing :
      (names : ℕ → Bytes) (final bytes : Bytes) (s : Files)
      → AllOrNothing s final bytes (write_new_0600 disk names final bytes s)
  unfolding write_new_0600
  write_new_0600-AllOrNothing names final bytes s = elim (create_unique_tmp-Created disk names s) [
    | inl (e, is) ↦ rw is (inl (e, refl, λ q. refl))
    | inr (tmp, free, is) ↦ rw is (fill_and_publish-AllOrNothing final bytes tmp s free)
  ]

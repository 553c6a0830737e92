-- ===== src/Core/Output/Files/Publish.antt =====
-- How a filled temporary file is published under a path where there is no file yet: by a link, or by
-- a reservation and a rename.
use eth_utils.Prelude.{
  ◌≡◌, refl, ◌∙◌, ◌⊎◌, inl, inr, Option, none, some, Result, ok, err, Bool-cases,
}
use eth_utils.Prelude.Bytes.{Bytes}
use eth_utils.Core.Disk.{
  IoKind, already_exists, permission_denied, unsupported, not_found, other, File, Files, Disk, ◌>>◌,
  on_err, put, answer, remove_file,
}
use eth_utils.Core.Disk.Laws.{
  empty_file, free-ne-held, create_new_cases, hard_link_cases, rename_cases, put_other,
}
use eth_utils.Core.Output.Files.{
  OutputError, taken, sync_dir, publish_failed, hard_link_unsupported, sync_parent_dir, guarded,
  reserve_error, replace, publish_via_reservation_rename, link_failed, after_link, publish,
}

-- Success, or a failure to sync the directory after the file was published.
abbrev pub IsPublished : Result OutputError (Unit {0}) → Type 0
IsPublished d = (d ≡ ok tt) ⊎ ((k : IoKind) × (d ≡ err (sync_dir k)))

module _ (disk : Disk) (tmp final : Bytes) (f : File) where
  -- What publishing the temporary file `tmp` with content `f` makes of the files `s`.
  pub data Published (s : Files) (r : Result OutputError (Unit {0}) × Files) : Type 0 where
    refused : (e : OutputError) → r ≡ (err e, remove_file disk tmp s) → Published s r
    linked :
        (d : Result OutputError (Unit {0}))
        → s final ≡ none
        → IsPublished d
        → r ≡ (d, remove_file disk tmp (put final (some f) s))
        → Published s r
    rolled_back :
        (e : OutputError)
        → s final ≡ none
        → r ≡ (err e, remove_file disk tmp (remove_file disk final (put final (some empty_file) s)))
        → Published s r
    renamed :
        (d : Result OutputError (Unit {0}))
        → s final ≡ none
        → IsPublished d
        → r ≡ (d, put final (some f) (put tmp none (put final (some empty_file) s)))
        → Published s r

  pub sync_parent_dir-IsPublished :
      (s : Files)
      → (d : Result OutputError (Unit {0})) × (IsPublished d)
        × (sync_parent_dir disk final s ≡ (d, s))
  unfolding sync_parent_dir
  sync_parent_dir-IsPublished s = outcome (disk.syncs_dir final)
    where
      outcome :
          (o : Option IoKind)
          → (d : Result OutputError (Unit {0})) × (IsPublished d)
            × (on_err {A = Unit {0}} sync_dir (answer o s) s ≡ (d, s))
      outcome none = (ok tt, inl refl, refl)
      outcome (some k) = (err (sync_dir k), inr (k, refl), refl)

  reserved :
      (s : Files)
      → s tmp ≡ some f
      → Published s
          ((publish_via_reservation_rename disk tmp final >> sync_parent_dir disk final) s)
  unfolding publish_via_reservation_rename guarded
  reserved s here = elim (create_new_cases disk final s) [
    | inl (k, e) ↦ refused (reserve_error k) (rw e)
    | inr (free, e) ↦
        let t = put final (some empty_file) s in
        let there =
          put_other final tmp (some empty_file) s (free-ne-held s final tmp f free here) ∙ here in
        elim (rename_cases disk tmp final f t there) [
          | inl (k, e') ↦ rolled_back (publish_failed k) free (unfold replace in rw (e, e'))
          | inr e' ↦
              let (d, published, synced) =
                sync_parent_dir-IsPublished (put final (some f) (put tmp none t)) in
              renamed d free published (unfold replace in rw (e, e', synced))
        ]
  ]

  link_failed-Published :
      (s : Files) (k : IoKind) → s tmp ≡ some f → Published s (link_failed disk tmp final k s)
  unfolding link_failed guarded
  link_failed-Published s k here = elim (Bool-cases (hard_link_unsupported k)) [
    | inl fallback ↦ rw fallback (reserved s here)
    | inr refusal ↦ rw refusal (refused (publish_failed k) refl)
  ]

  after_link_failed :
      (s : Files)
      → s tmp ≡ some f
      → (k : IoKind) → Published s (after_link disk tmp final (err k) s)
  unfolding after_link guarded
  after_link_failed s here already_exists = refused taken refl
  after_link_failed s here permission_denied = link_failed-Published s permission_denied here
  after_link_failed s here unsupported = link_failed-Published s unsupported here
  after_link_failed s here not_found = link_failed-Published s not_found here
  after_link_failed s here other = link_failed-Published s other here

  pub publish-Published : (s : Files) → s tmp ≡ some f → Published s (publish disk tmp final s)
  unfolding publish
  publish-Published s here = elim (hard_link_cases disk tmp final f s here) [
    | inl (k, e) ↦ rw e (after_link_failed s here k)
    | inr (free, e) ↦
        let (d, published, synced) =
          sync_parent_dir-IsPublished (remove_file disk tmp (put final (some f) s)) in
        linked d free published (unfold after_link in rw (e, synced))
  ]

-- ===== src/Core/Output/Files.antt =====
-- The writers of output.rs: `write_new_0600`, `write_atomic` and `FsWriter`. The names of temporary
-- files come from a counter, the clock and the process ID: the parameter `names` gives the name of
-- each attempt. A temporary file that a guard owns is removed when the guard is dropped.
pub mod Temporary
pub mod Publish
pub mod Safety
pub mod Atomic
pub mod Replace
use eth_utils.Prelude.{
  ℕ, zero, suc, ◌+◌, Bool, true, false, Option, List, [], ◌++◌, Result, ok, err, map_err,
  if◌then◌else◌,
}
use eth_utils.Prelude.Bytes.{Bytes, text}
use eth_utils.Hex.{Hex}
use eth_utils.Core.Deposit.{Entry}
use eth_utils.Core.Disk.{
  IoKind, already_exists, permission_denied, unsupported, not_found, other, Files, Disk, Io, ◌>>=◌,
  ◌>>◌, fail, on_err, continue_with, create_new, create_or_truncate, write_all, set_permissions,
  sync_all, hard_link, rename, remove_file, answer,
}
use eth_utils.Core.Output.{Serde, marshal_entries, digest_hex}

-- `taken` is the error `AlreadyExists`.
pub data OutputError : Type 0 where
  marshal : Bytes → OutputError
  open_tmp write_tmp sync_tmp publish_failed write_dry_run sync_dir : IoKind → OutputError
  taken : OutputError

unfoldable pub hard_link_unsupported : IoKind → Bool
hard_link_unsupported unsupported = true
hard_link_unsupported permission_denied = true
hard_link_unsupported already_exists = false
hard_link_unsupported not_found = false
hard_link_unsupported other = false

unfoldable pub reserve_error : IoKind → OutputError
reserve_error already_exists = taken
reserve_error permission_denied = open_tmp permission_denied
reserve_error unsupported = open_tmp unsupported
reserve_error not_found = open_tmp not_found
reserve_error other = open_tmp other

module _ (disk : Disk) where
  -- Opening the parent directory and `sync_all` on it.
  unfoldable pub sync_parent_dir : Bytes → Io OutputError (Unit {0})
  unfolding answer
  sync_parent_dir p s = on_err sync_dir (answer (disk.syncs_dir p) s) s

  -- Drops the guard of `tmp` where the program returns an error.
  unfoldable pub or_remove :
      Bytes → Result OutputError (Unit {0}) → Files → Result OutputError (Unit {0}) × Files
  or_remove tmp (ok u) s = (ok u, s)
  or_remove tmp (err e) s = (err e, remove_file disk tmp s)

  unfoldable pub guarded : Bytes → Io OutputError (Unit {0}) → Io OutputError (Unit {0})
  unfolding or_remove
  guarded tmp m s = or_remove tmp (m s).0 (m s).1

  module _ (names : ℕ → Bytes) where
    -- What one attempt gives; `rest` are the attempts after it.
    unfoldable pub after_attempt :
        Bytes → Io OutputError Bytes → Result IoKind (Unit {0}) → Io OutputError Bytes
    after_attempt name rest (ok u) s = (ok name, s)
    after_attempt name rest (err already_exists) s = rest s
    after_attempt name rest (err permission_denied) s = (err (open_tmp permission_denied), s)
    after_attempt name rest (err unsupported) s = (err (open_tmp unsupported), s)
    after_attempt name rest (err not_found) s = (err (open_tmp not_found), s)
    after_attempt name rest (err other) s = (err (open_tmp other), s)

    -- The attempts that are left, from the `n`-th name on.
    unfoldable pub create_tmp_loop : ℕ → ℕ → Io OutputError Bytes
    unfolding after_attempt
    create_tmp_loop zero n s = (err (open_tmp already_exists), s)
    create_tmp_loop (suc attempts) n s =
        let rest : Io OutputError Bytes = λ t. create_tmp_loop attempts (n + 1) t in
        after_attempt (names n) rest (create_new disk (names n) s).0 (create_new disk (names n) s).1

    unfoldable pub create_unique_tmp : Io OutputError Bytes
    unfolding create_tmp_loop
    create_unique_tmp = create_tmp_loop 10_000 0

  -- The bytes into the temporary file, and down to the disk.
  unfoldable pub fill : Bytes → Bytes → Io OutputError (Unit {0})
  fill tmp bytes =
      on_err write_tmp (write_all disk tmp bytes) >> on_err sync_tmp (sync_all disk tmp)

  -- The rename over the reservation, which is removed where the rename fails.
  unfoldable pub or_release :
      Bytes → Result IoKind (Unit {0}) → Files → Result OutputError (Unit {0}) × Files
  or_release final (ok u) s = (ok u, s)
  or_release final (err k) s = (err (publish_failed k), remove_file disk final s)

  unfoldable pub replace : Bytes → Bytes → Io OutputError (Unit {0})
  unfolding or_release
  replace tmp final s = or_release final (rename disk tmp final s).0 (rename disk tmp final s).1

  unfoldable pub publish_via_reservation_rename : Bytes → Bytes → Io OutputError (Unit {0})
  publish_via_reservation_rename tmp final =
      guarded tmp (on_err reserve_error (create_new disk final) >> replace tmp final)

  unfoldable pub link_failed : Bytes → Bytes → IoKind → Io OutputError (Unit {0})
  link_failed tmp final k =
      if hard_link_unsupported k
      then publish_via_reservation_rename tmp final >> sync_parent_dir final
      else guarded tmp (fail (publish_failed k))

  unfoldable pub after_link : Bytes → Bytes → Result IoKind (Unit {0}) → Io OutputError (Unit {0})
  unfolding link_failed
  after_link tmp final (ok u) s = sync_parent_dir final (remove_file disk tmp s)
  after_link tmp final (err already_exists) s = guarded tmp (fail taken) s
  after_link tmp final (err unsupported) s = link_failed tmp final unsupported s
  after_link tmp final (err permission_denied) s = link_failed tmp final permission_denied s
  after_link tmp final (err not_found) s = link_failed tmp final not_found s
  after_link tmp final (err other) s = link_failed tmp final other s

  unfoldable pub publish : Bytes → Bytes → Io OutputError (Unit {0})
  publish tmp final s =
      after_link tmp final (hard_link disk tmp final s).0 (hard_link disk tmp final s).1

  -- The temporary file has been created.
  unfoldable pub fill_and_publish : Bytes → Bytes → Bytes → Io OutputError (Unit {0})
  fill_and_publish final bytes tmp = guarded tmp (fill tmp bytes) >> publish tmp final

  unfoldable pub write_new_0600 : (ℕ → Bytes) → Bytes → Bytes → Io OutputError (Unit {0})
  write_new_0600 names final bytes = create_unique_tmp names >>= fill_and_publish final bytes

  unfoldable pub fill_and_rename : Bytes → Bytes → ℕ → Bytes → Io OutputError (Unit {0})
  fill_and_rename final bytes mode tmp =
      guarded tmp (
        on_err open_tmp (set_permissions disk tmp mode)
        >> (fill tmp bytes >> on_err publish_failed (rename disk tmp final)))
      >> sync_parent_dir final

  unfoldable pub write_atomic : (ℕ → Bytes) → Bytes → Bytes → ℕ → Io OutputError (Unit {0})
  write_atomic names final bytes mode = create_unique_tmp names >>= fill_and_rename final bytes mode

  -- The closure of `FsWriter::write`, which removes the temporary file on any failure.
  unfoldable pub write_renamed : Bytes → Bytes → Bytes → Io OutputError (Unit {0})
  write_renamed tmp final bytes = guarded tmp (
      on_err open_tmp (create_or_truncate disk tmp)
      >> (fill tmp bytes
          >> (on_err publish_failed (rename disk tmp final) >> sync_parent_dir final)))

-- What both writers return for the bytes, with the path of the file.
module _ {E : Type 0} (hex : Hex E) (serde : Serde) (sha256 : Bytes → Bytes) where
  unfoldable pub marshalled : List Entry → Result OutputError Bytes
  marshalled entries = map_err marshal (marshal_entries hex serde entries)

  unfoldable pub with_digest :
      Bytes → Bytes → Io OutputError (Unit {0}) → Io OutputError (Bytes × Bytes)
  with_digest path bytes m = m >>= λ _ s. (ok (path, digest_hex hex sha256 bytes), s)

  -- `FsWriter::write`; `join` is `Path::join` and `stamp` the decimal text of the time.
  unfoldable pub write_entries :
      Disk → (Bytes → Bytes → Bytes) → Bytes → List Entry → Bytes → Io OutputError (Bytes × Bytes)
  write_entries disk join dir entries stamp s =
      continue_with
        (λ bytes. with_digest (join dir (text "deposit_data-" ++ stamp ++ text ".json")) bytes (
          write_renamed disk (join dir (text ".deposit_data-" ++ stamp ++ text ".json.tmp"))
            (join dir (text "deposit_data-" ++ stamp ++ text ".json")) bytes))
        (marshalled entries) s

  -- `DryRunWriter::write`; `sink` says how writing to the stream fails.
  unfoldable pub write_dry_run_entries :
      (Bytes → Option IoKind) → List Entry → Io OutputError (Bytes × Bytes)
  unfolding answer
  write_dry_run_entries sink entries s =
      continue_with
        (λ bytes. with_digest [] bytes (λ t. on_err write_dry_run (answer (sink bytes) t) t))
        (marshalled entries) s

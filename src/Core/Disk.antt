-- ===== src/Core/Disk.antt =====
-- The file system as the writers of output.rs use it: files under their paths, and the system calls
-- of `std::fs` with what the system answers. A hard link is a second name for one content: nothing
-- is written to a file after it has been linked. The umask is taken to clear no bit of the mode 0600.
pub mod Laws
use eth_utils.Prelude.{ℕ, Bool, Option, none, some, [], Result, ok, err, map_err, if◌then◌else◌}
use eth_utils.Prelude.Bytes.{Bytes, bytes_eq}

-- `std::io::ErrorKind`, as far as the program tells kinds apart.
pub data IoKind : Type 0 where
  already_exists permission_denied unsupported not_found other : IoKind

pub record File : Type 0 where
  pub content : Bytes
  pub mode : ℕ

abbrev pub Files : Type 0
Files = Bytes → Option File

-- The error of a call on a path, if the call fails; a failed write may leave other content.
pub record Disk : Type 0 where
  pub creates : Bytes → Option IoKind
  pub chmods : Bytes → Option IoKind
  pub writes : Bytes → Option IoKind
  pub leaves : Bytes → Bytes → Bytes
  pub syncs : Bytes → Option IoKind
  pub links : Bytes → Bytes → Option IoKind
  pub renames : Bytes → Bytes → Option IoKind
  pub removes : Bytes → Option IoKind
  pub syncs_dir : Bytes → Option IoKind

-- A program on the files that may fail.
abbrev pub Io : Type 0 → Type 0 → Type 0
Io E A = Files → Result E A × Files

abbrev pub continue_with : {E A B : Type 0} → (A → Io E B) → Result E A → Files → Result E B × Files
continue_with f (ok a) s = f a s
continue_with f (err e) s = (err e, s)

infixl 5 ◌>>=◌ ◌>>◌
abbrev pub ◌>>=◌ : {E A B : Type 0} → Io E A → (A → Io E B) → Io E B
◌>>=◌ m f s = continue_with f (m s).0 (m s).1

abbrev pub ◌>>◌ : {E B : Type 0} → Io E (Unit {0}) → Io E B → Io E B
m >> k = m >>= λ _. k

abbrev pub fail : {E A : Type 0} → E → Io E A
fail e s = (err e, s)

-- `map_err` on what a call returns.
abbrev pub on_err : {E F A : Type 0} → (E → F) → Io E A → Io F A
on_err f m s = (map_err f (m s).0, (m s).1)

unfoldable pub put : Bytes → Option File → Files → Files
put p v s q = if bytes_eq p q then v else s q

-- A call that changes nothing if it fails, and else the files to `next`.
unfoldable pub answer : Option IoKind → Files → Io IoKind (Unit {0})
answer none next s = (ok tt, next)
answer (some k) next s = (err k, s)

abbrev pub mode_of : Option File → ℕ
mode_of none = 0o600
mode_of (some f) = f.mode

unfoldable pub removed : Bytes → Option IoKind → Files → Files
removed p none s = put p none s
removed p (some k) s = s

module _ (disk : Disk) where
  unfoldable pub create_on : Bytes → Option File → Io IoKind (Unit {0})
  create_on p (some f) s = (err already_exists, s)
  create_on p none s =
      answer (disk.creates p) (put p (some (record { content = []; mode = 0o600 })) s) s

  -- `open_create_new_0600`, after the flags of `OpenOptions`.
  unfoldable pub create_new : Bytes → Io IoKind (Unit {0})
  unfolding create_on answer
  create_new p s = create_on p (s p) s

  -- `open_0600`: creates the file, or empties the one that is there and keeps its mode.
  unfoldable pub create_or_truncate : Bytes → Io IoKind (Unit {0})
  unfolding answer
  create_or_truncate p s =
      answer (disk.creates p) (put p (some (record { content = []; mode = mode_of (s p) })) s) s

  unfoldable pub write_on : Bytes → Bytes → Option IoKind → Option File → Io IoKind (Unit {0})
  write_on p bytes k none s = (err not_found, s)
  write_on p bytes none (some f) s = (ok tt, put p (some (record f { content = bytes })) s)
  write_on p bytes (some k) (some f) s =
      (err k, put p (some (record f { content = disk.leaves p bytes })) s)

  -- `write_all` on the file that was just created.
  unfoldable pub write_all : Bytes → Bytes → Io IoKind (Unit {0})
  unfolding write_on
  write_all p bytes s = write_on p bytes (disk.writes p) (s p) s

  unfoldable pub chmod_on : Bytes → ℕ → Option File → Io IoKind (Unit {0})
  chmod_on p mode none s = (err not_found, s)
  chmod_on p mode (some f) s = answer (disk.chmods p) (put p (some (record f { mode = mode })) s) s

  unfoldable pub set_permissions : Bytes → ℕ → Io IoKind (Unit {0})
  unfolding chmod_on answer
  set_permissions p mode s = chmod_on p mode (s p) s

  unfoldable pub sync_all : Bytes → Io IoKind (Unit {0})
  unfolding answer
  sync_all p s = answer (disk.syncs p) s s

  unfoldable pub link_on : Bytes → Bytes → Option File → Option File → Io IoKind (Unit {0})
  link_on p q none target s = (err not_found, s)
  link_on p q (some f) (some g) s = (err already_exists, s)
  link_on p q (some f) none s = answer (disk.links p q) (put q (some f) s) s

  unfoldable pub hard_link : Bytes → Bytes → Io IoKind (Unit {0})
  unfolding link_on answer
  hard_link p q s = link_on p q (s p) (s q) s

  unfoldable pub rename_on : Bytes → Bytes → Option File → Io IoKind (Unit {0})
  rename_on p q none s = (err not_found, s)
  rename_on p q (some f) s = answer (disk.renames p q) (put q (some f) (put p none s)) s

  -- Replaces the target.
  unfoldable pub rename : Bytes → Bytes → Io IoKind (Unit {0})
  unfolding rename_on answer
  rename p q s = rename_on p q (s p) s

  -- `let _ = fs::remove_file(path)`
  unfoldable pub remove_file : Bytes → Files → Files
  unfolding removed
  remove_file p s = removed p (disk.removes p) s

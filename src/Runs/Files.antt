-- ===== src/Runs/Files.antt =====
-- The theorems on the writers of files, at concrete files.
use eth_utils.Prelude.{ℕ, none, some, [], ◌∷◌, refl}
use eth_utils.Prelude.Bytes.{Bytes, text}
use eth_utils.Core.Disk.{Disk, Files, put, permission_denied}
use eth_utils.Core.Output.Files.{write_new_0600, write_atomic}
use eth_utils.Core.Output.Files.Safety.{Keeps, write_new_0600-Keeps}
use eth_utils.Core.Output.Files.Atomic.{AllOrNothing, write_new_0600-AllOrNothing}
use eth_utils.Core.Output.Files.Replace.{Replaced, write_atomic-Replaced}

-- A disk without hard links, on which no other call fails.
abbrev disk : Disk
disk = record {
  creates = λ p. none;
  chmods = λ p. none;
  writes = λ p. none;
  leaves = λ p b. [];
  syncs = λ p. none;
  links = λ p q. some permission_denied;
  renames = λ p q. none;
  removes = λ p. none;
  syncs_dir = λ p. none;
}

abbrev names : ℕ → Bytes
names n = n ∷ []

abbrev final : Bytes
final = text "deposit_data.json"

-- The first name of a temporary file is taken.
abbrev files : Files
files = put (0 ∷ []) (some (record { content = text "old"; mode = 0o644 })) (λ p. none)

write_new_0600-Keeps_example : Keeps files (write_new_0600 disk names final (text "[]") files).1
write_new_0600-Keeps_example = write_new_0600-Keeps disk names final (text "[]") files

write_new_0600-AllOrNothing_example :
    AllOrNothing files final (text "[]") (write_new_0600 disk names final (text "[]") files)
write_new_0600-AllOrNothing_example =
    write_new_0600-AllOrNothing disk (λ p. refl) names final (text "[]") files

write_atomic-Replaced_example :
    Replaced files
      (0 ∷ [])
      (record { content = text "new"; mode = 0o600 })
      (write_atomic disk names (0 ∷ []) (text "new") 0o600 files)
write_atomic-Replaced_example =
    write_atomic-Replaced disk (λ p. refl) names (0 ∷ []) (text "new") 0o600 files

-- ===== src/Runs/Secrets.antt =====
-- The theorems on secret files at concrete files.
use eth_utils.Prelude.{◌≡◌, ◌↔◌, refl, Bool, true, false, [], ◌∷◌, ◌++◌, ok, err}
use eth_utils.Prelude.Bytes.{Bytes, text}
use eth_utils.SecretFile.{
  too_large, chunk, interrupted, Metadata, OpenFile, max_secret_file_bytes, read_capped,
  read_secret_line,
}
use eth_utils.SecretFile.Reads.{IsSmall, read_capped-contents}
use eth_utils.SecretFile.Lines.{IsSecret, read_secret_line-IsSecret_iff}

abbrev path : Bytes
path = text "/run/secrets/pass"

abbrev metadata : Metadata
metadata = record { is_dir = false; is_file = true; len = 7; mode = 0o600 }

-- A passphrase and a newline, in two reads with an interruption between them.
abbrev secret : OpenFile
secret = record {
  metadata = ok metadata;
  reads = chunk (text "hun") ∷ interrupted ∷ chunk (text "ter" ++ (10 ∷ [])) ∷ [];
}

abbrev all : Bytes
all = text "hunter" ++ (10 ∷ [])

read_capped_example :
    (((read_capped path (ok secret)).1 ≡ ok all) ↔ IsSmall metadata all)
    × (¬ IsSmall metadata all
        → (read_capped path (ok secret)).1 ≡ err (too_large path max_secret_file_bytes))
read_capped_example = read_capped-contents path secret metadata all refl refl refl

abbrev is_utf8 : Bytes → Bool
is_utf8 b = true

read_secret_line_example :
    ((read_secret_line path is_utf8 (ok secret)).1 ≡ ok (text "hunter"))
    ↔ IsSecret path is_utf8 (ok secret) (text "hunter")
read_secret_line_example = read_secret_line-IsSecret_iff path is_utf8 (ok secret) (text "hunter")

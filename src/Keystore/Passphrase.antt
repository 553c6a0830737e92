-- ===== src/Keystore/Passphrase.antt =====
-- The sources of passphrases (crates/ethernal-keystore/src/passphrase.rs). What the environment, the
-- terminal and the secret file answer are parameters; what is written to a writer is a list of
-- texts. Locks, zeroizing and failing writes of a prompt, which the source ignores, are not modelled.
pub mod Rules
use eth_utils.Prelude.{
  ℕ, Bool, true, false, not, ◌&&◌, List, [], ◌∷◌, ◌++◌, Result, ok, err, ◌>>=◌, ◌>>◌, map_err,
  length, ltb, if◌then◌else◌,
}
use eth_utils.Prelude.Bytes.{Bytes, text, bytes_eq}
use eth_utils.SecretFile.{Warning, OpenFile, SecretFileError, read_secret_line}
use eth_utils.Core.Disk.{IoKind}
use eth_utils.Keystore.Errors.{
  KeystoreError, env_var_empty, passphrase_file_empty, passphrase_file, no_tty, read_passphrase,
  passphrase_mismatch, passphrase_too_short,
}
use eth_utils.Keystore.Crypto.{Ciphers, normalize_passphrase}

abbrev pub keystore_passphrase_min_len : ℕ
keystore_passphrase_min_len = 8

unfoldable pub is_empty : Bytes → Bool
is_empty [] = true
is_empty (b ∷ bs) = false

-- What `prompt_once` writes.
abbrev prompt : Bytes → List Bytes
prompt label = label ∷ (b'\n' ∷ []) ∷ []

-- What reading a source answers, and what was written meanwhile.
pub record Reading (W F S : Type 0) : Type 0 where
  pub written : List W
  pub result : Result (KeystoreError F S) Bytes

module _ {F S : Type 0} where
  -- `EnvSource::read`: `value` is the answer of `std::env::var`.
  unfoldable pub read_env : Bytes → Result Bytes Bytes → Result (KeystoreError F S) Bytes
  read_env var_name (ok val) = if is_empty val then err (env_var_empty var_name) else ok val
  read_env var_name (err e) = err (env_var_empty var_name)

  unfoldable pub non_empty_line : Bytes → Result S Bytes → Result (KeystoreError F S) Bytes
  unfolding is_empty
  non_empty_line path (err e) = err (passphrase_file e)
  non_empty_line path (ok s) = if is_empty s then err (passphrase_file_empty path) else ok s

  -- `TermPromptSource::read`: what opening the terminal and reading the password answer.
  unfoldable pub read_term_prompt : Result Bytes (Unit {0}) → Result Bytes Bytes → Reading Bytes F S
  read_term_prompt (err e) password = record { written = []; result = err (no_tty e) }
  read_term_prompt (ok u) password = record {
    written = prompt (text "Keystore passphrase: ");
    result = map_err read_passphrase password;
  }

module _ {F : Type 0} where
  -- `FileSource::read`: the state is the latch `warned`; `opened` is what opening the file answers.
  unfoldable pub read_file_source :
      (Bytes → Bool)
      → Bytes
      → Bool
      → Result (IoKind × Bytes) OpenFile
      → Bool × Reading Warning F SecretFileError
  unfolding non_empty_line read_secret_line
  read_file_source is_utf8 path already opened =
      let (warnings, line) = read_secret_line path is_utf8 opened in
      (
        true,
        record { written = if already then [] else warnings; result = non_empty_line path line },
      )

module _ {F S : Type 0} (ciphers : Ciphers) where
  unfoldable pub require_min_len : Bytes → ℕ → Result (KeystoreError F S) (Unit {0})
  require_min_len pw min_len =
      let got = length (normalize_passphrase ciphers pw) in
      if ltb got min_len then err (passphrase_too_short min_len got) else ok tt

  -- The tests of `NewKeystorePassphrase::read` on the two answers.
  unfoldable pub confirm : Bytes → Bytes → Result (KeystoreError F S) Bytes
  unfolding require_min_len
  confirm first second =
      if bytes_eq first second
      then (do long ← require_min_len first keystore_passphrase_min_len; ok first)
      else err passphrase_mismatch

  -- `NewKeystorePassphrase::read`: a failing first answer leaves the second prompt out.
  unfoldable pub read_new_passphrase :
      Result Bytes (Unit {0}) → Result Bytes Bytes → Result Bytes Bytes → Reading Bytes F S
  unfolding confirm
  read_new_passphrase (err e) first second = record { written = []; result = err (no_tty e) }
  read_new_passphrase (ok u) (err e) second = record {
    written = prompt (text "Keystore passphrase: ");
    result = err (read_passphrase e);
  }
  read_new_passphrase (ok u) (ok first) second = record {
    written =
        prompt (text "Keystore passphrase: ") ++ prompt (text "Confirm keystore passphrase: ");
    result = map_err read_passphrase second >>= confirm first;
  }

-- ===== src/SecretFile.antt =====
-- Reading a secret file (crates/ethernal-secretfile/src/lib.rs). A path is the text that is shown
-- for it. The operating system's answers to the open, the metadata and the reads are parameters, and
-- so is the test for UTF-8; zeroizing the buffer is not modelled.
pub mod Reads
pub mod Lines
use eth_utils.Prelude.{
  ℕ, suc, ◌+◌, ◌-◌, ◌%◌, min, Bool, true, false, not, ◌&&◌, ◌||◌, List, [], ◌∷◌, ◌++◌, Result, ok,
  err, ◌>>=◌, length, take, drop, ltb, ◌==◌, if◌then◌else◌,
}
use eth_utils.Prelude.Bytes.{Bytes}
use eth_utils.Core.Disk.{IoKind, not_found, permission_denied, already_exists, unsupported, other}

abbrev pub max_secret_file_bytes : ℕ
max_secret_file_bytes = 4096

pub data Residual : Type 0 where
  carriage_return : Residual
  multi_line : ℕ → Residual

pub data SecretFileError : Type 0 where
  missing denied is_directory not_utf8 : Bytes → SecretFileError
  too_large : Bytes → ℕ → SecretFileError
  line_terminator : Bytes → Residual → SecretFileError
  -- The path, and the text of the I/O error.
  io : Bytes → Bytes → SecretFileError

-- What one `read` returns: bytes, as many of them as fit, or an error. No bytes are the file's end.
pub data ReadAnswer : Type 0 where
  chunk : Bytes → ReadAnswer
  interrupted : ReadAnswer
  failed : Bytes → ReadAnswer

pub record Metadata : Type 0 where
  pub is_dir : Bool
  pub is_file : Bool
  pub len : ℕ
  pub mode : ℕ

-- An open file: its metadata, or the error of asking for it, and what the reads return in turn.
-- After the last of them the file has ended.
pub record OpenFile : Type 0 where
  pub metadata : Result Bytes Metadata
  pub reads : List ReadAnswer

-- The warning about permissions shows the mode.
pub record Warning : Type 0 where
  pub mode : ℕ

unfoldable pub classify_open : Bytes → IoKind × Bytes → SecretFileError
classify_open path (not_found, e) = missing path
classify_open path (permission_denied, e) = denied path
classify_open path (already_exists, e) = io path e
classify_open path (unsupported, e) = io path e
classify_open path (other, e) = io path e

unfoldable pub warnings : Metadata → List Warning
warnings md =
    if md.is_file && not (md.mode % 64 == 0) then record { mode = md.mode % 4096 } ∷ [] else []

-- `s.ends_with('\n')`, and then `s.pop()`.
unfoldable pub pop_newline : Bytes → Bytes
pop_newline [] = []
pop_newline (c ∷ []) = if c == 10 then [] else c ∷ []
pop_newline (c ∷ d ∷ s) = c ∷ pop_newline (d ∷ s)

-- `s.matches(c).count()` of a one-byte character.
unfoldable pub matches : ℕ → Bytes → ℕ
matches c [] = 0
matches c (d ∷ s) = let rest = matches c s in if d == c then suc rest else rest

unfoldable pub is_ascii_whitespace : ℕ → Bool
is_ascii_whitespace c = c == 32 || c == 9 || c == 10 || c == 12 || c == 13

unfoldable pub trim_start : Bytes → Bytes
unfolding is_ascii_whitespace
trim_start [] = []
trim_start (c ∷ s) = let rest = trim_start s in if is_ascii_whitespace c then rest else c ∷ s

unfoldable pub keep_unless_blank : ℕ → Bytes → Bytes
unfolding is_ascii_whitespace
keep_unless_blank c [] = if is_ascii_whitespace c then [] else c ∷ []
keep_unless_blank c (d ∷ s) = c ∷ d ∷ s

unfoldable pub trim_end : Bytes → Bytes
unfolding keep_unless_blank
trim_end [] = []
trim_end (c ∷ s) = keep_unless_blank c (trim_end s)

-- `s.truncate(end)`, and then the front is drained.
unfoldable pub trim_in_place : Bytes → Bytes
unfolding trim_start trim_end
trim_in_place s =
    let start = length s - length (trim_start s) in
    let cut = take (length (trim_end s)) s in
    if ltb 0 start then drop (min start (length cut)) cut else cut

module _ (path : Bytes) where
  -- The loop, with the size of the buffer and the bytes that are in it.
  unfoldable pub read_loop : ℕ → List ReadAnswer → Bytes → Result SecretFileError Bytes
  read_loop size [] buf = ok buf
  read_loop size (chunk [] ∷ rest) buf = ok buf
  read_loop size (chunk (b ∷ bs) ∷ rest) buf =
      let next = read_loop size rest (buf ++ take (size - length buf) (b ∷ bs)) in
      if ltb (length buf) size then next else ok buf
  read_loop size (interrupted ∷ rest) buf =
      let next = read_loop size rest buf in if ltb (length buf) size then next else ok buf
  read_loop size (failed e ∷ rest) buf = if ltb (length buf) size then err (io path e) else ok buf

  -- The read cap.
  unfoldable pub check_cap : Bytes → Result SecretFileError Bytes
  check_cap buf =
      if ltb max_secret_file_bytes (length buf)
      then err (too_large path max_secret_file_bytes)
      else ok buf

  unfoldable pub read_checked :
      List ReadAnswer → Metadata → List Warning × Result SecretFileError Bytes
  unfolding read_loop check_cap warnings
  read_checked reads md =
      if md.is_dir
      then ([], err (is_directory path))
      else if md.is_file && ltb max_secret_file_bytes md.len
      then ([], err (too_large path max_secret_file_bytes))
      else (warnings md, read_loop (max_secret_file_bytes + 1) reads [] >>= check_cap)

  unfoldable pub read_with_metadata :
      List ReadAnswer → Result Bytes Metadata → List Warning × Result SecretFileError Bytes
  unfolding read_checked
  read_with_metadata reads (err e) = ([], err (io path e))
  read_with_metadata reads (ok md) = read_checked reads md

  -- The warnings that were written, and the bytes.
  unfoldable pub read_capped :
      Result (IoKind × Bytes) OpenFile → List Warning × Result SecretFileError Bytes
  unfolding classify_open read_with_metadata
  read_capped (err e) = ([], err (classify_open path e))
  read_capped (ok f) = read_with_metadata f.reads f.metadata

  unfoldable pub into_utf8_string : (Bytes → Bool) → Bytes → Result SecretFileError Bytes
  into_utf8_string is_utf8 buf = if is_utf8 buf then ok buf else err (not_utf8 path)

  unfoldable pub check_line : Bytes → Result SecretFileError Bytes
  unfolding matches
  check_line s =
      if ltb 0 (matches 13 s)
      then err (line_terminator path carriage_return)
      else if ltb 0 (matches 10 s)
      then err (line_terminator path (multi_line (matches 10 s + 1)))
      else ok s

  unfoldable pub read_secret_line :
      (Bytes → Bool)
      → Result (IoKind × Bytes) OpenFile
      → List Warning × Result SecretFileError Bytes
  unfolding read_capped into_utf8_string pop_newline check_line
  read_secret_line is_utf8 opened =
      let (warned, bytes) = read_capped opened in
      (warned, bytes >>= into_utf8_string is_utf8 >>= λ s. check_line (pop_newline s))

  unfoldable pub read_secret_trimmed :
      (Bytes → Bool)
      → Result (IoKind × Bytes) OpenFile
      → List Warning × Result SecretFileError Bytes
  unfolding read_capped into_utf8_string trim_in_place
  read_secret_trimmed is_utf8 opened =
      let (warned, bytes) = read_capped opened in
      (warned, bytes >>= into_utf8_string is_utf8 >>= λ s. ok (trim_in_place s))

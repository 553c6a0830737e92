-- ===== src/SecretFile/Reads.antt =====
-- The capped reader against a reader without a buffer.
use mathlib.Core.List.{append_assoc, append-nil}
use eth_utils.Prelude.{
  ℕ, zero, suc, ◌+◌, ◌-◌, ◌≤◌, ◌<◌, ◌≡◌, refl, sym, ap, ◌∙◌, inl, inr, Bool, true, false, ◌&&◌,
  List, [], ◌∷◌, ◌++◌, Result, ok, err, ok-injective, err-ne-ok, length, length-append, length-take,
  take, take_long, ltb, lt→ltb, ltb→lt, ◌↔◌, le→ltb_false, Bool-cases, arith,
}
use eth_utils.Prelude.Bytes.{Bytes}
use eth_utils.SecretFile.{
  SecretFileError, too_large, ReadAnswer, chunk, interrupted, failed, Metadata, OpenFile,
  max_secret_file_bytes, read_loop, check_cap, read_checked, read_with_metadata, read_capped,
}

abbrev pub prepend : Bytes → Result Bytes Bytes → Result Bytes Bytes
prepend bs (ok rest) = ok (bs ++ rest)
prepend bs (err e) = err e

-- All bytes that the reads return, in order, up to the end of the file; or the first error.
abbrev pub contents : List ReadAnswer → Result Bytes Bytes
contents [] = ok []
contents (chunk [] ∷ rest) = ok []
contents (chunk (b ∷ bs) ∷ rest) = prepend (b ∷ bs) (contents rest)
contents (interrupted ∷ rest) = contents rest
contents (failed e ∷ rest) = err e

take_none : (k : ℕ) (xs : Bytes) → k ≡ 0 → take k xs ≡ []
take_none k xs h = rw h

take-append_long :
    (k : ℕ) (xs ys : Bytes) → take k (xs ++ ys) ≡ take k xs ++ take (k - length xs) ys
take-append_long zero xs ys = let e : 0 - length xs ≡ 0 = omega arith in rw e
take-append_long (suc k) [] ys = let e : suc k - 0 ≡ suc k = omega arith in rw e
take-append_long (suc k) (x ∷ xs) ys =
    let e : suc k - suc (length xs) ≡ k - length xs = omega arith in
    rw e (ap (λ t. x ∷ t) (take-append_long k xs ys))

prepended :
    (bs all : Bytes) (r : Result Bytes Bytes)
    → prepend bs r ≡ ok all
    → (rest : Bytes) × (r ≡ ok rest) × (all ≡ bs ++ rest)
prepended bs all (ok rest) h = (rest, refl, sym (ok-injective h))
prepended bs all (err e) h = absurd (err-ne-ok h)

filled :
    (size : ℕ) (buf bs rest : Bytes)
    → length buf ≤ size
    → (buf ++ take (size - length buf) bs)
        ++ take (size - length (buf ++ take (size - length buf) bs)) rest
      ≡ buf ++ take (size - length buf) (bs ++ rest)
filled size buf bs rest h =
    let e : size - length (buf ++ take (size - length buf) bs) ≡ size - length buf - length bs =
      omega (
        arith,
        length-append buf (take (size - length buf) bs),
        length-take (size - length buf) bs,
      ) in
    rw e (
      append_assoc buf (take (size - length buf) bs) (take (size - length buf - length bs) rest)
      ∙ ap (λ t. buf ++ t) (sym (take-append_long (size - length buf) bs rest)))

unchanged :
    (k : ℕ) (buf all : Bytes)
    → take k all ≡ []
    → ◌≡◌ {A = Result SecretFileError Bytes} (ok buf) (ok (buf ++ take k all))
unchanged k buf all h = rw h (ap ok (sym (append-nil buf)))

ended : (k : ℕ) (all : Bytes) → ◌≡◌ {A = Result Bytes Bytes} (ok []) (ok all) → take k all ≡ []
ended k all h = rw⁻¹ (ok-injective h) (take_long k [] (omega arith))

at_most : (n : ℕ) → ltb max_secret_file_bytes n ≡ false → n ≤ max_secret_file_bytes
at_most n h = ground arith

-- The early test on the size of a regular file.
not_long :
    (b : Bool) (len : ℕ)
    → (b ≡ true → len ≤ max_secret_file_bytes)
    → (b && ltb max_secret_file_bytes len) ≡ false
not_long false len h = refl
not_long true len h = le→ltb_false 4096 len (h refl)

short_len :
    (b : Bool) (len : ℕ)
    → (b && ltb max_secret_file_bytes len) ≡ false
    → b ≡ true
    → len ≤ max_secret_file_bytes
short_len false len h e = absurd (cc e)
short_len true len h e = at_most len h

-- What is accepted: at most 4096 bytes, and, of a regular file, a length of at most 4096 too.
pub record IsSmall (md : Metadata) (all : Bytes) : Type 0 where
  pub bytes : length all ≤ max_secret_file_bytes
  pub len : md.is_file ≡ true → md.len ≤ max_secret_file_bytes

module _ (path : Bytes) where
  -- The buffer is filled up with the contents.
  loop :
      (size : ℕ) (reads : List ReadAnswer) (buf all : Bytes)
      → length buf ≤ size
      → contents reads ≡ ok all
      → read_loop path size reads buf ≡ ok (buf ++ take (size - length buf) all)
  unfolding read_loop
  loop size [] buf all n h = unchanged (size - length buf) buf all (ended (size - length buf) all h)
  loop size (chunk [] ∷ rest) buf all n h =
      unchanged (size - length buf) buf all (ended (size - length buf) all h)
  loop size (chunk (b ∷ bs) ∷ rest) buf all n h =
      let (tail, he, is) = prepended (b ∷ bs) all (contents rest) h in
      elim (Bool-cases (ltb (length buf) size)) [
        | inl room ↦
            let next = buf ++ take (size - length buf) (b ∷ bs) in
            rw (room, is)
              (loop size rest next tail
                  (omega (
                    arith,
                    length-append buf (take (size - length buf) (b ∷ bs)),
                    length-take (size - length buf) (b ∷ bs),
                  ))
                  he
                ∙ ap ok (filled size buf (b ∷ bs) tail n))
        | inr full ↦ rw full (
            unchanged (size - length buf) buf all
              (take_none (size - length buf) all (ground arith)))
      ]
  loop size (interrupted ∷ rest) buf all n h = elim (Bool-cases (ltb (length buf) size)) [
    | inl room ↦ rw room (loop size rest buf all n h)
    | inr full ↦
        rw full
          (unchanged (size - length buf) buf all (take_none (size - length buf) all (ground arith)))
  ]
  loop size (failed e ∷ rest) buf all n h = absurd (err-ne-ok h)

  cap_small : (all : Bytes) → length all ≤ max_secret_file_bytes → check_cap path all ≡ ok all
  unfolding check_cap
  cap_small all small = rw (le→ltb_false max_secret_file_bytes (length all) small) refl

  cap_large :
      (all : Bytes)
      → max_secret_file_bytes < length all
      → check_cap path all ≡ err (too_large path max_secret_file_bytes)
  unfolding check_cap
  cap_large all large = rw (lt→ltb max_secret_file_bytes (length all) large) refl

  -- Of an open file that is not a directory and whose reads return `all`, however they cut it up and
  -- however often they are interrupted: `read_capped` returns all bytes exactly if they are at most
  -- 4096 and the metadata do not name a regular file of more than 4096 bytes; and otherwise it refuses
  -- the file as too large.
  pub read_capped-contents :
      (f : OpenFile) (md : Metadata) (all : Bytes)
      → f.metadata ≡ ok md
      → md.is_dir ≡ false
      → contents f.reads ≡ ok all
      → (((read_capped path (ok f)).1 ≡ ok all) ↔ IsSmall md all)
        × (¬ IsSmall md all
            → (read_capped path (ok f)).1 ≡ err (too_large path max_secret_file_bytes))
  unfolding read_capped read_with_metadata read_checked check_cap
  read_capped-contents f md all m d h =
      let read = loop (max_secret_file_bytes + 1) f.reads [] all (omega arith) h in
      let accepted : IsSmall md all → (read_capped path (ok f)).1 ≡ ok all = λ small. simp (
        m,
        d,
        not_long md.is_file md.len small.len,
        read,
        take_long (max_secret_file_bytes + 1) all (omega (arith, small.bytes)),
        cap_small all small.bytes,
      ) in
      let too_long : (md.is_file && ltb max_secret_file_bytes md.len) ≡ true
          → (read_capped path (ok f)).1 ≡ err (too_large path max_secret_file_bytes) =
        λ long. simp (m, d, long) in
      let too_many : (md.is_file && ltb max_secret_file_bytes md.len) ≡ false
          → max_secret_file_bytes < length all
          → (read_capped path (ok f)).1 ≡ err (too_large path max_secret_file_bytes) =
        λ short large. simp (
          m,
          d,
          short,
          read,
          cap_large (take (max_secret_file_bytes + 1) all)
              (omega (arith, length-take (max_secret_file_bytes + 1) all)),
        ) in
      elim (Bool-cases (md.is_file && ltb max_secret_file_bytes md.len)) [
        | inl long ↦ (
          ((λ e. absurd (err-ne-ok (sym (too_long long) ∙ e))), accepted),
          λ no_fit. too_long long,
        )
        | inr short ↦ elim (Bool-cases (ltb max_secret_file_bytes (length all))) [
          | inl large ↦
              let refused = too_many short (ltb→lt max_secret_file_bytes (length all) large) in
              (((λ e. absurd (err-ne-ok (sym refused ∙ e))), accepted), λ no_fit. refused)
          | inr fits ↦
              let small : IsSmall md all = record {
                bytes = at_most (length all) fits;
                len = short_len md.is_file md.len short;
              } in
              (((λ e. small), accepted), λ no_fit. absurd (no_fit small))
        ]
      ]

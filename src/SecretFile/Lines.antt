-- ===== src/SecretFile/Lines.antt =====
-- Which files hold a one-line secret.
use eth_utils.Prelude.{
  ◌≡◌, ◌≢◌, ◌↔◌, refl, sym, ap, ◌∙◌, ◌⊎◌, inl, inr, Bool, true, [], ◌∷◌, ◌++◌, Result, ok,
  ok-injective, err-ne-ok, >>=-eq-ok, ◌>>=◌, All, ltb, Bool-cases, ◌==◌, arith,
}
use eth_utils.Prelude.Bytes.{Bytes}
use eth_utils.Core.Disk.{IoKind}
use eth_utils.SecretFile.{
  OpenFile, read_capped, into_utf8_string, pop_newline, matches, check_line, read_secret_line,
}

-- No carriage return and no newline.
abbrev pub IsLine : Bytes → Type 0
IsLine s = All (λ c. (c ≢ 13) × (c ≢ 10)) s

matches_none : (s : Bytes) → IsLine s → (matches 13 s ≡ 0) × (matches 10 s ≡ 0)
unfolding matches
matches_none [] h = (refl, refl)
matches_none (c ∷ s) (p, h) = let (a, b) = matches_none s h in ground arith

matches-IsLine : (s : Bytes) → matches 13 s ≡ 0 → matches 10 s ≡ 0 → IsLine s
unfolding matches
matches-IsLine [] p q = tt
matches-IsLine (c ∷ s) p q =
    ((ground arith, ground arith), matches-IsLine s (ground arith) (ground arith))

pop_newline_cases : (b : Bytes) → (pop_newline b ≡ b) ⊎ (b ≡ pop_newline b ++ (10 ∷ []))
unfolding pop_newline
pop_newline_cases [] = inl refl
pop_newline_cases (c ∷ []) = elim (Bool-cases (c == 10)) [
  | inl e ↦ inr (let same : c ≡ 10 = ground arith in rw e (ap (λ x. x ∷ []) same))
  | inr e ↦ inl (rw e refl)
]
pop_newline_cases (c ∷ d ∷ s) = elim (pop_newline_cases (d ∷ s)) [
  | inl e ↦ inl (ap (λ t. c ∷ t) e)
  | inr e ↦ inr (ap (λ t. c ∷ t) e)
]

pop_newline-IsLine : (s : Bytes) → IsLine s → pop_newline s ≡ s
unfolding pop_newline
pop_newline-IsLine [] h = refl
pop_newline-IsLine (c ∷ []) h = ground (arith, h.0.1)
pop_newline-IsLine (c ∷ d ∷ s) h = ap (λ t. c ∷ t) (pop_newline-IsLine (d ∷ s) h.1)

pop_newline-append : (s : Bytes) → pop_newline (s ++ (10 ∷ [])) ≡ s
unfolding pop_newline
pop_newline-append [] = refl
pop_newline-append (c ∷ []) = refl
pop_newline-append (c ∷ d ∷ s) = ap (λ t. c ∷ t) (pop_newline-append (d ∷ s))

popped : (b s : Bytes) → IsLine s → (b ≡ s) ⊎ (b ≡ s ++ (10 ∷ [])) → pop_newline b ≡ s
popped b s line (inl e) = rw e (pop_newline-IsLine s line)
popped b s line (inr e) = rw e (pop_newline-append s)

shaped : (b text s : Bytes) → b ≡ text → pop_newline text ≡ s → (b ≡ s) ⊎ (b ≡ s ++ (10 ∷ []))
shaped b text s same e = elim (pop_newline_cases text) [
  | inl kept ↦ inl (same ∙ sym kept ∙ e)
  | inr cut ↦ inr (same ∙ cut ∙ ap (λ t. t ++ (10 ∷ [])) e)
]

module _ (path : Bytes) where
  check_line_ok : (s t : Bytes) → check_line path s ≡ ok t → IsLine t × (s ≡ t)
  unfolding check_line
  check_line_ok s t h = elim (Bool-cases (ltb 0 (matches 13 s))) [
    | inl cr ↦ absurd (err-ne-ok (rw cr at h))
    | inr a ↦ elim (Bool-cases (ltb 0 (matches 10 s))) [
      | inl lf ↦ absurd (err-ne-ok (rw (a, lf) at h))
      | inr b ↦
          let e : s ≡ t = ok-injective (rw (a, b) at h) in
          (rw⁻¹ e (matches-IsLine s (ground arith) (ground arith)), e)
    ]
  ]

  check_line-IsLine : (s : Bytes) → IsLine s → check_line path s ≡ ok s
  unfolding check_line
  check_line-IsLine s h = let (p, q) = matches_none s h in ground (arith, p, q)

  utf8_ok :
      (is_utf8 : Bytes → Bool) (b t : Bytes)
      → into_utf8_string path is_utf8 b ≡ ok t
      → (is_utf8 b ≡ true) × (b ≡ t)
  unfolding into_utf8_string
  utf8_ok is_utf8 b t h = elim (Bool-cases (is_utf8 b)) [
    | inl good ↦ (good, ok-injective (rw good at h))
    | inr bad ↦ absurd (err-ne-ok (rw bad at h))
  ]

  -- A file holds the secret.
  abbrev pub IsSecret : (Bytes → Bool) → Result (IoKind × Bytes) OpenFile → Bytes → Type 0
  IsSecret is_utf8 opened s =
      IsLine s
      × ((b : Bytes) × ((read_capped path opened).1 ≡ ok b)
          × (is_utf8 b ≡ true)
          × ((b ≡ s) ⊎ (b ≡ s ++ (10 ∷ []))))

  -- The reader of a one-line secret returns a text exactly if it has no line break and the file that
  -- was read is UTF-8 and is this text, or this text with one newline behind it.
  pub read_secret_line-IsSecret_iff :
      (is_utf8 : Bytes → Bool) (opened : Result (IoKind × Bytes) OpenFile) (s : Bytes)
      → ((read_secret_line path is_utf8 opened).1 ≡ ok s) ↔ IsSecret is_utf8 opened s
  unfolding read_secret_line into_utf8_string
  read_secret_line-IsSecret_iff is_utf8 opened s = (
    λ h.
        let (text, valid, lined) =
          >>=-eq-ok ((read_capped path opened).1 >>= into_utf8_string path is_utf8)
            (λ t. check_line path (pop_newline t)) h in
        let (b, bytes, checked) =
          >>=-eq-ok (read_capped path opened).1 (into_utf8_string path is_utf8) valid in
        let (good, same) = utf8_ok is_utf8 b text checked in
        let (line, e) = check_line_ok (pop_newline text) s lined in
        (line, (b, bytes, good, shaped b text s same e)),
    λ (line, (b, bytes, good, shape)).
        rw (bytes, good, popped b s line shape) (check_line-IsLine s line),
  )

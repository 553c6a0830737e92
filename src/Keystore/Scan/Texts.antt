-- ===== src/Keystore/Scan/Texts.antt =====
-- The tests on texts of scandir.rs and keystore.rs: the prefix `0x`, the end of a name, an empty text.
use eth_utils.Prelude.{
  ◌-◌, ◌≡◌, ◌≢◌, ◌⊎◌, refl, sym, ap, ◌∙◌, inl, inr, true, some, Option-cases, [], ◌∷◌, ◌++◌, length,
  length-append, take, drop, drop-append, take-append-drop, leb, le→leb, Bool-cases, ==_iff, ◌==◌,
  arith,
}
use mathlib.Core.Option.{some-injective}
use eth_utils.Prelude.Bytes.{Bytes, text, bytes_eq_iff, bytes_eq_refl, strip_prefix}
use eth_utils.Keystore.Loader.{without_prefix}
use eth_utils.Keystore.Scan.{ends_with, non_empty}

-- `t` is the text `s` without the `0x` in front of it, if there is one.
abbrev pub IsBare : Bytes → Bytes → Type 0
IsBare s t = (s ≡ text "0x" ++ t) ⊎ ((s ≡ t) × ((u : Bytes) → s ≢ text "0x" ++ u))

strip_prefix-append : (p t : Bytes) → strip_prefix p (p ++ t) ≡ some t
unfolding strip_prefix
strip_prefix-append [] t = refl
strip_prefix-append (c ∷ p) t = rw ((==_iff c c).1 refl) (strip_prefix-append p t)

strip_prefix-eq-some : (p s t : Bytes) → strip_prefix p s ≡ some t → s ≡ p ++ t
unfolding strip_prefix
strip_prefix-eq-some [] s t h = some-injective _ _ h
strip_prefix-eq-some (c ∷ p) [] t h = absurd (cc h)
strip_prefix-eq-some (c ∷ p) (d ∷ s) t h = elim (Bool-cases (c == d)) [
  | inr bad ↦ absurd (cc (rw bad at h))
  | inl same ↦ rw ((==_iff c d).0 same, strip_prefix-eq-some p s t (rw same at h)) refl
]

-- The text without its prefix, as the code finds it.
unfoldable pub bare_of : Bytes → Bytes
bare_of s = without_prefix s (strip_prefix (text "0x") s)

pub bare_of-IsBare : (s : Bytes) → IsBare s (bare_of s)
unfolding bare_of without_prefix
bare_of-IsBare s = elim (Option-cases (strip_prefix (text "0x") s)) [
  | inr (t, found) ↦ rw found (inl (strip_prefix-eq-some (text "0x") s t found))
  | inl absent ↦ rw absent (
      inr (
        refl,
        λ u e. cc (absent, ap (strip_prefix (text "0x")) e, strip_prefix-append (text "0x") u),
      ))
]

pub bare_of_unique : (s t : Bytes) → IsBare s t → t ≡ bare_of s
unfolding bare_of without_prefix
bare_of_unique s t (inl is) =
    rw (ap (strip_prefix (text "0x")) is ∙ strip_prefix-append (text "0x") t) refl
bare_of_unique s t (inr (is, not_so)) = elim (Option-cases (strip_prefix (text "0x") s)) [
  | inr (u, found) ↦ absurd (not_so u (strip_prefix-eq-some (text "0x") s u found))
  | inl absent ↦ rw absent (sym is)
]

pub ends_with-append : (stem suffix : Bytes) → ends_with (stem ++ suffix) suffix ≡ true
unfolding ends_with
ends_with-append stem suffix =
    let whole = length-append stem suffix in
    let front : length (stem ++ suffix) - length suffix ≡ length stem = omega (arith, whole) in
    rw (
      le→leb (length suffix) (length (stem ++ suffix)) (omega (arith, whole)),
      front,
      drop-append (length stem) stem suffix refl,
      bytes_eq_refl suffix,
    )

pub ends_with-eq-true :
    (s suffix : Bytes) → ends_with s suffix ≡ true → (stem : Bytes) × (s ≡ stem ++ suffix)
unfolding ends_with
ends_with-eq-true s suffix h = elim (Bool-cases (leb (length suffix) (length s))) [
  | inr short ↦ absurd (cc (rw short at h))
  | inl long ↦
      let n = length s - length suffix in
      let end : drop n s ≡ suffix = (bytes_eq_iff (drop n s) suffix).0 (rw long at h) in
      (take n s, sym (take-append-drop n s) ∙ ap (λ t. take n s ++ t) end)
]

pub non_empty-some : (b : Bytes) → b ≢ [] → non_empty b ≡ some b
unfolding non_empty
non_empty-some [] h = absurd (h refl)
non_empty-some (c ∷ b) h = refl

pub non_empty-eq-some : (b c : Bytes) → non_empty b ≡ some c → (b ≡ c) × (b ≢ [])
unfolding non_empty
non_empty-eq-some [] c h = absurd (cc h)
non_empty-eq-some (x ∷ b) c h = (some-injective _ _ h, λ e. cc e)

-- ===== src/Prelude/Bytes.antt =====
-- Byte strings and the equality test of Rust's arrays and slices. A `str` is its UTF-8 bytes.
mod Bits
mod Digits
mod Format
mod Words
unfoldable pub use Bits.*
unfoldable pub use Digits.*
unfoldable pub use Format.*
unfoldable pub use Words.*
use Prim.Native.Nat.{ℕ, ◌<◌}
use Prim.Native.Char.{code}
use Prim.Native.String.{String}
use mathlib.Core.Path.{◌≡◌, refl}
use mathlib.Core.Bool.{Bool, true, false, ◌&&◌}
use mathlib.Core.List.{List, [], ◌∷◌}
use mathlib.Core.Logic.{◌↔◌, ◌⊎◌, inl, inr, ◌≢◌}
use native.Mathlib.Omega.{arith}
use eth_utils.Prelude.Tests.{◌==◌, ==_iff}

abbrev pub IsByte : ℕ → Type 0
IsByte b = b < 256

abbrev pub Bytes : Type 0
Bytes = List ℕ

-- The bytes of an ASCII literal.
abbrev pub text : String → Bytes
text String.[] = []
text (String.◌∷◌ c s) = code c ∷ text s

-- `a == b` on byte arrays, slices and strings.
unfoldable pub bytes_eq : Bytes → Bytes → Bool
bytes_eq [] [] = true
bytes_eq [] (b ∷ bs) = false
bytes_eq (a ∷ as') [] = false
bytes_eq (a ∷ as') (b ∷ bs) = (a == b) && bytes_eq as' bs

bytes_eq→eq : (xs ys : Bytes) → bytes_eq xs ys ≡ true → xs ≡ ys
unfolding bytes_eq
bytes_eq→eq [] [] h = refl
bytes_eq→eq [] (y ∷ ys) h = cc
bytes_eq→eq (x ∷ xs) [] h = cc
bytes_eq→eq (x ∷ xs) (y ∷ ys) h = ground (arith, bytes_eq→eq xs ys)

pub bytes_eq_refl : (xs : Bytes) → bytes_eq xs xs ≡ true
unfolding bytes_eq
bytes_eq_refl [] = refl
bytes_eq_refl (x ∷ xs) = ground (arith, bytes_eq_refl xs)

pub bytes_eq_iff : (xs ys : Bytes) → (bytes_eq xs ys ≡ true) ↔ (xs ≡ ys)
bytes_eq_iff xs ys = (bytes_eq→eq xs ys, λ e. rw e (bytes_eq_refl ys))

pub Bytes-eq_cases : (xs ys : Bytes) → (xs ≡ ys) ⊎ (xs ≢ ys)
Bytes-eq_cases xs ys = split (bytes_eq xs ys) refl
  where
    split : (b : Bool) → bytes_eq xs ys ≡ b → (xs ≡ ys) ⊎ (xs ≢ ys)
    split true e = inl (bytes_eq→eq xs ys e)
    split false e = inr (λ p. cc (e, (bytes_eq_iff xs ys).1 p))

pub bytes_eq_false→ne : (a b : Bytes) → bytes_eq a b ≡ false → a ≢ b
bytes_eq_false→ne a b h p = cc (h, (bytes_eq_iff a b).1 p)

pub ne→bytes_eq_false : (a b : Bytes) → a ≢ b → bytes_eq a b ≡ false
ne→bytes_eq_false a b h = split (bytes_eq a b) refl
  where
    split : (v : Bool) → bytes_eq a b ≡ v → bytes_eq a b ≡ false
    split true e = absurd (h (bytes_eq→eq a b e))
    split false e = e

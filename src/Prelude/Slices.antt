-- ===== src/Prelude/Slices.antt =====
-- Rust's slices: sub-slices and `copy_from_slice` panic (`none`) where their ranges do not fit.
use Prim.Native.Nat.{ℕ, zero, suc, ◌-◌, ◌≤◌, ◌<◌}
use mathlib.Core.Path.{◌≡◌, refl, ap}
use mathlib.Core.Bool.{◌&&◌}
use mathlib.Core.List.{List, [], ◌∷◌, ◌++◌}
use mathlib.Core.Option.{Option, none, some}
use native.Mathlib.Omega.{arith}
use eth_utils.Prelude.Tests.{leb, le→leb, if◌then◌else◌}
use eth_utils.Prelude.Lists.{length, take, drop, get_elem?, set}

module _ {ℓ} {A : Type ℓ} where
  -- `b[start..end]`
  unfoldable pub slice : ℕ → ℕ → List A → Option (List A)
  slice start end b =
      if leb start end && leb end (length b) then some (take (end - start) (drop start b)) else none

  -- `dst[..src.len()].copy_from_slice(src)`
  unfoldable pub copy_front : List A → List A → Option (List A)
  copy_front dst src =
      if leb (length src) (length dst) then some (src ++ drop (length src) dst) else none

module _ {ℓ} {A : Type ℓ} where
  pub slice_lem :
      (start end : ℕ) (b : List A)
      → start ≤ end
      → end ≤ length b
      → slice start end b ≡ some (take (end - start) (drop start b))
  unfolding slice
  slice_lem start end b p q = rw (le→leb start end p, le→leb end (length b) q)

  pub copy_front_lem :
      (dst src : List A)
      → length src ≤ length dst
      → copy_front dst src ≡ some (src ++ drop (length src) dst)
  unfolding copy_front
  copy_front_lem dst src h = rw (le→leb (length src) (length dst) h)

  pub length-set : (xs : List A) (i : ℕ) (v : A) → length (set xs i v) ≡ length xs
  length-set [] i v = refl
  length-set (x ∷ xs) zero v = refl
  length-set (x ∷ xs) (suc i) v = ap suc (length-set xs i v)

  -- A write below a position is not seen behind it.
  pub drop-set : (xs : List A) (i n : ℕ) (v : A) → i < n → drop n (set xs i v) ≡ drop n xs
  drop-set [] i n v h = refl
  drop-set (x ∷ xs) i zero v h = absurd (omega arith)
  drop-set (x ∷ xs) zero (suc n) v h = refl
  drop-set (x ∷ xs) (suc i) (suc n) v h = drop-set xs i n v (omega arith)

  pub take-set :
      (xs : List A) (i : ℕ) (v : A)
      → i < length xs
      → take (suc i) (set xs i v) ≡ take i xs ++ (v ∷ [])
  take-set [] i v h = absurd (omega arith)
  take-set (x ∷ xs) zero v h = refl
  take-set (x ∷ xs) (suc i) v h = ap (λ t. x ∷ t) (take-set xs i v (omega arith))

  -- The element at a position in range, with the split of the list there.
  pub get_elem?_in_range :
      (xs : List A) (i : ℕ)
      → i < length xs
      → (a : A) × (get_elem? xs i ≡ some a) × (drop i xs ≡ a ∷ drop (suc i) xs)
  get_elem?_in_range [] i h = absurd (omega arith)
  get_elem?_in_range (x ∷ xs) zero h = (x, refl, refl)
  get_elem?_in_range (x ∷ xs) (suc i) h = get_elem?_in_range xs i (omega arith)

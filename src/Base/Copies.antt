-- ===== src/Base/Copies.antt =====
-- A block copy is read back where it was written, and nowhere else.
use Prim.Native.Nat.{ℕ, zero, suc, ◌+◌, ◌≤◌}
use mathlib.Core.Path.{◌≡◌, refl, ap}
use mathlib.Core.List.{List, [], ◌∷◌}
use native.Mathlib.Omega.{arith}
use pomaisearch.Base.Lists.{length, take, drop, write_at, slice}

module _ {ℓ} {A : Type ℓ} where
  pub length-write_at : (b : List A) (i : ℕ) (d : List A) → length (write_at b i d) ≡ length b
  length-write_at [] i d = refl
  length-write_at (x ∷ b) (suc i) d = ap suc (length-write_at b i d)
  length-write_at (x ∷ b) zero [] = refl
  length-write_at (x ∷ b) zero (y ∷ d) = ap suc (length-write_at b zero d)

  pub slice-write_at_self :
      (b : List A) (i : ℕ) (d : List A)
      → i + length d ≤ length b
      → slice (write_at b i d) i (length d) ≡ d
  slice-write_at_self [] zero [] h = refl
  slice-write_at_self [] (suc i) [] h = refl
  slice-write_at_self [] zero (y ∷ d) h = absurd (omega arith)
  slice-write_at_self [] (suc i) (y ∷ d) h = absurd (omega arith)
  slice-write_at_self (x ∷ b) (suc i) d h = slice-write_at_self b i d (omega arith)
  slice-write_at_self (x ∷ b) zero [] h = refl
  slice-write_at_self (x ∷ b) zero (y ∷ d) h =
      ap (◌∷◌ y) (slice-write_at_self b zero d (omega arith))

  -- A slice that ends at or before the written part.
  pub slice-write_at_before :
      (b : List A) (i : ℕ) (d : List A) (j n : ℕ)
      → j + n ≤ i
      → slice (write_at b i d) j n ≡ slice b j n
  slice-write_at_before [] i d j n h = refl
  slice-write_at_before (x ∷ b) zero d zero zero h = refl
  slice-write_at_before (x ∷ b) zero d zero (suc n) h = absurd (omega arith)
  slice-write_at_before (x ∷ b) zero d (suc j) n h = absurd (omega arith)
  slice-write_at_before (x ∷ b) (suc i) d zero zero h = refl
  slice-write_at_before (x ∷ b) (suc i) d zero (suc n) h =
      ap (◌∷◌ x) (slice-write_at_before b i d zero n (omega arith))
  slice-write_at_before (x ∷ b) (suc i) d (suc j) n h =
      slice-write_at_before b i d j n (omega arith)

  drop-write_at :
      (b : List A) (i : ℕ) (d : List A) (j : ℕ)
      → i + length d ≤ j
      → drop j (write_at b i d) ≡ drop j b
  drop-write_at [] i d j h = refl
  drop-write_at (x ∷ b) zero [] zero h = refl
  drop-write_at (x ∷ b) zero [] (suc j) h = refl
  drop-write_at (x ∷ b) zero (y ∷ d) zero h = absurd (omega arith)
  drop-write_at (x ∷ b) zero (y ∷ d) (suc j) h = drop-write_at b zero d j (omega arith)
  drop-write_at (x ∷ b) (suc i) d zero h = absurd (omega arith)
  drop-write_at (x ∷ b) (suc i) d (suc j) h = drop-write_at b i d j (omega arith)

  -- A slice that starts at or after the end of the written part.
  pub slice-write_at_after :
      (b : List A) (i : ℕ) (d : List A) (j n : ℕ)
      → i + length d ≤ j
      → slice (write_at b i d) j n ≡ slice b j n
  slice-write_at_after b i d j n h = ap (take n) (drop-write_at b i d j h)

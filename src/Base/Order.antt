-- ===== src/Base/Order.antt =====
-- Comparators as the program writes them, Boolean and strict, and what `std::sort` asks of one.
use mathlib.Core.Path.{◌≡◌, refl}
use mathlib.Core.Logic.{◌⊎◌, inl, inr}
use mathlib.Core.Bool.{Bool, true, false}

-- A strict weak order, which is what the standard library requires of a comparator.
pub record IsWeakOrder {ℓ} {A : Type ℓ} (before : A → A → Bool) : Type ℓ where
  pub asym : (a b : A) → before a b ≡ true → before b a ≡ false
  pub split : (a b c : A) → before a c ≡ true → (before a b ≡ true) ⊎ (before b c ≡ true)

-- A strict order in which different keys are always ordered.
pub record IsTotalOrder {ℓ} {A : Type ℓ} (before : A → A → Bool) : Type ℓ where
  pub weak : IsWeakOrder before
  pub connected : (a b : A) → before a b ≡ false → before b a ≡ false → a ≡ b

module _ {ℓ} {A : Type ℓ} {before : A → A → Bool} (w : IsWeakOrder before) where
  pub before_irrefl : (a : A) → before a a ≡ false
  before_irrefl a = go (before a a) refl
    where
      go : (b : Bool) → before a a ≡ b → before a a ≡ false
      go false e = e
      go true e = w.asym a a e

  pub before_trans : (a b c : A) → before a b ≡ true → before b c ≡ true → before a c ≡ true
  before_trans a b c p q = elim (w.split a c b p) [ inl r ↦ r | inr r ↦ absurd (cc (w.asym b c q)) ]

  -- The failure of a comparison is transitive too.
  pub not_before_trans : (a b c : A) → before a b ≡ false → before b c ≡ false → before a c ≡ false
  not_before_trans a b c p q = go (before a c) refl
    where
      go : (r : Bool) → before a c ≡ r → before a c ≡ false
      go false e = e
      go true e = elim (w.split a b c e) [ inl x ↦ absurd (cc) | inr x ↦ absurd (cc) ]

-- A comparator of parts, carried over to the whole.
pub pull {ℓ κ} : {A : Type ℓ} {B : Type κ} → (A → B) → (B → B → Bool) → A → A → Bool
pull f before a b = before (f a) (f b)

pub pull-IsWeakOrder {ℓ κ} :
    {A : Type ℓ} {B : Type κ} (f : A → B) {before : B → B → Bool}
    → IsWeakOrder before
    → IsWeakOrder (λ a b. before (f a) (f b))
pull-IsWeakOrder f w = record {
  asym = λ a b. w.asym (f a) (f b);
  split = λ a b c. w.split (f a) (f b) (f c);
}

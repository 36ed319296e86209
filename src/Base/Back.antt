-- ===== src/Base/Back.antt =====
-- `back()` and `pop_back()` of a vector: what they take and what they leave.
use Prim.Native.Nat.{suc}
use mathlib.Core.Path.{◌≡◌, refl, ap, subst, sym}
use mathlib.Core.Logic.{◌≢◌}
use mathlib.Core.List.{List, [], ◌∷◌}
use mathlib.Core.Option.{Option, none, some, some-injective}
use pomaisearch.Base.Lists.{length}
use pomaisearch.Base.All.{All, Distinct}

module _ {ℓ} {A : Type ℓ} where
  unfoldable pub front : List A → Option A
  front [] = none
  front (x ∷ []) = some x
  front (x ∷ y ∷ ys) = front (y ∷ ys)

  unfoldable pub pop_back : List A → List A
  pop_back [] = []
  pop_back (x ∷ []) = []
  pop_back (x ∷ y ∷ ys) = x ∷ pop_back (y ∷ ys)

  pub front-none : (h : List A) → front h ≡ none → h ≡ []
  unfolding front
  front-none [] e = refl
  front-none (y ∷ []) e = absurd (cc)
  front-none (y ∷ z ∷ h) e = absurd (cc (front-none (z ∷ h) e))

  pub length-pop_back :
      (h : List A) {w : A} → front h ≡ some w → suc (length (pop_back h)) ≡ length h
  unfolding front pop_back
  length-pop_back [] e = absurd (cc)
  length-pop_back (x ∷ []) e = refl
  length-pop_back (x ∷ y ∷ ys) e = ap suc (length-pop_back (y ∷ ys) e)

module _ {ℓ κ} {A : Type ℓ} (P : A → Type κ) where
  pub front-All :
      (z : A) (h : List A) {worst : A} → All P (z ∷ h) → front (z ∷ h) ≡ some worst → P worst
  unfolding front
  front-All z [] a e = subst P (some-injective _ _ e) a.0
  front-All z (y ∷ h) a e = front-All y h a.1 e

  pub All-front : (h : List A) {w : A} → All P h → front h ≡ some w → P w
  unfolding front
  All-front [] a e = absurd (cc)
  All-front (z ∷ h) a e = front-All z h a e

  pub All-pop_back : (h : List A) → All P h → All P (pop_back h)
  unfolding pop_back
  All-pop_back [] a = tt
  All-pop_back (x ∷ []) a = tt
  All-pop_back (x ∷ y ∷ ys) a = (a.0, All-pop_back (y ∷ ys) a.1)

module _ {ℓ} {A : Type ℓ} where
  pub Distinct-pop_back : (h : List A) → Distinct h → Distinct (pop_back h)
  unfolding pop_back
  Distinct-pop_back [] d = tt
  Distinct-pop_back (x ∷ []) d = tt
  Distinct-pop_back (x ∷ y ∷ ys) d = (All-pop_back _ (y ∷ ys) d.0, Distinct-pop_back (y ∷ ys) d.1)

  -- The element that was at the back is not among those that are left.
  pub pop_back-ne :
      (h : List A) {w : A} → Distinct h → front h ≡ some w → All (λ x. x ≢ w) (pop_back h)
  unfolding front pop_back
  pop_back-ne [] d e = tt
  pop_back-ne (x ∷ []) d e = tt
  pop_back-ne (x ∷ y ∷ ys) d e =
      ((λ q. front-All (λ v. v ≢ x) y ys d.0 e (sym q)), pop_back-ne (y ∷ ys) d.1 e)

-- ===== src/Base/TopK.antt =====
-- The best `k` of a stream: a bounded heap that is updated item by item gives what sorting
-- everything and cutting gives.
use Prim.Native.Nat.{ℕ, zero, suc, ◌≤◌}
use mathlib.Core.Path.{◌≡◌, refl, ap, sym, subst}
use mathlib.Core.Logic.{inl, inr}
use mathlib.Core.Bool.{Bool, true, false}
use mathlib.Core.List.{List, [], ◌∷◌}
use mathlib.Core.Option.{none, some}
use native.Mathlib.Omega.{arith}
use pomaisearch.Base.Tests.{if◌then◌else◌, Bool-cases, Option-cases, ltb}
use pomaisearch.Base.Lists.{length, take, length-take}
use pomaisearch.Base.All.{All}
use pomaisearch.Base.Back.{front, pop_back, front-none, front-All}
use pomaisearch.Base.Order.{IsWeakOrder, not_before_trans}
use pomaisearch.Base.Sort.{insert, sort_onto, sort, IsSorted, length-insert, insert-IsSorted}

-- A `std` heap whose front is the worst element, kept here with the best first: `push_heap`
-- puts an element in its place, the heap's front is the last element, and `pop_heap` drops it.
module _ {ℓ} {A : Type ℓ} (before : A → A → Bool) where
  -- One round: below the bound push, at the bound replace the worst element if the new one is
  -- better.
  unfoldable pub offer : ℕ → List A → A → List A
  unfolding front pop_back insert
  offer k heap x = if ltb (length heap) k then insert before x heap else elim (front heap) [
    | none ↦ heap
    | some worst ↦ if before x worst then insert before x (pop_back heap) else heap
  ]

  unfoldable pub offer_all : ℕ → List A → List A → List A
  unfolding offer
  offer_all k heap [] = heap
  offer_all k heap (x ∷ xs) = offer_all k (offer k heap x) xs

module _ {ℓ κ} {A : Type ℓ} (P : A → Type κ) where
  pub All-take : (k : ℕ) (h : List A) → All P h → All P (take k h)
  All-take zero h a = tt
  All-take (suc k) [] a = tt
  All-take (suc k) (y ∷ h) a = (a.0, All-take k h a.1)

module _ {ℓ} {A : Type ℓ} where
  take-take-suc : (k : ℕ) (h : List A) → take k (take (suc k) h) ≡ take k h
  take-take-suc zero h = refl
  take-take-suc (suc k) [] = refl
  take-take-suc (suc k) (y ∷ h) = ap (◌∷◌ y) (take-take-suc k h)

  take-cons-take : (k : ℕ) (y : A) (h : List A) → take k (y ∷ take k h) ≡ take k (y ∷ h)
  take-cons-take zero y h = refl
  take-cons-take (suc k) y h = ap (◌∷◌ y) (take-take-suc k h)

  pub take-all : (k : ℕ) (h : List A) → length h ≤ k → take k h ≡ h
  take-all zero [] l = refl
  take-all zero (y ∷ h) l = absurd (omega arith)
  take-all (suc k) [] l = refl
  take-all (suc k) (y ∷ h) l = ap (◌∷◌ y) (take-all k h (omega arith))

  pop_back-take : (z : A) (h : List A) → pop_back (z ∷ h) ≡ take (length h) (z ∷ h)
  unfolding pop_back
  pop_back-take z [] = refl
  pop_back-take z (y ∷ h) = ap (◌∷◌ z) (pop_back-take y h)

module _ {ℓ} {A : Type ℓ} (before : A → A → Bool) where
  pub take-IsSorted : (k : ℕ) (h : List A) → IsSorted before h → IsSorted before (take k h)
  take-IsSorted zero h s = tt
  take-IsSorted (suc k) [] s = tt
  take-IsSorted (suc k) (y ∷ h) s = (All-take _ k h s.0, take-IsSorted k h s.1)

  take-insert-take :
      (k : ℕ) (x : A) (h : List A)
      → take k (insert before x (take k h)) ≡ take k (insert before x h)
  unfolding insert
  take-insert-take zero x h = refl
  take-insert-take (suc k) x [] = refl
  take-insert-take (suc k) x (y ∷ h) = elim (Bool-cases (before x y)) [
    | inl e ↦ rw e (ap (◌∷◌ x) (take-cons-take k y h))
    | inr e ↦ rw e (ap (◌∷◌ y) (take-insert-take k x h))
  ]

  -- Insertion before the last element, and then the cut, is replacement of the last element.
  take-insert-pop :
      (h : List A) (x worst : A)
      → front h ≡ some worst
      → before x worst ≡ true
      → insert before x (pop_back h) ≡ take (length h) (insert before x h)
  unfolding insert front pop_back
  take-insert-pop [] x worst e b = absurd (cc)
  take-insert-pop (y ∷ []) x worst e b = ground arith
  take-insert-pop (y ∷ z ∷ h) x worst e b = elim (Bool-cases (before x y)) [
    | inl t ↦ rw t (ap (λ (l : List A). x ∷ y ∷ l) (pop_back-take z h))
    | inr t ↦ rw t (ap (◌∷◌ y) (take-insert-pop (z ∷ h) x worst e b))
  ]

module _ {ℓ} {A : Type ℓ} {before : A → A → Bool} (w : IsWeakOrder before) where
  -- An element that is no better than the worst one goes to the end.
  take-insert-worse :
      (h : List A) (x worst : A)
      → IsSorted before h
      → front h ≡ some worst
      → before x worst ≡ false
      → take (length h) (insert before x h) ≡ h
  unfolding insert front
  take-insert-worse [] x worst s e b = refl
  take-insert-worse (y ∷ []) x worst s e b = ground arith
  take-insert-worse (y ∷ z ∷ h) x worst s e b =
      let last : before worst y ≡ false = front-All (λ v. before v y ≡ false) z h s.0 e in
      rw (not_before_trans w x worst y b last)
        (ap (◌∷◌ y) (take-insert-worse (z ∷ h) x worst s.1 e b))

  offer-full :
      (h : List A) (x : A)
      → IsSorted before h
      → offer before (length h) h x ≡ take (length h) (insert before x h)
  unfolding offer
  offer-full h x s = elim (Option-cases (front h)) [
    | inl e ↦
        subst (λ l. offer before (length l) l x ≡ take (length l) (insert before x l))
          (sym (front-none h e)) refl
    | inr (worst, e) ↦ elim (Bool-cases (before x worst)) [
      | inl b ↦ ground (arith, e, b, take-insert-pop before h x worst)
      | inr b ↦ ground (arith, e, b, take-insert-worse h x worst s)
    ]
  ]

  offer-take :
      (k : ℕ) (h : List A) (x : A)
      → IsSorted before h
      → length h ≤ k
      → offer before k h x ≡ take k (insert before x h)
  unfolding offer
  offer-take k h x s l = elim (Bool-cases (ltb (length h) k)) [
    | inl room ↦
        rw room (sym (take-all k (insert before x h) (ground (arith, length-insert before x h))))
    | inr full ↦
        let e : length h ≡ k = ground arith in
        subst (λ n. offer before n h x ≡ take n (insert before x h)) e (offer-full h x s)
  ]

  offer_all-take :
      (k : ℕ) (h xs : List A)
      → IsSorted before h
      → offer_all before k (take k h) xs ≡ take k (sort_onto before h xs)
  unfolding offer_all sort_onto
  offer_all-take k h [] s = refl
  offer_all-take k h (x ∷ xs) s =
      rw (offer-take k (take k h) x (take-IsSorted before k h s) (ground (arith, length-take k h)))
        (rw (take-insert-take before k x h)
          (offer_all-take k (insert before x h) xs (insert-IsSorted w x h s)))

  -- The heap that the loop leaves holds the first `k` of everything sorted.
  pub offer_all-sort : (k : ℕ) (xs : List A) → offer_all before k [] xs ≡ take k (sort before xs)
  unfolding sort
  offer_all-sort zero xs = offer_all-take zero [] xs tt
  offer_all-sort (suc k) xs = offer_all-take (suc k) [] xs tt

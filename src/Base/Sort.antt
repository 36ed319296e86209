-- ===== src/Base/Sort.antt =====
-- `std::sort` by a comparator, as insertion in order of arrival: for a strict weak order every
-- sort gives this list up to the order of equivalent elements.
use Prim.Native.Nat.{◌+◌, suc}
use mathlib.Core.Path.{◌≡◌, refl, ap, ◌∙◌, sym, subst}
use mathlib.Core.Logic.{inl, inr}
use mathlib.Core.Bool.{Bool, false}
use mathlib.Core.List.{List, [], ◌∷◌, ◌++◌, Perm, perm_middle, append-nil, append_assoc, map}
use mathlib.Core.List.Perm
use native.Mathlib.Omega.{arith}
use pomaisearch.Base.Tests.{if◌then◌else◌, Bool-cases}
use pomaisearch.Base.Lists.{length}
use pomaisearch.Base.All.{All, All-map}
use pomaisearch.Base.Order.{IsWeakOrder, not_before_trans}

module _ {ℓ} {A : Type ℓ} (before : A → A → Bool) where
  unfoldable pub insert : A → List A → List A
  insert x [] = x ∷ []
  insert x (y ∷ ys) = if before x y then x ∷ y ∷ ys else y ∷ insert x ys

  unfoldable pub sort_onto : List A → List A → List A
  sort_onto out [] = out
  sort_onto out (x ∷ xs) = sort_onto (insert x out) xs

  unfoldable pub sort : List A → List A
  unfolding sort_onto insert
  sort xs = sort_onto [] xs

  -- No element comes before an earlier one.
  abbrev pub IsSorted : List A → Type 0
  IsSorted [] = Unit
  IsSorted (x ∷ xs) = All (λ y. before y x ≡ false) xs × IsSorted xs

module _ {ℓ} {A : Type ℓ} (before : A → A → Bool) where
  pub length-insert : (x : A) (xs : List A) → length (insert before x xs) ≡ suc (length xs)
  unfolding insert
  length-insert x [] = refl
  length-insert x (y ∷ ys) = ground (arith, length-insert x ys)

  pub insert-perm : (x : A) (xs : List A) → Perm (insert before x xs) (x ∷ xs)
  unfolding insert
  insert-perm x [] = Perm.refl (x ∷ [])
  insert-perm x (y ∷ ys) = elim (Bool-cases (before x y)) [
    | inl e ↦ rw e (Perm.refl (x ∷ y ∷ ys))
    | inr e ↦ rw e (Perm.trans (Perm.cons y (insert-perm x ys)) (Perm.swap x y ys))
  ]

  sort_onto-perm : (out xs : List A) → Perm (sort_onto before out xs) (out ++ xs)
  unfolding sort_onto
  sort_onto-perm out [] = rw append-nil (Perm.refl out)
  sort_onto-perm out (x ∷ xs) =
      Perm.trans (sort_onto-perm (insert before x out) xs) (
        Perm.trans (Perm.append (insert-perm x out) (Perm.refl xs))
          (Perm.symm (perm_middle out xs)))

  -- Sorting loses and invents nothing.
  length-sort_onto : (out xs : List A) → length (sort_onto before out xs) ≡ length out + length xs
  unfolding sort_onto
  length-sort_onto out [] = omega arith
  length-sort_onto out (x ∷ xs) =
      omega (arith, length-sort_onto (insert before x out) xs, length-insert x out)

  pub length-sort : (xs : List A) → length (sort before xs) ≡ length xs
  unfolding sort
  length-sort xs = omega (arith, length-sort_onto [] xs)

  pub sort-perm : (xs : List A) → Perm (sort before xs) xs
  unfolding sort
  sort-perm xs = sort_onto-perm [] xs

  pub All-insert {κ} :
      (P : A → Type κ) (x : A) (xs : List A) → P x → All P xs → All P (insert before x xs)
  unfolding insert
  All-insert P x [] p h = (p, tt)
  All-insert P x (y ∷ ys) p h = elim (Bool-cases (before x y)) [
    | inl e ↦ rw e (p, h)
    | inr e ↦ rw e (h.0, All-insert P x ys p h.1)
  ]

module _ {ℓ} {A : Type ℓ} (before : A → A → Bool) where
  insert_last :
      (x : A) (out : List A)
      → All (λ y. before x y ≡ false) out
      → insert before x out ≡ out ++ x ∷ []
  unfolding insert
  insert_last x [] h = refl
  insert_last x (y ∷ ys) h = rw h.0 (ap (◌∷◌ y) (insert_last x ys h.1))

  -- The elements before a place are in order with the one there.
  before_place :
      (out : List A) (x : A) (xs : List A)
      → IsSorted before (out ++ x ∷ xs)
      → All (λ y. before x y ≡ false) out
  before_place [] x xs s = tt
  before_place (y ∷ ys) x xs s = (middle ys s.0, before_place ys x xs s.1)
    where
      middle : (zs : List A) → All (λ z. before z y ≡ false) (zs ++ x ∷ xs) → before x y ≡ false
      middle [] h = h.0
      middle (z ∷ zs) h = middle zs h.1

  sort_onto_sorted :
      (out xs : List A) → IsSorted before (out ++ xs) → sort_onto before out xs ≡ out ++ xs
  unfolding sort_onto
  sort_onto_sorted out [] s = sym (append-nil out)
  sort_onto_sorted out (x ∷ xs) s = rw (insert_last x out (before_place out x xs s)) (
      sort_onto_sorted (out ++ x ∷ []) xs
        (subst (IsSorted before) (sym (append_assoc out (x ∷ []) xs)) s)
      ∙ append_assoc out (x ∷ []) xs)

  -- Sorting what is in order changes nothing.
  pub sort_of_IsSorted : (xs : List A) → IsSorted before xs → sort before xs ≡ xs
  unfolding sort
  sort_of_IsSorted xs s = sort_onto_sorted [] xs s

-- Sorting after a map, by a comparator that looks through the map.
module _ {ℓ κ} {A : Type ℓ} {B : Type κ} (before : B → B → Bool) (f : A → B) where
  pub All-map_list {μ} : (P : B → Type μ) (xs : List A) → All (λ x. P (f x)) xs → All P (map f xs)
  All-map_list P [] h = tt
  All-map_list P (x ∷ xs) h = (h.0, All-map_list P xs h.1)

  pub map-IsSorted :
      (xs : List A) → IsSorted (λ a b. before (f a) (f b)) xs → IsSorted before (map f xs)
  map-IsSorted [] s = tt
  map-IsSorted (x ∷ xs) s = (All-map_list (λ b. before b (f x) ≡ false) xs s.0, map-IsSorted xs s.1)

module _ {ℓ} {A : Type ℓ} {before : A → A → Bool} (w : IsWeakOrder before) where
  pub insert-IsSorted :
      (x : A) (xs : List A) → IsSorted before xs → IsSorted before (insert before x xs)
  unfolding insert
  insert-IsSorted x [] h = (tt, tt)
  insert-IsSorted x (y ∷ ys) h = elim (Bool-cases (before x y)) [
    | inl e ↦
        rw e ((w.asym x y e, All-map ys (λ z q. not_before_trans w z y x q (w.asym x y e)) h.0), h)
    | inr e ↦
        rw e (All-insert before (λ z. before z y ≡ false) x ys e h.0, insert-IsSorted x ys h.1)
  ]

  sort_onto-IsSorted :
      (out xs : List A) → IsSorted before out → IsSorted before (sort_onto before out xs)
  unfolding sort_onto
  sort_onto-IsSorted out [] h = h
  sort_onto-IsSorted out (x ∷ xs) h =
      sort_onto-IsSorted (insert before x out) xs (insert-IsSorted x out h)

  pub sort-IsSorted : (xs : List A) → IsSorted before (sort before xs)
  unfolding sort
  sort-IsSorted xs = sort_onto-IsSorted [] xs tt

module _ {ℓ κ} {A : Type ℓ} (before : A → A → Bool) (P : A → Type κ) where
  All-sort_onto : (out xs : List A) → All P out → All P xs → All P (sort_onto before out xs)
  unfolding sort_onto
  All-sort_onto out [] h k = h
  All-sort_onto out (x ∷ xs) h k =
      All-sort_onto (insert before x out) xs (All-insert before P x out k.0 h) k.1

  -- What holds of all elements holds of all sorted elements.
  pub All-sort : (xs : List A) → All P xs → All P (sort before xs)
  unfolding sort
  All-sort xs h = All-sort_onto [] xs tt h

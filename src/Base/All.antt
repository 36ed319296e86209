-- ===== src/Base/All.antt =====
-- A property of every element of a list, and lists with no element twice.
use Prim.Native.Nat.{ℕ, zero, suc, ◌<◌}
use mathlib.Core.Path.{◌≡◌, refl, sym, subst}
use mathlib.Core.Logic.{◌≢◌}
use mathlib.Core.List.{List, [], ◌∷◌, ◌++◌}
use mathlib.Core.Option.{some, some-injective}
use native.Mathlib.Omega.{arith}
use pomaisearch.Base.Lists.{length, get_or, get_elem?, set, replicate}

abbrev pub All {ℓ κ} : {A : Type ℓ} → (A → Type κ) → List A → Type κ
All P [] = Unit
All P (x ∷ xs) = P x × All P xs

abbrev pub Distinct {ℓ} : {A : Type ℓ} → List A → Type ℓ
Distinct [] = Unit
Distinct (x ∷ xs) = All (λ y. y ≢ x) xs × Distinct xs

module _ {ℓ κ μ} {A : Type ℓ} {P : A → Type κ} {Q : A → Type μ} where
  pub All-map : (xs : List A) → ((a : A) → P a → Q a) → All P xs → All Q xs
  All-map [] f h = tt
  All-map (x ∷ xs) f h = (f x h.0, All-map xs f h.1)

module _ {ℓ κ} {A : Type ℓ} (P : A → Type κ) where
  pub All-append : (xs ys : List A) → All P xs → All P ys → All P (xs ++ ys)
  All-append [] ys h k = k
  All-append (x ∷ xs) ys h k = (h.0, All-append xs ys h.1 k)

  pub All-set : (xs : List A) (i : ℕ) (v : A) → P v → All P xs → All P (set xs i v)
  All-set [] i v p h = tt
  All-set (x ∷ xs) zero v p h = (p, h.1)
  All-set (x ∷ xs) (suc i) v p h = (h.0, All-set xs i v p h.1)

  pub All-replicate : (n : ℕ) (a : A) → P a → All P (replicate n a)
  All-replicate zero a p = tt
  All-replicate (suc n) a p = (p, All-replicate n a p)

  pub All-get_or : (xs : List A) (i : ℕ) (d : A) → i < length xs → All P xs → P (get_or xs i d)
  All-get_or [] i d l h = elim l [ ]
  All-get_or (x ∷ xs) zero d l h = h.0
  All-get_or (x ∷ xs) (suc i) d l h = All-get_or xs i d (omega arith) h.1

  pub All-get_elem? : (xs : List A) (i : ℕ) {x : A} → get_elem? xs i ≡ some x → All P xs → P x
  All-get_elem? [] i e h = absurd (cc)
  All-get_elem? (y ∷ xs) zero e h = subst P (some-injective _ _ e) h.0
  All-get_elem? (y ∷ xs) (suc i) e h = All-get_elem? xs i e h.1

  -- The other way round: what holds at every position holds of all.
  pub All-of_get_elem? :
      (xs : List A) → ((i : ℕ) (x : A) → get_elem? xs i ≡ some x → P x) → All P xs
  All-of_get_elem? [] f = tt
  All-of_get_elem? (x ∷ xs) f = (f 0 x refl, All-of_get_elem? xs (λ i y e. f (suc i) y e))

module _ {ℓ} {A : Type ℓ} where
  pub Distinct-append_end :
      (xs : List A) (y : A) → All (λ x. x ≢ y) xs → Distinct xs → Distinct (xs ++ y ∷ [])
  Distinct-append_end [] y n d = (tt, tt)
  Distinct-append_end (x ∷ xs) y n d = (
    All-append (λ z. z ≢ x) xs (y ∷ []) d.0 ((λ e. n.0 (sym e)), tt),
    Distinct-append_end xs y n.1 d.1,
  )

module _ {ℓ κ μ ν} {A : Type ℓ} {P : A → Type κ} {Q : A → Type μ} {R : A → Type ν} where
  pub All-zip : (xs : List A) → ((a : A) → P a → Q a → R a) → All P xs → All Q xs → All R xs
  All-zip [] f h k = tt
  All-zip (x ∷ xs) f h k = (f x h.0 k.0, All-zip xs f h.1 k.1)

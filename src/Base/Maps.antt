-- ===== src/Base/Maps.antt =====
-- `std::unordered_map` and `std::unordered_set` as association lists. The order of the list stands
-- for the iteration order, which C++ leaves open: a new key goes to the end.
use Prim.Native.Nat.{ℕ}
use mathlib.Core.Path.{◌≡◌, refl, ap}
use mathlib.Core.Logic.{◌↔◌}
use mathlib.Core.Bool.{Bool, true, false}
use mathlib.Core.List.{List, [], ◌∷◌, ◌++◌}
use mathlib.Core.Option.{Option, none, some}
use native.Mathlib.Omega.{arith}
use pomaisearch.Base.Tests.{◌==◌, ==_iff, if◌then◌else◌}
use pomaisearch.Base.Bytes.{Bytes, bytes_eq, bytes_eq_iff}

-- The equality of keys.
pub record Key (K : Type 0) : Type 0 where
  pub eq : K → K → Bool
  pub eq_iff : (a b : K) → (eq a b ≡ true) ↔ (a ≡ b)

abbrev nat_eq : ℕ → ℕ → Bool
nat_eq a b = a == b

instance abbrev pub nat_key : Key ℕ
nat_key = record { eq = nat_eq; eq_iff = ==_iff }

instance abbrev pub bytes_key : Key Bytes
bytes_key = record { eq = bytes_eq; eq_iff = bytes_eq_iff }

module _ {K : Type 0} ⦃e : Key K⦄ where
  pub eq_refl : (k : K) → e.eq k k ≡ true
  eq_refl k = (e.eq_iff k k).1 refl

module _ {K : Type 0} ⦃e : Key K⦄ where
  eq_sym : (a b : K) → e.eq a b ≡ false → e.eq b a ≡ false
  eq_sym a b h = ground (arith, e.eq_iff a b, e.eq_iff b a, h)

module _ {K V : Type 0} ⦃e : Key K⦄ where
  -- `find`, with `none` for `end()`.
  unfoldable pub find : K → List (K × V) → Option V
  find k [] = none
  find k ((j, v) ∷ m) = if e.eq j k then some v else find k m

  -- `m[k] = v`.
  unfoldable pub assign : K → V → List (K × V) → List (K × V)
  assign k v [] = (k, v) ∷ []
  assign k v ((j, w) ∷ m) = if e.eq j k then (j, v) ∷ m else (j, w) ∷ assign k v m

  -- `m.emplace(k, v)`: a key that is there keeps its value.
  unfoldable pub emplace : K → V → List (K × V) → List (K × V)
  emplace k v [] = (k, v) ∷ []
  emplace k v ((j, w) ∷ m) = if e.eq j k then (j, w) ∷ m else (j, w) ∷ emplace k v m

  -- `m.erase(k)`.
  unfoldable pub erase : K → List (K × V) → List (K × V)
  erase k [] = []
  erase k ((j, w) ∷ m) = if e.eq j k then erase k m else (j, w) ∷ erase k m

  pub find-assign :
      (j k : K) (v : V) (m : List (K × V))
      → find j (assign k v m) ≡ (if e.eq k j then some v else find j m)
  unfolding find assign
  find-assign j k v [] = refl
  find-assign j k v ((i, w) ∷ m) =
      ground (arith, e.eq_iff k j, e.eq_iff i k, e.eq_iff i j, find-assign j k v m)

  pub find-emplace :
      (j k : K) (v : V) (m : List (K × V))
      → find k m ≡ none
      → find j (emplace k v m) ≡ (if e.eq k j then some v else find j m)
  unfolding find emplace
  find-emplace j k v [] h = refl
  find-emplace j k v ((i, w) ∷ m) h =
      ground (arith, e.eq_iff k j, e.eq_iff i k, e.eq_iff i j, find-emplace j k v m)

  pub find-erase :
      (j k : K) (m : List (K × V)) → find j (erase k m) ≡ (if e.eq k j then none else find j m)
  unfolding find erase
  find-erase j k [] = ground arith
  find-erase j k ((i, w) ∷ m) =
      ground (arith, e.eq_iff k j, e.eq_iff i k, e.eq_iff i j, find-erase j k m)

pub ruleset map_laws = (find-assign, find-erase, eq_refl)

module _ {K V : Type 0} ⦃e : Key K⦄ where
  -- The key is not in the map.
  abbrev pub IsFresh : K → List (K × V) → Type 0
  IsFresh k [] = Unit
  IsFresh k ((j, w) ∷ m) = (e.eq j k ≡ false) × IsFresh k m

  -- No key is there twice, as in every `std::unordered_map`.
  abbrev pub HasKeysOnce : List (K × V) → Type 0
  HasKeysOnce [] = Unit
  HasKeysOnce ((k, v) ∷ m) = IsFresh k m × HasKeysOnce m

  pub assign_fresh :
      (k : K) (v : V) (m : List (K × V)) → IsFresh k m → assign k v m ≡ m ++ (k, v) ∷ []
  unfolding assign
  assign_fresh k v [] h = refl
  assign_fresh k v ((j, w) ∷ m) h = rw h.0 (ap (◌∷◌ (j, w)) (assign_fresh k v m h.1))

  pub IsFresh-append_end :
      (k j : K) (v : V) (m : List (K × V))
      → IsFresh j m
      → e.eq k j ≡ false
      → IsFresh j (m ++ (k, v) ∷ [])
  IsFresh-append_end k j v [] h n = (n, tt)
  IsFresh-append_end k j v ((i, w) ∷ m) h n = (h.0, IsFresh-append_end k j v m h.1 n)

  -- What may be added to a map, key by key.
  abbrev pub AllFresh : List (K × V) → List (K × V) → Type 0
  AllFresh m [] = Unit
  AllFresh m ((k, v) ∷ xs) = IsFresh k m × AllFresh m xs

  pub AllFresh-append_end :
      (m : List (K × V)) (k : K) (v : V) (xs : List (K × V))
      → AllFresh m xs
      → IsFresh k xs
      → AllFresh (m ++ (k, v) ∷ []) xs
  AllFresh-append_end m k v [] h n = tt
  AllFresh-append_end m k v ((j, w) ∷ xs) h n =
      (IsFresh-append_end k j v m h.0 (eq_sym j k n.0), AllFresh-append_end m k v xs h.1 n.1)

  pub AllFresh-nil : (xs : List (K × V)) → AllFresh [] xs
  AllFresh-nil [] = tt
  AllFresh-nil ((k, v) ∷ xs) = (tt, AllFresh-nil xs)

-- ===== src/KMeans/Trained.antt =====
-- A training ends, or it writes out of bounds in a round in which a vector has no score.
use pomaisearch.Base.{
  ℕ, zero, suc, ◌+◌, ◌≤◌, ◌<◌, ◌≡◌, ◌↔◌, ◌⊎◌, refl, inl, inr, true, false, List, [], ◌∷◌, some,
  none, arith, ltb, ◌==◌, if◌then◌else◌, length, get_elem?, take, replicate, Bool-cases,
}
use pomaisearch.Float.{Float, Arithmetic, float_gt}
use pomaisearch.Status.{Status, ok_status, is_ok, status, invalid_argument}
use pomaisearch.VectorStore.{VectorStore}
use pomaisearch.VectorStore
use pomaisearch.KMeans.{
  KMeans, Pass, new_pass, lowest, centroid, accumulate, updated, assign_step, iterate, samples,
  train,
}
use pomaisearch.KMeans.Assigned.{assign_one-best}

module _ (m : Arithmetic) (kernel : List Float → List Float → Float) (store : VectorStore) where
  -- One of the vectors has no score above the lowest float with any centroid.
  abbrev pub HasUnscored : KMeans → List ℕ → Type 0
  HasUnscored km offsets =
      (i : ℕ) × (offset : ℕ) × (get_elem? offsets i ≡ some offset)
      × ((c : ℕ)
          → c < km.k
          → float_gt (kernel (VectorStore.get store offset) (centroid km.dim km.centroids c)) lowest
            ≡ false)

  abbrev pub moved : KMeans → Pass → KMeans
  moved km p = record km { centroids = updated m km.dim km.centroids p km.k 0 }

  -- The second object and its assignments come some rounds after the first.
  pub data IsRound (offsets : List ℕ) : KMeans → List ℕ → KMeans → List ℕ → Type 0 where
    here : {km : KMeans} → {assignments : List ℕ} → IsRound offsets km assignments km assignments
    later :
        {km last : KMeans}
        → {assignments final : List ℕ} → (p : Pass)
        → assign_step m kernel km store offsets 0 (new_pass km assignments) ≡ some p
        → IsRound offsets (moved km p) p.assignments last final
        → IsRound offsets km assignments last final

  assign_step-cases :
      (km : KMeans) (offsets : List ℕ) (i : ℕ) (p : Pass)
      → ((q : Pass) × (assign_step m kernel km store offsets i p ≡ some q))
        ⊎ ((assign_step m kernel km store offsets i p ≡ none) × HasUnscored km offsets)
  unfolding assign_step
  assign_step-cases km [] i p = inl (p, refl)
  assign_step-cases km (offset ∷ offsets) i p =
      let vec = VectorStore.get store offset in
      elim (assign_one-best kernel km vec) [
        | inr (missed, low) ↦ inr (rw (missed, assign_step) refl, (0, offset, refl, low))
        | inl (c, found, below, high, best) ↦
            elim (assign_step-cases km offsets (i + 1) (accumulate m km.dim p i c vec)) [
              | inl (q, rest) ↦ inl (q, rw (found, assign_step) rest)
              | inr (rest, (j, other, at, low)) ↦
                  inr (rw (found, assign_step) rest, (suc j, other, at, low))
            ]
      ]

  -- What follows from a round that writes out of bounds.
  abbrev pub IsBlocked : KMeans → List ℕ → List ℕ → Type 0
  IsBlocked km offsets assignments =
      (last : KMeans) × (final : List ℕ) × IsRound offsets km assignments last final
      × HasUnscored last offsets

  iterate-cases :
      (n : ℕ) (km : KMeans) (offsets assignments : List ℕ)
      → ((trained : KMeans) × (iterate m kernel n km store offsets assignments ≡ some trained)
          × (trained.k ≡ km.k)
          × (trained.dim ≡ km.dim))
        ⊎ ((iterate m kernel n km store offsets assignments ≡ none)
            × IsBlocked km offsets assignments)
  unfolding iterate
  iterate-cases zero km offsets assignments = inl (km, refl, refl, refl)
  iterate-cases (suc n) km offsets assignments =
      elim (assign_step-cases km offsets 0 (new_pass km assignments)) [
        | inr (stuck, low) ↦ inr (rw (stuck, iterate) refl, (km, assignments, IsRound.here, low))
        | inl (p, found) ↦ elim (Bool-cases (p.changed == 0)) [
          | inl e ↦ inl (moved km p, rw (found, iterate) (rw e refl), refl, refl)
          | inr e ↦ elim (iterate-cases n (moved km p) offsets p.assignments) [
            | inl (trained, rest, k, dim) ↦ inl (trained, rw (found, iterate) (rw e rest), k, dim)
            | inr (rest, (last, final, round, low)) ↦
                inr
                  (rw (found, iterate) (rw e rest), (last, final, IsRound.later p found round, low))
          ]
        ]
      ]

  module _ (shuffle : List ℕ → List ℕ) (km : KMeans) (indices : List ℕ) where
    -- The object with its first centroids.
    abbrev pub begun : KMeans
    begun = record km {
      centroids =
          samples m kernel store
            (if ltb km.k (length indices) then take km.k (shuffle indices) else indices);
    }

    pub train-cases :
        0 < km.k
        → ((trained : KMeans) × (result : Status) × (train m kernel shuffle km store indices
              ≡ some (trained, result))
            × (trained.k ≡ km.k)
            × (trained.dim ≡ km.dim)
            × ((is_ok result ≡ true) ↔ (km.k ≤ length indices)))
          ⊎ ((train m kernel shuffle km store indices ≡ none)
              × IsBlocked begun indices (replicate (length indices) 0))
    unfolding train
    train-cases h = elim (Bool-cases (length indices == 0)) [
      | inl e ↦ inl (
        km,
        status invalid_argument "No training data provided",
        rw e refl,
        refl,
        refl,
        (λ q. absurd (cc), λ l. absurd (ground (arith, e, l, h))),
      )
      | inr e ↦ elim (Bool-cases (ltb (length indices) km.k)) [
        | inl few ↦ inl (
          km,
          status invalid_argument "Not enough points for K clusters",
          rw e (rw few refl),
          refl,
          refl,
          (λ q. absurd (cc), λ l. absurd (ground (arith, few, l))),
        )
        | inr enough ↦
            elim (iterate-cases km.max_iterations begun indices (replicate (length indices) 0)) [
              | inl (trained, found, k, dim) ↦ inl (
                trained,
                ok_status,
                rw e (rw enough (rw found refl)),
                k,
                dim,
                (λ q. ground (arith, enough), λ l. refl),
              )
              | inr (stuck, blocked) ↦ inr (rw e (rw enough (rw stuck refl)), blocked)
            ]
      ]
    ]

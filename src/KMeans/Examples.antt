-- ===== src/KMeans/Examples.antt =====
-- The theorems on training and assignment at a store with two vectors.
use pomaisearch.Base.{ℕ, ◌<◌, ◌≡◌, ◌⊎◌, true, false, none, some, List, [], ◌∷◌}
use pomaisearch.Float.{Float, dot_scalar, float_gt}
use pomaisearch.Float.Examples.{machine}
use pomaisearch.Status.{Status}
use pomaisearch.VectorStore.{VectorStore}
use pomaisearch.VectorStore
use pomaisearch.KMeans.{KMeans, centroid, lowest, init, assign_one}
use pomaisearch.KMeans.Assigned.{assign_one-best}

abbrev kernel : List Float → List Float → Float
kernel = dot_scalar machine

abbrev store : VectorStore
store =
    (VectorStore.insert (VectorStore.insert (VectorStore.init 2 32 4) (5 ∷ 6 ∷ [])).0
      (7 ∷ 8 ∷ [])).0

abbrev shuffle : List ℕ → List ℕ
shuffle xs = xs

-- Three centroids of one element, of which the second is the best and the third is a NaN.
abbrev three : KMeans
three = record { k = 3; dim = 1; max_iterations = 20; centroids = 5 ∷ 9 ∷ 2143289344 ∷ [] }

assign_one-best_example :
    ((c : ℕ) × (assign_one kernel three (1 ∷ []) ≡ some c)
      × (c < 3)
      × (float_gt (kernel (1 ∷ []) (centroid 1 three.centroids c)) lowest ≡ true)
      × ((j : ℕ)
          → j < 3
          → float_gt
              (kernel (1 ∷ []) (centroid 1 three.centroids j))
              (kernel (1 ∷ []) (centroid 1 three.centroids c))
            ≡ false))
    ⊎ ((assign_one kernel three (1 ∷ []) ≡ none)
        × ((j : ℕ)
            → j < 3
            → float_gt (kernel (1 ∷ []) (centroid 1 three.centroids j)) lowest ≡ false))
assign_one-best_example = assign_one-best kernel three (1 ∷ [])

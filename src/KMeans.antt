-- ===== src/KMeans.antt =====
-- core/clustering/kmeans.h and kmeans.cc: Lloyd's algorithm. The centroids stand one after the other
-- in one list. `shuffle` is `std::shuffle` with the generator of the object. Where no centroid has a
-- score above the lowest float, `best_c` stays -1 (`none` here), and `Train` would write before the
-- start of its arrays: training is `none` then.
pub mod Saving
pub mod Assigned
pub mod Trained
mod Examples
use pomaisearch.Base.{
  ℕ, zero, suc, ◌+◌, ◌*◌, Bool, true, false, List, [], ◌∷◌, ◌++◌, map, Option, none, some, ltb,
  ◌==◌, if◌then◌else◌, length, get_or, set, slice, take, replicate, write_at,
}
use pomaisearch.Float.{Float, Arithmetic, zero_float, one_float, float_gt}
use pomaisearch.Status.{Status, ok_status, status, invalid_argument}
use pomaisearch.VectorStore.{VectorStore}
use pomaisearch.VectorStore

pub record KMeans : Type 0 where
  pub k : ℕ
  pub dim : ℕ
  pub max_iterations : ℕ
  pub centroids : List Float

-- `-std::numeric_limits<float>::max()` and `1e-6f`.
abbrev pub lowest : Float
lowest = 4286578687

abbrev pub small_norm : Float
small_norm = 897988541

-- The constructor, with what `Config` gives.
unfoldable pub init : ℕ → ℕ → KMeans
init k dim = record { k = k; dim = dim; max_iterations = 20; centroids = [] }

abbrev pub centroid : ℕ → List Float → ℕ → List Float
centroid dim centroids c = slice centroids (c * dim) dim

module _ (kernel : List Float → List Float → Float) where
  -- The loop over the centroids from c on, n of which are to go.
  pub best_from : ℕ → List Float → List Float → ℕ → ℕ → Option ℕ → Float → Option ℕ
  best_from dim centroids vec zero c best best_dist = best
  best_from dim centroids vec (suc n) c best best_dist =
      let d = kernel vec (centroid dim centroids c) in
      let closer = best_from dim centroids vec n (c + 1) (some c) d in
      let same = best_from dim centroids vec n (c + 1) best best_dist in
      if float_gt d best_dist then closer else same

  unfoldable pub best_centroid : ℕ → ℕ → List Float → List Float → Option ℕ
  unfolding best_from
  best_centroid k dim centroids vec = best_from dim centroids vec k 0 none lowest

  unfoldable pub assign_one : KMeans → List Float → Option ℕ
  unfolding best_centroid
  assign_one km vec = best_centroid km.k km.dim km.centroids vec

-- The accumulators of one iteration.
pub record Pass : Type 0 where
  pub assignments : List ℕ
  pub changed : ℕ
  pub sums : List Float
  pub counts : List ℕ

abbrev pub new_pass : KMeans → List ℕ → Pass
new_pass km assignments = record {
  assignments = assignments;
  changed = 0;
  sums = replicate (km.k * km.dim) zero_float;
  counts = replicate km.k 0;
}

module _ (m : Arithmetic) where
  add_all : List Float → List Float → List Float
  add_all (x ∷ xs) (y ∷ ys) = m.add x y ∷ add_all xs ys
  add_all xs _ = xs

  -- A vector whose nearest centroid is c.
  pub accumulate : ℕ → Pass → ℕ → ℕ → List Float → Pass
  unfolding add_all
  accumulate dim p i c vec = record {
    assignments = set p.assignments i c;
    changed = if get_or p.assignments i 0 == c then p.changed else p.changed + 1;
    sums = write_at p.sums (c * dim) (add_all (slice p.sums (c * dim) dim) vec);
    counts = set p.counts c (get_or p.counts c 0 + 1);
  }

  sum_squares : Float → List Float → Float
  sum_squares sum [] = sum
  sum_squares sum (x ∷ xs) = sum_squares (m.add sum (m.mul x x)) xs

  -- Both similarities normalize the mean.
  normalize_mean : List Float → List Float
  unfolding sum_squares
  normalize_mean xs =
      let norm = m.sqrt (sum_squares zero_float xs) in
      if float_gt norm small_norm then map (λ x. m.mul x (m.div one_float norm)) xs else xs

  -- The update step: a centroid without points stays as it was.
  pub updated : ℕ → List Float → Pass → ℕ → ℕ → List Float
  unfolding normalize_mean
  updated dim old p zero c = []
  updated dim old p (suc n) c =
      let count = get_or p.counts c 0 in
      (if ltb 0 count
        then normalize_mean
            (map (λ x. m.mul x (m.div one_float (m.of_nat count))) (centroid dim p.sums c))
        else centroid dim old c)
      ++ updated dim old p n (c + 1)

  module _ (kernel : List Float → List Float → Float) where
    -- The assignment step, for the vectors from the i-th on.
    pub assign_step : KMeans → VectorStore → List ℕ → ℕ → Pass → Option Pass
    unfolding assign_one accumulate
    assign_step km store [] i p = some p
    assign_step km store (offset ∷ offsets) i p =
        let vec = VectorStore.get store offset in
        elim (assign_one kernel km vec) [
          | none ↦ none
          | some c ↦ assign_step km store offsets (i + 1) (accumulate km.dim p i c vec)
        ]

    -- At most n iterations; the loop stops when no assignment has changed.
    pub iterate : ℕ → KMeans → VectorStore → List ℕ → List ℕ → Option KMeans
    unfolding assign_step updated
    iterate zero km store offsets assignments = some km
    iterate (suc n) km store offsets assignments =
        elim (assign_step km store offsets 0 (new_pass km assignments)) [
          | none ↦ none
          | some p ↦
              let moved : KMeans = record km { centroids = updated km.dim km.centroids p km.k 0 } in
              let more = iterate n moved store offsets p.assignments in
              if p.changed == 0 then some moved else more
        ]

    pub samples : VectorStore → List ℕ → List Float
    samples store [] = []
    samples store (offset ∷ offsets) = VectorStore.get store offset ++ samples store offsets

    unfoldable pub train :
        (List ℕ → List ℕ) → KMeans → VectorStore → List ℕ → Option (KMeans × Status)
    unfolding iterate samples
    train shuffle km store indices =
        if length indices == 0
        then some (km, status invalid_argument "No training data provided")
        else if ltb (length indices) km.k
        then some (km, status invalid_argument "Not enough points for K clusters")
        else let sample =
            if ltb km.k (length indices) then take km.k (shuffle indices) else indices in
          let begun : KMeans = record km { centroids = samples store sample } in
          elim (iterate km.max_iterations begun store indices (replicate (length indices) 0)) [
            | none ↦ none
            | some trained ↦ some (trained, ok_status)
          ]

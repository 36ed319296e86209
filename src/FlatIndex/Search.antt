-- ===== src/FlatIndex/Search.antt =====
-- What `FlatIndex::Search` returns: the heap loop finds the best live items, exactly.
use pomaisearch.Base.{ℕ, ◌≡◌, List, map, some, arith, take, ==_refl, ◌≢◌}
use pomaisearch.Base.Sort.{sort, IsSorted, sort-IsSorted, sort_of_IsSorted, map-IsSorted}
use pomaisearch.Base.TopK.{offer_all-sort, take-IsSorted}
use pomaisearch.Float.{Float, Arithmetic}
use pomaisearch.Float.Ranks.{better_scored, better_scored-IsWeakOrder}
use pomaisearch.Status.{value}
use pomaisearch.Types.{Filter}
use pomaisearch.VectorStore.{VectorStore}
use pomaisearch.Index.{Candidate}
use pomaisearch.FlatIndex.{FlatIndex, better_candidate, candidate, scored_items, search}

module _ (m : Arithmetic) (kernel : List Float → List Float → Float) where
  -- The specification: score every live item, sort by score and id, keep the first `topk`.
  abbrev pub best_items : VectorStore → FlatIndex → List Float → ℕ → List Candidate
  best_items store x q topk =
      map candidate (take topk (sort better_scored (scored_items m kernel x store q x.items x.ids)))

  best_items-IsSorted :
      (store : VectorStore) (x : FlatIndex) (q : List Float) (topk : ℕ)
      → IsSorted better_candidate (best_items store x q topk)
  best_items-IsSorted store x q topk =
      let all = scored_items m kernel x store q x.items x.ids in
      map-IsSorted better_candidate candidate (take topk (sort better_scored all)) (
        take-IsSorted better_scored topk (sort better_scored all)
          (sort-IsSorted better_scored-IsWeakOrder all))

  -- A search with a query of the index's dimension and a positive `topk` returns the first `topk`
  -- of all live items, sorted by sanitised score (highest first) and then by id: the bounded heap
  -- loses none of them.
  pub search-best :
      (store : VectorStore) (x : FlatIndex) (q : List Float) (topk : ℕ) (f : Filter)
      → topk ≢ 0
      → search m kernel store x (record { elements = some q; dim = x.dim }) topk f
        ≡ value (best_items store x q topk)
  unfolding search
  search-best store x q topk f n =
      let all = scored_items m kernel x store q x.items x.ids in
      let heap = offer_all-sort better_scored-IsWeakOrder topk all in
      let sorted = sort_of_IsSorted better_candidate _ (best_items-IsSorted store x q topk) in
      ground (arith, heap, sorted, ==_refl x.dim)

-- ===== src/IvfFlat/Search.antt =====
-- `IvfFlatIndex::Search`. The query has the index's dimension, which it does not check. It writes the
-- metrics of the lists that it visits, under the shared lock. `none` is the top of an empty queue, which
-- is looked at if no results are asked for and there is a document to score.
use pomaisearch.Base.{
  ℕ, zero, suc, ◌+◌, Bool, not, ◌&&◌, ◌||◌, List, [], ◌∷◌, map, Option, none, some, ltb,
  if◌then◌else◌, length, get_or, set, take, min,
}
use pomaisearch.Base.Back.{front, pop_back}
use pomaisearch.Base.Maps.{nat_key, find}
use pomaisearch.Base.Sort.{insert, sort}
use pomaisearch.Float.{Float, float_lt, float_gt}
use pomaisearch.VectorStore.{VectorStore}
use pomaisearch.VectorStore
use pomaisearch.Index.{Candidate}
use pomaisearch.KMeans.{KMeans, centroid}
use pomaisearch.IvfFlat.{
  IvfFlatIndex, DocState, PostingEntry, ListMetrics, no_metrics, entry_is_live, find_state,
}

abbrev pub Scored : Type 0
Scored = Float × ℕ

-- `std::greater` of two pairs.
unfoldable pub pair_greater : Scored → Scored → Bool
pair_greater a b = float_lt b.0 a.0 || (not (float_lt a.0 b.0) && ltb b.1 a.1)

-- The priority queue, best first: its top is the last element, which gives way to a higher score.
unfoldable pub offer_score : ℕ → List Scored → Scored → Option (List Scored)
offer_score k heap x =
    if ltb (length heap) k then some (insert pair_greater x heap) else elim (front heap) [
      | none ↦ none
      | some worst ↦
          some (if float_gt x.0 worst.0 then insert pair_greater x (pop_back heap) else heap)
    ]

module _ (kernel : List Float → List Float → Float) (store : VectorStore) (q : List Float)
    (topk : ℕ) where
  abbrev pub score_of : DocState → Float
  score_of doc = kernel q (VectorStore.get store doc.offset)

  -- Before the training: the ids of the buffer.
  unfoldable pub offer_id : List (ℕ × DocState) → ℕ → List Scored → Option (List Scored)
  unfolding offer_score
  offer_id docs id heap = elim (find id docs) [
    | none ↦ some heap
    | some doc ↦ if doc.deleted then some heap else offer_score topk heap (score_of doc, id)
  ]

  unfoldable pub scan_buffer : List (ℕ × DocState) → List ℕ → List Scored → Option (List Scored)
  unfolding offer_id
  scan_buffer docs [] heap = some heap
  scan_buffer docs (id ∷ ids) heap = elim (offer_id docs id heap) [
    | none ↦ none
    | some offered ↦ scan_buffer docs ids offered
  ]

  -- `process`, and its metrics.
  unfoldable pub process : List (ℕ × DocState) → PostingEntry → List Scored → Option (List Scored)
  unfolding offer_score
  process docs e heap =
      if entry_is_live docs e
      then offer_score topk heap (score_of (find_state e.id docs), e.id)
      else some heap

  abbrev pub checked : List (ℕ × DocState) → PostingEntry → ListMetrics → ListMetrics
  checked docs e metric = record {
    stale_entries = if entry_is_live docs e then metric.stale_entries else metric.stale_entries + 1;
    stale_checked = metric.stale_checked + 1;
  }

  -- The entries of one list.
  unfoldable pub scan_list :
      List (ℕ × DocState)
      → List PostingEntry
      → List Scored
      → ListMetrics
      → Option (List Scored × ListMetrics)
  unfolding process
  scan_list docs [] heap metric = some (heap, metric)
  scan_list docs (e ∷ es) heap metric = elim (process docs e heap) [
    | none ↦ none
    | some offered ↦ scan_list docs es offered (checked docs e metric)
  ]

  -- The scores of the centroids from c on, n of which are to go.
  pub centroid_scores : KMeans → ℕ → ℕ → List Scored
  centroid_scores km zero c = []
  centroid_scores km (suc n) c =
      (kernel q (centroid km.dim km.centroids c), c) ∷ centroid_scores km n (c + 1)

  -- The lists of the nearest centroids.
  unfoldable pub scan_lists :
      IvfFlatIndex
      → List ℕ
      → List Scored
      → List ListMetrics
      → Option (List Scored × List ListMetrics)
  unfolding scan_list
  scan_lists x [] heap metrics = some (heap, metrics)
  scan_lists x (c ∷ cs) heap metrics =
      elim (scan_list x.docs (get_or x.lists c []) heap (get_or metrics c no_metrics)) [
        | none ↦ none
        | some (found, metric) ↦ scan_lists x cs found (set metrics c metric)
      ]

  unfoldable pub probes : IvfFlatIndex → List ℕ
  unfolding centroid_scores
  probes x =
      map (λ (s : Scored). s.1)
        (take (min x.config.nprobe x.config.nlist)
          (sort pair_greater (centroid_scores x.kmeans x.config.nlist 0)))

  abbrev pub candidate : Scored → Candidate
  candidate s = record { id = s.1; score = s.0 }

  abbrev pub untrained_result :
      IvfFlatIndex → Option (List Scored) → Option (IvfFlatIndex × List Candidate)
  untrained_result x none = none
  untrained_result x (some found) = some (x, map candidate found)

  abbrev pub trained_result :
      IvfFlatIndex
      → Option (List Scored × List ListMetrics)
      → Option (IvfFlatIndex × List Candidate)
  trained_result x none = none
  trained_result x (some (found, metrics)) =
      some (record x { list_metrics = metrics }, map candidate found)

  unfoldable pub search : IvfFlatIndex → Option (IvfFlatIndex × List Candidate)
  unfolding scan_buffer scan_lists probes
  search x =
      if x.trained
      then trained_result x (scan_lists x (probes x) [] x.list_metrics)
      else untrained_result x (scan_buffer x.docs x.buffer_ids [])

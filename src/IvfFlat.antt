-- ===== src/IvfFlat.antt =====
-- core/index/ivf_flat_index.h and ivf_flat_index.cc: the inverted file index. Vectors are buffered until
-- there are enough of them to train the centroids; then every vector is in the list of its nearest
-- centroid. A call under the lock is one step. `none` is a training that writes out of bounds.
pub mod Lists
pub mod Kept
pub mod Training
pub mod Upserts
pub mod Search
pub mod Found
pub mod Saving
mod Examples
use pomaisearch.Base.{
  ℕ, zero, suc, ◌+◌, ◌-◌, ◌*◌, ◌%◌, ◌^◌, Bool, true, false, not, ◌&&◌, ◌||◌, List, [], ◌∷◌, ◌++◌,
  map, Option, none, some, ltb, leb, ◌==◌, if◌then◌else◌, length, get_or, set, replicate, filter,
  take, min,
}
use pomaisearch.Base.Maps.{nat_key, find, assign}
use pomaisearch.Float.{Float, Arithmetic, zero_float, float_gt}
use pomaisearch.Status.{Status, ok_status, status, is_ok, internal, not_found}
use pomaisearch.VectorStore.{VectorStore}
use pomaisearch.VectorStore
use pomaisearch.Index.{IndexStats}
use pomaisearch.KMeans.{KMeans, assign_one, train}
use pomaisearch.KMeans

pub record Config : Type 0 where
  pub nlist : ℕ
  pub nprobe : ℕ
  pub min_train_size : ℕ
  pub stale_ratio_threshold : Float
  pub max_list_size : ℕ
  pub max_list_bytes : ℕ

pub record DocState : Type 0 where
  pub offset : ℕ
  pub gen : ℕ
  pub deleted : Bool

pub record PostingEntry : Type 0 where
  pub id : ℕ
  pub gen : ℕ

pub record ListMetrics : Type 0 where
  pub stale_entries : ℕ
  pub stale_checked : ℕ

-- Without the time that compaction took.
pub record IvfFlatIndex : Type 0 where
  pub dim : ℕ
  pub config : Config
  pub trained : Bool
  pub kmeans : KMeans
  pub lists : List (List PostingEntry)
  pub list_metrics : List ListMetrics
  pub docs : List (ℕ × DocState)
  pub buffer_ids : List ℕ
  pub compaction_runs : ℕ

abbrev pub no_state : DocState
no_state = record { offset = 0; gen = 0; deleted = false }

abbrev pub no_metrics : ListMetrics
no_metrics = record { stale_entries = 0; stale_checked = 0 }

abbrev pub entry : ℕ → ℕ → PostingEntry
entry id gen = record { id = id; gen = gen }

-- The constructor. A least size of 0 stands for 39 vectors per list, and at least 100.
unfoldable pub init : ℕ → Config → IvfFlatIndex
init dim config =
    let size = if ltb (config.nlist * 39) 100 then 100 else config.nlist * 39 in
    record {
      dim = dim;
      config =
          if config.min_train_size == 0 then record config { min_train_size = size } else config;
      trained = false;
      kmeans = KMeans.init config.nlist dim;
      lists = [];
      list_metrics = [];
      docs = [];
      buffer_ids = [];
      compaction_runs = 0;
    }

abbrev pub find_state : ℕ → List (ℕ × DocState) → DocState
find_state id docs = elim (find id docs) [ none ↦ no_state | some doc ↦ doc ]

-- `docs_[id]`, written by `Upsert`.
abbrev pub next_state : ℕ → ℕ → List (ℕ × DocState) → DocState
next_state id offset docs = record {
  offset = offset;
  gen = ((find_state id docs).gen + 1) % 2 ^ 32;
  deleted = false;
}

unfoldable pub delete : IvfFlatIndex → ℕ → IvfFlatIndex × Status
delete x id = elim (find id x.docs) [
  | none ↦ (x, status not_found "not found")
  | some doc ↦
      let gone : DocState = record doc { deleted = true; gen = (doc.gen + 1) % 2 ^ 32 } in
      (record x { docs = assign id gone x.docs }, ok_status)
]

unfoldable pub entry_is_live : List (ℕ × DocState) → PostingEntry → Bool
entry_is_live docs e = elim (find e.id docs) [
  | none ↦ false
  | some doc ↦ not doc.deleted && doc.gen == e.gen
]

-- `lists_[c].push_back(entry)`.
abbrev pub push : ℕ → PostingEntry → List (List PostingEntry) → List (List PostingEntry)
push c e lists = set lists c (get_or lists c [] ++ e ∷ [])

unfoldable pub compact_list : IvfFlatIndex → ℕ → IvfFlatIndex
unfolding entry_is_live
compact_list x c = if leb (length x.lists) c then x else record x {
  lists = set x.lists c (filter (entry_is_live x.docs) (get_or x.lists c []));
  list_metrics = set x.list_metrics c no_metrics;
  compaction_runs = x.compaction_runs + 1;
}

pub live_offsets : List (ℕ × DocState) → List ℕ → List ℕ
live_offsets docs [] = []
live_offsets docs (id ∷ ids) =
    let rest = live_offsets docs ids in
    elim (find id docs) [
      | none ↦ rest
      | some doc ↦ if doc.deleted then rest else doc.offset % 2 ^ 32 ∷ rest
    ]

module _ (m : Arithmetic) where
  -- An entry has eight bytes.
  unfoldable pub list_needs_compaction : IvfFlatIndex → ℕ → Bool
  list_needs_compaction x c =
      let size = length (get_or x.lists c []) in
      let metric = get_or x.list_metrics c no_metrics in
      let stale_ratio =
        if ltb 0 metric.stale_checked
        then m.div (m.of_nat metric.stale_entries) (m.of_nat metric.stale_checked)
        else zero_float in
      if leb (length x.lists) c || size == 0
      then false
      else float_gt stale_ratio x.config.stale_ratio_threshold
        || ltb x.config.max_list_size size
        || ltb x.config.max_list_bytes (size * 8)

  -- The lists from c on, n of which are to go.
  pub compact_from : ℕ → ℕ → IvfFlatIndex → IvfFlatIndex
  unfolding list_needs_compaction
  compact_from zero c x = x
  compact_from (suc n) c x =
      compact_from n (c + 1) (if list_needs_compaction x c then compact_list x c else x)

  unfoldable pub compact : IvfFlatIndex → IvfFlatIndex
  unfolding compact_from
  compact x = compact_from (length x.lists) 0 x

  module _ (kernel : List Float → List Float → Float) (shuffle : List ℕ → List ℕ)
      (store : VectorStore) where
    -- `AddToInvertedList`.
    unfoldable pub add_to_inverted_list : IvfFlatIndex → ℕ → ℕ → List Float → IvfFlatIndex × Status
    add_to_inverted_list x id gen vec =
        let failed : IvfFlatIndex × Status =
          (x, status internal "KMeans assignment out of bounds") in
        elim (assign_one kernel x.kmeans vec) [
          | none ↦ failed
          | some c ↦
              if leb (length x.lists) c
              then failed
              else (record x { lists = push c (entry id gen) x.lists }, ok_status)
        ]

    -- The second loop of `TrainImpl`, which does not look at the status.
    pub post_buffer : List ℕ → IvfFlatIndex → IvfFlatIndex
    unfolding add_to_inverted_list
    post_buffer [] x = x
    post_buffer (id ∷ ids) x = post_buffer ids (elim (find id x.docs) [
      | none ↦ x
      | some doc ↦
          if doc.deleted
          then x
          else (add_to_inverted_list x id doc.gen (VectorStore.get store doc.offset)).0
    ])

    unfoldable pub train_impl : IvfFlatIndex → Option (IvfFlatIndex × Status)
    unfolding live_offsets post_buffer
    train_impl x =
        let offsets = live_offsets x.docs x.buffer_ids in
        if length offsets == 0
        then some (x, ok_status)
        else elim (train m kernel shuffle x.kmeans store offsets) [
          | none ↦ none
          | some (kmeans, result) ↦
              let emptied : IvfFlatIndex = record x {
                kmeans = kmeans;
                lists = replicate x.config.nlist [];
                list_metrics = replicate x.config.nlist no_metrics;
              } in
              let posted = post_buffer x.buffer_ids emptied in
              if is_ok result
              then some (record posted { buffer_ids = []; trained = true }, ok_status)
              else some (record x { kmeans = kmeans }, result)
        ]

    -- What follows `AddToInvertedList` in `Upsert`, with the nearest centroid.
    unfoldable pub compact_after : IvfFlatIndex × Status → Option ℕ → IvfFlatIndex × Status
    unfolding list_needs_compaction
    compact_after (posted, result) nearest = if not (is_ok result) then (posted, result) else (
      elim nearest [
        | none ↦ posted
        | some c ↦
            if ltb c (length posted.list_metrics) && list_needs_compaction posted c
            then compact_list posted c
            else posted
      ],
      ok_status,
    )

    -- The two branches of `Upsert`, for the index with the document.
    unfoldable pub upsert_trained : IvfFlatIndex → ℕ → ℕ → List Float → IvfFlatIndex × Status
    unfolding add_to_inverted_list compact_after
    upsert_trained x id gen vec =
        compact_after (add_to_inverted_list x id gen vec) (assign_one kernel x.kmeans vec)

    unfoldable pub upsert_untrained : IvfFlatIndex → ℕ → Option (IvfFlatIndex × Status)
    unfolding train_impl
    upsert_untrained x id =
        let buffered : IvfFlatIndex = record x { buffer_ids = x.buffer_ids ++ id ∷ [] } in
        if leb x.config.min_train_size (length buffered.buffer_ids)
        then train_impl buffered
        else some (buffered, ok_status)

    unfoldable pub upsert : IvfFlatIndex → ℕ → ℕ → Option (IvfFlatIndex × Status)
    unfolding upsert_trained upsert_untrained
    upsert x id offset =
        let doc = next_state id offset x.docs in
        let y : IvfFlatIndex = record x { docs = assign id doc x.docs } in
        if x.trained
        then some (upsert_trained y id doc.gen (VectorStore.get store offset))
        else upsert_untrained y id

    -- `Train`, which a caller may ask for at any time.
    unfoldable pub train_now : IvfFlatIndex → Option (IvfFlatIndex × Status)
    unfolding train_impl
    train_now x = if x.trained then some (x, ok_status) else train_impl x

count_live : List (ℕ × DocState) → ℕ
count_live [] = 0
count_live ((id, doc) ∷ docs) = (if doc.deleted then 0 else 1) + count_live docs

count_entries : List (List PostingEntry) → ℕ
count_entries [] = 0
count_entries (list ∷ lists) = length list + count_entries lists

unfoldable pub get_stats : IvfFlatIndex → IndexStats
unfolding count_live count_entries
get_stats x = record {
  num_points = count_live x.docs;
  num_deleted = count_entries x.lists - count_live x.docs;
}

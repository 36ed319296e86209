-- ===== src/Engine/Search.antt =====
-- src/search_engine.cc: `Search`, `SearchByKey`, `SearchHybrid` and `ExportRecords`. The latency
-- that a search records is an argument, as the clock is.
use pomaisearch.Base.{
  ℕ, Bool, false, not, List, [], ◌∷◌, ◌++◌, Option, none, some, ltb, ◌==◌, if◌then◌else◌, length,
  filter,
}
use pomaisearch.Base.Bytes.{Bytes}
use pomaisearch.Base.Sort.{sort}
use pomaisearch.Base.TopK.{offer_all}
use pomaisearch.Float.{Float, Arithmetic}
use pomaisearch.Status.{StatusOr, value, error, status, invalid_argument, ◌>>=◌}
use pomaisearch.Types.{VectorView, Filter, ResultItem, metadata_filter_match}
use pomaisearch.Metrics
use pomaisearch.Index.{Index}
use pomaisearch.Shard.{Shard}
use pomaisearch.Shard.Read
use pomaisearch.Shard.Read.{better_result}
use pomaisearch.Shard.Hybrid
use pomaisearch.Shard.Hybrid.{SnapshotRecord}
use pomaisearch.Engine.{Impl, Engine, not_initialized, from_shard, shard_index}

-- `QueryOptions`; a count that is not positive is 0.
pub record QueryOptions : Type 0 where
  pub topk : ℕ
  pub filter : Filter

pub record HybridQuery : Type 0 where
  pub text_query : Option Bytes
  pub vector_query : Option (List Float)
  pub alpha : Float

abbrev pub effective_topk : {I : Type 0} → Impl I → QueryOptions → ℕ
effective_topk e opt = if opt.topk == 0 then e.cfg.topk_default else opt.topk

-- The results of all shards in order, or the first failure.
unfoldable pub collect {ℓ} :
    {I : Type 0} {A : Type ℓ} → (Shard I → StatusOr (List A)) → List (Shard I) → StatusOr (List A)
collect call [] = value []
collect call (s ∷ shards) =
    call s >>= λ first. collect call shards >>= λ rest. value (first ++ rest)

-- The best `topk` by `nth_element` and `resize`, where there are more, and then the sort. Any selection of
-- the best will do for `nth_element`, as the sort does not see its order: here, one by a bounded heap.
unfoldable pub merge : ℕ → List ResultItem → List ResultItem
unfolding sort offer_all
merge topk merged =
    sort better_result
      (if ltb topk (length merged) then offer_all better_result topk [] merged else merged)

abbrev pub text_or_empty : Option Bytes → Bytes
text_or_empty none = []
text_or_empty (some text) = text

abbrev count_query : {I : Type 0} → Impl I → Impl I
count_query e = record e { metrics = Metrics.increment_queries e.metrics }

-- `RecordQueryLatency`, which an early return skips.
record_latency : {I : Type 0} → Impl I → ℕ → StatusOr (List ResultItem) → Impl I
record_latency e latency (value _) = record e {
  metrics = Metrics.record_query_latency e.metrics latency;
}
record_latency e latency (error _) = e

module _ (m : Arithmetic) (kernel : List Float → List Float → Float) {I : Type 0}
    (ops : Index I) where
  -- The result of `Search`.
  unfoldable pub search_result : Impl I → ℕ → VectorView → QueryOptions → StatusOr (List ResultItem)
  unfolding collect merge
  search_result e now q opt =
      collect (λ s. Read.search m kernel ops s now s now q (effective_topk e opt) opt.filter)
        e.shards
      >>= λ merged. value (merge (effective_topk e opt) merged)

  unfoldable pub search :
      Engine I → ℕ → ℕ → VectorView → QueryOptions → Engine I × StatusOr (List ResultItem)
  unfolding search_result record_latency
  search none now latency q opt = (none, error not_initialized)
  search (some e) now latency q opt =
      let result = search_result e now q opt in
      (some (record_latency (count_query e) latency result), result)

  -- `SearchByKey` counts a query, and the search that it makes counts it again.
  search_with :
      Impl I → ℕ → ℕ → QueryOptions → StatusOr (List Float) → Engine I × StatusOr (List ResultItem)
  unfolding search
  search_with e now latency opt (error s) = (some e, error s)
  search_with e now latency opt (value vec) =
      search (some e) now latency (record { elements = some vec; dim = e.cfg.dim }) opt

  unfoldable pub search_by_key :
      Engine I → ℕ → ℕ → Bytes → QueryOptions → Engine I × StatusOr (List ResultItem)
  unfolding search_with
  search_by_key none now latency key opt = (none, error not_initialized)
  search_by_key (some e) now latency key opt =
      search_with (count_query e) now latency opt
        (from_shard e (shard_index e key) (λ s. Read.get_vector_copy s now key))

  abbrev pub query_view : Impl I → Option (List Float) → Option VectorView
  query_view e none = none
  query_view e (some vec) = some (record { elements = some vec; dim = e.cfg.dim })

  abbrev pub wrong_dim : Impl I → Option (List Float) → Bool
  wrong_dim e none = false
  wrong_dim e (some vec) = not (length vec == e.cfg.dim)

  pub hybrid_result : Impl I → ℕ → HybridQuery → QueryOptions → StatusOr (List ResultItem)
  unfolding collect merge
  hybrid_result e now query opt =
      if wrong_dim e query.vector_query
      then error (status invalid_argument "dimension mismatch")
      else collect
          (λ s.
            Hybrid.search_hybrid m ops s now (text_or_empty query.text_query)
              (query_view e query.vector_query) query.alpha (effective_topk e opt) opt.filter)
          e.shards
        >>= λ merged. value (merge (effective_topk e opt) merged)

  unfoldable pub search_hybrid :
      Engine I → ℕ → ℕ → HybridQuery → QueryOptions → Engine I × StatusOr (List ResultItem)
  unfolding hybrid_result record_latency
  search_hybrid none now latency query opt = (none, error not_initialized)
  search_hybrid (some e) now latency query opt =
      let result = hybrid_result e now query opt in
      (some (record_latency (count_query e) latency result), result)

module _ {I : Type 0} where
  export_shards : ℕ → Filter → List (Shard I) → List SnapshotRecord
  export_shards now f [] = []
  export_shards now f (s ∷ shards) =
      filter (λ r. metadata_filter_match f r.meta) (Hybrid.export_records s now)
      ++ export_shards now f shards

  unfoldable pub export_records : Engine I → ℕ → Filter → StatusOr (List SnapshotRecord)
  unfolding export_shards
  export_records none now f = error not_initialized
  export_records (some e) now f = value (export_shards now f e.shards)

-- ===== src/Engine/Stages.antt =====
-- src/search_engine.cc: the stages of `SearchHybridWithExplain`. The times are left out, and `topk * 2` has
-- no bound.
use pomaisearch.Base.{
  ℕ, ◌*◌, List, [], ◌∷◌, ◌++◌, map, Option, none, some, ◌==◌, if◌then◌else◌, length, min, max,
}
use pomaisearch.Base.Bytes.{Bytes, codes}
use pomaisearch.Base.Maps.{nat_key}
use pomaisearch.Base.Sort.{sort}
use pomaisearch.Float.{Float, Arithmetic}
use pomaisearch.Status.{StatusOr, value, error, status, invalid_argument, ◌>>=◌}
use pomaisearch.Types.{VectorView, Filter, IndexType, hnsw}
use pomaisearch.Hash.{stable_hash64}
use pomaisearch.Metrics
use pomaisearch.Index.{Index}
use pomaisearch.Shard.Read
use pomaisearch.Shard.Read.{CandidateResult, better_candidate_result, cut}
use pomaisearch.Engine.{Impl, Engine, not_initialized, get_stats}
use pomaisearch.Engine.Search.{
  QueryOptions, HybridQuery, effective_topk, text_or_empty, query_view, wrong_dim, collect,
}
use pomaisearch.Engine.Explain.{
  QueryPolicy, StageExplain, SearchResponse, hash_query, compute_snapshot_id,
}
use pomaisearch.Engine.Fusion.{ScoredResult, fuse_all, fused_item, fused_details}

module _ (m : Arithmetic) where
  module _ (kernel : List Float → List Float → Float) {I : Type 0} (ops : Index I) where
    abbrev vector_index_name : IndexType → Bytes
    vector_index_name hnsw = codes "hnsw"
    vector_index_name _ = codes "flat"

    -- The stage that looks for vectors, which there is with a vector only.
    unfoldable pub vector_stage :
        Impl I
        → ℕ
        → ℕ
        → Filter
        → Option VectorView
        → StatusOr (List CandidateResult × List StageExplain)
    unfolding collect
    vector_stage e now count f none = value ([], [])
    vector_stage e now count f (some q) =
        collect (λ s. Read.search_candidates m kernel ops s now s now q count f) e.shards
        >>= λ found.
            let vectors = cut count (sort better_candidate_result found) in
            value (
              vectors,
              record {
                name = codes "vector_stage_1";
                index = vector_index_name e.cfg.index_type;
                ef_search = e.cfg.hnsw_ef_search;
                nprobe = 0;
                max_candidates = count;
                candidates_out = length vectors;
              }
                  ∷ [],
            )

    -- The stage that looks for words, which there is with a text only.
    unfoldable pub keyword_stage :
        Impl I → ℕ → ℕ → Filter → Bytes → StatusOr (List CandidateResult × List StageExplain)
    unfolding collect
    keyword_stage e now count f [] = value ([], [])
    keyword_stage e now count f (x ∷ text) =
        collect
          (λ s. value (Read.keyword_candidates_with_docs m kernel ops s now (x ∷ text) count f))
          e.shards
        >>= λ found.
            let keywords = cut count (sort better_candidate_result found) in
            value (
              keywords,
              record {
                name = codes "keyword_stage";
                index = codes "keyword";
                ef_search = 0;
                nprobe = 0;
                max_candidates = count;
                candidates_out = length keywords;
              }
                  ∷ [],
            )

    abbrev pub candidate_count : QueryPolicy → ℕ → ℕ
    candidate_count policy topk =
        let wanted = if policy.max_candidates == 0 then topk * 2 else policy.max_candidates in
        min (max wanted topk) (topk * 2)

    abbrev view_or_empty : Option VectorView → VectorView
    view_or_empty none = record { elements = none; dim = 0 }
    view_or_empty (some view) = view

    abbrev fused_response :
        Impl I
        → HybridQuery
        → QueryOptions
        → QueryPolicy
        → List StageExplain
        → List ScoredResult
        → SearchResponse
    fused_response e query opt policy plan found = record {
      results = map fused_item found;
      explain = record {
        query_id =
            hash_query (stable_hash64 (codes "query")) (text_or_empty query.text_query)
              (view_or_empty (query_view m kernel ops e query.vector_query)) (effective_topk e opt)
              opt.filter;
        global_seed = e.cfg.global_seed;
        contract_version = e.cfg.contract_version;
        snapshot_id = compute_snapshot_id e.cfg (get_stats ops (some e));
        execution_plan = plan;
        result_details = fused_details policy.fusion_method 0 found;
      };
    }

    -- The two stages and the fusion.
    unfoldable pub run_stages :
        Impl I → ℕ → HybridQuery → QueryOptions → QueryPolicy → StatusOr SearchResponse
    unfolding vector_stage keyword_stage fuse_all fused_details
    run_stages e now query opt policy =
        let topk = effective_topk e opt in
        let count = candidate_count policy topk in
        vector_stage e now count opt.filter (query_view m kernel ops e query.vector_query)
        >>= λ (vectors, plan).
            keyword_stage e now count opt.filter (text_or_empty query.text_query)
            >>= λ (keywords, more). value (
                fused_response e query opt policy (plan ++ more)
                  (fuse_all m policy.fusion_method query.alpha topk vectors keywords))

    -- The response, without the engine's metrics.
    unfoldable pub fused_result :
        Impl I → ℕ → HybridQuery → QueryOptions → QueryPolicy → StatusOr SearchResponse
    unfolding run_stages
    fused_result e now query opt policy =
        if effective_topk e opt == 0
        then error (status invalid_argument "topk must be positive")
        else if wrong_dim m kernel ops e query.vector_query
        then error (status invalid_argument "dimension mismatch")
        else run_stages e now query opt policy

    abbrev record_response : Impl I → ℕ → StatusOr SearchResponse → Impl I
    record_response e latency (value _) = record e {
      metrics = Metrics.record_query_latency e.metrics latency;
    }
    record_response e latency (error _) = e

    unfoldable pub search_hybrid_with_explain :
        Engine I
        → ℕ
        → ℕ
        → HybridQuery
        → QueryOptions
        → QueryPolicy
        → Engine I × StatusOr SearchResponse
    unfolding fused_result
    search_hybrid_with_explain none now latency query opt policy = (none, error not_initialized)
    search_hybrid_with_explain (some e) now latency query opt policy =
        let result = fused_result e now query opt policy in
        (some (record_response e latency result), result)

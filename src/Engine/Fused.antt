-- ===== src/Engine/Fused.antt =====
-- What the explained hybrid search returns.
use pomaisearch.Base.{ℕ, ◌≡◌, sym, ap, inl, inr, List, ◌++◌, ◌==◌, some, Bool-cases}
use pomaisearch.Base.Maps.{nat_key}
use pomaisearch.Float.{Float, Arithmetic}
use pomaisearch.Status.{value, >>=-eq-value, value-injective}
use pomaisearch.Index.{Index}
use pomaisearch.Shard.Read.{CandidateResult}
use pomaisearch.Engine.{Impl}
use pomaisearch.Engine.Search.{
  QueryOptions, HybridQuery, effective_topk, wrong_dim, query_view, text_or_empty,
}
use pomaisearch.Engine.Explain.{QueryPolicy, SearchResponse, StageExplain}
use pomaisearch.Engine.Stages.{
  vector_stage, keyword_stage, candidate_count, run_stages, fused_result,
  search_hybrid_with_explain,
}
use pomaisearch.Engine.Scored.{IsFused, fuse_all-IsFused}

module _ (m : Arithmetic) where
  module _ (kernel : List Float → List Float → Float) {I : Type 0} (ops : Index I) where
    -- The stages of a search that has found something.
    abbrev pub FromStages :
        Impl I → ℕ → HybridQuery → QueryOptions → QueryPolicy → SearchResponse → Type 0
    FromStages e now query opt policy r =
        let topk = effective_topk e opt in
        let count = candidate_count m kernel ops policy topk in
        (vectors : List CandidateResult) × (keywords : List CandidateResult) × (plan : List
          StageExplain)
        × (more : List StageExplain) × (vector_stage m kernel ops e now count opt.filter
              (query_view m kernel ops e query.vector_query)
            ≡ value (vectors, plan))
        × (keyword_stage m kernel ops e now count opt.filter (text_or_empty query.text_query)
            ≡ value (keywords, more))
        × (r.explain.execution_plan ≡ plan ++ more)
        × IsFused m policy.fusion_method query.alpha topk vectors keywords r

    run_stages-FromStages :
        (e : Impl I) (now : ℕ) (query : HybridQuery) (opt : QueryOptions) (policy : QueryPolicy)
        {r : SearchResponse}
        → run_stages m kernel ops e now query opt policy ≡ value r
        → FromStages e now query opt policy r
    unfolding run_stages
    run_stages-FromStages e now query opt policy {r} h =
        let topk = effective_topk e opt in
        let count = candidate_count m kernel ops policy topk in
        let ((vectors, plan), a, h1) =
          >>=-eq-value
            (vector_stage m kernel ops e now count opt.filter
              (query_view m kernel ops e query.vector_query))
            _ h in
        let ((keywords, more), b, h2) =
          >>=-eq-value
            (keyword_stage m kernel ops e now count opt.filter (text_or_empty query.text_query)) _
            h1 in
        let same = sym (value-injective _ _ h2) in
        (
          vectors,
          keywords,
          plan,
          more,
          a,
          b,
          ap (λ (r : SearchResponse). r.explain.execution_plan) same,
          fuse_all-IsFused m policy.fusion_method query.alpha topk vectors keywords r
              (ap (λ (r : SearchResponse). r.results) same)
              (ap (λ (r : SearchResponse). r.explain.result_details) same),
        )

    fused_result-FromStages :
        (e : Impl I) (now : ℕ) (query : HybridQuery) (opt : QueryOptions) (policy : QueryPolicy)
        {r : SearchResponse}
        → fused_result m kernel ops e now query opt policy ≡ value r
        → FromStages e now query opt policy r
    unfolding fused_result
    fused_result-FromStages e now query opt policy h =
        elim (Bool-cases (effective_topk e opt == 0)) [
          | inl zero_topk ↦ absurd (cc (rw zero_topk at h))
          | inr some_topk ↦ elim (Bool-cases (wrong_dim m kernel ops e query.vector_query)) [
            | inl wrong ↦ absurd (cc (rw (some_topk, wrong) at h))
            | inr right ↦ run_stages-FromStages e now query opt policy (rw (some_topk, right) at h)
          ]
        ]

    -- An explained hybrid search that succeeds has run both stages. Each id that a stage found is there once,
    -- and no other. Each candidate has the score and the rank that it had in either stage (zero where a
    -- stage did not find it), and the weighted sum of the scores, or the sum of the reciprocal ranks.
    -- The results are the first candidates, as many as asked for (or the default), in the order of the
    -- fused score, key and id, and each is explained with its scores and its ranks.
    pub search_hybrid_with_explain-IsFused :
        (e : Impl I) (now latency : ℕ) (query : HybridQuery) (opt : QueryOptions)
        (policy : QueryPolicy) {r : SearchResponse}
        → (search_hybrid_with_explain m kernel ops (some e) now latency query opt policy).1
          ≡ value r
        → FromStages e now query opt policy r
    unfolding search_hybrid_with_explain
    search_hybrid_with_explain-IsFused e now latency query opt policy h =
        fused_result-FromStages e now query opt policy h

-- ===== src/Shard/Searches.antt =====
-- The theorems on `Shard::SearchCandidates` as a whole.
use pomaisearch.Base.{ℕ, ◌≤◌, ◌≡◌, inl, inr, List, arith, length, min, Bool-cases, ◌==◌}
use mathlib.Core.Path.{subst}
use pomaisearch.Base.All.{All}
use pomaisearch.Base.Sort.{IsSorted}
use pomaisearch.Float.{Float, Arithmetic}
use pomaisearch.Status.{value, >>=-eq-value, value-injective}
use pomaisearch.Types.{Filter, VectorView}
use pomaisearch.Index.{Index, Candidate}
use pomaisearch.KeywordIndex
use pomaisearch.Shard.{Shard, prepare}
use pomaisearch.Shard.Read.{
  CandidateResult, better_candidate_result, candidate_count, rerank, snapshot_docs,
  search_candidates,
}
use pomaisearch.Shard.Results.{IsResult, rerank-IsResult, rerank-IsSorted}

module _ (m : Arithmetic) (kernel : List Float → List Float → Float) {I : Type 0} (ops : Index I)
    (s : Shard I) (now : ℕ) (s' : Shard I) (now' : ℕ) (query : VectorView) (topk : ℕ)
    (f : Filter) where
  abbrev pub query_elements : List Float
  query_elements = KeywordIndex.find_or (prepare m s.similarity query).elements List.[]

  search_candidates_lem :
      {r : List CandidateResult}
      → search_candidates m kernel ops s now s' now' query topk f ≡ value r
      → (cands : List Candidate) × (rerank m kernel s' now' query_elements
            (min topk s.max_candidates)
            (snapshot_docs s now f cands)
          ≡ r)
  unfolding search_candidates
  search_candidates_lem h = elim (Bool-cases (topk == 0)) [
    | inl e ↦ absurd (ground (arith, e))
    | inr e ↦
        let found =
          >>=-eq-value
            (ops.search s.store s.index (prepare m s.similarity query)
              (candidate_count m kernel ops s topk) f)
            _ (rw e at h) in
        (found.0, value-injective _ _ found.2)
  ]

  -- A vector search that succeeds returns results in the order of score (highest first), key and
  -- id, at most `topk` and at most `max_candidates` of them. Each is a document that was live and
  -- passed the filter when the candidates were noted, and that is live in the same generation when
  -- they are checked, whatever was called in between; it has the noted key and metadata, and the
  -- sanitised exact score of the query with the vector in its noted slot.
  pub search_candidates-IsResult :
      {r : List CandidateResult}
      → search_candidates m kernel ops s now s' now' query topk f ≡ value r
      → IsSorted better_candidate_result r
        × (length r ≤ min topk s.max_candidates)
        × All (IsResult kernel s now s' now' query_elements f) r
  search_candidates-IsResult h =
      let (cands, e) = search_candidates_lem h in
      let order =
        rerank-IsSorted m kernel s' now' query_elements (min topk s.max_candidates)
          (snapshot_docs s now f cands) in
      subst
        (λ (l : List CandidateResult).
          IsSorted better_candidate_result l
          × (length l ≤ min topk s.max_candidates)
          × All (IsResult kernel s now s' now' query_elements f) l)
        e
        (
          order.0,
          order.1,
          rerank-IsResult m kernel s now s' now' query_elements (min topk s.max_candidates) f cands,
        )

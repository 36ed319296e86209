-- ===== src/Engine/Explained.antt =====
-- The explained search and the search.
use pomaisearch.Base.{
  ℕ, zero, suc, ◌+◌, ◌≡◌, refl, ap, false, List, [], ◌∷◌, some, arith, ◌==◌, ◌≤◌, ◌*◌,
  if◌then◌else◌, min, max, length, get_elem?,
}
use mathlib.Core.Path.{subst}
use mathlib.Core.Option.{some-injective}
use pomaisearch.Float.{Float, Arithmetic, zero_float, sanitize_score}
use pomaisearch.Status.{value}
use pomaisearch.Types.{VectorView, ResultItem}
use pomaisearch.Index.{Index}
use pomaisearch.Engine.{Impl}
use pomaisearch.Engine.Search.{QueryOptions, effective_topk, search}
use pomaisearch.Engine.Explain.{
  SearchResponse, StageExplain, ResultExplain, QueryPolicy, detail, details, explain,
  search_with_explain,
}

length-details : (i : ℕ) (items : List ResultItem) → length (details i items) ≡ length items
unfolding details
length-details i [] = refl
length-details i (item ∷ items) = ap suc (length-details (i + 1) items)

details-get_elem? :
    (i j : ℕ) (items : List ResultItem) {item : ResultItem}
    → get_elem? items j ≡ some item
    → get_elem? (details i items) j ≡ some (detail (i + j) item)
unfolding details
details-get_elem? i j [] h = absurd (cc)
details-get_elem? i zero (item ∷ items) h =
    let same : i + 0 ≡ i = omega arith in rw same (ap some (ap (detail i) (some-injective _ _ h)))
details-get_elem? i (suc j) (item ∷ items) h =
    let next : i + suc j ≡ i + 1 + j = omega arith in rw next (details-get_elem? (i + 1) j items h)

-- What is told of every result, the first of which has rank 1, and of the one stage that the search has.
pub record IsExplained (topk : ℕ) (results : List ResultItem) (r : SearchResponse) : Type 0 where
  pub same_results : r.results ≡ results
  pub one_each : length r.explain.result_details ≡ length results
  pub ranked :
      (j : ℕ) {item : ResultItem}
      → get_elem? results j ≡ some item
      → (d : ResultExplain) × (get_elem? r.explain.result_details j ≡ some d)
        × (d.rank_before_fusion ≡ j + 1)
        × (d.rank_after_fusion ≡ j + 1)
        × (d.vector_score_raw ≡ sanitize_score item.score)
        × (d.keyword_score_raw ≡ zero_float)
        × (d.final_score ≡ sanitize_score item.score)
  pub one_stage :
      (stage : StageExplain) × (r.explain.execution_plan ≡ stage ∷ [])
      × (stage.candidates_out ≡ length results)
      × (topk ≤ stage.max_candidates)
      × (stage.max_candidates ≤ max topk 2000)

ranked_from_one :
    (j : ℕ) (items : List ResultItem) (item : ResultItem)
    → get_elem? items j ≡ some item
    → get_elem? (details 0 items) j ≡ some (detail j item)
ranked_from_one j items item h =
    let same : 0 + j ≡ j = omega arith in
    subst (λ n. get_elem? (details 0 items) j ≡ some (detail n item)) same
      (details-get_elem? 0 j items h)

max_candidates-bounds :
    (topk wanted : ℕ)
    → (topk ≤ max topk (min wanted 2000)) × (max topk (min wanted 2000) ≤ max topk 2000)
max_candidates-bounds topk wanted = (ground arith, ground arith)

module _ (m : Arithmetic) (kernel : List Float → List Float → Float) {I : Type 0}
    (ops : Index I) where
  -- Where a search that asks for some results succeeds, the explained search returns the same results
  -- and leaves the same engine. The j-th result is explained with rank j + 1 and its score, and the one
  -- stage with as many candidates as there are results, and a limit from topk to 2000 or topk.
  pub search_with_explain-search :
      (e : Impl I) (now latency : ℕ) (q : VectorView) (opt : QueryOptions) (policy : QueryPolicy)
      (results : List ResultItem)
      → (effective_topk e opt == 0) ≡ false
      → (search m kernel ops (some e) now latency q opt).1 ≡ value results
      → (r : SearchResponse) × (search_with_explain m kernel ops (some e) now latency q opt policy
          ≡ ((search m kernel ops (some e) now latency q opt).0, value r))
        × IsExplained (effective_topk e opt) results r
  unfolding search_with_explain explain
  search_with_explain-search e now latency q opt policy results some_topk found =
      let topk = effective_topk e opt in
      let wanted = if policy.max_candidates == 0 then topk * 4 else policy.max_candidates in
      let bounds = max_candidates-bounds topk wanted in
      (
        record { results = results; explain = explain m kernel ops e q opt policy results },
        rw some_topk (rw found refl),
        record {
          same_results = refl;
          one_each = length-details 0 results;
          ranked = λ j {item} h.
              (detail j item, ranked_from_one j results item h, refl, refl, refl, refl, refl);
          one_stage = (_, refl, refl, bounds.0, bounds.1);
        },
      )

-- ===== src/Engine/Merged.antt =====
-- What the merge of a search over all shards returns.
use pomaisearch.Base.{
  ℕ, ◌≤◌, ◌≡◌, refl, sym, ◌∙◌, inl, inr, List, arith, ltb, length, take, length-take, Bool-cases,
}
use mathlib.Core.Path.{subst}
use pomaisearch.Base.Order.{IsWeakOrder, pull-IsWeakOrder}
use pomaisearch.Base.Sort.{sort, IsSorted, sort-IsSorted, sort_of_IsSorted, length-sort}
use pomaisearch.Base.TopK.{take-IsSorted, take-all, offer_all-sort}
use pomaisearch.Float.{Float, Arithmetic}
use pomaisearch.Float.Ranks.{better_keyed-IsWeakOrder}
use pomaisearch.Status.{value, >>=-eq-value, value-injective}
use pomaisearch.Types.{VectorView, ResultItem}
use pomaisearch.Index.{Index}
use pomaisearch.Shard.Read
use pomaisearch.Shard.Read.{better_result}
use pomaisearch.Engine.{Impl}
use pomaisearch.Engine.Search.{QueryOptions, effective_topk, collect, merge, search_result}

better_result-IsWeakOrder : IsWeakOrder better_result
better_result-IsWeakOrder =
    pull-IsWeakOrder (λ (r : ResultItem). (r.score, r.key, r.internal_id)) better_keyed-IsWeakOrder

-- Selecting the best `topk` before the sort gives what sorting everything and cutting gives.
merge_lem :
    (topk : ℕ) (merged : List ResultItem)
    → merge topk merged ≡ take topk (sort better_result merged)
unfolding merge
merge_lem topk merged =
    let all = sort better_result merged in
    let order = sort-IsSorted better_result-IsWeakOrder merged in
    elim (Bool-cases (ltb topk (length merged))) [
      | inl e ↦ rw e (
          rw (offer_all-sort better_result-IsWeakOrder topk merged) (
            sort_of_IsSorted better_result (take topk all)
              (take-IsSorted better_result topk all order)))
      | inr e ↦ rw e (sym (take-all topk all (ground (arith, length-sort better_result merged))))
    ]

module _ (m : Arithmetic) (kernel : List Float → List Float → Float) {I : Type 0} (ops : Index I)
    (e : Impl I) (now : ℕ) (q : VectorView) (opt : QueryOptions) where
  -- A search of the engine that succeeds returns results in the order of score (highest first), key
  -- and id, at most as many as asked for (or the default), and they are the first of all that the
  -- shards return.
  pub search_result-IsSorted :
      {r : List ResultItem}
      → search_result m kernel ops e now q opt ≡ value r
      → IsSorted better_result r
        × (length r ≤ effective_topk e opt)
        × ((merged : List ResultItem) × (collect
                (λ s. Read.search m kernel ops s now s now q (effective_topk e opt) opt.filter)
                e.shards
              ≡ value merged)
            × (r ≡ take (effective_topk e opt) (sort better_result merged)))
  unfolding search_result
  search_result-IsSorted h =
      let (merged, found, same) =
        >>=-eq-value
          (collect (λ s. Read.search m kernel ops s now s now q (effective_topk e opt) opt.filter)
            e.shards)
          _ h in
      let cutting = sym (value-injective _ _ same) ∙ merge_lem (effective_topk e opt) merged in
      let k = effective_topk e opt in
      let all = sort better_result merged in
      subst
        (λ (l : List ResultItem).
          IsSorted better_result l
          × (length l ≤ k)
          × ((merged : List ResultItem) × (collect
                  (λ s. Read.search m kernel ops s now s now q k opt.filter) e.shards
                ≡ value merged)
              × (l ≡ take k (sort better_result merged))))
        (sym cutting)
        (
          take-IsSorted better_result k all (sort-IsSorted better_result-IsWeakOrder merged),
          omega (arith, length-take k all),
          (merged, found, refl),
        )

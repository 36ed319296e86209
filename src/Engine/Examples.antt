-- ===== src/Engine/Examples.antt =====
-- The theorems on the engine's searches at a small engine with a flat index.
use pomaisearch.Base.{ℕ, ◌≤◌, ◌≡◌, ◌==◌, false, refl, List, [], ◌∷◌, some, none, length, take}
use pomaisearch.Base.Sort.{IsSorted, sort}
use pomaisearch.Base.TopK.{offer_all}
use pomaisearch.Float.{Float, dot_scalar, sanitize_score, is_nan}
use pomaisearch.Float.Examples.{machine}
use pomaisearch.Status.{StatusOr, value, error}
use pomaisearch.Types.{
  is_expired, metadata_filter_match, VectorView, ResultItem, dot, SearchEngineConfig,
  default_config,
}
use pomaisearch.Index.{Index}
use pomaisearch.FlatIndex
use pomaisearch.FlatIndex.{FlatIndex, flat_index}
use pomaisearch.Metrics
use pomaisearch.Shard
use pomaisearch.Shard.{Shard}
use pomaisearch.Shard.Write
use pomaisearch.VectorStore
use pomaisearch.Base.Maps.{find, nat_key, bytes_key}
use pomaisearch.Shard.Read
use pomaisearch.Shard.Read.{better_result}
use pomaisearch.Engine.{Impl}
use pomaisearch.Engine.Search.{
  QueryOptions, HybridQuery, effective_topk, collect, merge, search_result, search,
}
use pomaisearch.Engine.Explain.{SearchResponse, QueryPolicy, weighted_sum, search_with_explain}
use pomaisearch.Engine.Explained.{IsExplained, search_with_explain-search}
use pomaisearch.Engine.Stages.{search_hybrid_with_explain}
use pomaisearch.Engine.Fused.{FromStages, search_hybrid_with_explain-IsFused}
use pomaisearch.Engine.Merged.{search_result-IsSorted}

abbrev kernel : List Float → List Float → Float
kernel = dot_scalar machine

abbrev ops : Index FlatIndex
ops = flat_index machine kernel

abbrev config : SearchEngineConfig
config = record default_config {
  dim = 2;
  max_points_per_shard = 8;
  max_candidates = 4;
  rerank_factor = 2;
  global_seed = 1;
  contract_version = 1;
}

abbrev one_doc : Shard FlatIndex
one_doc =
    (Write.upsert machine kernel ops (Shard.init config 32 (FlatIndex.init 2 dot 8)) 1 (b'k' ∷ [])
      (record { elements = some (5 ∷ 6 ∷ []); dim = 2 })
      (record { meta = []; expiry = none; text = none })).0

abbrev engine : Impl FlatIndex
engine = record { cfg = config; shards = one_doc ∷ []; metrics = Metrics.init }

abbrev query : VectorView
query = record { elements = some (1 ∷ 2 ∷ []); dim = 2 }

abbrev options : QueryOptions
options = record { topk = 0; filter = record { tag = none; source = none; lang = none } }

abbrev item : ℕ → ResultItem
item id = record { key = id ∷ []; score = id; meta = []; internal_id = id }

abbrev found : List ResultItem
found = record { key = b'k' ∷ []; score = 6; meta = []; internal_id = 0 } ∷ []

found_example : search_result machine kernel ops engine 5 query options ≡ value found
unfolding search_result collect merge Read.search Read.result_item Read.search_candidates
    Write.upsert Write.upsert_purged Write.upsert_new Shard.init Shard.prepare Shard.purge_expired
    find flat_index FlatIndex.upsert FlatIndex.init VectorStore.insert VectorStore.init
    VectorStore.take_slot VectorStore.grow_live VectorStore.mark_live VectorStore.write_slot
    VectorStore.ensure_block VectorStore.new_block sort offer_all Shard.is_live is_expired
    metadata_filter_match sanitize_score is_nan dot_scalar VectorStore.get
found_example = refl

search_result-IsSorted_example :
    IsSorted better_result found
    × (length found ≤ effective_topk engine options)
    × ((merged : List ResultItem) × (collect
            (λ s.
              Read.search machine kernel ops s 5 s 5 query
                (effective_topk engine options)
                options.filter)
            engine.shards
          ≡ value merged)
        × (found ≡ take (effective_topk engine options) (sort better_result merged)))
search_result-IsSorted_example =
    search_result-IsSorted machine kernel ops engine 5 query options found_example

some_topk_example : (effective_topk engine options == 0) ≡ false
some_topk_example = refl

search_example : (search machine kernel ops (some engine) 5 1 query options).1 ≡ value found
unfolding search
search_example = found_example

abbrev policy : QueryPolicy
policy = record {
  max_latency_ms = 0;
  max_candidates = 0;
  recall_bias = 1056964608;
  fusion_method = weighted_sum;
}

search_with_explain-search_example :
    (r : SearchResponse) × (search_with_explain machine kernel ops
        (some engine)
        5
        1
        query
        options
        policy
      ≡ ((search machine kernel ops (some engine) 5 1 query options).0, value r))
    × IsExplained (effective_topk engine options) found r
search_with_explain-search_example =
    search_with_explain-search machine kernel ops engine 5 1 query options policy found
      some_topk_example search_example

abbrev hybrid : HybridQuery
hybrid = record { text_query = none; vector_query = some (0 ∷ 0 ∷ []); alpha = 1056964608 }

abbrev fused : StatusOr SearchResponse → SearchResponse
fused (value r) = r
fused (error s) = record {
  results = [];
  explain = record {
    query_id = 0;
    global_seed = 0;
    contract_version = 0;
    snapshot_id = [];
    execution_plan = [];
    result_details = [];
  };
}

abbrev fused_found : StatusOr SearchResponse
fused_found =
    (search_hybrid_with_explain machine kernel ops (some engine) 5 1 hybrid options policy).1

fused_example : fused_found ≡ value (fused fused_found)
unfolding search_hybrid_with_explain Read.search_candidates flat_index Shard.prepare Write.upsert
    Shard.init find Shard.purge_expired FlatIndex.init
fused_example = refl

search_hybrid_with_explain-IsFused_example :
    FromStages machine kernel ops engine 5 hybrid options policy (fused fused_found)
search_hybrid_with_explain-IsFused_example =
    search_hybrid_with_explain-IsFused machine kernel ops engine 5 1 hybrid options policy
      fused_example

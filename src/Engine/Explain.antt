-- ===== src/Engine/Explain.antt =====
-- src/search_engine.cc: `SearchWithExplain`, with what it tells of a query. The time of the stage is
-- left out, and `topk * 4` has no bound. The data of a vector has at least its dimension's elements.
use pomaisearch.Base.{
  ℕ, ◌+◌, ◌*◌, ◌/◌, ◌%◌, ◌^◌, List, [], ◌∷◌, Option, none, some, ◌==◌, if◌then◌else◌, length, take,
  min, max, bit_xor,
}
use pomaisearch.Base.Bytes.{Bytes, codes, to_string}
use pomaisearch.Float.{Float, Arithmetic, zero_float, sanitize_score}
use pomaisearch.Status.{StatusOr, value, error, status, invalid_argument}
use pomaisearch.Types.{
  VectorView, Filter, ResultItem, IndexType, flat, hnsw, ivf_flat, ivf_sq8, SearchEngineConfig,
}
use pomaisearch.File.{float_bytes}
use pomaisearch.Hash.{stable_hash64, stable_hash64_bytes, stable_hash64_combine}
use pomaisearch.Index.{Index, IndexStats}
use pomaisearch.Engine.{Impl, Engine, not_initialized, get_stats}
use pomaisearch.Engine.Search.{QueryOptions, effective_topk, search}

pub record StageExplain : Type 0 where
  pub name : Bytes
  pub index : Bytes
  pub ef_search : ℕ
  pub nprobe : ℕ
  pub max_candidates : ℕ
  pub candidates_out : ℕ

pub record ResultExplain : Type 0 where
  pub vector_score_raw : Float
  pub vector_score_normed : Float
  pub keyword_score_raw : Float
  pub keyword_score_normed : Float
  pub fusion_method : Bytes
  pub final_score : Float
  pub rank_before_fusion : ℕ
  pub rank_after_fusion : ℕ

pub record QueryExplain : Type 0 where
  pub query_id : ℕ
  pub global_seed : ℕ
  pub contract_version : ℕ
  pub snapshot_id : Bytes
  pub execution_plan : List StageExplain
  pub result_details : List ResultExplain

pub record SearchResponse : Type 0 where
  pub results : List ResultItem
  pub explain : QueryExplain

pub data FusionMethod : Type 0 where
  weighted_sum : FusionMethod
  rrf : FusionMethod

pub record QueryPolicy : Type 0 where
  pub max_latency_ms : ℕ
  pub max_candidates : ℕ
  pub recall_bias : Float
  pub fusion_method : FusionMethod

hash_float_vector : VectorView → ℕ
hash_float_vector view = elim view.elements [
  | none ↦ stable_hash64 (codes "empty_vector")
  | some xs ↦
      if view.dim == 0
      then stable_hash64 (codes "empty_vector")
      else stable_hash64_bytes (float_bytes (take view.dim xs)) 0
]

abbrev value_or_empty : Option Bytes → Bytes
value_or_empty none = []
value_or_empty (some text) = text

pub hash_query : ℕ → Bytes → VectorView → ℕ → Filter → ℕ
unfolding hash_float_vector
hash_query seed text view topk filter =
    let asked = stable_hash64_combine (stable_hash64_combine seed text) (to_string topk) in
    let tagged = stable_hash64_combine asked (value_or_empty filter.tag) in
    let sourced = stable_hash64_combine tagged (value_or_empty filter.source) in
    let hash = stable_hash64_combine sourced (value_or_empty filter.lang) in
    bit_xor hash
      ((hash_float_vector view + 11400714819323198485 + hash * 64 % 2 ^ 64 + hash / 4) % 2 ^ 64)

pub compute_snapshot_id : SearchEngineConfig → IndexStats → Bytes
compute_snapshot_id cfg stats =
    let version =
      stable_hash64_combine (stable_hash64 (codes "snapshot")) (to_string cfg.contract_version) in
    let seeded = stable_hash64_combine version (to_string cfg.global_seed) in
    let counted = stable_hash64_combine seeded (to_string stats.num_points) in
    to_string (stable_hash64_combine counted (to_string stats.num_deleted))

abbrev pub index_name : IndexType → Bytes
index_name hnsw = codes "hnsw"
index_name ivf_flat = codes "ivf_flat"
index_name ivf_sq8 = codes "ivf_sq8"
index_name flat = codes "flat"

-- What is told of the i-th result, and of those from it on.
abbrev pub detail : ℕ → ResultItem → ResultExplain
detail i item = record {
  vector_score_raw = sanitize_score item.score;
  vector_score_normed = sanitize_score item.score;
  keyword_score_raw = zero_float;
  keyword_score_normed = zero_float;
  fusion_method = codes "exact_rerank";
  final_score = sanitize_score item.score;
  rank_before_fusion = i + 1;
  rank_after_fusion = i + 1;
}

unfoldable pub details : ℕ → List ResultItem → List ResultExplain
details i [] = []
details i (item ∷ items) = detail i item ∷ details (i + 1) items

module _ (m : Arithmetic) (kernel : List Float → List Float → Float) {I : Type 0}
    (ops : Index I) where
  unfoldable pub explain :
      Impl I → VectorView → QueryOptions → QueryPolicy → List ResultItem → QueryExplain
  unfolding hash_query compute_snapshot_id details
  explain e q opt policy results =
      let topk = effective_topk e opt in
      let wanted = if policy.max_candidates == 0 then topk * 4 else policy.max_candidates in
      record {
        query_id = hash_query (stable_hash64 (codes "query")) [] q topk opt.filter;
        global_seed = e.cfg.global_seed;
        contract_version = e.cfg.contract_version;
        snapshot_id = compute_snapshot_id e.cfg (get_stats ops (some e));
        execution_plan =
            record {
              name = codes "canonical_search";
              index = index_name e.cfg.index_type;
              ef_search = 0;
              nprobe = 0;
              max_candidates = max topk (min wanted 2000);
              candidates_out = length results;
            }
            ∷ [];
        result_details = details 0 results;
      }

  abbrev pub response :
      Impl I
      → VectorView
      → QueryOptions
      → QueryPolicy
      → StatusOr (List ResultItem)
      → StatusOr SearchResponse
  response e q opt policy (error s) = error s
  response e q opt policy (value results) =
      value (record { results = results; explain = explain e q opt policy results })

  unfoldable pub search_with_explain :
      Engine I
      → ℕ
      → ℕ
      → VectorView
      → QueryOptions
      → QueryPolicy
      → Engine I × StatusOr SearchResponse
  unfolding explain
  search_with_explain none now latency q opt policy = (none, error not_initialized)
  search_with_explain (some e) now latency q opt policy =
      let (after, result) = search m kernel ops (some e) now latency q opt in
      if effective_topk e opt == 0
      then (some e, error (status invalid_argument "topk must be positive"))
      else (after, response e q opt policy result)

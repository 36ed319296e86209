-- ===== src/Types.antt =====
-- include/pomai_search/types.h: the configuration, filters, results and expiry times. A time point
-- or a duration is a number of ticks of the system clock, and "now" is an argument.
use pomaisearch.Base.{ℕ, ◌+◌, Bool, true, false, ◌&&◌, List, Option, none, some, leb}
use pomaisearch.Base.Bytes.{Bytes, bytes_eq, codes}
use pomaisearch.Base.Maps.{bytes_key, find}
use pomaisearch.Float.{Float}

abbrev pub Metadata : Type 0
Metadata = List (Bytes × Bytes)

-- `VectorView`: the data, with `none` for a null pointer, and the dimension, which a caller states.
pub record VectorView : Type 0 where
  pub elements : Option (List Float)
  pub dim : ℕ

pub record Filter : Type 0 where
  pub tag : Option Bytes
  pub source : Option Bytes
  pub lang : Option Bytes

pub record ResultItem : Type 0 where
  pub key : Bytes
  pub score : Float
  pub meta : Metadata
  pub internal_id : ℕ

pub data Similarity : Type 0 where
  dot cosine : Similarity

pub data IndexType : Type 0 where
  flat hnsw ivf_flat ivf_sq8 : IndexType

-- The counts are `int` in the source; a count that is not positive is 0 here.
pub record SearchEngineConfig : Type 0 where
  pub dim : ℕ
  pub num_shards : ℕ
  pub similarity : Similarity
  pub topk_default : ℕ
  pub max_points_per_shard : ℕ
  pub enable_avx2 : Bool
  pub query_threads : ℕ
  pub ingest_threads : ℕ
  pub memory_alignment : ℕ
  pub index_type : IndexType
  pub hnsw_m : ℕ
  pub hnsw_ef_construction : ℕ
  pub hnsw_ef_search : ℕ
  pub hnsw_seed : ℕ
  pub ivf_nlist : ℕ
  pub ivf_nprobe : ℕ
  pub max_candidates : ℕ
  pub rerank_factor : ℕ
  pub global_seed : ℕ
  pub contract_version : ℕ

-- The default member initializers.
abbrev pub default_config : SearchEngineConfig
default_config = record {
  dim = 0;
  num_shards = 1;
  similarity = dot;
  topk_default = 10;
  max_points_per_shard = 0;
  enable_avx2 = true;
  query_threads = 0;
  ingest_threads = 0;
  memory_alignment = 32;
  index_type = flat;
  hnsw_m = 16;
  hnsw_ef_construction = 200;
  hnsw_ef_search = 50;
  hnsw_seed = 42;
  ivf_nlist = 100;
  ivf_nprobe = 10;
  max_candidates = 2000;
  rerank_factor = 4;
  global_seed = 0;
  contract_version = 3;
}

-- One `if` of `MetadataFilterMatch`: the field is not asked for, or the candidate has it.
field_match : Bytes → Option Bytes → Metadata → Bool
field_match name none candidate = true
field_match name (some wanted) candidate = elim (find name candidate) [
  | none ↦ false
  | some v ↦ bytes_eq v wanted
]

unfoldable pub metadata_filter_match : Filter → Metadata → Bool
unfolding field_match
metadata_filter_match filter candidate =
    field_match (codes "tag") filter.tag candidate
    && field_match (codes "source") filter.source candidate
    && field_match (codes "lang") filter.lang candidate

unfoldable pub compute_expiry : ℕ → Option ℕ → Option ℕ
compute_expiry now none = none
compute_expiry now (some ttl) = some (now + ttl)

unfoldable pub is_expired : ℕ → Option ℕ → Bool
is_expired now none = false
is_expired now (some expiry) = leb expiry now

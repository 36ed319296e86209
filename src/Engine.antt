-- ===== src/Engine.antt =====
-- src/search_engine.cc: the engine, which spreads the keys over its shards. `none` for the state is
-- the engine before `Initialize` and after `Close`. The searches visit the shards in order; with a
-- query pool the results are collected in the same order, so the results are the same.
pub mod Search
pub mod Merged
pub mod Explain
pub mod Explained
pub mod Fusion
pub mod Stages
pub mod Combined
pub mod Scored
pub mod Fused
mod Examples
use pomaisearch.Base.{
  ℕ, zero, suc, ◌+◌, ◌%◌, Bool, true, false, ◌||◌, List, [], ◌∷◌, map, Option, none, some, ltb,
  ◌==◌, if◌then◌else◌, length, get_elem?, set, replicate,
}
use pomaisearch.Base.Bytes.{Bytes}
use pomaisearch.Float.{Float, Arithmetic}
use pomaisearch.Status.{
  Status, StatusOr, value, error, ok_status, status, invalid_argument, internal,
}
use pomaisearch.Types.{Metadata, VectorView, Filter, SearchEngineConfig, compute_expiry}
use pomaisearch.Hash.{stable_hash64}
use pomaisearch.Metrics.{Metrics}
use pomaisearch.Metrics
use pomaisearch.VectorStore
use pomaisearch.Index.{Index, IndexStats}
use pomaisearch.Shard.{Shard}
use pomaisearch.Shard
use pomaisearch.Shard.Write
use pomaisearch.Shard.Write.{Entry}
use pomaisearch.Shard.Read

-- `SearchEngine::Impl`, without its thread pools.
pub record Impl (I : Type 0) : Type 0 where
  pub cfg : SearchEngineConfig
  pub shards : List (Shard I)
  pub metrics : Metrics

abbrev pub Engine : Type 0 → Type 0
Engine I = Option (Impl I)

abbrev pub not_initialized : Status
not_initialized = status internal "engine not initialized"

-- `Open` and `Initialize`; the shards are made alike.
unfoldable pub initialize : {I : Type 0} → SearchEngineConfig → ℕ → I → StatusOr (Impl I)
initialize cfg alignment index =
    if cfg.dim == 0 || cfg.num_shards == 0
    then error (status invalid_argument "invalid config")
    else value (record {
      cfg = cfg;
      shards = replicate cfg.num_shards (Shard.init cfg alignment index);
      metrics = Metrics.init;
    })

unfoldable pub shard_index : {I : Type 0} → Impl I → Bytes → ℕ
shard_index e key = stable_hash64 key % length e.shards

-- A call of one shard that changes it. There always is such a shard, since there is at least one.
pub at_shard : {I : Type 0} → Impl I → ℕ → (Shard I → Shard I × Status) → Impl I × Status
at_shard e i call = elim (get_elem? e.shards i) [
  | none ↦ (e, not_initialized)
  | some s ↦ let (t, result) = call s in (record e { shards = set e.shards i t }, result)
]

unfoldable pub from_shard {ℓ} :
    {I : Type 0} {A : Type ℓ} → Impl I → ℕ → (Shard I → StatusOr A) → StatusOr A
from_shard e i call = elim (get_elem? e.shards i) [ none ↦ error not_initialized | some s ↦ call s ]

abbrev pub lift : {I : Type 0} → Impl I × Status → Engine I × Status
lift (e, result) = (some e, result)

module _ (m : Arithmetic) (kernel : List Float → List Float → Float) {I : Type 0}
    (ops : Index I) where
  unfoldable pub upsert :
      Engine I → ℕ → Bytes → VectorView → Metadata → Option ℕ → Option Bytes → Engine I × Status
  unfolding at_shard shard_index
  upsert none now key vec meta ttl text = (none, not_initialized)
  upsert (some e) now key vec meta ttl text =
      let entry : Entry = record { meta = meta; expiry = compute_expiry now ttl; text = text } in
      lift (
        at_shard (record e { metrics = Metrics.increment_upserts e.metrics }) (shard_index e key)
          (λ s. Write.upsert m kernel ops s now key vec entry))

  -- `none` is a call of the shard that does not return.
  unfoldable pub delete : Engine I → ℕ → Bytes → Option (Engine I × Status)
  unfolding shard_index
  delete none now key = some (none, not_initialized)
  delete (some e) now key =
      let counted : Impl I = record e { metrics = Metrics.increment_deletes e.metrics } in
      let i = shard_index e key in
      elim (get_elem? e.shards i) [
        | none ↦ some (some counted, not_initialized)
        | some s ↦ elim (Write.delete ops s now key) [
          | none ↦ none
          | some (t, result) ↦ some (some (record counted { shards = set e.shards i t }), result)
        ]
      ]

module _ {I : Type 0} where
  unfoldable pub exists : Engine I → ℕ → Bytes → StatusOr Bool
  unfolding from_shard shard_index
  exists none now key = error not_initialized
  exists (some e) now key = from_shard e (shard_index e key) (λ s. Read.exists s now key)

  unfoldable pub get_vector : Engine I → ℕ → Bytes → StatusOr (List Float)
  unfolding from_shard shard_index
  get_vector none now key = error not_initialized
  get_vector (some e) now key =
      from_shard e (shard_index e key) (λ s. Read.get_vector_copy s now key)

  unfoldable pub dim : Engine I → ℕ
  dim none = 0
  dim (some e) = e.cfg.dim

  unfoldable pub close : Engine I → Engine I × Status
  close e = (none, ok_status)

module _ {I : Type 0} (ops : Index I) where
  add_stats : IndexStats → IndexStats → IndexStats
  add_stats a b = record {
    num_points = a.num_points + b.num_points;
    num_deleted = a.num_deleted + b.num_deleted;
  }

  shard_stats : IndexStats → List (Shard I) → IndexStats
  unfolding add_stats
  shard_stats stats [] = stats
  shard_stats stats (s ∷ shards) = shard_stats (add_stats stats (ops.get_stats s.index)) shards

  unfoldable pub get_stats : Engine I → IndexStats
  unfolding shard_stats
  get_stats none = record { num_points = 0; num_deleted = 0 }
  get_stats (some e) = shard_stats (record { num_points = 0; num_deleted = 0 }) e.shards

-- `MemoryStats`: the counts of the stores, summed.
memory_stats : {I : Type 0} → VectorStore.Stats → List (Shard I) → VectorStore.Stats
memory_stats t [] = t
memory_stats t (s ∷ shards) =
    let u = VectorStore.get_stats s.store in
    memory_stats
      (record {
        live_vectors = t.live_vectors + u.live_vectors;
        total_vectors = t.total_vectors + u.total_vectors;
        free_vectors = t.free_vectors + u.free_vectors;
        num_blocks = t.num_blocks + u.num_blocks;
        bytes_allocated = t.bytes_allocated + u.bytes_allocated;
      })
      shards

abbrev no_memory : VectorStore.Stats
no_memory = record {
  live_vectors = 0;
  total_vectors = 0;
  free_vectors = 0;
  num_blocks = 0;
  bytes_allocated = 0;
}

unfoldable pub get_memory_stats : {I : Type 0} → Engine I → VectorStore.Stats
unfolding memory_stats
get_memory_stats none = no_memory
get_memory_stats (some e) = memory_stats no_memory e.shards

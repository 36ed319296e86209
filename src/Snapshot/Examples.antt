-- ===== src/Snapshot/Examples.antt =====
-- The theorems on snapshots at an engine with one shard.
use pomaisearch.Base.{
  ◌^◌, ◌<◌, ◌≡◌, refl, [], ◌∷◌, ◌++◌, ◌↔◌, some, Bool, true, ◌&&◌, ltb, arith, length, take,
}
use pomaisearch.Base.All.{All}
use pomaisearch.Base.Bytes.{Bytes}
use pomaisearch.Status.{Status, StatusOr, value, error}
use pomaisearch.Types.{SearchEngineConfig}
use pomaisearch.FlatIndex
use pomaisearch.FlatIndex.{FlatIndex}
use pomaisearch.FlatIndex.Saving.Loaded.{flat_file, IsReloaded}
use pomaisearch.Metrics
use pomaisearch.Float.{dot_scalar}
use pomaisearch.Hash.{stable_hash64, stable_hash64_combine, stable_hash64_bytes}
use pomaisearch.Base.Bytes.{to_string, bytes_eq}
use pomaisearch.Base.Maps.{find, emplace}
use pomaisearch.File.{put, put_list, put_string, le_bytes, float_bytes}
use pomaisearch.File.Maps.{put_map}
use pomaisearch.VectorStore
use pomaisearch.VectorStore.Saving as StoreSaving
use pomaisearch.KeywordIndex
use pomaisearch.KeywordIndex.Saving as KeywordSaving
use pomaisearch.FlatIndex.{flat_index}
use pomaisearch.FlatIndex.Saving as IndexSaving
use pomaisearch.Shard.{init, prepare, purge_expired}
use pomaisearch.Shard.Write.{upsert, upsert_purged, upsert_new}
use pomaisearch.Shard.Saving as ShardSaving
use pomaisearch.Shard.Saving.Examples.{
  config, store, one_doc, one_doc-IsValid, store_example, store-IsSavable, one_doc-FitsFile,
  index-IsReadBack,
}
use pomaisearch.Engine.{Impl}
use pomaisearch.Snapshot.{
  write, read, read_header, put_header, put_config, snapshot_seed, magic, seal, patch,
}
use pomaisearch.Snapshot.Checksum.{checksum, crc32_update, checksum_lem}
use pomaisearch.Snapshot.Config.{FitsFile, saved_config}
use pomaisearch.Snapshot.Header.{encode_header}
use pomaisearch.Snapshot.Shards.{IsReady}
use pomaisearch.Snapshot.Restored.{IsRestored, read-write}
use pomaisearch.Snapshot.Accepted.{read_header_iff, read-take}

abbrev make : SearchEngineConfig → FlatIndex
make cfg = FlatIndex.init cfg.dim cfg.similarity cfg.max_points_per_shard

abbrev engine : Impl FlatIndex
engine = record { cfg = config; shards = one_doc ∷ []; metrics = Metrics.init }

config-FitsFile : FitsFile config
config-FitsFile = record {
  dim = omega arith;
  num_shards = omega arith;
  topk_default = omega arith;
  max_points_per_shard = omega arith;
  query_threads = omega arith;
  ingest_threads = omega arith;
  memory_alignment = omega arith;
  hnsw_m = omega arith;
  hnsw_ef_construction = omega arith;
  hnsw_ef_search = omega arith;
  hnsw_seed = omega arith;
  global_seed = omega arith;
  contract_version = omega arith;
}

store_dim : store.dim ≡ config.dim
unfolding VectorStore.insert VectorStore.init init
store_dim = refl

one_doc-IsReady : IsReady flat_file make (λ x y. IsReloaded x y) config one_doc
one_doc-IsReady = record {
  valid = one_doc-IsValid;
  savable = rw store_example store-IsSavable;
  fits = one_doc-FitsFile;
  same_dim = rw store_example store_dim;
  index = index-IsReadBack (make (saved_config config));
}

abbrev contents_of : StatusOr Bytes → Bytes
contents_of (value bytes) = bytes
contents_of (error s) = []

abbrev snapshot : Bytes
snapshot = contents_of (write flat_file engine 1000)

write_example : write flat_file engine 1000 ≡ value snapshot
unfolding KeywordIndex.upsert upsert upsert_purged upsert_new init prepare purge_expired find
    bytes_eq emplace flat_index FlatIndex.upsert FlatIndex.init VectorStore.insert VectorStore.init
    VectorStore.take_slot VectorStore.grow_live VectorStore.mark_live VectorStore.write_slot
    VectorStore.ensure_block VectorStore.new_block VectorStore.get ShardSaving.save
    ShardSaving.put_doc ShardSaving.put_key ShardSaving.put_option ShardSaving.put_pair put put_map
    put_list put_string le_bytes float_bytes StoreSaving.save StoreSaving.save_slots
    IndexSaving.save IndexSaving.put_item KeywordSaving.save write put_header put_config
    snapshot_seed stable_hash64 stable_hash64_combine stable_hash64_bytes to_string magic seal patch
    checksum crc32_update dot_scalar
write_example = refl

size_example : length snapshot ≡ 309
unfolding KeywordIndex.upsert upsert upsert_purged upsert_new init prepare purge_expired find
    bytes_eq emplace flat_index FlatIndex.upsert FlatIndex.init VectorStore.insert VectorStore.init
    VectorStore.take_slot VectorStore.grow_live VectorStore.mark_live VectorStore.write_slot
    VectorStore.ensure_block VectorStore.new_block VectorStore.get ShardSaving.save
    ShardSaving.put_doc ShardSaving.put_key ShardSaving.put_option ShardSaving.put_pair put put_map
    put_list put_string le_bytes float_bytes StoreSaving.save StoreSaving.save_slots
    IndexSaving.save IndexSaving.put_item KeywordSaving.save write put_header put_config
    snapshot_seed stable_hash64 stable_hash64_combine stable_hash64_bytes to_string magic seal patch
    checksum crc32_update dot_scalar
size_example = refl

read-write_example :
    (u : Impl FlatIndex) × (read flat_file make 7 snapshot ≡ value u)
    × IsRestored flat_file make (λ x y. IsReloaded x y) engine u
read-write_example =
    read-write flat_file make (λ x y. IsReloaded x y) engine 1000 7 (omega arith) (omega arith) refl
      config-FitsFile (one_doc-IsReady, tt) (omega (arith, size_example)) write_example

abbrev are_bytes : Bytes → Bool
are_bytes [] = true
are_bytes (b ∷ bytes) = ltb b 256 && are_bytes bytes

All-are_bytes : (bytes : Bytes) → are_bytes bytes ≡ true → All (λ b. b < 256) bytes
All-are_bytes [] h = tt
All-are_bytes (b ∷ bytes) h = (ground (arith, h), All-are_bytes bytes (ground (arith, h)))

bytes_example : are_bytes snapshot ≡ true
unfolding KeywordIndex.upsert upsert upsert_purged upsert_new init prepare purge_expired find
    bytes_eq emplace flat_index FlatIndex.upsert FlatIndex.init VectorStore.insert VectorStore.init
    VectorStore.take_slot VectorStore.grow_live VectorStore.mark_live VectorStore.write_slot
    VectorStore.ensure_block VectorStore.new_block VectorStore.get ShardSaving.save
    ShardSaving.put_doc ShardSaving.put_key ShardSaving.put_option ShardSaving.put_pair put put_map
    put_list put_string le_bytes float_bytes StoreSaving.save StoreSaving.save_slots
    IndexSaving.save IndexSaving.put_item KeywordSaving.save write put_header put_config
    snapshot_seed stable_hash64 stable_hash64_combine stable_hash64_bytes to_string magic seal patch
    checksum crc32_update dot_scalar
bytes_example = refl

read-take_example : (s : Status) × (read flat_file make 7 (take 300 snapshot) ≡ error s)
read-take_example =
    read-take flat_file make snapshot 7 300 (All-are_bytes snapshot bytes_example)
      (omega (arith, size_example)) read-write_example.1

abbrev small_file : Bytes
small_file = encode_header 2 (crc32_update 0 (7 ∷ 9 ∷ [])) ++ 7 ∷ 9 ∷ []

small_bytes : are_bytes small_file ≡ true
unfolding encode_header magic le_bytes crc32_update
small_bytes = refl

read_header_iff_example :
    (read_header small_file ≡ value (7 ∷ 9 ∷ []))
    ↔ ((small_file ≡ encode_header 2 (crc32_update 0 (7 ∷ 9 ∷ [])) ++ 7 ∷ 9 ∷ []) × (2 < 2 ^ 64))
read_header_iff_example =
    read_header_iff small_file (7 ∷ 9 ∷ []) (All-are_bytes small_file small_bytes)

checksum_lem_example : checksum 3 0 (7 ∷ 8 ∷ 9 ∷ []) ≡ some (crc32_update 0 (7 ∷ 8 ∷ 9 ∷ []))
checksum_lem_example = checksum_lem 3 0 (7 ∷ 8 ∷ 9 ∷ []) (omega arith)

-- ===== src/Snapshot/Config.antt =====
-- The configuration in a snapshot.
use pomaisearch.Base.{ℕ, ◌^◌, ◌<◌, ◌≡◌, refl, ap, true, ◌++◌, arith, ltb}
use mathlib.Core.List.{append_assoc}
use pomaisearch.Base.Bytes.{Bytes}
use pomaisearch.Status.{value}
use pomaisearch.File.{File, put, le_bytes, of_bool}
use pomaisearch.File.Laws.{put-put, fread_le-le_bytes, to_bool-of_bool, of_bool-lt}
use pomaisearch.Types.{
  Similarity, dot, cosine, IndexType, flat, hnsw, ivf_flat, ivf_sq8, SearchEngineConfig,
  default_config,
}
use pomaisearch.Hash.{stable_hash64-lt, stable_hash64_combine-lt}
use pomaisearch.Snapshot.{
  snapshot_seed, similarity_code, index_code, to_similarity, to_index_type, put_config, or_invalid,
  get_field, get_int, get_config,
}

pub encode_config : SearchEngineConfig → Bytes
encode_config cfg =
    le_bytes 8 (snapshot_seed cfg)
    ++ le_bytes 4 cfg.dim
    ++ le_bytes 4 cfg.num_shards
    ++ le_bytes 4 cfg.topk_default
    ++ le_bytes 8 cfg.max_points_per_shard
    ++ le_bytes 1 (of_bool cfg.enable_avx2)
    ++ le_bytes 4 cfg.query_threads
    ++ le_bytes 4 cfg.ingest_threads
    ++ le_bytes 8 cfg.memory_alignment
    ++ le_bytes 4 cfg.hnsw_m
    ++ le_bytes 4 cfg.hnsw_ef_construction
    ++ le_bytes 4 cfg.hnsw_ef_search
    ++ le_bytes 4 cfg.hnsw_seed
    ++ le_bytes 8 cfg.global_seed
    ++ le_bytes 4 cfg.contract_version
    ++ le_bytes 4 (similarity_code cfg.similarity)
    ++ le_bytes 4 (index_code cfg.index_type)

pub put_config-put :
    (cfg : SearchEngineConfig) (f : File) → put_config cfg f ≡ put (encode_config cfg) f
unfolding put_config encode_config
put_config-put cfg f = simp put-put

-- The numbers of a configuration in their types.
pub record FitsFile (cfg : SearchEngineConfig) : Type 0 where
  pub dim : cfg.dim < 2 ^ 31
  pub num_shards : cfg.num_shards < 2 ^ 31
  pub topk_default : cfg.topk_default < 2 ^ 31
  pub max_points_per_shard : cfg.max_points_per_shard < 2 ^ 64
  pub query_threads : cfg.query_threads < 2 ^ 31
  pub ingest_threads : cfg.ingest_threads < 2 ^ 31
  pub memory_alignment : cfg.memory_alignment < 2 ^ 64
  pub hnsw_m : cfg.hnsw_m < 2 ^ 31
  pub hnsw_ef_construction : cfg.hnsw_ef_construction < 2 ^ 31
  pub hnsw_ef_search : cfg.hnsw_ef_search < 2 ^ 31
  pub hnsw_seed : cfg.hnsw_seed < 2 ^ 32
  pub global_seed : cfg.global_seed < 2 ^ 64
  pub contract_version : cfg.contract_version < 2 ^ 32

-- The configuration that is read back: four fields are not in the file.
unfoldable pub saved_config : SearchEngineConfig → SearchEngineConfig
saved_config cfg = record cfg {
  ivf_nlist = default_config.ivf_nlist;
  ivf_nprobe = default_config.ivf_nprobe;
  max_candidates = default_config.max_candidates;
  rerank_factor = default_config.rerank_factor;
}

get_int-le_bytes :
    (n : ℕ) (rest : Bytes) → n < 2 ^ 31 → get_int (le_bytes 4 n ++ rest) ≡ value (n, rest)
unfolding get_int
get_int-le_bytes n rest h =
    let small : ltb n (2 ^ 31) ≡ true = ground (arith, h) in
    rw (fread_le-le_bytes 4 n rest (omega arith)) (rw small refl)

get_field-le_bytes :
    (w n : ℕ) (rest : Bytes) → n < 256 ^ w → get_field w (le_bytes w n ++ rest) ≡ value (n, rest)
get_field-le_bytes w n rest h = ap (or_invalid "invalid snapshot") (fread_le-le_bytes w n rest h)

to_similarity-similarity_code : (s : Similarity) → to_similarity (similarity_code s) ≡ s
to_similarity-similarity_code dot = refl
to_similarity-similarity_code cosine = refl

similarity_code-lt : (s : Similarity) → similarity_code s < 2
similarity_code-lt dot = omega arith
similarity_code-lt cosine = omega arith

to_index_type-index_code : (t : IndexType) → to_index_type (index_code t) ≡ t
to_index_type-index_code flat = refl
to_index_type-index_code hnsw = refl
to_index_type-index_code ivf_flat = refl
to_index_type-index_code ivf_sq8 = refl

index_code-lt : (t : IndexType) → index_code t < 4
index_code-lt flat = omega arith
index_code-lt hnsw = omega arith
index_code-lt ivf_flat = omega arith
index_code-lt ivf_sq8 = omega arith

snapshot_seed-lt : (cfg : SearchEngineConfig) → snapshot_seed cfg < 2 ^ 64
unfolding snapshot_seed
snapshot_seed-lt cfg =
    stable_hash64_combine-lt _ _
      (stable_hash64_combine-lt _ _ (stable_hash64_combine-lt _ _ (stable_hash64-lt _)))

pub get_config-encode_config :
    (cfg : SearchEngineConfig) (rest : Bytes)
    → FitsFile cfg
    → get_config (encode_config cfg ++ rest) ≡ value ((snapshot_seed cfg, saved_config cfg), rest)
unfolding get_config encode_config saved_config
get_config-encode_config cfg rest w = simp append_assoc (
    rw (get_field-le_bytes 8 (snapshot_seed cfg) _ (omega (arith, snapshot_seed-lt cfg))) (
      rw (get_int-le_bytes cfg.dim _ w.dim) (
        rw (get_int-le_bytes cfg.num_shards _ w.num_shards) (
          rw (get_int-le_bytes cfg.topk_default _ w.topk_default) (
            rw
              (get_field-le_bytes 8 cfg.max_points_per_shard _
                (omega (arith, w.max_points_per_shard)))
              (rw
                (get_field-le_bytes 1 (of_bool cfg.enable_avx2) _
                  (omega (arith, of_bool-lt cfg.enable_avx2)))
                (rw (get_int-le_bytes cfg.query_threads _ w.query_threads) (
                  rw (get_int-le_bytes cfg.ingest_threads _ w.ingest_threads) (
                    rw
                      (get_field-le_bytes 8 cfg.memory_alignment _
                        (omega (arith, w.memory_alignment)))
                      (rw (get_int-le_bytes cfg.hnsw_m _ w.hnsw_m) (
                        rw (get_int-le_bytes cfg.hnsw_ef_construction _ w.hnsw_ef_construction) (
                          rw (get_int-le_bytes cfg.hnsw_ef_search _ w.hnsw_ef_search) (
                            rw (get_field-le_bytes 4 cfg.hnsw_seed _ (omega (arith, w.hnsw_seed))) (
                              rw
                                (get_field-le_bytes 8 cfg.global_seed _
                                  (omega (arith, w.global_seed)))
                                (rw
                                  (get_field-le_bytes 4 cfg.contract_version _
                                    (omega (arith, w.contract_version)))
                                  (rw
                                    (get_field-le_bytes 4 (similarity_code cfg.similarity) _
                                      (omega (arith, similarity_code-lt cfg.similarity)))
                                    (rw
                                      (get_field-le_bytes 4 (index_code cfg.index_type) rest
                                        (omega (arith, index_code-lt cfg.index_type)))
                                      (rw (to_bool-of_bool cfg.enable_avx2) (
                                        rw (to_similarity-similarity_code cfg.similarity) (
                                          rw (to_index_type-index_code cfg.index_type)
                                            refl))))))))))))))))))))

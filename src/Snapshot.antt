-- ===== src/Snapshot.antt =====
-- core/serialize/snapshot.cc: an engine in a file. Opening, seeking, flushing and renaming the file
-- succeed here; logging is left out. The reader makes the index of each shard from the configuration.
pub mod Checksum
pub mod Header
pub mod Accepted
pub mod Config
pub mod Shards
pub mod Restored
mod Examples
use pomaisearch.Base.{
  ℕ, ◌+◌, ◌-◌, ◌^◌, Bool, true, false, List, [], ◌∷◌, ◌++◌, Option, none, some, String, ltb, leb,
  ◌==◌, if◌then◌else◌, length, take, drop,
}
use pomaisearch.Base.Bytes.{Bytes, codes, bytes_eq, to_string}
use pomaisearch.Status.{
  Status, StatusOr, value, error, status, internal, invalid_argument, ensure, ◌>>=◌,
}
use pomaisearch.File.{
  File, put, put_le, put_list, le_bytes, fread_le, fread_bytes, of_bool, to_bool,
}
use pomaisearch.Types.{
  Similarity, dot, cosine, IndexType, flat, hnsw, ivf_flat, ivf_sq8, SearchEngineConfig,
  default_config,
}
use pomaisearch.Hash.{stable_hash64, stable_hash64_combine}
use pomaisearch.Index.{IndexFile}
use pomaisearch.Shard.{Shard}
use pomaisearch.Shard.Saving as ShardSaving
use pomaisearch.Engine.{Impl, initialize}
use pomaisearch.Snapshot.Checksum.{checksum}

-- `kMagic`, with the null at its end, and the other constants.
unfoldable pub magic : Bytes
magic = codes "POMAI_SNAP" ++ 0 ∷ []

abbrev pub snapshot_version : ℕ
snapshot_version = 3

-- 11 + 4 + 8 + 4 bytes.
abbrev pub header_size : ℕ
header_size = 27

unfoldable pub snapshot_seed : SearchEngineConfig → ℕ
snapshot_seed cfg =
    let seed =
      stable_hash64_combine (stable_hash64 (codes "snapshot")) (to_string cfg.contract_version) in
    stable_hash64_combine (stable_hash64_combine seed (to_string cfg.global_seed))
      (to_string cfg.dim)

abbrev pub similarity_code : Similarity → ℕ
similarity_code dot = 0
similarity_code cosine = 1

abbrev pub index_code : IndexType → ℕ
index_code flat = 0
index_code hnsw = 1
index_code ivf_flat = 2
index_code ivf_sq8 = 3

-- The casts back. The program asks for each value but the first by name, and takes what is none of
-- them like the first.
abbrev pub to_similarity : ℕ → Similarity
to_similarity n = if n == 1 then cosine else dot

abbrev pub to_index_type : ℕ → IndexType
to_index_type n =
    if n == 1 then hnsw else if n == 2 then ivf_flat else if n == 3 then ivf_sq8 else flat

unfoldable pub put_config : SearchEngineConfig → File → StatusOr File
put_config cfg f =
    put_le 8 (snapshot_seed cfg) f
    >>= put_le 4 cfg.dim
    >>= put_le 4 cfg.num_shards
    >>= put_le 4 cfg.topk_default
    >>= put_le 8 cfg.max_points_per_shard
    >>= put_le 1 (of_bool cfg.enable_avx2)
    >>= put_le 4 cfg.query_threads
    >>= put_le 4 cfg.ingest_threads
    >>= put_le 8 cfg.memory_alignment
    >>= put_le 4 cfg.hnsw_m
    >>= put_le 4 cfg.hnsw_ef_construction
    >>= put_le 4 cfg.hnsw_ef_search
    >>= put_le 4 cfg.hnsw_seed
    >>= put_le 8 cfg.global_seed
    >>= put_le 4 cfg.contract_version
    >>= put_le 4 (similarity_code cfg.similarity)
    >>= put_le 4 (index_code cfg.index_type)

unfoldable pub put_header : ℕ → ℕ → File → StatusOr File
put_header payload_size payload_crc f =
    put magic f >>= put_le 4 snapshot_version >>= put_le 8 payload_size >>= put_le 4 payload_crc

-- The size and the checksum, written into the header over the two zeros.
unfoldable pub patch : ℕ → ℕ → Bytes → Bytes
patch payload_size payload_crc contents =
    take 15 contents
    ++ le_bytes 8 payload_size
    ++ le_bytes 4 payload_crc
    ++ drop header_size contents

-- From `ftell` on: the payload is read for its checksum.
unfoldable pub seal : Bytes → StatusOr Bytes
unfolding patch
seal contents =
    let payload = drop header_size contents in
    ensure (leb header_size (length contents)) (status internal "snapshot too small") >>= λ _.
    elim (checksum (length payload) 0 payload) [
      | none ↦ error (status internal "snapshot checksum read failed")
      | some crc ↦ value (patch (length contents - header_size) crc contents)
    ]

abbrev pub invalid_snapshot {ℓ} : {A : Type ℓ} → String → StatusOr A
invalid_snapshot message = error (status invalid_argument message)

-- `if (!ReadValue(…)) return Status(kInvalidArgument, message);`
abbrev pub or_invalid {ℓ} : {A : Type ℓ} → String → Option A → StatusOr A
or_invalid message none = invalid_snapshot message
or_invalid message (some a) = value a

abbrev pub get_field : ℕ → Bytes → StatusOr (ℕ × Bytes)
get_field w bytes = or_invalid "invalid snapshot" (fread_le w bytes)

-- An `int`: a negative one counts as 0, as everywhere in a configuration.
unfoldable pub get_int : Bytes → StatusOr (ℕ × Bytes)
get_int bytes = get_field 4 bytes >>= λ (n, rest). value (if ltb n (2 ^ 31) then n else 0, rest)

-- The seed, and the configuration that is in the file; the other fields are the default ones.
unfoldable pub get_config : Bytes → StatusOr ((ℕ × SearchEngineConfig) × Bytes)
unfolding get_int
get_config bytes = do
  (seed, b1) ← get_field 8 bytes
  (dim, b2) ← get_int b1
  (num_shards, b3) ← get_int b2
  (topk_default, b4) ← get_int b3
  (max_points_per_shard, b5) ← get_field 8 b4
  (enable_avx2, b6) ← get_field 1 b5
  (query_threads, b7) ← get_int b6
  (ingest_threads, b8) ← get_int b7
  (memory_alignment, b9) ← get_field 8 b8
  (hnsw_m, b10) ← get_int b9
  (hnsw_ef_construction, b11) ← get_int b10
  (hnsw_ef_search, b12) ← get_int b11
  (hnsw_seed, b13) ← get_field 4 b12
  (global_seed, b14) ← get_field 8 b13
  (contract_version, b15) ← get_field 4 b14
  (similarity, b16) ← get_field 4 b15
  (index_type, rest) ← get_field 4 b16
  value (
    (
      seed,
      record default_config {
        dim = dim;
        num_shards = num_shards;
        similarity = to_similarity similarity;
        topk_default = topk_default;
        max_points_per_shard = max_points_per_shard;
        enable_avx2 = to_bool enable_avx2;
        query_threads = query_threads;
        ingest_threads = ingest_threads;
        memory_alignment = memory_alignment;
        index_type = to_index_type index_type;
        hnsw_m = hnsw_m;
        hnsw_ef_construction = hnsw_ef_construction;
        hnsw_ef_search = hnsw_ef_search;
        hnsw_seed = hnsw_seed;
        global_seed = global_seed;
        contract_version = contract_version;
      },
    ),
    rest,
  )

-- The checks up to the checksum. What remains is the payload.
unfoldable pub read_header : Bytes → StatusOr Bytes
read_header bytes = do
  (found, b1) ← or_invalid "invalid snapshot header" (fread_bytes (length magic) bytes)
  _ ← ensure (bytes_eq found magic) (status invalid_argument "invalid snapshot header")
  (version, b2) ← or_invalid "unsupported snapshot version" (fread_le 4 b1)
  _ ← ensure (version == snapshot_version) (status invalid_argument "unsupported snapshot version")
  (payload_size, b3) ← or_invalid "invalid snapshot header" (fread_le 8 b2)
  (payload_crc, payload) ← or_invalid "invalid snapshot header" (fread_le 4 b3)
  _ ← ensure (leb header_size (length bytes)) (status invalid_argument "invalid snapshot size")
  _ ←
      ensure (length bytes - header_size == payload_size)
        (status invalid_argument "snapshot size mismatch")
  computed_crc ← or_invalid "snapshot checksum mismatch" (checksum (length payload) 0 payload)
  _ ← ensure (computed_crc == payload_crc) (status invalid_argument "snapshot checksum mismatch")
  value payload

module _ {I : Type 0} (files : IndexFile I) where
  -- `SnapshotWriter::Write` into an empty temporary file.
  unfoldable pub write : Impl I → ℕ → StatusOr Bytes
  unfolding put_header put_config seal
  write e room = do
    headed ← put_header 0 0 (record { contents = []; room = room })
    configured ← put_config e.cfg headed
    out ← put_list (ShardSaving.save files) e.shards configured
    seal out.contents

  -- `shard->Load(in)` of one shard after the other.
  unfoldable pub load_shards : List (Shard I) → ℕ → Bytes → StatusOr (List (Shard I))
  load_shards [] now bytes = value []
  load_shards (s ∷ shards) now bytes = do
    (loaded, rest) ← ShardSaving.load files s now bytes
    others ← load_shards shards now rest
    value (loaded ∷ others)

  -- `SnapshotReader::Read` of the contents of a file.
  unfoldable pub read : (SearchEngineConfig → I) → ℕ → Bytes → StatusOr (Impl I)
  unfolding read_header get_config load_shards
  read make now bytes = do
    payload ← read_header bytes
    ((seed, cfg), rest) ← get_config payload
    _ ← ensure (snapshot_seed cfg == seed) (status invalid_argument "snapshot seed mismatch")
    e ← initialize cfg cfg.memory_alignment (make cfg)
    shards ← load_shards e.shards now rest
    value (record e { shards = shards })

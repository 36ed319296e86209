-- ===== src/Lib.antt =====
-- pomai_search: a vector search engine for one machine. Keys with a vector, metadata, an expiry and
-- an optional text are spread over shards by the hash of the key; a shard keeps its documents, a vector
-- store, an index of vectors and an index of words; a search asks every shard and merges the results.
--
-- Parts, files and how they interact (paths from the root of the repository):
--
-- - pomai_search/include/pomai_search/types.h, status.h, hash.h, scoring.h and
--   pomai_search/src/observability/metrics.cc: Types, Status, Hash, Float, Metrics. A float is the bit
--   pattern of a binary32 number; comparisons and the NaN test are read off it, and arithmetic is a
--   parameter, Float.Arithmetic. Float.Ranks has the orders of results.
-- - pomai_search/core/vectorstore/vector_store.{h,cc}: VectorStore. Slots in blocks, a free list, live
--   flags. VectorStore.Valid has the invariant, VectorStore.Contents what a slot holds, and
--   VectorStore.Writes what holds when a shard writes to a slot that it has released.
-- - pomai_search/core/index/index.h: Index, a record of the virtual methods, which a shard takes as a
--   parameter. pomai_search/core/index/flat_index.{h,cc}: FlatIndex, which fills it. Base.TopK has
--   the heap loop and Base.Sort the sort.
-- - pomai_search/src/search_engine_impl.h, KeywordIndex: KeywordIndex.
-- - pomai_search/core/clustering/kmeans.{h,cc}: KMeans, with the theorems in KMeans.Assigned and
--   KMeans.Trained. pomai_search/core/index/ivf_flat_index.{h,cc}:
--   IvfFlat, with its search in IvfFlat.Search and the theorems in IvfFlat.Kept, IvfFlat.Training,
--   IvfFlat.Upserts and IvfFlat.Found. It trains with KMeans, and is not yet an instance of Index.
-- - pomai_search/src/search_engine_impl.h, Shard: Shard (state and PurgeExpired), Shard.Write (Upsert,
--   Delete), Shard.Read (Exists, GetVectorCopy, SearchCandidates, Search), Shard.Hybrid (SearchHybrid,
--   ExportRecords); the theorems are in Shard.Purge, Shard.Results, Shard.Searches, Shard.Stored,
--   Shard.Laws, Shard.Scanned and Shard.Deletes. `none` is a Delete that waits for a lock that it holds. Modules named Examples have the theorems at concrete inputs. The shard calls the store, the index and the keyword index.
-- - pomai_search/src/search_engine.cc: Engine, Engine.Search, Engine.Explain,
--   Engine.Fusion, Engine.Stages; the theorems are in Engine.Merged, Engine.Explained,
--   Engine.Combined, Engine.Scored and Engine.Fused. The engine calls the shards.
-- - The files: File has `fwrite` and `fread` on lists of bytes. Save and Load of a part are in its module
--   Saving: VectorStore.Saving, FlatIndex.Saving, KeywordIndex.Saving and Shard.Saving (the last two
--   from pomai_search/src/search_engine.cc), KMeans.Saving, IvfFlat.Saving. The
--   theorems are in the modules Loaded.
-- - pomai_search/core/serialize/snapshot.cc: Snapshot, which writes and reads an engine by its shards;
--   Snapshot.Checksum has the CRC, Snapshot.Accepted what the reader takes, Snapshot.Config,
--   Snapshot.Shards and Snapshot.Restored that an engine is read back.
-- - pomai_search/app/json.cc: Json (the parser), Json.Text (strings).
-- - pomai_search/include/pomai_search/thread_pool.h and pomai_search/src/thread_pool.cc: ThreadPool, as
--   a step relation.
-- - Base has what the parts share: tests, lists, association lists for the maps, byte strings.
--
-- How it is modelled. A call that holds a lock is one step on the state, which it takes and returns. A
-- vector search of a shard has two parts, with the shard and the time of each as arguments, so that
-- other calls may stand between them; the second part checks all documents at one moment. The clock is
-- an argument. A map is an association list, whose order stands for the iteration order. Machine
-- integers that can wrap (ids, generations, hashes) wrap here too; counts that are not positive are 0.
-- A file takes as many bytes as it has room for; the loops that count bytes stop at a status "write
-- failed" or "read failed". The JSON parser has fuel, two more than twice the length of the text: each
-- character that it reads uses at most two. The checksum loop has as much fuel as there are bytes.
--
-- Not modelled: the SQ8 and HNSW indexes and
-- the quantizer, the C interface, the server and the command line, logging. Opening, seeking and
-- renaming a file succeed. The vector kernel, `strtod`, `std::shuffle` and the machine's arithmetic are
-- parameters.
pub mod Base
pub mod Float
pub mod Status
pub mod Types
pub mod VectorStore
pub mod Index
pub mod FlatIndex
pub mod KeywordIndex
pub mod KMeans
pub mod Shard
pub mod Snapshot
pub mod File
pub mod Hash
pub mod Metrics
pub mod Engine
pub mod IvfFlat
pub mod Json
pub mod ThreadPool

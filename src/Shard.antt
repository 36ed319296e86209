-- ===== src/Shard.antt =====
-- src/search_engine_impl.h: `Shard`, with the documents, the key map, the vector store and the two
-- indexes of one shard. A call under the shard's lock is one step. The time is an argument, read
-- once for each locked part. The index is any `Index`. Logging is left out.
pub mod Write
pub mod Read
pub mod Results
pub mod Searches
pub mod Purge
pub mod Stored
pub mod Laws
pub mod Scanned
pub mod Deletes
pub mod Hybrid
pub mod Saving
mod Examples
use pomaisearch.Base.{
  ℕ, zero, suc, ◌+◌, ◌-◌, ◌%◌, Bool, true, false, not, ◌&&◌, ◌||◌, List, [], ◌∷◌, ◌++◌, map, Option,
  none, some, ltb, leb, ◌==◌, if◌then◌else◌, length, get_or, set,
}
use pomaisearch.Base.Bytes.{Bytes}
use pomaisearch.Base.Maps.{bytes_key, find, emplace}
use pomaisearch.Float.{Float, Arithmetic, zero_float, one_float, float_lt, float_eq, float_le}
use pomaisearch.Status.{
  Status, StatusOr, value, error, ok_status, status, is_ok, invalid_argument, not_found,
  resource_exhausted,
}
use pomaisearch.Types.{
  Metadata, VectorView, Filter, Similarity, dot, cosine, SearchEngineConfig, is_expired,
}
use pomaisearch.VectorStore.{VectorStore}
use pomaisearch.VectorStore
use pomaisearch.Index.{Index, IndexStats}
use pomaisearch.KeywordIndex.{KeywordIndex}
use pomaisearch.KeywordIndex

pub record ShardDoc : Type 0 where
  pub key : Bytes
  pub meta : Metadata
  pub offset : ℕ
  pub deleted : Bool
  pub gen : ℕ
  pub expiry : Option ℕ
  pub text : Option Bytes

pub record Shard (I : Type 0) : Type 0 where
  pub dim : ℕ
  pub key_to_id : List (Bytes × ℕ)
  pub docs : List ShardDoc
  pub store : VectorStore
  pub similarity : Similarity
  pub max_points : ℕ
  pub max_candidates : ℕ
  pub rerank_factor : ℕ
  pub index : I
  pub keyword_index : KeywordIndex
  pub gc_cursor : ℕ
  pub live_docs : ℕ

-- A default `ShardDoc`.
abbrev pub no_doc : ShardDoc
no_doc = record {
  key = [];
  meta = [];
  offset = 0;
  deleted = false;
  gen = 0;
  expiry = none;
  text = none;
}

-- `++gen` of a `uint32_t`.
abbrev pub next_gen : ℕ → ℕ
next_gen gen = (gen + 1) % 4294967296

-- The constructor, with the index that it makes: `max(1, ·)` of the two bounds.
unfoldable pub init : {I : Type 0} → SearchEngineConfig → ℕ → I → Shard I
init cfg alignment index = record {
  dim = cfg.dim;
  key_to_id = [];
  docs = [];
  store = VectorStore.init cfg.dim alignment 4096;
  similarity = cfg.similarity;
  max_points = cfg.max_points_per_shard;
  max_candidates = if cfg.max_candidates == 0 then 1 else cfg.max_candidates;
  rerank_factor = if cfg.rerank_factor == 0 then 1 else cfg.rerank_factor;
  index = index;
  keyword_index = KeywordIndex.empty;
  gc_cursor = 0;
  live_docs = 0;
}

-- `!doc.deleted && !IsExpired(doc.expiry)`.
unfoldable pub is_live : ℕ → ShardDoc → Bool
is_live now doc = not doc.deleted && not (is_expired now doc.expiry)

module _ (m : Arithmetic) where
  sum_squares : Float → List Float → Float
  sum_squares sum [] = sum
  sum_squares sum (x ∷ xs) = sum_squares (m.add sum (m.mul x x)) xs

  normalize_elements : List Float → List Float
  unfolding sum_squares
  normalize_elements xs =
      let sum = sum_squares zero_float xs in
      if float_le sum zero_float then xs else map (λ x. m.mul x (m.div one_float (m.sqrt sum))) xs

  -- `NormalizeVector`.
  unfoldable pub normalize_vector : VectorView → VectorView
  unfolding normalize_elements
  normalize_vector input = elim input.elements [
    | none ↦ input
    | some xs ↦
        if input.dim == 0 then input else record input { elements = some (normalize_elements xs) }
  ]

  -- A vector as the shard stores it or searches for it.
  unfoldable pub prepare : Similarity → VectorView → VectorView
  unfolding normalize_vector
  prepare dot v = v
  prepare cosine v = normalize_vector v

-- The scan of `PurgeExpired` under the lock.
pub record Scan : Type 0 where
  pub docs : List ShardDoc
  pub live_docs : ℕ
  pub cursor : ℕ
  pub expired : List (ℕ × ℕ)

pub expire_doc : ShardDoc → ShardDoc
expire_doc doc = record doc { deleted = true; gen = next_gen doc.gen }

-- One round: wrap the cursor, mark the document if it has expired, move on.
pub scan_one : ℕ → Scan → Scan
unfolding expire_doc
scan_one now s =
    let cursor = if leb (length s.docs) s.cursor then 0 else s.cursor in
    let doc = get_or s.docs cursor no_doc in
    if not doc.deleted && is_expired now doc.expiry
    then record {
      docs = set s.docs cursor (expire_doc doc);
      live_docs = s.live_docs - 1;
      cursor = cursor + 1;
      expired = s.expired ++ (cursor, doc.offset) ∷ [];
    }
    else record s { cursor = cursor + 1 }

abbrev pub begin_scan : {I : Type 0} → Shard I → Scan
begin_scan s = record { docs = s.docs; live_docs = s.live_docs; cursor = s.gc_cursor; expired = [] }

pub scan : ℕ → ℕ → Scan → Scan
unfolding scan_one
scan now zero s = s
scan now (suc budget) s = scan now budget (scan_one now s)

-- `store_.Release` of each expired entry.
pub release_all : List (ℕ × ℕ) → VectorStore → VectorStore
release_all [] store = store
release_all ((id, offset) ∷ expired) store = release_all expired (VectorStore.release store offset)

pub unindex_keywords : List (ℕ × ℕ) → KeywordIndex → KeywordIndex
unindex_keywords [] k = k
unindex_keywords ((id, offset) ∷ expired) k = unindex_keywords expired (KeywordIndex.delete k id)

module _ {I : Type 0} (ops : Index I) where
  pub unindex : List (ℕ × ℕ) → I → I
  unindex [] x = x
  unindex ((id, offset) ∷ expired) x = unindex expired (ops.delete x id).0

  unfoldable pub purge_expired : ℕ → ℕ → Shard I → Shard I
  unfolding scan unindex unindex_keywords release_all
  purge_expired now budget s =
      if budget == 0 || length s.docs == 0
      then s
      else let found = scan now budget (begin_scan s) in
        record s {
          docs = found.docs;
          live_docs = found.live_docs;
          gc_cursor = found.cursor;
          keyword_index = unindex_keywords found.expired s.keyword_index;
          index = unindex found.expired s.index;
          store = release_all found.expired s.store;
        }

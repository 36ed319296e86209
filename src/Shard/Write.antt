-- ===== src/Shard/Write.antt =====
-- src/search_engine_impl.h: `Shard::Upsert` and `Shard::Delete`.
use pomaisearch.Base.{
  ℕ, ◌+◌, ◌-◌, ◌%◌, true, false, not, ◌&&◌, List, [], ◌∷◌, ◌++◌, Option, none, some, ltb, leb, ◌==◌,
  if◌then◌else◌, length, get_or, set,
}
use pomaisearch.Base.Bytes.{Bytes}
use pomaisearch.Base.Maps.{bytes_key, find, emplace}
use pomaisearch.Float.{Float, Arithmetic}
use pomaisearch.Status.{
  Status, ok_status, status, is_ok, invalid_argument, not_found, resource_exhausted,
}
use pomaisearch.Types.{Metadata, VectorView}
use pomaisearch.VectorStore
use pomaisearch.Index.{Index}
use pomaisearch.KeywordIndex
use pomaisearch.Shard.{Shard, ShardDoc, no_doc, next_gen, prepare, begin_scan, scan, purge_expired}

-- What a caller of `Upsert` gives beside the key and the vector.
pub record Entry : Type 0 where
  pub meta : Metadata
  pub expiry : Option ℕ
  pub text : Option Bytes

-- The document of a key that is known, or of a new one.
abbrev pub fill_doc : ShardDoc → ℕ → Entry → ShardDoc
fill_doc doc offset e = record doc {
  meta = e.meta;
  deleted = false;
  gen = next_gen doc.gen;
  expiry = e.expiry;
  text = e.text;
  offset = offset;
}

module _ (m : Arithmetic) (kernel : List Float → List Float → Float) {I : Type 0}
    (ops : Index I) where
  abbrev norm_of : List Float → Float
  norm_of xs = m.sqrt (kernel xs xs)

  -- `Upsert` of a key that is in the map: overwrite its slot, then its document.
  unfoldable pub upsert_known : Shard I → ℕ → List Float → Entry → Shard I × Status
  upsert_known s id xs e =
      let doc = get_or s.docs id no_doc in
      let store = VectorStore.update s.store doc.offset xs in
      let (index, result) = ops.upsert store s.index id doc.offset (norm_of xs) in
      if not (is_ok result) then (record s { store = store; index = index }, result) else (
        record s {
          store = store;
          index = index;
          docs = set s.docs id (fill_doc doc doc.offset e);
          keyword_index = KeywordIndex.upsert s.keyword_index id e.text;
        },
        ok_status,
      )

  -- `Upsert` of a key that is not: a slot of its own, which a failing index gives back.
  unfoldable pub upsert_new : Shard I → Bytes → List Float → Entry → Shard I × Status
  upsert_new s key xs e =
      if ltb 0 s.max_points && leb s.max_points s.live_docs
      then (s, status resource_exhausted "shard at capacity")
      else let id = length s.docs % 4294967296 in
        let (store, offset) = VectorStore.insert s.store xs in
        let (index, result) = ops.upsert store s.index id offset (norm_of xs) in
        if not (is_ok result)
        then (record s { store = VectorStore.release store offset; index = index }, result)
        else (
          record s {
            store = store;
            index = index;
            key_to_id = emplace key id s.key_to_id;
            docs = s.docs ++ fill_doc (record no_doc { key = key }) offset e ∷ [];
            live_docs = s.live_docs + 1;
            keyword_index = KeywordIndex.upsert s.keyword_index id e.text;
          },
          ok_status,
        )

  unfoldable pub upsert_purged : Shard I → Bytes → List Float → Entry → Shard I × Status
  unfolding upsert_known upsert_new
  upsert_purged s key xs e = elim (find key s.key_to_id) [
    | some id ↦ upsert_known s id xs e
    | none ↦ upsert_new s key xs e
  ]

  unfoldable pub upsert : Shard I → ℕ → Bytes → VectorView → Entry → Shard I × Status
  unfolding upsert_purged
  upsert s now key vec e =
      if not (vec.dim == s.dim)
      then (s, status invalid_argument "dimension mismatch")
      else elim vec.elements [
        | none ↦ (s, status invalid_argument "dimension mismatch")
        | some _ ↦
            upsert_purged (purge_expired ops now 32 s) key
              (KeywordIndex.find_or (prepare m s.similarity vec).elements []) e
      ]

module _ {I : Type 0} (ops : Index I) where
  -- The part of `Delete` before its `PurgeExpired`.
  unfoldable pub delete_known : Shard I → ℕ → Shard I × Status
  delete_known s id =
      let doc = get_or s.docs id no_doc in
      let (index, result) = ops.delete s.index id in
      (
        record s {
          docs = set s.docs id (record doc { deleted = true; gen = next_gen doc.gen });
          live_docs = s.live_docs - 1;
          keyword_index = KeywordIndex.delete s.keyword_index id;
          index = index;
          store = VectorStore.release s.store doc.offset;
        },
        result,
      )

  -- `Delete` holds the store's lock for writing when it calls `PurgeExpired`, which takes that lock once
  -- more if its scan has found a document. `none` is that second lock, which is not returned from.
  unfoldable pub delete : Shard I → ℕ → Bytes → Option (Shard I × Status)
  unfolding delete_known scan
  delete s now key = elim (find key s.key_to_id) [
    | none ↦ some (s, status not_found "key not found")
    | some id ↦
        let (t, result) = delete_known s id in
        if length (scan now 32 (begin_scan t)).expired == 0
        then some (purge_expired ops now 32 t, result)
        else none
  ]

-- ===== src/Shard/Saving/Loaded.antt =====
-- A shard that was saved is loaded with the same documents under the same keys.
use pomaisearch.Base.{
  ℕ, zero, suc, ◌^◌, ◌<◌, ◌≡◌, refl, sym, ap, ◌∙◌, inl, inr, List, [], ◌∷◌, ◌++◌, map, some, arith,
  length, get_elem?, get_or, get_or_of_some, Option-cases,
}
use mathlib.Core.List.{append_assoc}
use mathlib.Core.Option.{some-injective}
use pomaisearch.Base.Bytes.{Bytes}
use pomaisearch.Base.All.{All, All-get_elem?}
use pomaisearch.Base.Maps.{bytes_key, find, HasKeysOnce}
use pomaisearch.Status.{value}
use pomaisearch.File.{File, put, le_bytes}
use pomaisearch.File.Laws.{
  put-then, put-contents, encode_list, put_list-put, get_list-encode_list_mapped, get_le-le_bytes,
}
use pomaisearch.File.Maps.{encode_map, put_map-put, get_map-encode_map}
use pomaisearch.Index.{IndexFile, IsReadBack}
use pomaisearch.VectorStore
use pomaisearch.VectorStore.Saving.Loaded.{IsSavable}
use pomaisearch.VectorStore.Saving.Loaded as StoreLoaded
use pomaisearch.KeywordIndex.Saving.Loaded as KeywordLoaded
use pomaisearch.Shard.{Shard, ShardDoc, no_doc, is_live}
use pomaisearch.Shard.Read.{exists, get_vector_copy}
use pomaisearch.Shard.Stored.{IsValid}
use pomaisearch.Shard.Saving.{put_doc, get_doc, put_key, get_key, count_live_docs, save, load}
use pomaisearch.Shard.Saving.Docs.{
  FitsDoc, encode_doc, put_doc-put, get_doc-encode_doc, reborn, FitsKey, encode_key, put_key-put,
  get_key-encode_key,
}

get_or-reborn :
    (docs : List ShardDoc) (id : ℕ)
    → get_or (map reborn docs) id no_doc ≡ reborn (get_or docs id no_doc)
get_or-reborn [] id = refl
get_or-reborn (d ∷ docs) zero = refl
get_or-reborn (d ∷ docs) (suc id) = get_or-reborn docs id

get_elem?-reborn :
    (docs : List ShardDoc) (id : ℕ) {doc : ShardDoc}
    → get_elem? docs id ≡ some doc
    → get_elem? (map reborn docs) id ≡ some (reborn doc)
get_elem?-reborn [] id h = absurd (cc)
get_elem?-reborn (d ∷ docs) zero h = ap some (ap reborn (some-injective _ _ h))
get_elem?-reborn (d ∷ docs) (suc id) h = get_elem?-reborn docs id h

-- What a shard must be for the file to hold it, beside its index. Every document has a slot that
-- the store knows.
pub record FitsFile {I : Type 0} (s : Shard I) : Type 0 where
  pub fits_docs : length s.docs < 2 ^ 64
  pub docs : All FitsDoc s.docs
  pub slots : All (λ (doc : ShardDoc). doc.offset < length s.store.live) s.docs
  pub fits_keys : length s.key_to_id < 2 ^ 64
  pub keys : All FitsKey s.key_to_id
  pub keys_once : HasKeysOnce s.key_to_id
  pub store : StoreLoaded.FitsFile s.store
  pub keywords : KeywordLoaded.FitsFile s.keyword_index

-- What a shard and the one that was loaded from it share.
pub record IsReloaded {I : Type 0} (s u : Shard I) : Type 0 where
  pub valid : IsValid u
  pub same_exists : (now : ℕ) (key : Bytes) → exists u now key ≡ exists s now key
  pub same_vectors : (now : ℕ) (key : Bytes) → get_vector_copy u now key ≡ get_vector_copy s now key
  pub same_keywords : u.keyword_index ≡ s.keyword_index

module _ {I : Type 0} (files : IndexFile I) (s t : Shard I) (v : IsValid s)
    (saved : IsSavable s.store) (w : FitsFile s) (same : t.store.dim ≡ s.store.dim) {R : I → Type 0}
    (index : IsReadBack files s.index t.index R) where
  pub encode : Bytes
  encode =
      le_bytes 8 (length s.docs)
      ++ encode_list encode_doc s.docs
      ++ encode_map encode_key s.key_to_id
      ++ StoreLoaded.encode s.store
      ++ index.bytes
      ++ KeywordLoaded.encode s.keyword_index

  pub save-put : (f : File) → save files s f ≡ put encode f
  unfolding save encode
  save-put f =
      let docs = encode_list encode_doc s.docs in
      let keys = encode_map encode_key s.key_to_id in
      let first = le_bytes 8 (length s.docs) ++ docs in
      rw
        (put-then (le_bytes 8 (length s.docs)) docs f
          (put_list-put put_doc encode_doc put_doc-put s.docs))
        (rw (put-then first keys f (put_map-put put_key encode_key put_key-put s.key_to_id)) (
          rw
            (put-then (first ++ keys) (StoreLoaded.encode s.store) f (StoreLoaded.save-put s.store))
            (rw (put-then (first ++ keys ++ StoreLoaded.encode s.store) index.bytes f index.writes)
              (put-then _ (KeywordLoaded.encode s.keyword_index) f
                (KeywordLoaded.save-put s.keyword_index)))))

  -- What is read back, from what the parts are read as.
  reload : VectorStore.VectorStore → I → ℕ → Shard I
  reload store index now = record t {
    docs = map reborn s.docs;
    live_docs = count_live_docs now (map reborn s.docs);
    key_to_id = s.key_to_id;
    store = store;
    index = index;
    keyword_index = s.keyword_index;
    gc_cursor = 0;
  }

  offset-lt :
      (key : Bytes) (id : ℕ)
      → find key s.key_to_id ≡ some id
      → (get_or s.docs id no_doc).offset < length s.store.live
  offset-lt key id h =
      let (doc, at, named) = v.keys key id h in
      rw (get_or_of_some s.docs id no_doc at) (All-get_elem? _ s.docs id at w.slots)

  reload-exists :
      (store : VectorStore.VectorStore) (y : I) (now time : ℕ) (key : Bytes)
      → exists (reload store y now) time key ≡ exists s time key
  unfolding exists reload is_live
  reload-exists store y now time key = elim (Option-cases (find key s.key_to_id)) [
    | inl e ↦ rw (e, exists) refl
    | inr (id, e) ↦ rw (e, exists) (rw (get_or-reborn s.docs id) refl)
  ]

  reload-get_vector_copy :
      (store : VectorStore.VectorStore) (y : I) (now time : ℕ) (key : Bytes)
      → StoreLoaded.IsReloaded s.store store
      → get_vector_copy (reload store y now) time key ≡ get_vector_copy s time key
  unfolding get_vector_copy reload is_live
  reload-get_vector_copy store y now time key r = elim (Option-cases (find key s.key_to_id)) [
    | inl e ↦ rw (e, get_vector_copy) refl
    | inr (id, e) ↦
        rw (e, get_vector_copy)
          (rw (get_or-reborn s.docs id)
            (rw (r.same_vectors (get_or s.docs id no_doc).offset (offset-lt key id e)) refl))
  ]

  reload-IsValid :
      (store : VectorStore.VectorStore) (y : I) (now : ℕ)
      → t.store.dim ≡ t.dim
      → StoreLoaded.IsReloaded s.store store
      → IsValid (reload store y now)
  unfolding reload
  reload-IsValid store y now dims r = record {
    keys = λ key id e.
        let (doc, at, named) = v.keys key id e in
        (reborn doc, get_elem?-reborn s.docs id at, named);
    dims = r.same_dim ∙ sym same ∙ dims;
    blocks = r.valid.has_blocks;
  }

  load-encode :
      (now : ℕ) (rest : Bytes)
      → (store : VectorStore.VectorStore) × (y : I) × (load files t now (encode ++ rest)
          ≡ value (reload store y now, rest))
        × StoreLoaded.IsReloaded s.store store
        × R y
  unfolding load encode reload
  load-encode now rest =
      let keywords = KeywordLoaded.encode s.keyword_index ++ rest in
      let (y, read, r) = index.reads keywords in
      let (store, loaded, q) =
        StoreLoaded.load-encode s.store saved w.store t.store same (index.bytes ++ keywords) in
      let stores = StoreLoaded.encode s.store ++ (index.bytes ++ keywords) in
      let keys = encode_map encode_key s.key_to_id ++ stores in
      (
        store,
        y,
        simp append_assoc (
            rw
              (get_le-le_bytes 8 (length s.docs) (encode_list encode_doc s.docs ++ keys)
                (omega (arith, w.fits_docs)))
              (rw
                (get_list-encode_list_mapped FitsDoc get_doc encode_doc reborn get_doc-encode_doc
                  s.docs keys w.docs)
                (rw
                  (get_map-encode_map FitsKey get_key encode_key get_key-encode_key s.key_to_id
                    stores w.fits_keys w.keys w.keys_once)
                  (rw loaded (
                    rw read
                      (rw (KeywordLoaded.load-encode s.keyword_index rest w.keywords) refl)))))),
        q,
        r,
      )

  pub read_back :
      (now : ℕ) (rest : Bytes)
      → t.store.dim ≡ t.dim
      → (u : Shard I) × (load files t now (encode ++ rest) ≡ value (u, rest))
        × IsReloaded s u
        × R u.index
  unfolding reload
  read_back now rest dims =
      let (store, y, loaded, q, r) = load-encode now rest in
      (
        reload store y now,
        loaded,
        record {
          valid = reload-IsValid store y now dims q;
          same_exists = reload-exists store y now;
          same_vectors = λ time key. reload-get_vector_copy store y now time key q;
          same_keywords = refl;
        },
        r,
      )

  -- A valid shard is saved into a file and loaded, from what was written and whatever follows it,
  -- into a shard of its dimension. The loaded shard is valid, has at every time the same
  -- keys with the same vectors and the same keyword index, and its index is what the index reads back.
  pub load-save_shard :
      (f : File) (now : ℕ) (rest : Bytes) {g : File}
      → t.store.dim ≡ t.dim
      → save files s f ≡ value g
      → (bytes : Bytes) × (g.contents ≡ f.contents ++ bytes)
        × ((u : Shard I) × (load files t now (bytes ++ rest) ≡ value (u, rest))
            × IsReloaded s u
            × R u.index)
  load-save_shard f now rest dims h =
      (encode, put-contents encode f (sym (save-put f) ∙ h), read_back now rest dims)

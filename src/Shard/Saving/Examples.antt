-- ===== src/Shard/Saving/Examples.antt =====
-- The theorem on a shard in a file at a small shard with a flat index.
use pomaisearch.Base.{ℕ, zero, suc, ◌^◌, ◌<◌, ◌≡◌, refl, [], ◌∷◌, ◌++◌, arith, some, none}
use pomaisearch.Base.All.{All}
use pomaisearch.Base.Bytes.{Bytes, bytes_eq}
use pomaisearch.Base.Maps.{find, emplace}
use pomaisearch.Float.{dot_scalar}
use pomaisearch.Float.Examples.{machine}
use pomaisearch.Status.{value}
use pomaisearch.Types.{VectorView, dot, SearchEngineConfig, default_config}
use pomaisearch.File.{File, put, le_bytes, float_bytes, put_list, put_string}
use pomaisearch.File.Maps.{put_map}
use pomaisearch.File.Laws.{written}
use pomaisearch.VectorStore
use pomaisearch.VectorStore.{VectorStore}
use pomaisearch.VectorStore.Valid.{init-IsValid, insert-IsValid}
use pomaisearch.VectorStore.Saving as StoreSaving
use pomaisearch.VectorStore.Saving.Loaded as StoreLoaded
use pomaisearch.KeywordIndex
use pomaisearch.KeywordIndex.Saving as KeywordSaving
use pomaisearch.Index.{Index, IsReadBack}
use pomaisearch.FlatIndex
use pomaisearch.FlatIndex.{FlatIndex, flat_index}
use pomaisearch.FlatIndex.Entries.{
  init-IsValid as init-IsValid_index, upsert-IsValid as upsert-IsValid_index,
}
use pomaisearch.FlatIndex.Saving as IndexSaving
use pomaisearch.FlatIndex.Saving.Loaded as IndexLoaded
use pomaisearch.Shard.{Shard, init, prepare, purge_expired}
use pomaisearch.Shard.Write.{Entry, upsert, upsert_purged, upsert_new}
use pomaisearch.Shard.Stored.{IsValid, init-IsValid_shard}
use pomaisearch.Shard.Laws.{upsert-IsValid}
use pomaisearch.Shard.Saving.{save, load, put_doc, put_key, put_option, put_pair}
use pomaisearch.Shard.Saving.Loaded.{FitsFile, IsReloaded, load-save_shard}

abbrev pub ops : Index FlatIndex
ops = flat_index machine (dot_scalar machine)

abbrev pub config : SearchEngineConfig
config = record default_config {
  dim = 2;
  max_points_per_shard = 8;
  max_candidates = 4;
  rerank_factor = 2;
  global_seed = 1;
  contract_version = 1;
}

abbrev empty_shard : Shard FlatIndex
empty_shard = init config 32 (FlatIndex.init 2 dot 8)

abbrev key : Bytes
key = b'k' ∷ []

abbrev vec : VectorView
vec = record { elements = some (5 ∷ 6 ∷ []); dim = 2 }

abbrev entry : Entry
entry = record { meta = (b'm' ∷ [], b'n' ∷ []) ∷ []; expiry = some 100; text = none }

abbrev pub one_doc : Shard FlatIndex
one_doc = (upsert machine (dot_scalar machine) ops empty_shard 1 key vec entry).0

pub one_doc-IsValid : IsValid one_doc
unfolding init prepare purge_expired
one_doc-IsValid =
    upsert-IsValid machine (dot_scalar machine) ops empty_shard 1 key vec entry
      (init-IsValid_shard config 32 (FlatIndex.init 2 dot 8)) refl (omega arith)

abbrev pub store : VectorStore
store = (VectorStore.insert empty_shard.store (5 ∷ 6 ∷ [])).0

pub store_example : one_doc.store ≡ store
unfolding KeywordIndex.upsert upsert upsert_purged upsert_new init prepare purge_expired find
    bytes_eq emplace flat_index FlatIndex.upsert FlatIndex.init
store_example = refl

pub store-IsSavable : StoreLoaded.IsSavable store
unfolding init
store-IsSavable = StoreLoaded.savable (insert-IsValid _ (init-IsValid 2 32 4096) (5 ∷ 6 ∷ []))

first_vector : VectorStore.get store 0 ≡ 5 ∷ 6 ∷ []
unfolding init VectorStore.insert VectorStore.init VectorStore.take_slot VectorStore.grow_live
    VectorStore.mark_live VectorStore.write_slot VectorStore.ensure_block VectorStore.new_block
    VectorStore.get
first_vector = refl

words_fit : (j : ℕ) → j < 1 → All (λ x. x < 2 ^ 32) (VectorStore.get store j)
words_fit zero h = rw first_vector (omega arith, (omega arith, tt))
words_fit (suc j) h = absurd (omega arith)

store-FitsFile : StoreLoaded.FitsFile store
unfolding init VectorStore.insert VectorStore.init VectorStore.take_slot VectorStore.grow_live
    VectorStore.mark_live VectorStore.write_slot VectorStore.ensure_block VectorStore.new_block
store-FitsFile = record {
  words = words_fit;
  fits_dim = omega arith;
  fits_size = omega arith;
  fits_slots = omega arith;
  fits_floats = omega arith;
}

pub one_doc-FitsFile : FitsFile one_doc
unfolding KeywordIndex.upsert upsert upsert_purged upsert_new init prepare purge_expired find
    bytes_eq emplace flat_index FlatIndex.upsert FlatIndex.init VectorStore.insert VectorStore.init
    VectorStore.take_slot VectorStore.grow_live VectorStore.mark_live VectorStore.write_slot
    VectorStore.ensure_block VectorStore.new_block
one_doc-FitsFile = record {
  fits_docs = omega arith;
  docs = (
    record {
      fits_key = omega arith;
      fits_meta = omega arith;
      meta = ((omega arith, omega arith), tt);
      meta_once = (tt, tt);
      fits_offset = omega arith;
      fits_expiry = omega arith;
      fits_text = tt;
    },
    tt,
  );
  slots = (omega arith, tt);
  fits_keys = omega arith;
  keys = ((omega arith, omega arith), tt);
  keys_once = (tt, tt);
  store = store-FitsFile;
  keywords = record {
    fits_count = omega arith;
    fits_docs = omega arith;
    docs = tt;
    docs_once = tt;
    fits_postings = omega arith;
    postings = tt;
    postings_once = tt;
    fits_freq = omega arith;
    freq = tt;
    freq_once = tt;
  };
}

pub index-IsReadBack :
    (t : FlatIndex)
    → IsReadBack IndexLoaded.flat_file one_doc.index t (IndexLoaded.IsReloaded one_doc.index)
unfolding KeywordIndex.upsert upsert upsert_purged upsert_new init prepare purge_expired find
    bytes_eq emplace flat_index FlatIndex.upsert FlatIndex.init VectorStore.insert VectorStore.init
    VectorStore.take_slot VectorStore.grow_live VectorStore.mark_live dot_scalar
index-IsReadBack t =
    IndexLoaded.flat_file-IsReadBack one_doc.index t
      (upsert-IsValid_index _ (init-IsValid_index 2 dot 8) 0 0
        (machine.sqrt (dot_scalar machine (5 ∷ 6 ∷ []) (5 ∷ 6 ∷ []))))
      (record {
        fits_points = omega arith;
        fits_count = omega arith;
        fits_ids = (omega arith, tt);
        fits_items = ((omega arith, omega arith), tt);
      })

abbrev file : File
file = record { contents = []; room = 500 }

save_example :
    save IndexLoaded.flat_file one_doc file
    ≡ value (written file (save IndexLoaded.flat_file one_doc file))
unfolding KeywordIndex.upsert upsert upsert_purged upsert_new init prepare purge_expired find
    bytes_eq emplace flat_index FlatIndex.upsert FlatIndex.init VectorStore.insert VectorStore.init
    VectorStore.take_slot VectorStore.grow_live VectorStore.mark_live VectorStore.write_slot
    VectorStore.ensure_block VectorStore.new_block VectorStore.get save put_doc put_key put_option
    put_pair put put_map put_list put_string le_bytes float_bytes StoreSaving.save
    StoreSaving.save_slots IndexSaving.save IndexSaving.put_item KeywordSaving.save
save_example = refl

load-save_shard_example :
    (bytes : Bytes) × ((written file (save IndexLoaded.flat_file one_doc file)).contents ≡ bytes)
    × ((u : Shard FlatIndex) × (load IndexLoaded.flat_file empty_shard 3 (bytes ++ 9 ∷ [])
          ≡ value (u, 9 ∷ []))
        × IsReloaded one_doc u
        × IndexLoaded.IsReloaded one_doc.index u.index)
unfolding KeywordIndex.upsert init upsert upsert_purged upsert_new prepare purge_expired
    VectorStore.insert VectorStore.init find flat_index FlatIndex.init
load-save_shard_example =
    load-save_shard IndexLoaded.flat_file one_doc empty_shard one_doc-IsValid
      (rw store_example store-IsSavable) one_doc-FitsFile (unfold init in refl)
      (index-IsReadBack empty_shard.index) file 3 (9 ∷ []) refl save_example

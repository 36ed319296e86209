-- ===== src/Shard/Saving.antt =====
-- `Shard::Save` and `Shard::Load` (src/search_engine.cc). The generation of a document is not in the
-- file: it starts again at 0. A time point is eight bytes.
pub mod Docs
pub mod Loaded
pub mod Examples
use pomaisearch.Base.{
  ℕ, ◌+◌, Bool, true, false, List, [], ◌∷◌, Option, none, some, if◌then◌else◌, length,
}
use pomaisearch.Base.Bytes.{Bytes}
use pomaisearch.Base.Maps.{bytes_key}
use pomaisearch.Status.{StatusOr, value, ◌>>=◌}
use pomaisearch.File.{
  File, put, put_le, put_list, put_string, get_le, get_list, get_string, of_bool, to_bool,
}
use pomaisearch.File.Maps.{put_map, get_map}
use pomaisearch.Index.{IndexFile}
use pomaisearch.VectorStore.Saving as StoreSaving
use pomaisearch.KeywordIndex.Saving as KeywordSaving
use pomaisearch.Shard.{Shard, ShardDoc, is_live}

unfoldable pub put_pair : Bytes × Bytes → File → StatusOr File
put_pair (k, v) f = put_string k f >>= put_string v

unfoldable pub get_pair : Bytes → StatusOr ((Bytes × Bytes) × Bytes)
get_pair bytes = do (k, b1) ← get_string bytes; (v, b2) ← get_string b1; value ((k, v), b2)

-- An optional value: a `bool`, then the value if there is one.
unfoldable pub put_option {ℓ} :
    {A : Type ℓ} → (A → File → StatusOr File) → Option A → File → StatusOr File
put_option save none f = put_le 1 (of_bool false) f
put_option save (some a) f = put_le 1 (of_bool true) f >>= save a

unfoldable pub get_option {ℓ} :
    {A : Type ℓ} → (Bytes → StatusOr (A × Bytes)) → Bytes → StatusOr (Option A × Bytes)
get_option item bytes = get_le 1 bytes >>= λ (has, rest). elim (to_bool has) [
  | true ↦ item rest >>= λ (a, more). value (some a, more)
  | false ↦ value (none, rest)
]

unfoldable pub put_doc : ShardDoc → File → StatusOr File
unfolding put_pair put_option
put_doc doc f =
    put_string doc.key f
    >>= put_map put_pair doc.meta
    >>= put_le 8 doc.offset
    >>= put_le 1 (of_bool doc.deleted)
    >>= put_option (put_le 8) doc.expiry
    >>= put_option put_string doc.text

unfoldable pub get_doc : Bytes → StatusOr (ShardDoc × Bytes)
unfolding get_pair get_option
get_doc bytes = do
  (key, b1) ← get_string bytes
  (meta, b2) ← get_map get_pair b1
  (offset, b3) ← get_le 8 b2
  (deleted, b4) ← get_le 1 b3
  (expiry, b5) ← get_option (get_le 8) b4
  (text, b6) ← get_option get_string b5
  value (
    record {
      key = key;
      meta = meta;
      offset = offset;
      deleted = to_bool deleted;
      gen = 0;
      expiry = expiry;
      text = text;
    },
    b6,
  )

unfoldable pub put_key : Bytes × ℕ → File → StatusOr File
put_key (key, id) f = put_string key f >>= put_le 4 id

unfoldable pub get_key : Bytes → StatusOr ((Bytes × ℕ) × Bytes)
get_key bytes = do (key, b1) ← get_string bytes; (id, b2) ← get_le 4 b1; value ((key, id), b2)

-- `live_docs_` is counted while the documents are read.
unfoldable pub count_live_docs : ℕ → List ShardDoc → ℕ
count_live_docs now [] = 0
count_live_docs now (doc ∷ docs) = (if is_live now doc then 1 else 0) + count_live_docs now docs

module _ {I : Type 0} (files : IndexFile I) where
  unfoldable pub save : Shard I → File → StatusOr File
  unfolding put_doc put_key
  save s f =
      put_le 8 (length s.docs) f
      >>= put_list put_doc s.docs
      >>= put_map put_key s.key_to_id
      >>= StoreSaving.save s.store
      >>= files.save s.index
      >>= KeywordSaving.save s.keyword_index

  -- Into a shard that was just made.
  unfoldable pub load : Shard I → ℕ → Bytes → StatusOr (Shard I × Bytes)
  unfolding get_doc get_key count_live_docs
  load s now bytes = do
    (docs_size, b1) ← get_le 8 bytes
    (docs, b2) ← get_list get_doc docs_size b1
    (key_to_id, b3) ← get_map get_key b2
    (store, b4) ← StoreSaving.load s.store b3
    (index, b5) ← files.load s.index b4
    (keyword_index, b6) ← KeywordSaving.load b5
    value (
      record s {
        docs = docs;
        live_docs = count_live_docs now docs;
        key_to_id = key_to_id;
        store = store;
        index = index;
        keyword_index = keyword_index;
        gc_cursor = 0;
      },
      b6,
    )

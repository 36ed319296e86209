-- ===== src/IvfFlat/Saving.antt =====
-- `IvfFlatIndex::Save` and `IvfFlatIndex::Load`. A `DocState` is written as it stands in memory, with
-- three bytes of padding. The metrics of the lists are not in the file.
pub mod Loaded
use pomaisearch.Base.{ℕ, ◌+◌, Bool, true, false, List, [], ◌∷◌, ◌==◌, length, replicate}
use pomaisearch.Base.Bytes.{Bytes}
use pomaisearch.Base.Maps.{nat_key}
use pomaisearch.Status.{StatusOr, value, status, internal, ensure, ◌>>=◌}
use pomaisearch.File.{
  File, put, put_le, put_list, float_bytes, get_le, get_bytes, get_list, get_floats, of_bool,
  to_bool,
}
use pomaisearch.File.Maps.{put_map, get_map}
use pomaisearch.KMeans.Saving as KMeansSaving
use pomaisearch.IvfFlat.{IvfFlatIndex, DocState, PostingEntry, no_metrics}

unfoldable pub put_entry : PostingEntry → File → StatusOr File
put_entry e f = put_le 4 e.id f >>= put_le 4 e.gen

unfoldable pub get_entry : Bytes → StatusOr (PostingEntry × Bytes)
get_entry bytes = do
  (id, b1) ← get_le 4 bytes
  (gen, b2) ← get_le 4 b1
  value (record { id = id; gen = gen }, b2)

unfoldable pub put_entries : List PostingEntry → File → StatusOr File
unfolding put_entry
put_entries es f = put_le 8 (length es) f >>= put_list put_entry es

unfoldable pub get_entries : Bytes → StatusOr (List PostingEntry × Bytes)
unfolding get_entry
get_entries bytes = get_le 8 bytes >>= λ (size, rest). get_list get_entry size rest

-- An entry of `docs_`, with the bytes that are in the padding.
unfoldable pub put_state : Bytes → ℕ × DocState → File → StatusOr File
put_state padding (id, doc) f =
    put_le 4 id f
    >>= put_le 8 doc.offset
    >>= put_le 4 doc.gen
    >>= put_le 1 (of_bool doc.deleted)
    >>= put padding

unfoldable pub get_state : Bytes → StatusOr ((ℕ × DocState) × Bytes)
get_state bytes = do
  (id, b1) ← get_le 4 bytes
  (offset, b2) ← get_le 8 b1
  (gen, b3) ← get_le 4 b2
  (deleted, b4) ← get_le 1 b3
  (padding, rest) ← get_bytes 3 b4
  value ((id, record { offset = offset; gen = gen; deleted = to_bool deleted }), rest)

-- What is in the file of a trained index only.
unfoldable pub save_trained : Bool → IvfFlatIndex → File → StatusOr File
unfolding put_entries
save_trained false x f = value f
save_trained true x f =
    KMeansSaving.save x.kmeans f >>= put_le 8 (length x.lists) >>= put_list put_entries x.lists

unfoldable pub load_trained : Bool → IvfFlatIndex → Bytes → StatusOr (IvfFlatIndex × Bytes)
unfolding get_entries
load_trained false x bytes = value (x, bytes)
load_trained true x bytes = do
  (kmeans, b1) ← KMeansSaving.load x.kmeans bytes
  (num_lists, b2) ← get_le 8 b1
  (lists, rest) ← get_list get_entries num_lists b2
  value (
    record x { kmeans = kmeans; lists = lists; list_metrics = replicate num_lists no_metrics },
    rest,
  )

unfoldable pub save : Bytes → IvfFlatIndex → File → StatusOr File
unfolding put_state save_trained
save padding x f =
    put_le 4 x.config.nlist f
    >>= put_le 1 (of_bool x.trained)
    >>= put_le 8 (length x.buffer_ids)
    >>= put (float_bytes x.buffer_ids)
    >>= put_map (put_state padding) x.docs
    >>= save_trained x.trained x

unfoldable pub load : IvfFlatIndex → Bytes → StatusOr (IvfFlatIndex × Bytes)
unfolding get_state load_trained
load x bytes = do
  (nlist, b1) ← get_le 4 bytes
  _ ← ensure (nlist == x.config.nlist) (status internal "nlist mismatch")
  (trained, b2) ← get_le 1 b1
  (size, b3) ← get_le 8 b2
  (buffer_ids, b4) ← get_floats size b3
  (docs, b5) ← get_map get_state b4
  load_trained (to_bool trained)
      (record x { trained = to_bool trained; buffer_ids = buffer_ids; docs = docs }) b5

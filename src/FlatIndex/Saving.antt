-- ===== src/FlatIndex/Saving.antt =====
-- `FlatIndex::Save` and `FlatIndex::Load`. The store, the dimension, the similarity and the kernel
-- are not in the file: the loading index has its own.
pub mod Loaded
mod Examples
use pomaisearch.Base.{ℕ, zero, suc, ◌+◌, List, [], ◌∷◌, length}
use pomaisearch.Base.Bytes.{Bytes}
use pomaisearch.Base.Maps.{nat_key, assign}
use pomaisearch.Status.{StatusOr, value, ◌>>=◌}
use pomaisearch.File.{
  File, put, put_le, put_list, float_bytes, get_le, get_floats, get_list, of_bool, to_bool,
}
use pomaisearch.FlatIndex.{FlatIndex, Item}

unfoldable pub put_item : Item → File → StatusOr File
put_item item f = put_le 8 item.offset f >>= put_le 4 item.norm >>= put_le 1 (of_bool item.deleted)

-- An id has the four bytes of a `float`.
unfoldable pub save : FlatIndex → File → StatusOr File
unfolding put_item
save x f =
    put_le 8 x.max_points f
    >>= put_le 8 (length x.ids)
    >>= put (float_bytes x.ids)
    >>= put_le 8 (length x.items)
    >>= put_list put_item x.items

unfoldable pub get_item : Bytes → StatusOr (Item × Bytes)
get_item bytes = do
  (offset, b1) ← get_le 8 bytes
  (norm, b2) ← get_le 4 b1
  (deleted, b3) ← get_le 1 b2
  value (record { offset = offset; norm = norm; deleted = to_bool deleted }, b3)

-- `id_to_index_[ids_[i]] = i` for each place from `i` on.
unfoldable pub index_from : ℕ → List ℕ → List (ℕ × ℕ) → List (ℕ × ℕ)
index_from i [] m = m
index_from i (id ∷ ids) m = index_from (i + 1) ids (assign id i m)

unfoldable pub load : FlatIndex → Bytes → StatusOr (FlatIndex × Bytes)
unfolding get_item index_from
load x bytes = do
  (max_points, b1) ← get_le 8 bytes
  (ids_size, b2) ← get_le 8 b1
  (ids, b3) ← get_floats ids_size b2
  (items_size, b4) ← get_le 8 b3
  (items, b5) ← get_list get_item items_size b4
  value (
    record x {
      max_points = max_points;
      ids = ids;
      items = items;
      id_to_index = index_from 0 ids [];
    },
    b5,
  )

-- ===== src/FlatIndex/Saving/Examples.antt =====
-- The theorem on a flat index in a file at a small index.
use pomaisearch.Base.{◌≡◌, refl, [], ◌∷◌, ◌++◌, arith}
use pomaisearch.Base.Bytes.{Bytes}
use pomaisearch.Base.Maps.{find, emplace}
use pomaisearch.Float.{one_float}
use pomaisearch.Status.{value}
use pomaisearch.Types.{dot}
use pomaisearch.File.{File, put, le_bytes, float_bytes, put_list}
use pomaisearch.File.Laws.{written}
use pomaisearch.FlatIndex.{FlatIndex, init, upsert}
use pomaisearch.FlatIndex.Entries.{IsValid, init-IsValid, upsert-IsValid}
use pomaisearch.FlatIndex.Saving.{save, load, put_item}
use pomaisearch.FlatIndex.Saving.Loaded.{FitsFile, IsReloaded, load-save_index}

abbrev empty_index : FlatIndex
empty_index = init 2 dot 8

abbrev two_items : FlatIndex
two_items = (upsert (upsert empty_index 4 0 one_float).0 9 1 one_float).0

abbrev two_items-IsValid : IsValid two_items
two_items-IsValid =
    upsert-IsValid _ (upsert-IsValid _ (init-IsValid 2 dot 8) 4 0 one_float) 9 1 one_float

two_items-FitsFile : FitsFile two_items
unfolding upsert init find emplace
two_items-FitsFile = record {
  fits_points = omega arith;
  fits_count = omega arith;
  fits_ids = (omega arith, (omega arith, tt));
  fits_items = ((omega arith, omega arith), ((omega arith, omega arith), tt));
}

abbrev file : File
file = record { contents = 1 ∷ []; room = 100 }

save_example : save two_items file ≡ value (written file (save two_items file))
unfolding upsert init find emplace save put_item put put_list le_bytes float_bytes
save_example = refl

load-save_index_example :
    (bytes : Bytes) × ((written file (save two_items file)).contents ≡ 1 ∷ bytes)
    × ((y : FlatIndex) × (load empty_index (bytes ++ 9 ∷ []) ≡ value (y, 9 ∷ []))
        × IsReloaded two_items y)
load-save_index_example =
    load-save_index two_items two_items-IsValid two_items-FitsFile empty_index file (9 ∷ [])
      save_example

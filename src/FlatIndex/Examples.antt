-- ===== src/FlatIndex/Examples.antt =====
-- The theorems on the flat index at a small index.
use pomaisearch.Base.{◌≡◌, refl, [], ◌∷◌, ◌==◌, ◌&&◌, if◌then◌else◌, arith, some, none}
use pomaisearch.Float.{dot_scalar, one_float}
use pomaisearch.Float.Examples.{machine}
use pomaisearch.Status.{is_ok, ok_status, value}
use pomaisearch.Types.{Filter, dot}
use pomaisearch.VectorStore.{VectorStore}
use pomaisearch.VectorStore
use pomaisearch.Base.Maps.{find, emplace, nat_key}
use pomaisearch.FlatIndex.{FlatIndex, init, upsert, delete, search, live_item, mark_deleted}
use pomaisearch.FlatIndex.Entries.{
  IsValid, entry, init-IsValid, upsert-IsValid, upsert-entry, delete-entry,
}
use pomaisearch.FlatIndex.Search.{best_items, search-best}

abbrev no_filter : Filter
no_filter = record { tag = none; source = none; lang = none }

abbrev empty_index : FlatIndex
empty_index = init 2 dot 8

abbrev empty_index-IsValid : IsValid empty_index
empty_index-IsValid = init-IsValid 2 dot 8

abbrev one_item : FlatIndex
one_item = (upsert empty_index 4 0 one_float).0

abbrev one_item-IsValid : IsValid one_item
one_item-IsValid = upsert-IsValid empty_index empty_index-IsValid 4 0 one_float

dim_example : one_item.dim ≡ 2
unfolding upsert init find emplace
dim_example = refl

entry_example : entry one_item 4 ≡ some (live_item 0 one_float)
unfolding entry upsert init find emplace
entry_example = refl

upsert-entry_example : entry (upsert one_item 5 1 one_float).0 5 ≡ (
    if is_ok (upsert one_item 5 1 one_float).1 && 5 == 5
    then some (live_item 1 one_float)
    else entry one_item 5)
upsert-entry_example = upsert-entry one_item one_item-IsValid 5 5 1 one_float

delete-entry_example :
    ((delete one_item 4).1 ≡ ok_status)
    × (entry (delete one_item 4).0 4 ≡ some (mark_deleted (live_item 0 one_float)))
delete-entry_example =
    delete-entry one_item one_item-IsValid 4 4 (live_item 0 one_float) entry_example

abbrev store : VectorStore
store = (VectorStore.insert (VectorStore.init 2 32 4) (5 ∷ 6 ∷ [])).0

search-best_example :
    search machine
      (dot_scalar machine)
      store
      one_item
      (record { elements = some (1 ∷ 2 ∷ []); dim = one_item.dim })
      3
      no_filter
    ≡ value (best_items machine (dot_scalar machine) store one_item (1 ∷ 2 ∷ []) 3)
search-best_example =
    search-best machine (dot_scalar machine) store one_item (1 ∷ 2 ∷ []) 3 no_filter (omega arith)

-- ===== src/VectorStore/Examples.antt =====
-- The theorems on the vector store at small stores.
use pomaisearch.Base.{◌≡◌, ◌≢◌, refl, [], ◌∷◌, arith, length, get_or}
use pomaisearch.VectorStore.{
  VectorStore, init, insert, update, release, get, ensure_block, write_slot, grow_live, mark_live,
  take_slot,
}
use pomaisearch.VectorStore.Valid.{IsValid, init-IsValid, insert-IsValid, release-IsValid}
use pomaisearch.VectorStore.Contents.{get-insert, get-insert_ne, get-update}
use pomaisearch.VectorStore.Writes.{insert_after_revival}

abbrev empty_store : VectorStore
empty_store = init 2 32 4

abbrev empty_store-IsValid : IsValid empty_store
empty_store-IsValid = init-IsValid 2 32 4

abbrev one_vector : VectorStore
one_vector = (insert empty_store (5 ∷ 6 ∷ [])).0

abbrev one_vector-IsValid : IsValid one_vector
one_vector-IsValid = insert-IsValid empty_store empty_store-IsValid (5 ∷ 6 ∷ [])

dim_example : 2 ≡ one_vector.dim
unfolding insert take_slot grow_live mark_live write_slot ensure_block init
dim_example = refl

slots_example : length one_vector.live ≡ 1
unfolding insert take_slot grow_live mark_live write_slot ensure_block init
slots_example = refl

live_example : get_or one_vector.live 0 0 ≡ 1
unfolding insert take_slot grow_live mark_live write_slot ensure_block init
live_example = refl

get-insert_example :
    get (insert one_vector (7 ∷ 8 ∷ [])).0 (insert one_vector (7 ∷ 8 ∷ [])).1 ≡ 7 ∷ 8 ∷ []
get-insert_example = get-insert one_vector one_vector-IsValid (7 ∷ 8 ∷ []) dim_example

get-insert_ne_example :
    (0 ≢ (insert one_vector (7 ∷ 8 ∷ [])).1)
    × (get (insert one_vector (7 ∷ 8 ∷ [])).0 0 ≡ get one_vector 0)
get-insert_ne_example =
    get-insert_ne one_vector one_vector-IsValid (7 ∷ 8 ∷ []) dim_example 0
      (omega (arith, slots_example)) (omega (arith, live_example))

get-update_example : get (update one_vector 0 (7 ∷ 8 ∷ [])) 0 ≡ 7 ∷ 8 ∷ []
get-update_example =
    get-update one_vector one_vector-IsValid (7 ∷ 8 ∷ []) dim_example 0 0
      (omega (arith, slots_example)) (omega (arith, live_example)) (omega (arith, slots_example))

insert-IsValid_example : IsValid (insert one_vector (7 ∷ 8 ∷ [])).0
insert-IsValid_example = insert-IsValid one_vector one_vector-IsValid (7 ∷ 8 ∷ [])

release-IsValid_example : IsValid (release one_vector 0)
release-IsValid_example = release-IsValid one_vector one_vector-IsValid 0

insert_after_revival_example :
    ((insert (update (release one_vector 0) 0 (1 ∷ 2 ∷ [])) (3 ∷ 4 ∷ [])).1 ≡ 0)
    × (get (update (release one_vector 0) 0 (1 ∷ 2 ∷ [])) 0 ≡ 1 ∷ 2 ∷ [])
    × (get (insert (update (release one_vector 0) 0 (1 ∷ 2 ∷ [])) (3 ∷ 4 ∷ [])).0 0 ≡ 3 ∷ 4 ∷ [])
insert_after_revival_example =
    insert_after_revival one_vector one_vector-IsValid 0 (1 ∷ 2 ∷ []) (3 ∷ 4 ∷ [])
      (omega (arith, slots_example)) (omega (arith, live_example)) dim_example dim_example

-- ===== src/VectorStore/Saving/Examples.antt =====
-- The theorem on a vector store in a file at a small store.
use pomaisearch.Base.{ℕ, zero, suc, ◌^◌, ◌<◌, ◌≡◌, refl, sym, [], ◌∷◌, ◌++◌, arith}
use pomaisearch.Base.All.{All}
use pomaisearch.Base.Bytes.{Bytes}
use pomaisearch.Status.{value}
use pomaisearch.File.{File, put, le_bytes, float_bytes}
use pomaisearch.File.Laws.{written}
use pomaisearch.VectorStore.{
  VectorStore, init, insert, release, get, ensure_block, write_slot, grow_live, mark_live,
  take_slot, new_block,
}
use pomaisearch.VectorStore.Valid.{IsValid, init-IsValid, insert-IsValid, release-IsValid}
use pomaisearch.VectorStore.Saving.{save, save_slots, load}
use pomaisearch.VectorStore.Saving.Loaded.{savable, FitsFile, IsReloaded, load-save_store}

abbrev empty_store : VectorStore
empty_store = init 2 32 4

-- Two slots, the first of which is free again.
abbrev two_slots : VectorStore
two_slots = release (insert (insert empty_store (5 ∷ 6 ∷ [])).0 (7 ∷ 8 ∷ [])).0 0

abbrev two_slots-IsValid : IsValid two_slots
two_slots-IsValid =
    release-IsValid _
      (insert-IsValid _ (insert-IsValid _ (init-IsValid 2 32 4) (5 ∷ 6 ∷ [])) (7 ∷ 8 ∷ [])) 0

live_example : two_slots.live ≡ 0 ∷ 1 ∷ []
unfolding insert take_slot grow_live mark_live write_slot ensure_block init release new_block
live_example = refl

words_example : (get two_slots 0 ≡ 5 ∷ 6 ∷ []) × (get two_slots 1 ≡ 7 ∷ 8 ∷ [])
unfolding insert take_slot grow_live mark_live write_slot ensure_block init release new_block get
words_example = (refl, refl)

sizes_example : (two_slots.dim ≡ 2) × (two_slots.block_vectors ≡ 4)
unfolding insert take_slot grow_live mark_live write_slot ensure_block init release new_block
sizes_example = (refl, refl)

words_fit : (j : ℕ) → j < 2 → All (λ x. x < 2 ^ 32) (get two_slots j)
words_fit zero h = rw words_example.0 (omega arith, (omega arith, tt))
words_fit (suc zero) h = rw words_example.1 (omega arith, (omega arith, tt))
words_fit (suc (suc j)) h = absurd (omega arith)

two_slots-FitsFile : FitsFile two_slots
two_slots-FitsFile = record {
  words = λ j h. words_fit j (rw live_example at h);
  fits_dim = omega (arith, sizes_example.0);
  fits_size = omega (arith, sizes_example.1);
  fits_slots = rw live_example (omega arith);
  fits_floats = rw (live_example, sizes_example.0) (omega arith);
}

abbrev file : File
file = record { contents = 1 ∷ []; room = 100 }

save_example : save two_slots file ≡ value (written file (save two_slots file))
unfolding insert take_slot grow_live mark_live write_slot ensure_block init release new_block get
    save save_slots put le_bytes float_bytes
save_example = refl

load-save_store_example :
    (bytes : Bytes) × ((written file (save two_slots file)).contents ≡ 1 ∷ bytes)
    × ((u : VectorStore) × (load empty_store (bytes ++ 9 ∷ []) ≡ value (u, 9 ∷ []))
        × IsReloaded two_slots u)
unfolding init release insert
load-save_store_example =
    load-save_store two_slots (savable two_slots-IsValid) two_slots-FitsFile empty_store
      (sym sizes_example.0) file (9 ∷ []) save_example

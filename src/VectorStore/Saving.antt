-- ===== src/VectorStore/Saving.antt =====
-- `VectorStore::Save` and `VectorStore::Load`. A failing load leaves the object half read; it is
-- dropped then, with the engine that is being read.
pub mod FreeList
pub mod Slots
pub mod Loaded
mod Examples
use pomaisearch.Base.{
  ℕ, zero, suc, ◌+◌, ◌-◌, ◌*◌, ◌/◌, ◌%◌, ◌^◌, not, List, [], ◌∷◌, ◌++◌, ◌==◌, if◌then◌else◌, length,
  get_or, set, replicate, write_at,
}
use pomaisearch.Base.Bytes.{Bytes}
use pomaisearch.Float.{Float}
use pomaisearch.Status.{StatusOr, value, error, status, internal, ensure, ◌>>=◌}
use pomaisearch.File.{File, put, put_le, float_bytes, get_le, get_bytes, get_floats}
use pomaisearch.VectorStore.{VectorStore, block_offset, new_block, get}
use pomaisearch.VectorStore.Flags.{count_live}

-- The loop over the slots, with the number of those that are left.
unfoldable pub save_slots : VectorStore → ℕ → ℕ → File → StatusOr File
save_slots s zero slot f = value f
save_slots s (suc n) slot f = put (float_bytes (get s slot)) f >>= save_slots s n (slot + 1)

unfoldable pub save : VectorStore → File → StatusOr File
unfolding save_slots
save s f =
    put_le 8 s.live_count f
    >>= put_le 4 s.dim
    >>= put_le 8 s.block_vectors
    >>= put_le 8 (length s.live)
    >>= put s.live
    >>= put_le 8 (length s.live * s.dim)
    >>= save_slots s (length s.live) 0

-- `fread` to the place of a slot, in a block that is there.
unfoldable pub overwrite : VectorStore → ℕ → List Float → VectorStore
overwrite s slot vec =
    let i = slot / s.block_vectors in
    record s { blocks = set s.blocks i (write_at (get_or s.blocks i []) (block_offset s slot) vec) }

unfoldable pub load_slots : ℕ → ℕ → VectorStore → Bytes → StatusOr (VectorStore × Bytes)
unfolding overwrite
load_slots zero slot s bytes = value (s, bytes)
load_slots (suc n) slot s bytes = do
  (vec, rest) ← get_floats s.dim bytes
  load_slots n (slot + 1) (overwrite s slot vec) rest

-- The slots whose flag is not set, from the flag of slot `slot` on.
unfoldable pub dead_slots : ℕ → List ℕ → List ℕ
dead_slots slot [] = []
dead_slots slot (flag ∷ live) =
    let rest = dead_slots (slot + 1) live in if flag == 0 then slot ∷ rest else rest

-- The blocks for so many slots, all zero.
unfoldable pub with_blocks : VectorStore → ℕ → List ℕ → VectorStore
with_blocks s block_vectors live =
    let t = record s {
      block_vectors = block_vectors;
      block_floats = s.dim * block_vectors;
      live = live;
    } in
    record t {
      blocks = replicate ((length live + block_vectors - 1) / block_vectors) (new_block t);
    }

-- The end of `Load`: the count is checked, and the free list is made anew.
unfoldable pub finish : ℕ → VectorStore → Bytes → StatusOr (VectorStore × Bytes)
unfolding dead_slots
finish live_count s rest = do
  _ ← ensure (count_live s.live == live_count) (status internal "corrupt vector store")
  value (record s { live_count = count_live s.live; free_list = dead_slots 0 s.live }, rest)

unfoldable pub load : VectorStore → Bytes → StatusOr (VectorStore × Bytes)
unfolding load_slots with_blocks finish
load s bytes = do
  (live_count, b1) ← get_le 8 bytes
  (dim, b2) ← get_le 4 b1
  _ ← ensure (dim == s.dim) (status internal "dimension mismatch")
  (block_vectors, b3) ← get_le 8 b2
  _ ← ensure (not (block_vectors == 0)) (status internal "invalid block size")
  (total_slots, b4) ← get_le 8 b3
  (live, b5) ← get_bytes total_slots b4
  (total_floats, b6) ← get_le 8 b5
  _ ← ensure (total_floats == total_slots * s.dim % 2 ^ 64) (status internal "corrupt vector store")
  (t, b7) ← load_slots total_slots 0 (with_blocks s block_vectors live) b6
  finish live_count t b7

-- ===== src/VectorStore.antt =====
-- core/vectorstore/vector_store.h and vector_store.cc: the slots that hold the vectors, in blocks of
-- `block_vectors` slots. The lock of a call is the call itself: each is one atomic step here.
pub mod Flags
pub mod Valid
pub mod Contents
pub mod Writes
pub mod Saving
mod Examples
use pomaisearch.Base.{◌≡◌, refl}
use pomaisearch.Base.{
  ℕ, ◌+◌, ◌-◌, ◌*◌, ◌/◌, ◌%◌, List, [], ◌∷◌, ◌++◌, ltb, leb, ◌==◌, if◌then◌else◌, length, get_or,
  set, replicate, write_at, slice, none, some,
}
use pomaisearch.Base.Back.{front, pop_back}
use pomaisearch.Float.{Float, zero_float}

-- The back of a vector is the end of its list. A live flag is 1 or 0, as in the source.
pub record VectorStore : Type 0 where
  pub dim : ℕ
  pub alignment : ℕ
  pub block_vectors : ℕ
  pub block_floats : ℕ
  pub blocks : List (List Float)
  pub free_list : List ℕ
  pub live : List ℕ
  pub live_count : ℕ

pub record Stats : Type 0 where
  pub live_vectors : ℕ
  pub total_vectors : ℕ
  pub free_vectors : ℕ
  pub num_blocks : ℕ
  pub bytes_allocated : ℕ

-- The constructor. `reserve` changes no contents.
unfoldable pub init : ℕ → ℕ → ℕ → VectorStore
init dim alignment block_vectors =
    let size = if block_vectors == 0 then 4096 else block_vectors in
    record {
      dim = dim;
      alignment = if ltb alignment 32 then 32 else alignment;
      block_vectors = size;
      block_floats = dim * size;
      blocks = [];
      free_list = [];
      live = [];
      live_count = 0;
    }

unfoldable pub new_block : VectorStore → List Float
new_block s = replicate s.block_floats zero_float

-- The `while` adds blocks until there are `block_index + 1`.
unfoldable pub ensure_block : VectorStore → ℕ → VectorStore
unfolding new_block
ensure_block s block_index = record s {
  blocks =
      if ltb block_index (length s.blocks)
      then s.blocks
      else s.blocks ++ replicate (block_index + 1 - length s.blocks) (new_block s);
}

unfoldable pub block_offset : VectorStore → ℕ → ℕ
block_offset s slot = slot % s.block_vectors * s.dim

-- `EnsureBlock` and the `memcpy` of `dim` floats.
unfoldable pub write_slot : VectorStore → ℕ → List Float → VectorStore
unfolding ensure_block block_offset
write_slot s slot vec =
    let block_index = slot / s.block_vectors in
    let t = ensure_block s block_index in
    let dest = get_or t.blocks block_index [] in
    record t { blocks = set t.blocks block_index (write_at dest (block_offset t slot) vec) }

-- `live_.resize(slot + 1, 0)` where the slot has no flag yet.
unfoldable pub grow_live : List ℕ → ℕ → List ℕ
grow_live live slot =
    if leb (length live) slot then live ++ replicate (slot + 1 - length live) 0 else live

-- The end of `Insert` and of `Update`: room for the flag; a flag that is 0 is set and counted.
unfoldable pub mark_live : VectorStore → ℕ → VectorStore
unfolding grow_live
mark_live s slot =
    let live = grow_live s.live slot in
    record s {
      live = if get_or live slot 0 == 0 then set live slot 1 else live;
      live_count = if get_or live slot 0 == 0 then s.live_count + 1 else s.live_count;
    }

-- The slot of a new vector: the back of the free list, or a new one.
unfoldable pub take_slot : VectorStore → VectorStore × ℕ
unfolding front pop_back
take_slot s = elim (front s.free_list) [
  | some slot ↦ (record s { free_list = pop_back s.free_list }, slot)
  | none ↦ (record s { live = s.live ++ 0 ∷ [] }, length s.live)
]

unfoldable pub insert : VectorStore → List Float → VectorStore × ℕ
unfolding take_slot write_slot mark_live
insert s vec = let (t, slot) = take_slot s in (mark_live (write_slot t slot vec) slot, slot)

unfoldable pub update : VectorStore → ℕ → List Float → VectorStore
unfolding write_slot mark_live
update s slot vec = mark_live (write_slot s slot vec) slot

unfoldable pub release : VectorStore → ℕ → VectorStore
release s slot =
    if leb (length s.live) slot then s else if get_or s.live slot 0 == 0 then s else record s {
      live = set s.live slot 0;
      free_list = s.free_list ++ slot ∷ [];
      live_count = s.live_count - 1;
    }

-- `Get`: the `dim` floats at the slot's place. Out of the blocks, which is undefined in C++, it
-- reads nothing; the bounds show that no live slot is out of them.
unfoldable pub get : VectorStore → ℕ → List Float
unfolding block_offset
get s slot = slice (get_or s.blocks (slot / s.block_vectors) []) (block_offset s slot) s.dim

unfoldable pub get_stats : VectorStore → Stats
get_stats s = record {
  live_vectors = s.live_count;
  total_vectors = length s.live;
  free_vectors = length s.free_list;
  num_blocks = length s.blocks;
  bytes_allocated = length s.blocks * s.block_floats * 4;
}

pub dim-init : (dim alignment block_vectors : ℕ) → (init dim alignment block_vectors).dim ≡ dim
unfolding init
dim-init dim alignment block_vectors = refl

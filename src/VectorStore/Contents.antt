-- ===== src/VectorStore/Contents.antt =====
-- A vector is read back from the slot where it was written, and every other slot keeps its own.
use native.Mathlib.Decide.{ℕ_discrete}
use native.Mathlib.Nat.{mod-lt, div-add-mod}
use native.Mathlib.Decide.{ℕ_discrete, dec_lt}
use mathlib.Core.Path.{subst}
use pomaisearch.Base.{
  ◌==◌, ℕ, ◌+◌, ◌*◌, ◌/◌, ◌%◌, ◌≤◌, ◌<◌, ◌≡◌, ◌≢◌, refl, sym, ap, ◌∙◌, inl, inr, List, [], arith,
  ltb, if◌then◌else◌, length, get_or, set, write_at, slice, get_or-set_self, get_or-set_ne,
  get_or-append_left, Bool-cases, Option-cases, slice-write_at_self, slice-write_at_before,
  slice-write_at_after,
}
use pomaisearch.Base.All.{All-get_or}
use pomaisearch.Base.Back.{front, All-front}
use pomaisearch.Float.{Float}
use pomaisearch.VectorStore.{VectorStore, ensure_block, write_slot, insert, update, get}
use pomaisearch.VectorStore.Valid.{
  IsValid, HasBlocks, ensure_block-length, ensure_block-full, insert_reuse, insert_new, update_live,
}

-- A row of `dim` floats lies inside its block.
pub row_fits : (r size dim : ℕ) → r < size → r * dim + dim ≤ dim * size
row_fits r size dim h = grind arith

rows_apart : (r q dim : ℕ) → r < q → r * dim + dim ≤ q * dim
rows_apart r q dim h = grind arith

same_slot : (i j size : ℕ) → i / size ≡ j / size → i % size ≡ j % size → i ≡ j
same_slot i j size h k = grind (arith, div-add-mod i size, div-add-mod j size)

ensure_block-keeps :
    (s : VectorStore) (i j : ℕ)
    → j < length s.blocks
    → get_or (ensure_block s i).blocks j [] ≡ get_or s.blocks j []
unfolding ensure_block
ensure_block-keeps s i j h = elim (Bool-cases (ltb i (length s.blocks))) [
  | inl e ↦ rw e refl
  | inr e ↦ rw e (get_or-append_left s.blocks _ j [] h)
]

-- One block changes, and in it one row.
module _ (blocks : List (List Float)) (i : ℕ) where
  block_self :
      (off dim : ℕ) (vec : List Float)
      → length vec ≡ dim
      → i < length blocks
      → off + dim ≤ length (get_or blocks i [])
      → slice (get_or (set blocks i (write_at (get_or blocks i []) off vec)) i []) off dim ≡ vec
  block_self off dim vec fits h room =
      rw (get_or-set_self blocks i (write_at (get_or blocks i []) off vec) [] h) (
        subst (λ n. slice (write_at (get_or blocks i []) off vec) off n ≡ vec) fits
          (slice-write_at_self (get_or blocks i []) off vec (omega arith)))

  row_other :
      (b : List Float) (row q dim : ℕ) (vec : List Float)
      → length vec ≡ dim
      → row ≢ q
      → slice (write_at b (row * dim) vec) (q * dim) dim ≡ slice b (q * dim) dim
  row_other b row q dim vec fits n = elim (dec_lt row q) [
    | yes h ↦
        slice-write_at_after b (row * dim) vec (q * dim) dim (omega (arith, rows_apart row q dim h))
    | no h ↦
        slice-write_at_before b (row * dim) vec (q * dim) dim
          (omega (arith, rows_apart q row dim (omega arith)))
  ]

  block_other :
      (row j q dim : ℕ) (vec : List Float)
      → length vec ≡ dim
      → i < length blocks
      → (j ≡ i → q ≡ row → ⊥)
      → slice
          (get_or (set blocks i (write_at (get_or blocks i []) (row * dim) vec)) j [])
          (q * dim)
          dim
        ≡ slice (get_or blocks j []) (q * dim) dim
  block_other row j q dim vec fits h apart = elim (ℕ_discrete i j) [
    | yes e ↦
        subst
          (λ k.
            slice (get_or (set blocks i (write_at (get_or blocks i []) (row * dim) vec)) k [])
              (q * dim) dim
            ≡ slice (get_or blocks k []) (q * dim) dim)
          e
          (rw (get_or-set_self blocks i (write_at (get_or blocks i []) (row * dim) vec) [] h)
            (row_other (get_or blocks i []) row q dim vec fits (λ r. apart (sym e) (sym r))))
    | no n ↦ rw (get_or-set_ne blocks i j _ [] n) refl
  ]

module _ (s : VectorStore) (v : HasBlocks s) (slot : ℕ) (vec : List Float)
    (fits : length vec ≡ s.dim) where
  -- The block of the slot is a full block.
  here :
      length (get_or (ensure_block s (slot / s.block_vectors)).blocks (slot / s.block_vectors) [])
      ≡ s.dim * s.block_vectors
  here =
      let i = slot / s.block_vectors in
      All-get_or _ (ensure_block s i).blocks i [] (ensure_block-length s i).0
        (ensure_block-full s v.blocks_full i)
      ∙ v.block_size

  pub get-write_slot : get (write_slot s slot vec) slot ≡ vec
  unfolding get write_slot
  get-write_slot =
      let i = slot / s.block_vectors in
      block_self (ensure_block s i).blocks i (slot % s.block_vectors * s.dim) s.dim vec fits
        (ensure_block-length s i).0
        (omega (
          arith,
          here,
          row_fits (slot % s.block_vectors) s.block_vectors s.dim (mod-lt slot v.some_slots),
        ))

  pub get-write_slot_ne :
      (j : ℕ)
      → j ≢ slot
      → j / s.block_vectors < length s.blocks
      → get (write_slot s slot vec) j ≡ get s j
  unfolding get write_slot
  get-write_slot_ne j n old =
      let i = slot / s.block_vectors in
      block_other (ensure_block s i).blocks i (slot % s.block_vectors) (j / s.block_vectors)
        (j % s.block_vectors) s.dim vec fits (ensure_block-length s i).0
        (λ (p : j / s.block_vectors ≡ i) q. n (same_slot j slot s.block_vectors p q))
      ∙ ap (λ b. slice b (j % s.block_vectors * s.dim) s.dim)
          (ensure_block-keeps s i (j / s.block_vectors) old)

pub block_of_below : (j size n : ℕ) → j < n * size → j / size < n
block_of_below j size n h = grind (arith, div-add-mod j size)

block_below :
    (s : VectorStore) (v : IsValid s) (j : ℕ)
    → j < length s.live
    → j / s.block_vectors < length s.blocks
block_below s v j h = block_of_below j s.block_vectors (length s.blocks) (omega (arith, v.covered))

module _ (s : VectorStore) (v : IsValid s) (vec : List Float) (fits : length vec ≡ s.dim) where
  -- `Insert` into a valid store, of a vector of its dimension, stores the vector at the slot that it
  -- returns.
  pub get-insert : get (insert s vec).0 (insert s vec).1 ≡ vec
  unfolding get
  get-insert = elim (Option-cases (front s.free_list)) [
    | inr (slot, e) ↦ rw (insert_reuse s v vec slot e) (get-write_slot s v.has_blocks slot vec fits)
    | inl e ↦ rw (insert_new s v vec e) (get-write_slot s v.has_blocks (length s.live) vec fits)
  ]

  -- `Insert` of a vector of the store's dimension into a valid store, in which no slot of the free list is
  -- in use, does not return a slot that is in use, and every slot in use keeps its vector.
  pub get-insert_ne :
      (j : ℕ)
      → j < length s.live
      → get_or s.live j 0 ≢ 0
      → (j ≢ (insert s vec).1) × (get (insert s vec).0 j ≡ get s j)
  unfolding get
  get-insert_ne j old alive = elim (Option-cases (front s.free_list)) [
    | inr (slot, e) ↦
        let dead = All-front _ s.free_list v.balanced.free_dead e in
        let apart : j ≢ slot = λ q. alive (ap (λ k. get_or s.live k 0) q ∙ dead.1) in
        rw (insert_reuse s v vec slot e)
          (apart, get-write_slot_ne s v.has_blocks slot vec fits j apart (block_below s v j old))
    | inl e ↦
        let apart : j ≢ length s.live = omega arith in
        rw (insert_new s v vec e) (
          apart,
          get-write_slot_ne s v.has_blocks (length s.live) vec fits j apart (block_below s v j old),
        )
  ]

  -- In a valid store, overwriting a live slot by a vector of the store's dimension stores the vector
  -- there, and every other slot that has a flag keeps its own.
  pub get-update :
      (slot j : ℕ)
      → slot < length s.live
      → get_or s.live slot 0 ≢ 0
      → j < length s.live
      → get (update s slot vec) j ≡ (if j == slot then vec else get s j)
  unfolding get
  get-update slot j h alive old = rw (update_live s v slot vec h alive) (elim (ℕ_discrete j slot) [
    | yes p ↦
        let here = get-write_slot s v.has_blocks slot vec fits in
        ground (arith, p, ap (get (write_slot s slot vec)) p ∙ here)
    | no n ↦
        ground
          (arith, n, get-write_slot_ne s v.has_blocks slot vec fits j n (block_below s v j old))
  ])

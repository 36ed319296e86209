-- ===== src/VectorStore/Valid.antt =====
-- What holds of the store between calls, and that every call keeps it.
use native.Mathlib.Nat.{mod-lt, div-add-mod}
use pomaisearch.Base.{
  ℕ, ◌+◌, ◌-◌, ◌*◌, ◌/◌, ◌≤◌, ◌<◌, ◌≡◌, ◌≢◌, ◌⊎◌, refl, ap, ◌∙◌, inl, inr, List, [], ◌∷◌, ◌++◌,
  none, some, arith, ltb, leb, ◌==◌, length, get_or, set, replicate, length-append, length-set,
  length-replicate, length-write_at, Bool-cases, Option-cases,
}
use pomaisearch.Base.All.{All, All-append, All-set, All-replicate, All-get_or}
use pomaisearch.Base.Back.{front, pop_back, All-front}
use pomaisearch.Float.{Float}
use pomaisearch.VectorStore.{
  VectorStore, init, new_block, ensure_block, write_slot, insert, update, release,
}
use pomaisearch.VectorStore.Flags.{
  Balanced, Balanced-nil, Balanced-pop, Balanced-new, Balanced-release,
}

pub record HasBlocks (s : VectorStore) : Type 0 where
  pub some_slots : 0 < s.block_vectors
  pub block_size : s.block_floats ≡ s.dim * s.block_vectors
  pub blocks_full : All (λ (b : List Float). length b ≡ s.block_floats) s.blocks

-- The flags have no part in it.
pub relabel :
    {s : VectorStore}
    → HasBlocks s
    → (live free : List ℕ) (count : ℕ)
    → HasBlocks (record s { live = live; free_list = free; live_count = count })
relabel h live free count = record {
  some_slots = h.some_slots;
  block_size = h.block_size;
  blocks_full = h.blocks_full;
}

pub record IsValid (s : VectorStore) : Type 0 where
  pub has_blocks : HasBlocks s
  pub open has_blocks use *
  pub covered : length s.live ≤ length s.blocks * s.block_vectors
  pub balanced : Balanced s.live s.free_list s.live_count

pub init-IsValid : (dim alignment block_vectors : ℕ) → IsValid (init dim alignment block_vectors)
unfolding init
init-IsValid dim alignment block_vectors = record {
  has_blocks = record { some_slots = ground arith; block_size = refl; blocks_full = tt };
  covered = omega arith;
  balanced = Balanced-nil;
}

-- The block of a slot, once the store has been made to hold it.
module _ (s : VectorStore)
    (full : All (λ (b : List Float). length b ≡ s.block_floats) s.blocks) where
  pub ensure_block-full :
      (i : ℕ) → All (λ (b : List Float). length b ≡ s.block_floats) (ensure_block s i).blocks
  unfolding ensure_block new_block
  ensure_block-full i = elim (Bool-cases (ltb i (length s.blocks))) [
    | inl e ↦ rw e full
    | inr e ↦ rw e (
        All-append _ s.blocks _ full
          (All-replicate _ (i + 1 - length s.blocks) _ (length-replicate s.block_floats 0)))
  ]

  pub write_slot-full :
      (slot : ℕ) (vec : List Float)
      → slot / s.block_vectors < length (ensure_block s (slot / s.block_vectors)).blocks
      → All (λ (b : List Float). length b ≡ s.block_floats) (write_slot s slot vec).blocks
  unfolding write_slot
  write_slot-full slot vec here =
      let i = slot / s.block_vectors in
      All-set _ (ensure_block s i).blocks i _
        (length-write_at (get_or (ensure_block s i).blocks i []) _ vec
          ∙ All-get_or _ (ensure_block s i).blocks i [] here (ensure_block-full i))
        (ensure_block-full i)

pub ensure_block-length :
    (s : VectorStore) (i : ℕ)
    → (i < length (ensure_block s i).blocks) × (length s.blocks ≤ length (ensure_block s i).blocks)
unfolding ensure_block
ensure_block-length s i = ground (
  arith,
  length-append s.blocks (replicate (i + 1 - length s.blocks) (new_block s)),
  length-replicate (i + 1 - length s.blocks) (new_block s),
)

-- The blocks reach past the slot, and no block is lost.
write_slot-covers :
    (s : VectorStore) (slot : ℕ) (vec : List Float)
    → (slot / s.block_vectors < length (write_slot s slot vec).blocks)
      × (length s.blocks ≤ length (write_slot s slot vec).blocks)
unfolding write_slot
write_slot-covers s slot vec =
    let i = slot / s.block_vectors in
    rw (length-set (ensure_block s i).blocks i _) (ensure_block-length s i)

pub write_slot-HasBlocks :
    (s : VectorStore)
    → HasBlocks s
    → (slot : ℕ) (vec : List Float) → HasBlocks (write_slot s slot vec)
unfolding write_slot
write_slot-HasBlocks s v slot vec = record {
  some_slots = v.some_slots;
  block_size = v.block_size;
  blocks_full =
      write_slot-full s v.blocks_full slot vec (ensure_block-length s (slot / s.block_vectors)).0;
}

below_of_block : (slot size n : ℕ) → 0 < size → slot / size < n → slot < n * size
below_of_block slot size n p h = grind (arith, div-add-mod slot size, mod-lt slot p)

cover_mono : (a m n size : ℕ) → a ≤ m * size → m ≤ n → a ≤ n * size
cover_mono a m n size h k = grind arith

module _ (s : VectorStore) (v : IsValid s) where
  -- A write to a slot, with flags that balance and reach no further than the blocks.
  rebuild :
      (slot : ℕ) (vec : List Float) (live free : List ℕ) (count : ℕ)
      → (length live ≤ length s.live) ⊎ (length live ≤ slot + 1)
      → Balanced live free count
      → IsValid
          (record (write_slot s slot vec) { live = live; free_list = free; live_count = count })
  unfolding write_slot
  rebuild slot vec live free count within flags = record {
    has_blocks = relabel (write_slot-HasBlocks s v.has_blocks slot vec) live free count;
    covered =
        unfold write_slot in
        elim within [
          | inl old ↦
              cover_mono (length live) (length s.blocks) _ s.block_vectors
                (omega (arith, v.covered)) (write_slot-covers s slot vec).1
          | inr new ↦ omega (
            arith,
            below_of_block slot s.block_vectors _ v.some_slots (write_slot-covers s slot vec).0,
          )
        ];
    balanced = flags;
  }

  pub insert_reuse :
      (vec : List Float) (slot : ℕ)
      → front s.free_list ≡ some slot
      → insert s vec ≡ (
        record (write_slot s slot vec) {
          live = set s.live slot 1;
          free_list = pop_back s.free_list;
          live_count = s.live_count + 1;
        },
        slot,
      )
  unfolding insert
  insert_reuse vec slot e = ground (arith, e, All-front _ s.free_list v.balanced.free_dead e)

  set_end : (live : List ℕ) → set (live ++ 0 ∷ []) (length live) 1 ≡ live ++ 1 ∷ []
  set_end [] = refl
  set_end (x ∷ xs) = ap (◌∷◌ x) (set_end xs)

  get_end : (live : List ℕ) → get_or (live ++ 0 ∷ []) (length live) 0 ≡ 0
  get_end [] = refl
  get_end (x ∷ xs) = get_end xs

  pub insert_new :
      (vec : List Float)
      → front s.free_list ≡ none
      → insert s vec ≡ (
        record (write_slot s (length s.live) vec) {
          live = s.live ++ 1 ∷ [];
          live_count = s.live_count + 1;
        },
        length s.live,
      )
  unfolding insert
  insert_new vec e =
      ground (arith, e, set_end s.live, get_end s.live, length-append s.live (0 ∷ []))

  -- Inserting into a valid store keeps it valid.
  pub insert-IsValid : (vec : List Float) → IsValid (insert s vec).0
  unfolding write_slot
  insert-IsValid vec = elim (Option-cases (front s.free_list)) [
    | inr (slot, e) ↦ rw (insert_reuse vec slot e) (
        rebuild slot vec _ _ _ (inl (omega (arith, length-set s.live slot 1)))
          (Balanced-pop v.balanced slot e))
    | inl e ↦ rw (insert_new vec e) (
        rebuild (length s.live) vec _ _ _ (inr (omega (arith, length-append s.live (1 ∷ []))))
          (Balanced-new v.balanced))
  ]

  -- Overwriting a live slot changes no flag.
  pub update_live :
      (slot : ℕ) (vec : List Float)
      → slot < length s.live
      → get_or s.live slot 0 ≢ 0
      → update s slot vec ≡ write_slot s slot vec
  unfolding update
  update_live slot vec h e = ground arith

  pub update-IsValid :
      (slot : ℕ) (vec : List Float)
      → slot < length s.live
      → get_or s.live slot 0 ≢ 0
      → IsValid (update s slot vec)
  update-IsValid slot vec h e = rw (update_live slot vec h e) (
      unfold write_slot in
      rebuild slot vec s.live s.free_list s.live_count (inl (omega arith)) v.balanced)

  -- Releasing any slot of a valid store, live, dead or unknown, keeps it valid.
  pub release-IsValid : (slot : ℕ) → IsValid (release s slot)
  unfolding release
  release-IsValid slot = elim (Bool-cases (leb (length s.live) slot)) [
    | inl e ↦ rw e v
    | inr e ↦ rw e (elim (Bool-cases (get_or s.live slot 0 == 0)) [
      | inl d ↦ rw d v
      | inr d ↦ rw d (record {
        has_blocks = relabel v.has_blocks _ _ _;
        covered = omega (arith, v.covered, length-set s.live slot 0);
        balanced = Balanced-release v.balanced slot (ground arith) (ground arith);
      })
    ])
  ]

-- The blocks stay whole under every call, whatever the flags say.
pub release-HasBlocks :
    (s : VectorStore)
    → HasBlocks s
    → (slot : ℕ) → HasBlocks (release s slot) × ((release s slot).dim ≡ s.dim)
unfolding release
release-HasBlocks s h slot = elim (Bool-cases (leb (length s.live) slot)) [
  | inl e ↦ rw e (h, refl)
  | inr e ↦ rw e (elim (Bool-cases (get_or s.live slot 0 == 0)) [
    | inl d ↦ rw d (h, refl)
    | inr d ↦ rw d (relabel h _ _ _, refl)
  ])
]

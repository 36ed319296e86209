-- ===== src/VectorStore/Saving/Loaded.antt =====
-- A store that was saved is loaded with the same flags and vectors.
use native.Mathlib.Nat.{mod-lt, div-add-mod}
use pomaisearch.Base.{
  ℕ, ◌+◌, ◌-◌, ◌*◌, ◌/◌, ◌%◌, ◌^◌, ◌≤◌, ◌<◌, ◌≡◌, refl, sym, ap, ◌∙◌, true, false, List, [], ◌∷◌,
  ◌++◌, arith, ◌==◌, length, get_or, replicate, length-take, length-replicate, length-drop, drop,
}
use mathlib.Core.List.{append_assoc}
use pomaisearch.Base.Bytes.{Bytes}
use pomaisearch.Base.All.{All, All-replicate, All-get_or}
use pomaisearch.Float.{Float}
use pomaisearch.Status.{value, ◌>>=◌}
use pomaisearch.File.{File, put, le_bytes}
use pomaisearch.File.Laws.{put-put, put-then, put-contents, get_le-le_bytes, get_bytes-append}
use pomaisearch.VectorStore.{VectorStore, new_block, block_offset, get}
use pomaisearch.VectorStore.Flags.{count_live}
use pomaisearch.VectorStore.Valid.{IsValid, HasBlocks, relabel}
use pomaisearch.VectorStore.Contents.{block_of_below, row_fits}
use pomaisearch.VectorStore.Saving.{save, load_slots, dead_slots, with_blocks, finish, load}
use pomaisearch.VectorStore.Saving.FreeList.{dead_slots-Balanced}
use pomaisearch.VectorStore.Saving.Slots.{
  encode_slots, save_slots-put, Reaches, load_slots-encode_slots,
}

unfoldable pub encode : VectorStore → Bytes
unfolding encode_slots
encode s =
    le_bytes 8 s.live_count
    ++ le_bytes 4 s.dim
    ++ le_bytes 8 s.block_vectors
    ++ le_bytes 8 (length s.live)
    ++ s.live
    ++ le_bytes 8 (length s.live * s.dim)
    ++ encode_slots s (length s.live) 0

pub save-put : (s : VectorStore) (f : File) → save s f ≡ put (encode s) f
unfolding save encode
save-put s f =
    simp put-put
      (put-then _ (encode_slots s (length s.live) 0) f (save_slots-put s (length s.live) 0))

block_full :
    (s : VectorStore)
    → HasBlocks s
    → (slot : ℕ) → slot / s.block_vectors < length s.blocks
    → length (get s slot) ≡ s.dim
unfolding get block_offset
block_full s v slot h =
    let b = get_or s.blocks (slot / s.block_vectors) [] in
    let row = slot % s.block_vectors in
    let size : length b ≡ s.dim * s.block_vectors =
      All-get_or _ s.blocks (slot / s.block_vectors) [] h v.blocks_full ∙ v.block_size in
    omega (
      arith,
      length-take s.dim (drop (row * s.dim) b),
      length-drop (row * s.dim) b,
      size,
      row_fits row s.block_vectors s.dim (mod-lt slot v.some_slots),
    )

rounded_up : (n size : ℕ) → 0 < size → n ≤ (n + size - 1) / size * size
rounded_up n size h = grind (arith, div-add-mod (n + size - 1) size, mod-lt (n + size - 1) h)

with_blocks-Reaches :
    (t : VectorStore) (size : ℕ) (live : List ℕ)
    → 0 < size
    → Reaches (length live) (with_blocks t size live)
unfolding with_blocks new_block
with_blocks-Reaches t size live h =
    let count = (length live + size - 1) / size in
    record {
      whole = record {
        some_slots = h;
        block_size = refl;
        blocks_full = All-replicate _ count _ (length-replicate (t.dim * size) 0);
      };
      wide =
          rw (length-replicate count (replicate {A = Float} (t.dim * size) 0))
            (rounded_up (length live) size h);
    }

-- What of a store has to be right for it to be saved: its blocks, and the count of its live slots.
-- The free list has no part in it.
pub record IsSavable (s : VectorStore) : Type 0 where
  pub whole : HasBlocks s
  pub covered : length s.live ≤ length s.blocks * s.block_vectors
  pub counted : s.live_count ≡ count_live s.live

pub savable : {s : VectorStore} → IsValid s → IsSavable s
savable v = record { whole = v.has_blocks; covered = v.covered; counted = v.balanced.counted }

count_live-le : (live : List ℕ) → count_live live ≤ length live
count_live-le [] = omega arith
count_live-le (x ∷ live) = ground (arith, count_live-le live)

-- What a store and the one that was loaded from it share.
pub record IsReloaded (s u : VectorStore) : Type 0 where
  pub valid : IsValid u
  pub same_dim : u.dim ≡ s.dim
  pub same_live : u.live ≡ s.live
  pub same_count : u.live_count ≡ s.live_count
  pub same_vectors : (j : ℕ) → j < length s.live → get u j ≡ get s j

-- What the numbers of a store must be for the file to hold them.
pub record FitsFile (s : VectorStore) : Type 0 where
  pub words : (j : ℕ) → j < length s.live → All (λ x. x < 2 ^ 32) (get s j)
  pub fits_dim : s.dim < 2 ^ 32
  pub fits_size : s.block_vectors < 2 ^ 64
  pub fits_slots : length s.live < 2 ^ 64
  pub fits_floats : length s.live * s.dim < 2 ^ 64

-- `Load` as far as the loop.
load_header :
    (t : VectorStore) (count dim size : ℕ) (live body : List ℕ)
    → t.dim ≡ dim
    → count < 2 ^ 64
    → dim < 2 ^ 32
    → size < 2 ^ 64
    → 0 < size
    → length live < 2 ^ 64
    → length live * dim < 2 ^ 64
    → load t (
        le_bytes 8 count
        ++ (le_bytes 4 dim
            ++ (le_bytes 8 size
                ++ (le_bytes 8 (length live)
                    ++ (live ++ (le_bytes 8 (length live * dim) ++ body))))))
      ≡ (load_slots (length live) 0 (with_blocks t size live) body >>= λ (u, rest).
          finish count u rest)
unfolding load
load_header t count dim size live body same h1 h2 h3 h4 h5 h6 =
    let floats = le_bytes 8 (length live * dim) ++ body in
    let slots = le_bytes 8 (length live) ++ (live ++ floats) in
    let sizes = le_bytes 8 size ++ slots in
    let some_size : (size == 0) ≡ false = ground arith in
    let right_dim : (dim == t.dim) ≡ true = ground arith in
    let wraps : (length live * dim == length live * t.dim % 2 ^ 64) ≡ true =
      rw same (ground arith) in
    rw (get_le-le_bytes 8 count (le_bytes 4 dim ++ sizes) (omega arith)) (
      rw (get_le-le_bytes 4 dim sizes (omega arith)) (
        rw right_dim (
          rw (get_le-le_bytes 8 size slots (omega arith)) (
            rw some_size (
              rw (get_le-le_bytes 8 (length live) (live ++ floats) (omega arith)) (
                rw (get_bytes-append live floats) (
                  rw (get_le-le_bytes 8 (length live * dim) body (omega arith))
                    (rw wraps refl))))))))

module _ (s : VectorStore) (v : IsSavable s) (w : FitsFile s) (t : VectorStore)
    (same : t.dim ≡ s.dim) where
  encode-append :
      (rest : Bytes)
      → encode s ++ rest
        ≡ le_bytes 8 s.live_count
          ++ (le_bytes 4 s.dim
              ++ (le_bytes 8 s.block_vectors
                  ++ (le_bytes 8 (length s.live)
                      ++ (s.live
                          ++ (le_bytes 8 (length s.live * s.dim)
                              ++ (encode_slots s (length s.live) 0 ++ rest))))))
  unfolding encode
  encode-append rest = simp append_assoc

  finish_loaded :
      (u : VectorStore) (rest : Bytes)
      → count_live u.live ≡ s.live_count
      → finish s.live_count u rest
        ≡ value (record u { live_count = count_live u.live; free_list = dead_slots 0 u.live }, rest)
  unfolding finish
  finish_loaded u rest e = ground (arith, e)

  pub load-encode :
      (rest : Bytes)
      → (u : VectorStore) × (load t (encode s ++ rest) ≡ value (u, rest)) × IsReloaded s u
  load-encode rest =
      let n = length s.live in
      let sound : (j : ℕ) → j < n → (length (get s j) ≡ s.dim) × All (λ x. x < 2 ^ 32) (get s j) =
        λ j h. (
          block_full s v.whole j
              (block_of_below j s.block_vectors (length s.blocks) (omega (arith, v.covered))),
          w.words j h,
        ) in
      let begun = with_blocks t s.block_vectors s.live in
      let (filled, loaded, f) =
        load_slots-encode_slots s n sound n 0 begun rest (omega arith)
          (with_blocks-Reaches t s.block_vectors s.live v.whole.some_slots)
          (unfold with_blocks in same) in
      let live : filled.live ≡ s.live = unfold with_blocks in f.same_live in
      let count : count_live filled.live ≡ s.live_count = ap count_live live ∙ sym v.counted in
      let u : VectorStore = record filled {
        live_count = count_live filled.live;
        free_list = dead_slots 0 filled.live;
      } in
      let header =
        load_header t s.live_count s.dim s.block_vectors s.live (encode_slots s n 0 ++ rest) same
          (omega (arith, v.counted, count_live-le s.live, w.fits_slots)) w.fits_dim w.fits_size
          v.whole.some_slots w.fits_slots w.fits_floats in
      (
        u,
        ap (load t) (encode-append rest) ∙ header ∙ rw loaded (finish_loaded filled rest count),
        record {
          valid = record {
            has_blocks = relabel f.ending.whole _ _ _;
            covered = omega (arith, f.ending.wide, ap length live);
            balanced = dead_slots-Balanced filled.live;
          };
          same_dim = unfold with_blocks in (f.same_dim ∙ same);
          same_live = live;
          same_count = count;
          same_vectors = λ j h. unfold get in f.filled j (omega arith) h;
        },
      )

  -- A store with whole blocks and the right live count, its free list in order or not, is loaded from
  -- the file that it was saved to, and whatever follows what was written, into a store of its
  -- dimension: as a valid store with the same live flags, the same live count and the same
  -- vector in every slot.
  pub load-save_store :
      (f : File) (rest : Bytes) {g : File}
      → save s f ≡ value g
      → (bytes : Bytes) × (g.contents ≡ f.contents ++ bytes)
        × ((u : VectorStore) × (load t (bytes ++ rest) ≡ value (u, rest)) × IsReloaded s u)
  load-save_store f rest h =
      (encode s, put-contents (encode s) f (sym (save-put s f) ∙ h), load-encode rest)

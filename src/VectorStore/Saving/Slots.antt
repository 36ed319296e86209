-- ===== src/VectorStore/Saving/Slots.antt =====
-- The loops over the slots of `Save` and `Load`.
use native.Mathlib.Decide.{ℕ_discrete}
use pomaisearch.Base.{
  ℕ, zero, suc, ◌+◌, ◌*◌, ◌/◌, ◌^◌, ◌≤◌, ◌<◌, ◌≡◌, refl, sym, ap, ◌∙◌, List, [], ◌++◌, arith,
  length, length-set,
}
use mathlib.Core.Path.{subst}
use mathlib.Core.List.{append_assoc}
use pomaisearch.Base.Bytes.{Bytes}
use pomaisearch.Base.All.{All}
use pomaisearch.Float.{Float}
use pomaisearch.Status.{value}
use pomaisearch.File.{File, put, float_bytes, get_floats}
use pomaisearch.File.Laws.{put-then, put-nil, get_floats-float_bytes}
use pomaisearch.VectorStore.{VectorStore, ensure_block, write_slot, get}
use pomaisearch.VectorStore.Valid.{HasBlocks, write_slot-HasBlocks}
use pomaisearch.VectorStore.Contents.{get-write_slot, get-write_slot_ne, block_of_below}
use pomaisearch.VectorStore.Saving.{save_slots, overwrite, load_slots}

-- What `Save` writes.
unfoldable pub encode_slots : VectorStore → ℕ → ℕ → Bytes
encode_slots s zero slot = []
encode_slots s (suc n) slot = float_bytes (get s slot) ++ encode_slots s n (slot + 1)

pub save_slots-put :
    (s : VectorStore) (n slot : ℕ) (f : File)
    → save_slots s n slot f ≡ put (encode_slots s n slot) f
unfolding save_slots encode_slots
save_slots-put s zero slot f = sym (put-nil f)
save_slots-put s (suc n) slot f =
    put-then (float_bytes (get s slot)) (encode_slots s n (slot + 1)) f
      (save_slots-put s n (slot + 1))

-- A write to a block that is there is the one of `Insert`.
overwrite-write_slot :
    (s : VectorStore) (slot : ℕ) (vec : List Float)
    → slot / s.block_vectors < length s.blocks
    → overwrite s slot vec ≡ write_slot s slot vec
unfolding overwrite write_slot ensure_block
overwrite-write_slot s slot vec h = ground arith

-- A store in the course of `Load`: whole blocks that reach past all slots.
pub record Reaches (n : ℕ) (s : VectorStore) : Type 0 where
  pub whole : HasBlocks s
  pub wide : n ≤ length s.blocks * s.block_vectors

slot_block :
    (n : ℕ) (s : VectorStore) (slot : ℕ)
    → Reaches n s
    → slot < n
    → slot / s.block_vectors < length s.blocks
slot_block n s slot r h =
    block_of_below slot s.block_vectors (length s.blocks) (omega (arith, r.wide))

overwrite-Reaches :
    (n : ℕ) (s : VectorStore) (slot : ℕ) (vec : List Float)
    → Reaches n s
    → slot < n
    → Reaches n (overwrite s slot vec)
unfolding overwrite
overwrite-Reaches n s slot vec r h = record {
  whole =
      subst HasBlocks (sym (overwrite-write_slot s slot vec (slot_block n s slot r h)))
        (write_slot-HasBlocks s r.whole slot vec);
  wide = rw (length-set s.blocks (slot / s.block_vectors)) r.wide;
}

-- What the loop of `Load` leaves: the slots from `slot` on hold the vectors of the saved store, and
-- the slots before it are as they were.
pub record IsFilled (s : VectorStore) (n slot : ℕ) (t u : VectorStore) : Type 0 where
  pub ending : Reaches n u
  pub same_dim : u.dim ≡ t.dim
  pub same_live : u.live ≡ t.live
  pub filled : (j : ℕ) → slot ≤ j → j < n → get u j ≡ get s j
  pub kept : (j : ℕ) → j < slot → get u j ≡ get t j

module _ (s : VectorStore) (n : ℕ)
    (sound : (j : ℕ) → j < n → (length (get s j) ≡ s.dim) × All (λ x. x < 2 ^ 32) (get s j)) where
  fill_one :
      (slot : ℕ) (t u : VectorStore)
      → Reaches n t
      → t.dim ≡ s.dim
      → slot < n
      → IsFilled s n (slot + 1) (overwrite t slot (get s slot)) u
      → IsFilled s n slot t u
  fill_one slot t u r same h f =
      let vec = get s slot in
      let fits : length vec ≡ t.dim = (sound slot h).0 ∙ sym same in
      let wrote = overwrite-write_slot t slot vec (slot_block n t slot r h) in
      record {
        ending = f.ending;
        same_dim = unfold overwrite in f.same_dim;
        same_live = unfold overwrite in f.same_live;
        filled = λ j low high. elim (ℕ_discrete j slot) [
          | yes p ↦
              f.kept j (omega (arith, p))
              ∙ ap (get (overwrite t slot vec)) p
              ∙ ap (λ x. get x slot) wrote
              ∙ get-write_slot t r.whole slot vec fits
              ∙ ap (get s) (sym p)
          | no p ↦ f.filled j (omega (arith, p)) high
        ];
        kept = λ j low.
            f.kept j (omega arith)
            ∙ ap (λ x. get x j) wrote
            ∙ get-write_slot_ne t r.whole slot vec fits j (omega arith)
                (slot_block n t j r (omega arith));
      }

  pub load_slots-encode_slots :
      (k slot : ℕ) (t : VectorStore) (rest : Bytes)
      → slot + k ≡ n
      → Reaches n t
      → t.dim ≡ s.dim
      → (u : VectorStore) × (load_slots k slot t (encode_slots s k slot ++ rest) ≡ value (u, rest))
        × IsFilled s n slot t u
  unfolding load_slots encode_slots
  load_slots-encode_slots zero slot t rest e r same = (
    t,
    refl,
    record {
      ending = r;
      same_dim = refl;
      same_live = refl;
      filled = λ j low high. absurd (omega arith);
      kept = λ j low. refl;
    },
  )
  load_slots-encode_slots (suc k) slot t rest e r same =
      let vec = get s slot in
      let h : slot < n = omega arith in
      let more = encode_slots s k (slot + 1) in
      let t' = overwrite t slot vec in
      let (u, loaded, f) =
        load_slots-encode_slots k (slot + 1) t' rest (omega arith)
          (overwrite-Reaches n t slot vec r h) (unfold overwrite in same) in
      let fits : length vec ≡ t.dim = (sound slot h).0 ∙ sym same in
      let got : get_floats t.dim (float_bytes vec ++ (more ++ rest)) ≡ value (vec, more ++ rest) =
        subst (λ d. get_floats d (float_bytes vec ++ (more ++ rest)) ≡ value (vec, more ++ rest))
          fits (get_floats-float_bytes vec (more ++ rest) (sound slot h).1) in
      (
        u,
        rw (append_assoc (float_bytes vec) more rest) (rw got loaded),
        fill_one slot t u r same h f,
      )

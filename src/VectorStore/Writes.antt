-- ===== src/VectorStore/Writes.antt =====
-- What a write does whatever the flags and the free list say: a released slot that is written
-- again included, which is how the shard re-inserts a deleted key.
use pomaisearch.Base.{
  ℕ, ◌<◌, ◌≡◌, ◌≢◌, refl, sym, ap, ◌∙◌, inl, inr, List, [], ◌∷◌, ◌++◌, some, arith, length, get_or,
  Option-cases,
}
use pomaisearch.Base.Back.{front}
use pomaisearch.Float.{Float}
use pomaisearch.VectorStore.{VectorStore, write_slot, take_slot, insert, update, release, get}
use pomaisearch.VectorStore.Valid.{
  IsValid, HasBlocks, relabel, write_slot-HasBlocks, release-HasBlocks,
}
use pomaisearch.VectorStore.Contents.{get-write_slot}

-- The parts of the store that hold the vectors.
abbrev SameBlocks : VectorStore → VectorStore → Type 0
SameBlocks s t =
    (t.blocks ≡ s.blocks)
    × (t.dim ≡ s.dim)
    × (t.block_vectors ≡ s.block_vectors)
    × (t.block_floats ≡ s.block_floats)

module _ (s : VectorStore) (h : HasBlocks s) (vec : List Float) where
  -- `Update` stores the vector at its slot, live or not, and keeps the blocks and the dimension.
  pub update-HasBlocks :
      (slot : ℕ) → HasBlocks (update s slot vec) × ((update s slot vec).dim ≡ s.dim)
  unfolding update write_slot
  update-HasBlocks slot =
      let w = write_slot-HasBlocks s h slot vec in
      (
        record {
          some_slots = w.some_slots;
          block_size = w.block_size;
          blocks_full = w.blocks_full;
        },
        refl,
      )

  pub get-update_any : (slot : ℕ) → length vec ≡ s.dim → get (update s slot vec) slot ≡ vec
  unfolding update get write_slot
  get-update_any slot fits = get-write_slot s h slot vec fits

  taken-HasBlocks : HasBlocks (take_slot s).0 × ((take_slot s).0.dim ≡ s.dim)
  unfolding take_slot
  taken-HasBlocks = elim (Option-cases (front s.free_list)) [
    | inl e ↦ rw (e, take_slot) (relabel h _ _ _, refl)
    | inr (slot, e) ↦ rw (e, take_slot) (relabel h _ _ _, refl)
  ]

insert-update :
    (s : VectorStore) (vec : List Float)
    → insert s vec ≡ (update (take_slot s).0 (take_slot s).1 vec, (take_slot s).1)
unfolding insert update
insert-update s vec = refl

module _ (s : VectorStore) (h : HasBlocks s) (vec : List Float) where
  pub insert-HasBlocks : HasBlocks (insert s vec).0 × ((insert s vec).0.dim ≡ s.dim)
  insert-HasBlocks =
      let t = taken-HasBlocks s h vec in
      let u = update-HasBlocks (take_slot s).0 t.0 vec (take_slot s).1 in
      rw (insert-update s vec) (u.0, u.1 ∙ t.1)

  -- `Insert` stores the vector at the slot that it returns.
  pub get-insert_any : length vec ≡ s.dim → get (insert s vec).0 (insert s vec).1 ≡ vec
  get-insert_any fits =
      let t = taken-HasBlocks s h vec in
      rw (insert-update s vec)
        (get-update_any (take_slot s).0 t.0 vec (take_slot s).1 (fits ∙ sym t.1))

front-append_end {ℓ} : {A : Type ℓ} (xs : List A) (y : A) → front (xs ++ y ∷ []) ≡ some y
unfolding front
front-append_end [] y = refl
front-append_end (x ∷ []) y = refl
front-append_end (x ∷ z ∷ xs) y = front-append_end (z ∷ xs) y

release_free :
    (s : VectorStore) (slot : ℕ)
    → slot < length s.live
    → get_or s.live slot 0 ≢ 0
    → (release s slot).free_list ≡ s.free_list ++ slot ∷ []
unfolding release
release_free s slot h alive = ground arith

update_free :
    (s : VectorStore) (slot : ℕ) (vec : List Float) → (update s slot vec).free_list ≡ s.free_list
unfolding update
update_free s slot vec = refl

insert_slot :
    (s : VectorStore) (vec : List Float) (slot : ℕ)
    → front s.free_list ≡ some slot
    → (insert s vec).1 ≡ slot
unfolding take_slot
insert_slot s vec slot e = rw (insert-update s vec) (rw (e, take_slot) refl)

-- In a valid store, a live slot that is released and then overwritten, as a shard does when a deleted key is upserted
-- again, is still on the free list: the next insertion returns that very slot, whose vector is then
-- the new one. Two documents share the slot.
pub insert_after_revival :
    (s : VectorStore) (v : IsValid s) (slot : ℕ) (old new : List Float)
    → slot < length s.live
    → get_or s.live slot 0 ≢ 0
    → length old ≡ s.dim
    → length new ≡ s.dim
    → ((insert (update (release s slot) slot old) new).1 ≡ slot)
      × (get (update (release s slot) slot old) slot ≡ old)
      × (get (insert (update (release s slot) slot old) new).0 slot ≡ new)
insert_after_revival s v slot old new h alive fits fits' =
    let r = release s slot in
    let u = update r slot old in
    let hr = release-HasBlocks s v.has_blocks slot in
    let hu = update-HasBlocks r hr.0 old slot in
    let free : u.free_list ≡ s.free_list ++ slot ∷ [] =
      update_free r slot old ∙ release_free s slot h alive in
    let again : (insert u new).1 ≡ slot =
      insert_slot u new slot (ap front free ∙ front-append_end s.free_list slot) in
    (
      again,
      get-update_any r hr.0 old slot (fits ∙ sym hr.1),
      ap (get (insert u new).0) (sym again) ∙ get-insert_any u hu.0 new (fits' ∙ sym (hu.1 ∙ hr.1)),
    )

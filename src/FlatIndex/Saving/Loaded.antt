-- ===== src/FlatIndex/Saving/Loaded.antt =====
-- A flat index that was saved is loaded with the same items under the same ids.
use pomaisearch.Base.{
  ℕ, zero, suc, ◌+◌, ◌-◌, ◌^◌, ◌≤◌, ◌<◌, ◌≡◌, ◌⊎◌, refl, sym, ap, ◌∙◌, inl, inr, List, [], ◌∷◌,
  ◌++◌, some, arith, ◌==◌, ==_iff, length, get_elem?, Bool-cases, Option-cases,
}
use mathlib.Core.List.{append_assoc}
use pomaisearch.Base.Bytes.{Bytes}
use pomaisearch.Base.All.{All}
use pomaisearch.Base.Maps.{nat_key, find, assign, find-assign}
use pomaisearch.Status.{value}
use pomaisearch.File.{File, put, le_bytes, float_bytes, of_bool}
use pomaisearch.File.Laws.{
  put-put, put-then, put-contents, encode_list, put_list-put, get_list-encode_list, get_le-le_bytes,
  get_floats-float_bytes, to_bool-of_bool, of_bool-lt,
}
use pomaisearch.Index.{IndexFile, IsReadBack}
use pomaisearch.FlatIndex.{FlatIndex, Item}
use pomaisearch.FlatIndex.Entries.{IsValid, entry}
use pomaisearch.FlatIndex.Saving.{put_item, save, get_item, index_from, load}

unfoldable pub encode_item : Item → Bytes
encode_item item =
    le_bytes 8 item.offset ++ le_bytes 4 item.norm ++ le_bytes 1 (of_bool item.deleted)

put_item-put : (item : Item) (f : File) → put_item item f ≡ put (encode_item item) f
unfolding put_item encode_item
put_item-put item f = simp put-put

abbrev pub FitsItem : Item → Type 0
FitsItem item = (item.offset < 2 ^ 64) × (item.norm < 2 ^ 32)

get_item-encode_item :
    (item : Item) (rest : Bytes)
    → FitsItem item
    → get_item (encode_item item ++ rest) ≡ value (item, rest)
unfolding get_item encode_item
get_item-encode_item item rest (h, k) =
    let last = le_bytes 1 (of_bool item.deleted) ++ rest in
    rw
      (append_assoc (le_bytes 8 item.offset ++ le_bytes 4 item.norm)
        (le_bytes 1 (of_bool item.deleted)) rest)
      (rw (append_assoc (le_bytes 8 item.offset) (le_bytes 4 item.norm) last) (
        rw (get_le-le_bytes 8 item.offset (le_bytes 4 item.norm ++ last) (omega arith)) (
          rw (get_le-le_bytes 4 item.norm last (omega arith)) (
            rw
              (get_le-le_bytes 1 (of_bool item.deleted) rest
                (omega (arith, of_bool-lt item.deleted)))
              (rw (to_bool-of_bool item.deleted) refl)))))

-- The map from ids to places, made anew.
index_from-place :
    (k : ℕ) (ids : List ℕ) (m : List (ℕ × ℕ)) (id i : ℕ)
    → find id (index_from k ids m) ≡ some i
    → (find id m ≡ some i) ⊎ ((k ≤ i) × (get_elem? ids (i - k) ≡ some id))
unfolding index_from
index_from-place k [] m id i h = inl h
index_from-place k (a ∷ ids) m id i h = elim (index_from-place (k + 1) ids (assign a k m) id i h) [
  | inr (p, q) ↦ let next : i - k ≡ suc (i - (k + 1)) = omega arith in inr (omega arith, rw next q)
  | inl e ↦ elim (Bool-cases (a == id)) [
    | inr n ↦ inl (ground (arith, n, find-assign id a k m, e))
    | inl y ↦
        let same : k ≡ i = ground (arith, y, find-assign id a k m, e) in
        let zeroth : i - k ≡ 0 = omega arith in
        inr (omega arith, rw zeroth (ap some ((==_iff a id).0 y)))
  ]
]

index_from-stays :
    (k : ℕ) (ids : List ℕ) (m : List (ℕ × ℕ)) (id i : ℕ)
    → find id m ≡ some i
    → (i' : ℕ) × (find id (index_from k ids m) ≡ some i')
unfolding index_from
index_from-stays k [] m id i h = (i, h)
index_from-stays k (a ∷ ids) m id i h = elim (Bool-cases (a == id)) [
  | inl y ↦
      index_from-stays (k + 1) ids (assign a k m) id k (ground (arith, y, find-assign id a k m))
  | inr n ↦
      index_from-stays (k + 1) ids (assign a k m) id i (ground (arith, n, h, find-assign id a k m))
]

index_from-known :
    (k : ℕ) (ids : List ℕ) (m : List (ℕ × ℕ)) (id j : ℕ)
    → get_elem? ids j ≡ some id
    → (i : ℕ) × (find id (index_from k ids m) ≡ some i)
unfolding index_from
index_from-known k [] m id j h = absurd (cc)
index_from-known k (a ∷ ids) m id zero h =
    index_from-stays (k + 1) ids (assign a k m) id k
      (ground (arith, h, ==_iff a id, find-assign id a k m))
index_from-known k (a ∷ ids) m id (suc j) h = index_from-known (k + 1) ids (assign a k m) id j h

index_from-find :
    (x : FlatIndex) → IsValid x → (id : ℕ) → find id (index_from 0 x.ids []) ≡ find id x.id_to_index
index_from-find x v id = elim (Option-cases (find id (index_from 0 x.ids []))) [
  | inr (i, e) ↦ elim (index_from-place 0 x.ids [] id i e) [
    | inl n ↦ absurd (unfold find in cc)
    | inr (p, q) ↦ let whole : i - 0 ≡ i = omega arith in e ∙ sym (v.known id i (rw whole at q))
  ]
  | inl e ↦ elim (Option-cases (find id x.id_to_index)) [
    | inl n ↦ e ∙ sym n
    | inr (i, h) ↦ absurd (cc (e, (index_from-known 0 x.ids [] id i (v.place id i h)).1))
  ]
]

unfoldable pub encode : FlatIndex → Bytes
encode x =
    le_bytes 8 x.max_points
    ++ le_bytes 8 (length x.ids)
    ++ float_bytes x.ids
    ++ le_bytes 8 (length x.items)
    ++ encode_list encode_item x.items

pub save-put : (x : FlatIndex) (f : File) → save x f ≡ put (encode x) f
unfolding save encode
save-put x f = simp put-put (
    put-then _ (encode_list encode_item x.items) f
      (put_list-put put_item encode_item put_item-put x.items))

-- What the numbers of an index must be for the file to hold them.
pub record FitsFile (x : FlatIndex) : Type 0 where
  pub fits_points : x.max_points < 2 ^ 64
  pub fits_count : length x.ids < 2 ^ 64
  pub fits_ids : All (λ id. id < 2 ^ 32) x.ids
  pub fits_items : All FitsItem x.items

-- What an index and the one that was loaded from it share: the items, and what the ids mean.
pub record IsReloaded (x y : FlatIndex) : Type 0 where
  pub valid : IsValid y
  pub same_points : y.max_points ≡ x.max_points
  pub same_items : y.items ≡ x.items
  pub same_entries : (id : ℕ) → entry y id ≡ entry x id

module _ (x : FlatIndex) (v : IsValid x) (w : FitsFile x) (t : FlatIndex) where
  abbrev reloaded : FlatIndex
  reloaded = record t {
    max_points = x.max_points;
    ids = x.ids;
    items = x.items;
    id_to_index = index_from 0 x.ids [];
  }

  reloaded-IsReloaded : IsReloaded x reloaded
  unfolding entry
  reloaded-IsReloaded =
      let same = index_from-find x v in
      record {
        valid = record {
          same_length = v.same_length;
          place = λ id i h. v.place id i (sym (same id) ∙ h);
          known = λ id i h. same id ∙ v.known id i h;
        };
        same_points = refl;
        same_items = refl;
        same_entries = λ id. rw (same id, entry) refl;
      }

  load-encode : (rest : Bytes) → load t (encode x ++ rest) ≡ value (reloaded, rest)
  unfolding load encode
  load-encode rest =
      let items = encode_list encode_item x.items ++ rest in
      let counted = le_bytes 8 (length x.items) ++ items in
      let ids = float_bytes x.ids ++ counted in
      simp append_assoc (
        rw
          (get_le-le_bytes 8 x.max_points (le_bytes 8 (length x.ids) ++ ids)
            (omega (arith, w.fits_points)))
          (rw (get_le-le_bytes 8 (length x.ids) ids (omega (arith, w.fits_count))) (
            rw (get_floats-float_bytes x.ids counted w.fits_ids) (
              rw
                (get_le-le_bytes 8 (length x.items) items
                  (omega (arith, v.same_length, w.fits_count)))
                (rw
                  (get_list-encode_list FitsItem get_item encode_item get_item-encode_item x.items
                    rest w.fits_items)
                  refl)))))

  -- A valid flat index that is saved into a file is loaded, from what was written and whatever
  -- follows it, as a valid index with the same items in the same order and with the same item under
  -- every id.
  pub load-save_index :
      (f : File) (rest : Bytes) {g : File}
      → save x f ≡ value g
      → (bytes : Bytes) × (g.contents ≡ f.contents ++ bytes)
        × ((y : FlatIndex) × (load t (bytes ++ rest) ≡ value (y, rest)) × IsReloaded x y)
  load-save_index f rest h = (
    encode x,
    put-contents (encode x) f (sym (save-put x f) ∙ h),
    (reloaded, load-encode rest, reloaded-IsReloaded),
  )

-- The two calls, as a shard makes them.
abbrev pub flat_file : IndexFile FlatIndex
flat_file = record { save = save; load = load }

pub flat_file-IsReadBack :
    (x t : FlatIndex) → IsValid x → FitsFile x → IsReadBack flat_file x t (IsReloaded x)
flat_file-IsReadBack x t v w = record {
  bytes = encode x;
  writes = save-put x;
  reads = λ rest. (reloaded x v w t, load-encode x v w t rest, reloaded-IsReloaded x v w t);
}

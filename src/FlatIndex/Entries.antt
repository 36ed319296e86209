-- ===== src/FlatIndex/Entries.antt =====
-- The flat index as a map from ids to items: its three lists stay in step, and `Upsert` and
-- `Delete` are the writes of that map.
use pomaisearch.Base.{
  ℕ, ◌<◌, ◌≡◌, ◌≢◌, refl, ap, sym, ◌∙◌, inl, inr, ◌&&◌, [], ◌∷◌, ◌++◌, Option, none, some, arith,
  ltb, leb, ◌==◌, ==_iff, if◌then◌else◌, length, get_elem?, get_or, set, length-append, length-set,
  get_elem?-set_self, get_elem?-set_ne, get_elem?-lt, get_elem?-total, get_elem?-append_left,
  get_elem?-append_end, get_or_of_some, Option-cases, Bool-cases,
}
use native.Mathlib.Decide.{dec_lt}
use mathlib.Core.Option.{some-injective}
use pomaisearch.Base.Maps.{nat_key, find, emplace, find-emplace}
use pomaisearch.Float.{Float}
use pomaisearch.Status.{ok_status, is_ok, status, not_found}
use pomaisearch.Types.{Similarity}
use pomaisearch.FlatIndex.{FlatIndex, Item, no_item, live_item, mark_deleted, init, upsert, delete}

-- Each id that the map knows stands at its place, each place is known to the map.
pub record IsValid (x : FlatIndex) : Type 0 where
  pub same_length : length x.ids ≡ length x.items
  pub place : (id i : ℕ) → find id x.id_to_index ≡ some i → get_elem? x.ids i ≡ some id
  pub known : (id i : ℕ) → get_elem? x.ids i ≡ some id → find id x.id_to_index ≡ some i

-- The abstract view: the item of an id.
unfoldable pub entry : FlatIndex → ℕ → Option Item
entry x id = elim (find id x.id_to_index) [ none ↦ none | some i ↦ get_elem? x.items i ]

pub init-IsValid :
    (dim : ℕ) (similarity : Similarity) (max_points : ℕ) → IsValid (init dim similarity max_points)
unfolding init find
init-IsValid dim similarity max_points = record {
  same_length = refl;
  place = λ id i e. absurd (cc);
  known = λ id i e. absurd (cc);
}

-- A write of one item in place.
module _ (x : FlatIndex) (v : IsValid x) where
  set-IsValid : (i : ℕ) (item : Item) → IsValid (record x { items = set x.items i item })
  set-IsValid i item = record {
    same_length = v.same_length ∙ sym (length-set x.items i item);
    place = v.place;
    known = v.known;
  }

  place-lt : (id i : ℕ) → find id x.id_to_index ≡ some i → i < length x.items
  place-lt id i e = omega (arith, get_elem?-lt x.ids i (v.place id i e), v.same_length)

  -- Different ids have different places.
  places_differ :
      (id j i k : ℕ)
      → find id x.id_to_index ≡ some i
      → find j x.id_to_index ≡ some k
      → id ≢ j
      → i ≢ k
  places_differ id j i k e f n q =
      n (some-injective _ _ (sym (v.place id i e) ∙ ap (get_elem? x.ids) q ∙ v.place j k f))

  entry-set :
      (id j i : ℕ) (item : Item)
      → find id x.id_to_index ≡ some i
      → entry (record x { items = set x.items i item }) j
        ≡ (if id == j then some item else entry x j)
  unfolding entry
  entry-set id j i item e = elim (Bool-cases (id == j)) [
    | inl q ↦
        let same : id ≡ j = (==_iff id j).0 q in
        rw (q, ← same, e, entry) (get_elem?-set_self x.items i item (place-lt id i e))
    | inr q ↦ elim (Option-cases (find j x.id_to_index)) [
      | inl f ↦ rw (q, f, entry) refl
      | inr (k, f) ↦
          rw (q, f, entry)
            (get_elem?-set_ne x.items i k item
              (places_differ id j i k e f (λ r. absurd (cc (q, (==_iff id j).1 r)))))
    ]
  ]

  -- The new id is put at the end of all three lists.
  abbrev appended : ℕ → Item → FlatIndex
  appended id item = record x {
    id_to_index = emplace id (length x.items) x.id_to_index;
    ids = x.ids ++ id ∷ [];
    items = x.items ++ item ∷ [];
  }

  appended-place :
      (id : ℕ)
      → find id x.id_to_index ≡ none
      → (j i : ℕ) → find j (emplace id (length x.items) x.id_to_index) ≡ some i
      → get_elem? (x.ids ++ id ∷ []) i ≡ some j
  appended-place id new j i e = elim (Bool-cases (id == j)) [
    | inl q ↦
        let at : length x.items ≡ i =
          ground (arith, find-emplace j id (length x.items) x.id_to_index new, q) in
        rw (← at, ← v.same_length, get_elem?-append_end x.ids id) (ap some ((==_iff id j).0 q))
    | inr q ↦
        let old : find j x.id_to_index ≡ some i =
          ground (arith, find-emplace j id (length x.items) x.id_to_index new, q) in
        get_elem?-append_left x.ids (id ∷ []) i (get_elem?-lt x.ids i (v.place j i old))
        ∙ v.place j i old
  ]

  appended-known :
      (id : ℕ)
      → find id x.id_to_index ≡ none
      → (j i : ℕ) → get_elem? (x.ids ++ id ∷ []) i ≡ some j
      → find j (emplace id (length x.items) x.id_to_index) ≡ some i
  appended-known id new j i e = elim (dec_lt i (length x.ids)) [
    | yes h ↦
        let old = v.known j i (sym (get_elem?-append_left x.ids (id ∷ []) i h) ∙ e) in
        ground (arith, find-emplace j id (length x.items) x.id_to_index new, old, new)
    | no h ↦
        let bound = get_elem?-lt (x.ids ++ id ∷ []) i e in
        let at : i ≡ length x.ids = omega (arith, bound, length-append x.ids (id ∷ [])) in
        let same : id ≡ j =
          some-injective _ _ (
            sym (get_elem?-append_end x.ids id) ∙ ap (get_elem? (x.ids ++ id ∷ [])) (sym at) ∙ e) in
        ground (
          arith,
          find-emplace j id (length x.items) x.id_to_index new,
          (==_iff id j).1 same,
          v.same_length,
        )
  ]

  appended-IsValid :
      (id : ℕ) (item : Item) → find id x.id_to_index ≡ none → IsValid (appended id item)
  appended-IsValid id item new = record {
    same_length =
        omega
          (arith, v.same_length, length-append x.ids (id ∷ []), length-append x.items (item ∷ []));
    place = appended-place id new;
    known = appended-known id new;
  }

  entry-appended :
      (id j : ℕ) (item : Item)
      → find id x.id_to_index ≡ none
      → entry (appended id item) j ≡ (if id == j then some item else entry x j)
  unfolding entry
  entry-appended id j item new = elim (Bool-cases (id == j)) [
    | inl q ↦
        rw (find-emplace j id (length x.items) x.id_to_index new, q, entry)
          (get_elem?-append_end x.items item)
    | inr q ↦ elim (Option-cases (find j x.id_to_index)) [
      | inl f ↦ rw (find-emplace j id (length x.items) x.id_to_index new, q, f, entry) refl
      | inr (k, f) ↦
          rw (find-emplace j id (length x.items) x.id_to_index new, q, f, entry)
            (get_elem?-append_left x.items (item ∷ []) k (place-lt j k f))
    ]
  ]

  -- `Upsert`, whatever it returns, and `Delete` keep the index valid.
  pub upsert-IsValid : (id offset : ℕ) (norm : Float) → IsValid (upsert x id offset norm).0
  unfolding upsert
  upsert-IsValid id offset norm = elim (Option-cases (find id x.id_to_index)) [
    | inr (i, e) ↦ rw (e, upsert) (set-IsValid i (live_item offset norm))
    | inl e ↦ elim (Bool-cases (ltb 0 x.max_points && leb x.max_points (length x.items))) [
      | inl full ↦ rw (e, upsert) (rw full v)
      | inr room ↦ rw (e, upsert) (rw room (appended-IsValid id (live_item offset norm) e))
    ]
  ]

  pub delete-IsValid : (id : ℕ) → IsValid (delete x id).0
  unfolding delete
  delete-IsValid id = elim (Option-cases (find id x.id_to_index)) [
    | inl e ↦ rw (e, delete) v
    | inr (i, e) ↦ rw (e, delete) (set-IsValid i (mark_deleted (get_or x.items i no_item)))
  ]

  -- `Upsert` of a valid index is the write of a map: if it returns OK the id has the new live item, and every other
  -- id keeps its own; if it fails, every id keeps its item.
  pub upsert-entry :
      (id j offset : ℕ) (norm : Float)
      → entry (upsert x id offset norm).0 j ≡ (
          if is_ok (upsert x id offset norm).1 && id == j
          then some (live_item offset norm)
          else entry x j)
  unfolding upsert
  upsert-entry id j offset norm = elim (Option-cases (find id x.id_to_index)) [
    | inr (i, e) ↦ rw (e, upsert) (entry-set id j i (live_item offset norm) e)
    | inl e ↦ elim (Bool-cases (ltb 0 x.max_points && leb x.max_points (length x.items))) [
      | inl full ↦ rw (e, upsert) (rw full refl)
      | inr room ↦ rw (e, upsert) (rw room (entry-appended id j (live_item offset norm) e))
    ]
  ]

  delete_known :
      (id i : ℕ)
      → find id x.id_to_index ≡ some i
      → delete x id
        ≡ (record x { items = set x.items i (mark_deleted (get_or x.items i no_item)) }, ok_status)
  unfolding delete
  delete_known id i e = rw (e, delete) refl

  delete_unknown :
      (id : ℕ) → find id x.id_to_index ≡ none → delete x id ≡ (x, status not_found "id not found")
  unfolding delete
  delete_unknown id e = rw (e, delete) refl

  entry_place : (id i : ℕ) → find id x.id_to_index ≡ some i → entry x id ≡ get_elem? x.items i
  unfolding entry
  entry_place id i e = rw (e, entry) refl

  entry_absent : (id : ℕ) → find id x.id_to_index ≡ none → entry x id ≡ none
  unfolding entry
  entry_absent id e = rw (e, entry) refl

  -- `Delete`, in a valid index, of an id that has an item marks it and returns OK, and every other id keeps its item.
  pub delete-entry :
      (id j : ℕ) (item : Item)
      → entry x id ≡ some item
      → ((delete x id).1 ≡ ok_status)
        × (entry (delete x id).0 j ≡ (if id == j then some (mark_deleted item) else entry x j))
  delete-entry id j item h = elim (Option-cases (find id x.id_to_index)) [
    | inl e ↦ absurd (cc (h, entry_absent id e))
    | inr (i, e) ↦
        let same : get_or x.items i no_item ≡ item =
          get_or_of_some x.items i no_item (sym (entry_place id i e) ∙ h) in
        rw (delete_known id i e)
          (refl, entry-set id j i (mark_deleted (get_or x.items i no_item)) e ∙ rw same refl)
  ]

  -- `Delete` of an id that has none changes nothing and fails.
  pub delete-entry-none :
      (id : ℕ) → entry x id ≡ none → delete x id ≡ (x, status not_found "id not found")
  delete-entry-none id h = elim (Option-cases (find id x.id_to_index)) [
    | inl e ↦ delete_unknown id e
    | inr (i, e) ↦
        absurd (cc (sym h ∙ entry_place id i e, (get_elem?-total x.items i (place-lt id i e)).1))
  ]

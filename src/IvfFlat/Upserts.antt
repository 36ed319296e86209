-- ===== src/IvfFlat/Upserts.antt =====
-- `Upsert` loses no document.
use pomaisearch.Base.{
  ℕ, ◌<◌, ◌≡◌, refl, sym, ap, ◌∙◌, ◌⊎◌, none, Option, inl, inr, Bool, true, false, ◌&&◌, List, [],
  ◌∷◌, ◌++◌, some, ltb, leb, ==_refl, if◌then◌else◌, length, length-set, Bool-cases,
}
use mathlib.Core.Path.{subst}
use mathlib.Core.Option.{some-injective}
use pomaisearch.Base.Maps.{nat_key, find, assign, find-assign}
use pomaisearch.Float.{Float, Arithmetic}
use pomaisearch.Status.{Status, ok_status, status, internal}
use pomaisearch.VectorStore.{VectorStore}
use pomaisearch.VectorStore
use pomaisearch.KMeans.{assign_one}
use pomaisearch.IvfFlat.{
  IvfFlatIndex, DocState, entry, next_state, push, compact_list, list_needs_compaction,
  compact_after, upsert_trained, upsert_untrained, upsert, add_to_inverted_list,
}
use pomaisearch.IvfFlat.Lists.{IsIn-append, IsIn-append_end, IsListed-push, IsListed-push_self}
use pomaisearch.IvfFlat.Kept.{HasPlace, IsKept, live_after, compact_list-IsKept, docs-compact_list}
use pomaisearch.IvfFlat.Training.{posting, HasScores, IsBlockedTraining, train_impl-cases}
use pomaisearch.KMeans.Assigned.{HasScore, assign_one-best, not_both}

returned :
    (y z : IvfFlatIndex) (result r : Status) {o : Option (IvfFlatIndex × Status)}
    → o ≡ some (y, result)
    → o ≡ some (z, r)
    → z ≡ y
returned y z result r h1 h2 =
    ap (λ (p : IvfFlatIndex × Status). p.0) (some-injective _ _ (sym h2 ∙ h1))

module _ (m : Arithmetic) (kernel : List Float → List Float → Float) (shuffle : List ℕ → List ℕ)
    (store : VectorStore) (x : IvfFlatIndex) (id offset : ℕ) (some_lists : 0 < x.config.nlist)
    (v : IsKept x) where
  abbrev doc : DocState
  doc = next_state id offset x.docs

  find-doc : find id (assign id doc x.docs) ≡ some doc
  find-doc = find-assign id id doc x.docs ∙ rw (==_refl id) refl

  abbrev pub buffered : IvfFlatIndex
  buffered = record x { docs = assign id doc x.docs; buffer_ids = x.buffer_ids ++ id ∷ [] }

  buffered-IsKept : x.trained ≡ false → IsKept buffered
  buffered-IsKept t = record {
    centroids = v.centroids;
    sizes = v.sizes;
    kept =
        live_after x.docs id doc
          (λ j d. HasPlace x.trained x.lists (x.buffer_ids ++ id ∷ []) j d.gen)
          (λ live. rw t (IsIn-append_end id x.buffer_ids))
          (λ j d f live. rw t (IsIn-append j x.buffer_ids (id ∷ []) (rw t at (v.kept j d f live))));
  }

  abbrev posted : ℕ → IvfFlatIndex
  posted c = record x { docs = assign id doc x.docs; lists = push c (entry id doc.gen) x.lists }

  posted-IsKept : (c : ℕ) → c < length x.lists → x.trained ≡ true → IsKept (posted c)
  posted-IsKept c h t = record {
    centroids = v.centroids;
    sizes = λ q. length-set x.lists c _ ∙ v.sizes q;
    kept =
        live_after x.docs id doc
          (λ j d. HasPlace x.trained (push c (entry id doc.gen) x.lists) x.buffer_ids j d.gen)
          (λ live. rw t (IsListed-push_self (entry id doc.gen) c x.lists h))
          (λ j d f live. rw t (
            IsListed-push (entry j d.gen) (entry id doc.gen) c x.lists
              (rw t at (v.kept j d f live))));
  }

  -- What an upsert needs if no document is to be lost: in a trained index a score of the new vector, and
  -- after a training a score of every live document.
  abbrev pub HasUpsertScores : Bool → IvfFlatIndex → Type 0
  HasUpsertScores true y = HasScore kernel x.kmeans (VectorStore.get store offset)
  HasUpsertScores false y = HasScores m kernel shuffle store y.trained y.kmeans y.docs

  -- What an upsert returns, without its result.
  record IsUpserted (trained : Bool) (y : IvfFlatIndex) : Type 0 where
    found : find id y.docs ≡ some doc
    kept : HasUpsertScores trained y → IsKept y

  trained-cases :
      x.trained ≡ true
      → (y : IvfFlatIndex) × (result : Status) × (upsert_trained m kernel shuffle store
            (record x { docs = assign id doc x.docs })
            id
            doc.gen
            (VectorStore.get store offset)
          ≡ (y, result))
        × IsUpserted true y
  unfolding upsert_trained compact_after add_to_inverted_list
  trained-cases t =
      let y : IvfFlatIndex = record x { docs = assign id doc x.docs } in
      let vec = VectorStore.get store offset in
      elim (assign_one-best kernel x.kmeans vec) [
        | inr (missed, low) ↦ (
          y,
          status internal "KMeans assignment out of bounds",
          rw (missed, add_to_inverted_list, compact_after) refl,
          record {
            found = find-doc;
            kept = λ (best, under, high). absurd (not_both (sym high ∙ low best under));
          },
        )
        | inl (best, assigned, under, high, all) ↦
            let (c, below, found, added) =
              posting m kernel shuffle store y id doc.gen offset some_lists v.centroids (v.sizes t)
                (best, under, high) in
            let kept = posted-IsKept c below t in
            let after = compact_after m kernel shuffle store in
            let both =
              ap (λ r. after r (assign_one kernel x.kmeans vec)) added
              ∙ ap (after (posted c, ok_status)) found in
            elim (Bool-cases
              (ltb c (length x.list_metrics) && list_needs_compaction m (posted c) c)) [
                | inl compacted ↦ (
                  compact_list (posted c) c,
                  ok_status,
                  both ∙ rw (compacted, compact_after) refl,
                  record {
                    found = ap (find id) (docs-compact_list (posted c) c) ∙ find-doc;
                    kept = λ scored. compact_list-IsKept (posted c) c t kept;
                  },
                )
                | inr left ↦ (
                  posted c,
                  ok_status,
                  both ∙ rw (left, compact_after) refl,
                  record { found = find-doc; kept = λ scored. kept },
                )
              ]
      ]

  untrained-cases :
      x.trained ≡ false
      → ((y : IvfFlatIndex) × (result : Status) × (upsert_untrained m kernel shuffle store
              (record x { docs = assign id doc x.docs })
              id
            ≡ some (y, result))
          × IsUpserted false y)
        ⊎ ((upsert_untrained m kernel shuffle store (record x { docs = assign id doc x.docs }) id
              ≡ none)
            × IsBlockedTraining m kernel shuffle store buffered)
  unfolding upsert_untrained
  untrained-cases t =
      elim (Bool-cases (leb x.config.min_train_size (length (x.buffer_ids ++ id ∷ [])))) [
        | inl full ↦
            elim (train_impl-cases m kernel shuffle store buffered some_lists t
              (buffered-IsKept t)) [
                | inl (z, result, done, docs, kept) ↦ inl (
                  z,
                  result,
                  rw (full, upsert_untrained) done,
                  record { found = ap (find id) docs ∙ find-doc; kept = kept },
                )
                | inr (stuck, blocked) ↦ inr (rw (full, upsert_untrained) stuck, blocked)
              ]
        | inr room ↦ inl (
          buffered,
          ok_status,
          rw (room, upsert_untrained) refl,
          record { found = find-doc; kept = λ scores. buffered-IsKept t },
        )
      ]

  branch :
      (b : Bool)
      → x.trained ≡ b
      → upsert m kernel shuffle store x id offset ≡ (
          if b
          then some (
              upsert_trained m kernel shuffle store
                (record x { docs = assign id doc x.docs })
                id
                doc.gen
                (VectorStore.get store offset))
          else upsert_untrained m kernel shuffle store
              (record x { docs = assign id doc x.docs })
              id)
  unfolding upsert
  branch b t =
      let y : IvfFlatIndex = record x { docs = assign id doc x.docs } in
      let trained =
        some (upsert_trained m kernel shuffle store y id doc.gen (VectorStore.get store offset)) in
      let untrained = upsert_untrained m kernel shuffle store y id in
      ap (λ c. if c then trained else untrained) t

  -- An upsert that ends, with any status, has given the document its offset and a new generation. No live
  -- document is lost: each is in the buffer or, after the training, in a list with its current
  -- generation. For this the index has lists; in a trained index the new vector has a score above
  -- the lowest float with some centroid, and after a training each live document has one with
  -- some new centroid.
  pub upsert-IsKept :
      (y : IvfFlatIndex) (result : Status)
      → upsert m kernel shuffle store x id offset ≡ some (y, result)
      → HasUpsertScores x.trained y
      → (find id y.docs ≡ some doc) × IsKept y
  upsert-IsKept y result done scores = elim (Bool-cases x.trained) [
    | inl t ↦
        let (z, r, ended, u) = trained-cases t in
        let same = returned y z result r done (branch true t ∙ ap some ended) in
        subst (λ i. (find id i.docs ≡ some doc) × IsKept i) same
          (u.found, u.kept (subst (λ b. HasUpsertScores b y) t scores))
    | inr t ↦ elim (untrained-cases t) [
      | inl (z, r, ended, u) ↦
          let same = returned y z result r done (branch false t ∙ ended) in
          subst (λ i. (find id i.docs ≡ some doc) × IsKept i) same
            (
              u.found,
              u.kept (
                  subst (HasUpsertScores false) (sym same)
                    (subst (λ b. HasUpsertScores b y) t scores)),
            )
      | inr (stuck, blocked) ↦ absurd (cc (done, branch false t ∙ stuck))
    ]
  ]

  -- An upsert that writes out of bounds does so in a training: some round that the training reaches from the
  -- sampled centroids has a buffered vector whose score is above the lowest float with no centroid. So an
  -- upsert into a trained index always ends.
  pub upsert-none :
      upsert m kernel shuffle store x id offset ≡ none
      → (x.trained ≡ false) × IsBlockedTraining m kernel shuffle store buffered
  upsert-none stuck = elim (Bool-cases x.trained) [
    | inl t ↦ absurd (cc (stuck, branch true t))
    | inr t ↦ elim (untrained-cases t) [
      | inl (z, r, ended, u) ↦ absurd (cc (stuck, branch false t ∙ ended))
      | inr (never, blocked) ↦ (t, blocked)
    ]
  ]

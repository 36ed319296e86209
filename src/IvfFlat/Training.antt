-- ===== src/IvfFlat/Training.antt =====
-- The training loses no document.
use pomaisearch.Base.{
  ℕ, zero, suc, ◌<◌, ◌≡◌, refl, sym, ap, ◌∙◌, inl, inr, true, false, List, [], ◌∷◌, some, none,
  Option, Bool, ◌⊎◌, arith, leb, ◌==◌, length, length-set, length-replicate, replicate, Bool-cases,
  Option-cases,
}
use mathlib.Core.Path.{subst}
use mathlib.Core.Option.{some-injective}
use pomaisearch.Base.Maps.{nat_key, find}
use pomaisearch.Float.{Float, Arithmetic, float_gt}
use pomaisearch.Status.{Status, ok_status, is_ok}
use pomaisearch.VectorStore.{VectorStore}
use pomaisearch.VectorStore
use pomaisearch.KMeans.{KMeans, assign_one, centroid, lowest}
use pomaisearch.KMeans.Assigned.{HasScore, assign_one-best, assign_one-some, not_both}
use pomaisearch.KMeans.Trained.{IsBlocked, begun, train-cases}
use pomaisearch.IvfFlat.{
  IvfFlatIndex, Config, DocState, PostingEntry, entry, push, no_metrics, live_offsets,
  add_to_inverted_list, post_buffer, train_impl,
}
use pomaisearch.IvfFlat.Lists.{IsIn, IsListed, IsListed-push, IsListed-push_self}
use pomaisearch.IvfFlat.Kept.{IsKept}

module _ (m : Arithmetic) (kernel : List Float → List Float → Float) (shuffle : List ℕ → List ℕ)
    (store : VectorStore) where
  -- A posting of a vector that has a score.
  pub posting :
      (x : IvfFlatIndex) (id gen offset : ℕ)
      → 0 < x.config.nlist
      → x.kmeans.k ≡ x.config.nlist
      → length x.lists ≡ x.config.nlist
      → HasScore kernel x.kmeans (VectorStore.get store offset)
      → (c : ℕ) × (c < length x.lists)
        × (assign_one kernel x.kmeans (VectorStore.get store offset) ≡ some c)
        × (add_to_inverted_list m kernel shuffle store x id gen (VectorStore.get store offset)
            ≡ (record x { lists = push c (entry id gen) x.lists }, ok_status))
  unfolding add_to_inverted_list
  posting x id gen offset some_lists k sizes scored =
      let (c, found, l) = assign_one-some kernel x.kmeans (VectorStore.get store offset) scored in
      let below : c < length x.lists = omega (arith, l) in
      let within : leb (length x.lists) c ≡ false = ground (arith, below) in
      (c, below, found, rw (found, add_to_inverted_list) (rw within refl))

  posted_cons :
      (id : ℕ) (ids : List ℕ) (docs : List (ℕ × DocState)) (km : KMeans)
      (lists : List (List PostingEntry))
      → ((doc : DocState)
          → find id docs ≡ some doc
          → doc.deleted ≡ false
          → HasScore kernel km (VectorStore.get store doc.offset)
          → IsListed (entry id doc.gen) lists)
      → ((j : ℕ) (doc : DocState)
          → IsIn j ids
          → find j docs ≡ some doc
          → doc.deleted ≡ false
          → HasScore kernel km (VectorStore.get store doc.offset)
          → IsListed (entry j doc.gen) lists)
      → (j : ℕ) (doc : DocState) → IsIn j (id ∷ ids)
      → find j docs ≡ some doc
      → doc.deleted ≡ false
      → HasScore kernel km (VectorStore.get store doc.offset)
      → IsListed (entry j doc.gen) lists
  posted_cons id ids docs km lists own others j doc (zero, q) f live scored =
      let same : id ≡ j = some-injective _ _ q in
      subst (λ i. IsListed (entry i doc.gen) lists) same
        (own doc (ap (λ i. find i docs) same ∙ f) live scored)
  posted_cons id ids docs km lists own others j doc (suc i, q) f live scored =
      others j doc (i, q) f live scored

  -- What the second loop of the training does to the lists.
  record IsPosted (ids : List ℕ) (x y : IvfFlatIndex) : Type 0 where
    same : (y.docs ≡ x.docs) × (y.config ≡ x.config) × (y.kmeans ≡ x.kmeans)
    sizes : length y.lists ≡ length x.lists
    stays : (e : PostingEntry) → IsListed e x.lists → IsListed e y.lists
    posted :
        (id : ℕ) (doc : DocState)
        → IsIn id ids
        → find id x.docs ≡ some doc
        → doc.deleted ≡ false
        → HasScore kernel x.kmeans (VectorStore.get store doc.offset)
        → IsListed (entry id doc.gen) y.lists

  -- A posting that fails.
  missed_posting :
      (x : IvfFlatIndex) (id gen offset : ℕ)
      → assign_one kernel x.kmeans (VectorStore.get store offset) ≡ none
      → (add_to_inverted_list m kernel shuffle store x id gen (VectorStore.get store offset)).0 ≡ x
  unfolding add_to_inverted_list
  missed_posting x id gen offset missed = rw (missed, add_to_inverted_list) refl

  unscored :
      (x : IvfFlatIndex) (a b : DocState) {o : Option DocState}
      → o ≡ some a
      → o ≡ some b
      → ((c : ℕ)
          → c < x.kmeans.k
          → float_gt
              (kernel (VectorStore.get store a.offset) (centroid x.kmeans.dim x.kmeans.centroids c))
              lowest
            ≡ false)
      → HasScore kernel x.kmeans (VectorStore.get store b.offset)
      → ⊥
  unscored x a b ea eb low scored =
      let same : a ≡ b = some-injective _ _ (sym ea ∙ eb) in
      let (c, l, above) =
        subst (λ (d : DocState). HasScore kernel x.kmeans (VectorStore.get store d.offset))
          (sym same) scored in
      not_both (sym above ∙ low c l)

  post_buffer-IsPosted :
      (ids : List ℕ) (x : IvfFlatIndex)
      → 0 < x.config.nlist
      → x.kmeans.k ≡ x.config.nlist
      → length x.lists ≡ x.config.nlist
      → IsPosted ids x (post_buffer m kernel shuffle store ids x)
  unfolding post_buffer
  post_buffer-IsPosted [] x h k l = record {
    same = (refl, refl, refl);
    sizes = refl;
    stays = λ e p. p;
    posted = λ id doc (i, q) f live scored. absurd (cc);
  }
  post_buffer-IsPosted (id ∷ ids) x h k l = elim (Option-cases (find id x.docs)) [
    | inl e ↦
        let r = post_buffer-IsPosted ids x h k l in
        rw (e, post_buffer)
          (record {
            same = r.same;
            sizes = r.sizes;
            stays = r.stays;
            posted =
                posted_cons id ids x.docs x.kmeans _ (λ doc f live scored. absurd (cc (e, f)))
                  r.posted;
          })
    | inr (doc, e) ↦ elim (Bool-cases doc.deleted) [
      | inl gone ↦
          let r = post_buffer-IsPosted ids x h k l in
          let other = λ (d : DocState) (f : find id x.docs ≡ some d) (live : d.deleted ≡ false).
            not_both (
              sym gone
              ∙ ap (λ (s : DocState). s.deleted) (some-injective _ _ (sym e ∙ f))
              ∙ live) in
          rw (e, post_buffer)
            (rw gone (record {
              same = r.same;
              sizes = r.sizes;
              stays = r.stays;
              posted =
                  posted_cons id ids x.docs x.kmeans _ (λ d f live scored. absurd (other d f live))
                    r.posted;
            }))
      | inr live ↦ elim (assign_one-best kernel x.kmeans (VectorStore.get store doc.offset)) [
        | inr (missed, low) ↦
            let r = post_buffer-IsPosted ids x h k l in
            let failed = missed_posting x id doc.gen doc.offset missed in
            rw (e, post_buffer)
              (rw live (
                rw failed (record {
                  same = r.same;
                  sizes = r.sizes;
                  stays = r.stays;
                  posted =
                      posted_cons id ids x.docs x.kmeans _
                        (λ d f l' scored. absurd (unscored x doc d e f low scored)) r.posted;
                })))
        | inl (best, assigned, under, high, all) ↦
            let (c, below, found, added) =
              posting x id doc.gen doc.offset h k l (best, under, high) in
            let new = entry id doc.gen in
            let y : IvfFlatIndex = record x { lists = push c new x.lists } in
            let r = post_buffer-IsPosted ids y h k (length-set x.lists c _ ∙ l) in
            let own = r.stays new (IsListed-push_self new c x.lists below) in
            rw (e, post_buffer)
              (rw live (
                rw added (record {
                  same = r.same;
                  sizes = r.sizes ∙ length-set x.lists c _;
                  stays = λ p q. r.stays p (IsListed-push p new c x.lists q);
                  posted =
                      posted_cons id ids x.docs x.kmeans _
                        (λ d f l' scored.
                          subst
                            (λ (s : DocState).
                              IsListed (entry id s.gen)
                                (post_buffer m kernel shuffle store ids y).lists)
                            (some-injective _ _ (sym e ∙ f)) own)
                        r.posted;
                })))
      ]
    ]
  ]

  -- What a training has to be given if it succeeds: a score for each live document.
  abbrev pub HasScores : Bool → KMeans → List (ℕ × DocState) → Type 0
  HasScores true km docs =
      (id : ℕ) (doc : DocState)
      → find id docs ≡ some doc
      → doc.deleted ≡ false
      → HasScore kernel km (VectorStore.get store doc.offset)
  HasScores false km docs = Unit

  buffered :
      (x : IvfFlatIndex)
      → IsKept x
      → x.trained ≡ false
      → (id : ℕ) (doc : DocState) → find id x.docs ≡ some doc
      → doc.deleted ≡ false
      → IsIn id x.buffer_ids
  buffered x v t id doc f live = rw t at (v.kept id doc f live)

  -- A training that writes out of bounds.
  abbrev pub IsBlockedTraining : IvfFlatIndex → Type 0
  IsBlockedTraining x =
      let offsets = live_offsets x.docs x.buffer_ids in
      IsBlocked m kernel store (begun m kernel store shuffle x.kmeans offsets) offsets
        (replicate (length offsets) 0)

  -- The index after a training that succeeds, with its new centroids.
  trained_index : IvfFlatIndex → KMeans → IvfFlatIndex
  trained_index x kmeans =
      record (post_buffer m kernel shuffle store x.buffer_ids (record x {
        kmeans = kmeans;
        lists = replicate x.config.nlist [];
        list_metrics = replicate x.config.nlist no_metrics;
      })) { buffer_ids = []; trained = true }

  trained_index-IsKept :
      (x : IvfFlatIndex) (kmeans : KMeans)
      → 0 < x.config.nlist
      → x.trained ≡ false
      → IsKept x
      → kmeans.k ≡ x.config.nlist
      → ((trained_index x kmeans).docs ≡ x.docs)
        × (HasScores true (trained_index x kmeans).kmeans (trained_index x kmeans).docs
            → IsKept (trained_index x kmeans))
  unfolding trained_index
  trained_index-IsKept x kmeans h t v k =
      let emptied : IvfFlatIndex = record x {
        kmeans = kmeans;
        lists = replicate x.config.nlist [];
        list_metrics = replicate x.config.nlist no_metrics;
      } in
      let r = post_buffer-IsPosted x.buffer_ids emptied h k (length-replicate x.config.nlist []) in
      let nlist = sym (ap (λ (c : Config). c.nlist) r.same.1) in
      (
        r.same.0,
        λ scores. record {
          centroids = ap (λ (km : KMeans). km.k) r.same.2 ∙ k ∙ nlist;
          sizes = λ q. r.sizes ∙ length-replicate x.config.nlist [] ∙ nlist;
          kept = λ id doc f live.
              let found = ap (find id) (sym r.same.0) ∙ f in
              let scored =
                subst (λ km. HasScore kernel km (VectorStore.get store doc.offset)) r.same.2
                  (scores id doc f live) in
              r.posted id doc (buffered x v t id doc found live) found live scored;
        },
      )

  -- A training ends or writes out of bounds. If it ends, the documents are as they were, and none is lost
  -- if each has a score.
  pub train_impl-cases :
      (x : IvfFlatIndex)
      → 0 < x.config.nlist
      → x.trained ≡ false
      → IsKept x
      → ((y : IvfFlatIndex) × (result : Status) × (train_impl m kernel shuffle store x
            ≡ some (y, result))
          × (y.docs ≡ x.docs)
          × (HasScores y.trained y.kmeans y.docs → IsKept y))
        ⊎ ((train_impl m kernel shuffle store x ≡ none) × IsBlockedTraining x)
  unfolding train_impl trained_index
  train_impl-cases x h t v = elim (Bool-cases (length (live_offsets x.docs x.buffer_ids) == 0)) [
    | inl e ↦ inl (x, ok_status, rw (e, train_impl) refl, refl, λ scores. v)
    | inr e ↦
        elim (train-cases m kernel store shuffle x.kmeans (live_offsets x.docs x.buffer_ids)
          (omega (arith, v.centroids))) [
            | inr (stuck, blocked) ↦ inr (rw (e, train_impl) (rw stuck refl), blocked)
            | inl (kmeans, result, trained, k, dim, good) ↦ elim (Bool-cases (is_ok result)) [
              | inr bad ↦ inl (
                record x { kmeans = kmeans },
                result,
                rw (e, train_impl) (rw trained (rw bad refl)),
                refl,
                λ scores. record { centroids = k ∙ v.centroids; sizes = v.sizes; kept = v.kept },
              )
              | inl ok ↦
                  let (docs, kept) = trained_index-IsKept x kmeans h t v (k ∙ v.centroids) in
                  inl (
                    trained_index x kmeans,
                    ok_status,
                    rw (e, train_impl) (rw trained (rw ok refl)),
                    docs,
                    kept,
                  )
            ]
          ]
  ]

-- ===== src/IvfFlat/Found.antt =====
-- What a search of the inverted file index finds.
use pomaisearch.Base.{
  ℕ, ◌≤◌, ◌<◌, ◌≡◌, refl, ap, ◌∙◌, set, inl, inr, Bool, true, false, List, [], ◌∷◌, map, some,
  arith, ltb, if◌then◌else◌, length, get_or, Bool-cases, Option-cases,
}
use pomaisearch.Base.All.{All}
use pomaisearch.Base.Back.{front, pop_back, front-none, All-pop_back, length-pop_back}
use pomaisearch.Base.Maps.{nat_key, find}
use pomaisearch.Base.Sort.{insert, All-insert, length-insert}
use pomaisearch.Float.{Float, float_gt}
use pomaisearch.VectorStore.{VectorStore}
use pomaisearch.IvfFlat.{
  IvfFlatIndex, DocState, PostingEntry, ListMetrics, no_metrics, entry_is_live, find_state,
}
use pomaisearch.IvfFlat.Search.{
  Scored, pair_greater, offer_score, score_of, scan_buffer, scan_list, scan_lists, probes,
  candidate, search, offer_id, process, checked, trained_result, untrained_result,
}

module _ (P : Scored → Type 0) (k : ℕ) where
  -- Not too many, and all of them as they should be.
  abbrev Holds : List Scored → Type 0
  Holds heap = All P heap × (length heap ≤ k)

  Holds-offer_score :
      (heap : List Scored) (x : Scored)
      → 0 < k
      → P x
      → Holds heap
      → (next : List Scored) × (offer_score k heap x ≡ some next) × Holds next
  unfolding offer_score
  Holds-offer_score heap x some_k p (h, l) = elim (Bool-cases (ltb (length heap) k)) [
    | inl room ↦ (
      insert pair_greater x heap,
      rw room refl,
      (
        All-insert pair_greater P x heap p h,
        ground (arith, room, length-insert pair_greater x heap),
      ),
    )
    | inr full ↦ elim (Option-cases (front heap)) [
      | inl e ↦ absurd (ground (arith, full, some_k, ap length (front-none heap e)))
      | inr (worst, e) ↦ elim (Bool-cases (float_gt x.0 worst.0)) [
        | inl better ↦ (
          insert pair_greater x (pop_back heap),
          rw full (rw e (rw better refl)),
          (
            All-insert pair_greater P x (pop_back heap) p (All-pop_back P heap h),
            omega (arith, length-insert pair_greater x (pop_back heap), length-pop_back heap e, l),
          ),
        )
        | inr worse ↦ (heap, rw full (rw e (rw worse refl)), (h, l))
      ]
    ]
  ]

module _ (kernel : List Float → List Float → Float) (store : VectorStore) (q : List Float)
    (topk : ℕ) where
  -- The score and the id are those of a live document.
  abbrev pub IsLive : List (ℕ × DocState) → Scored → Type 0
  IsLive docs (score, id) =
      (doc : DocState) × (find id docs ≡ some doc)
      × (doc.deleted ≡ false)
      × (score ≡ score_of kernel store q topk doc)

  entry_is_live-IsLive :
      (docs : List (ℕ × DocState)) (e : PostingEntry)
      → entry_is_live docs e ≡ true
      → IsLive docs (score_of kernel store q topk (find_state e.id docs), e.id)
  unfolding entry_is_live
  entry_is_live-IsLive docs e h = elim (Option-cases (find e.id docs)) [
    | inl n ↦ absurd (cc (rw (n, entry_is_live) at h))
    | inr (doc, n) ↦
        let both = rw (n, entry_is_live) at h in
        (doc, n, ground (arith, both), rw (n, find_state) refl)
  ]

  module _ (some_topk : 0 < topk) where
    offer_id-Holds :
        (docs : List (ℕ × DocState)) (id : ℕ) (heap : List Scored)
        → Holds (IsLive docs) topk heap
        → (next : List Scored) × (offer_id kernel store q topk docs id heap ≡ some next)
          × Holds (IsLive docs) topk next
    unfolding offer_id
    offer_id-Holds docs id heap h = elim (Option-cases (find id docs)) [
      | inl e ↦ (heap, rw (e, offer_id) refl, h)
      | inr (doc, e) ↦ elim (Bool-cases doc.deleted) [
        | inl gone ↦ (heap, rw (e, offer_id) (rw gone refl), h)
        | inr live ↦
            let (next, offered, held) =
              Holds-offer_score (IsLive docs) topk heap (score_of kernel store q topk doc, id)
                some_topk (doc, e, live, refl) h in
            (next, rw (e, offer_id) (rw live offered), held)
      ]
    ]

    scan_buffer-Holds :
        (docs : List (ℕ × DocState)) (ids : List ℕ) (heap : List Scored)
        → Holds (IsLive docs) topk heap
        → (found : List Scored) × (scan_buffer kernel store q topk docs ids heap ≡ some found)
          × Holds (IsLive docs) topk found
    unfolding scan_buffer
    scan_buffer-Holds docs [] heap h = (heap, refl, h)
    scan_buffer-Holds docs (id ∷ ids) heap h =
        let (next, offered, held) = offer_id-Holds docs id heap h in
        let (found, rest, all) = scan_buffer-Holds docs ids next held in
        (found, rw (offered, scan_buffer) rest, all)

    process-Holds :
        (docs : List (ℕ × DocState)) (e : PostingEntry) (heap : List Scored)
        → Holds (IsLive docs) topk heap
        → (next : List Scored) × (process kernel store q topk docs e heap ≡ some next)
          × Holds (IsLive docs) topk next
    unfolding process
    process-Holds docs e heap h = elim (Bool-cases (entry_is_live docs e)) [
      | inl live ↦
          let (next, offered, held) =
            Holds-offer_score (IsLive docs) topk heap _ some_topk (entry_is_live-IsLive docs e live)
              h in
          (next, rw live offered, held)
      | inr stale ↦ (heap, rw stale refl, h)
    ]

    scan_list-Holds :
        (docs : List (ℕ × DocState)) (es : List PostingEntry) (heap : List Scored)
        (metric : ListMetrics)
        → Holds (IsLive docs) topk heap
        → (found : List Scored) × (after : ListMetrics) × (scan_list kernel store q topk docs es
              heap metric
            ≡ some (found, after))
          × Holds (IsLive docs) topk found
    unfolding scan_list
    scan_list-Holds docs [] heap metric h = (heap, metric, refl, h)
    scan_list-Holds docs (e ∷ es) heap metric h =
        let (next, offered, held) = process-Holds docs e heap h in
        let (found, after, rest, all) =
          scan_list-Holds docs es next (checked kernel store q topk docs e metric) held in
        (found, after, rw (offered, scan_list) rest, all)

    scan_lists-Holds :
        (x : IvfFlatIndex) (cs : List ℕ) (heap : List Scored) (metrics : List ListMetrics)
        → Holds (IsLive x.docs) topk heap
        → (found : List Scored) × (after : List ListMetrics) × (scan_lists kernel store q topk x cs
              heap metrics
            ≡ some (found, after))
          × Holds (IsLive x.docs) topk found
    unfolding scan_lists
    scan_lists-Holds x [] heap metrics h = (heap, metrics, refl, h)
    scan_lists-Holds x (c ∷ cs) heap metrics h =
        let (next, metric, scanned, held) =
          scan_list-Holds x.docs (get_or x.lists c []) heap (get_or metrics c no_metrics) h in
        let (found, after, rest, all) = scan_lists-Holds x cs next (set metrics c metric) held in
        (found, after, rw (scanned, scan_lists) rest, all)

    branch :
        (x : IvfFlatIndex) (b : Bool)
        → x.trained ≡ b
        → search kernel store q topk x ≡ (
            if b
            then trained_result kernel store q topk x
                (scan_lists kernel store q topk x (probes kernel store q topk x) [] x.list_metrics)
            else untrained_result kernel store q topk x
                (scan_buffer kernel store q topk x.docs x.buffer_ids []))
    unfolding search
    branch x b t =
        ap
          (λ c.
            if c
            then trained_result kernel store q topk x
                (scan_lists kernel store q topk x (probes kernel store q topk x) [] x.list_metrics)
            else untrained_result kernel store q topk x
                (scan_buffer kernel store q topk x.docs x.buffer_ids []))
          t

    -- A search that is asked for at least one result never looks at the top of an empty queue. It finds no
    -- more candidates than were asked for, before the training and after it. Each is a live document
    -- with the score of its vector. The documents and the lists stay as they are.
    pub search-IsLive :
        (x : IvfFlatIndex)
        → (y : IvfFlatIndex) × (found : List Scored) × (search kernel store q topk x
            ≡ some (y, map (candidate kernel store q topk) found))
          × (y.docs ≡ x.docs)
          × (y.lists ≡ x.lists)
          × (length found ≤ topk)
          × All (IsLive x.docs) found
    unfolding search
    search-IsLive x = elim (Bool-cases x.trained) [
      | inl t ↦
          let (found, metrics, scanned, (h, l)) =
            scan_lists-Holds x (probes kernel store q topk x) [] x.list_metrics (tt, omega arith) in
          (
            record x { list_metrics = metrics },
            found,
            branch x true t ∙ ap (trained_result kernel store q topk x) scanned,
            refl,
            refl,
            l,
            h,
          )
      | inr t ↦
          let (found, scanned, (h, l)) =
            scan_buffer-Holds x.docs x.buffer_ids [] (tt, omega arith) in
          (
            x,
            found,
            branch x false t ∙ ap (untrained_result kernel store q topk x) scanned,
            refl,
            refl,
            l,
            h,
          )
    ]

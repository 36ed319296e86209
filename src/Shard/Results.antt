-- ===== src/Shard/Results.antt =====
-- What a vector search of a shard returns, whatever other calls did between its two parts.
use pomaisearch.Base.{
  ℕ, ◌≤◌, ◌≡◌, refl, ap, inl, inr, Bool, true, List, [], ◌∷◌, map, some, arith, ltb, length,
  length-take, filter, min, get_elem?, get_or, get_or_of_some, Bool-cases, Option-cases,
}
use pomaisearch.Base.All.{All}
use pomaisearch.Base.Sort.{sort, IsSorted, sort-IsSorted, All-sort, All-map_list}
use pomaisearch.Base.TopK.{take-IsSorted, All-take}
use pomaisearch.Base.Order.{IsWeakOrder, pull-IsWeakOrder}
use pomaisearch.Float.{Float, Arithmetic, sanitize_score}
use pomaisearch.Float.Ranks.{better_keyed-IsWeakOrder}
use pomaisearch.Types.{Filter, metadata_filter_match}
use pomaisearch.VectorStore
use pomaisearch.Index.{Candidate}
use pomaisearch.Shard.{Shard, ShardDoc, no_doc, is_live}
use pomaisearch.Shard.Read.{
  CandidateResult, SnapshotDoc, better_candidate_result, cut, admits, snapshot_docs, snapshot,
  still_live, rerank, rescore,
}

pub better_candidate_result-IsWeakOrder : IsWeakOrder better_candidate_result
better_candidate_result-IsWeakOrder =
    pull-IsWeakOrder (λ (c : CandidateResult). (c.score, c.key, c.id)) better_keyed-IsWeakOrder

module _ {ℓ} {A : Type ℓ} where
  pub cut-IsSorted :
      (before : A → A → Bool) (k : ℕ) (xs : List A)
      → IsSorted before xs
      → IsSorted before (cut k xs)
  unfolding cut
  cut-IsSorted before k xs s = elim (Bool-cases (ltb k (length xs))) [
    | inl e ↦ rw e (take-IsSorted before k xs s)
    | inr e ↦ rw e s
  ]

  pub length-cut : (k : ℕ) (xs : List A) → length (cut k xs) ≡ min k (length xs)
  unfolding cut
  length-cut k xs = ground (arith, length-take k xs)

  pub All-cut {κ} : (P : A → Type κ) (k : ℕ) (xs : List A) → All P xs → All P (cut k xs)
  unfolding cut
  All-cut P k xs h = elim (Bool-cases (ltb k (length xs))) [
    | inl e ↦ rw e (All-take P k xs h)
    | inr e ↦ rw e h
  ]

module _ {ℓ κ μ} {A : Type ℓ} (P : A → Type κ) (Q : A → Type μ) (p : A → Bool) where
  -- What a filter lets through passes its test.
  pub All-filter :
      (xs : List A) → ((a : A) → Q a → p a ≡ true → P a) → All Q xs → All P (filter p xs)
  All-filter [] f h = tt
  All-filter (x ∷ xs) f h = elim (Bool-cases (p x)) [
    | inl e ↦ rw e (f x h.0 e, All-filter xs f h.1)
    | inr e ↦ rw e (All-filter xs f h.1)
  ]

-- A document that the first part may note: there, live and let through by the filter.
pub record IsNoted {I : Type 0} (s : Shard I) (now : ℕ) (f : Filter) (snap : SnapshotDoc)
    : Type 0 where
  pub doc : ShardDoc
  pub at : get_elem? s.docs snap.id ≡ some doc
  pub alive : is_live now doc ≡ true
  pub matches : metadata_filter_match f doc.meta ≡ true
  pub same_key : snap.key ≡ doc.key
  pub same_meta : snap.meta ≡ doc.meta
  pub same_gen : snap.gen ≡ doc.gen
  pub same_offset : snap.offset ≡ doc.offset

-- What the second part finds again: a live document of the generation that was noted.
pub record IsCurrent {I : Type 0} (s : Shard I) (now : ℕ) (snap : SnapshotDoc) : Type 0 where
  pub doc : ShardDoc
  pub at : get_elem? s.docs snap.id ≡ some doc
  pub alive : is_live now doc ≡ true
  pub same_gen : doc.gen ≡ snap.gen

module _ {I : Type 0} (s : Shard I) (now : ℕ) where
  still_live-IsCurrent : (snap : SnapshotDoc) → still_live s now snap ≡ true → IsCurrent s now snap
  unfolding still_live
  still_live-IsCurrent snap h = elim (Option-cases (get_elem? s.docs snap.id)) [
    | inl e ↦ absurd (ground (arith, e))
    | inr (doc, e) ↦ record {
      doc = doc;
      at = e;
      alive = ground (arith, e);
      same_gen = ground (arith, e);
    }
  ]

  admits-IsNoted :
      (f : Filter) (c : Candidate) → admits s now f c.id ≡ true → IsNoted s now f (snapshot s c)
  unfolding admits snapshot
  admits-IsNoted f c h = elim (Option-cases (get_elem? s.docs c.id)) [
    | inl e ↦ absurd (ground (arith, e))
    | inr (doc, e) ↦
        let same : get_or s.docs c.id no_doc ≡ doc = get_or_of_some s.docs c.id no_doc e in
        record {
          doc = doc;
          at = e;
          alive = ground (arith, e);
          matches = ground (arith, e);
          same_key = ap (λ (d : ShardDoc). d.key) same;
          same_meta = ap (λ (d : ShardDoc). d.meta) same;
          same_gen = ap (λ (d : ShardDoc). d.gen) same;
          same_offset = ap (λ (d : ShardDoc). d.offset) same;
        }
  ]

  snapshot_docs-IsNoted :
      (f : Filter) (cands : List Candidate) → All (IsNoted s now f) (snapshot_docs s now f cands)
  unfolding snapshot_docs
  snapshot_docs-IsNoted f cands =
      All-map_list (λ a b. true) (snapshot s) (IsNoted s now f)
        (filter (λ c. admits s now f c.id) cands)
        (All-filter (λ c. IsNoted s now f (snapshot s c)) (λ c. Unit {0}) (λ c. admits s now f c.id)
          cands (λ c _ h. admits-IsNoted f c h) (all_tt cands))
    where
      all_tt : (cs : List Candidate) → All (λ c. Unit {0}) cs
      all_tt [] = tt
      all_tt (c ∷ cs) = (tt, all_tt cs)

-- A result of a search: of a document that was noted in the first part and is current in the
-- second, with that document's key and metadata, and scored on its slot in the second.
pub record IsResult (kernel : List Float → List Float → Float) {I : Type 0} (s : Shard I) (now : ℕ)
    (s' : Shard I) (now' : ℕ) (query : List Float) (f : Filter) (c : CandidateResult) : Type 0 where
  pub snap : SnapshotDoc
  pub noted : IsNoted s now f snap
  pub current : IsCurrent s' now' snap
  pub same_id : c.id ≡ snap.id
  pub same_key : c.key ≡ snap.key
  pub same_meta : c.meta ≡ snap.meta
  pub exact : c.score ≡ sanitize_score (kernel query (VectorStore.get s'.store snap.offset))

module _ (m : Arithmetic) (kernel : List Float → List Float → Float) where
  pub rerank-IsResult :
      {I : Type 0} (s : Shard I) (now : ℕ) (s' : Shard I) (now' : ℕ) (query : List Float) (k : ℕ)
      (f : Filter) (cands : List Candidate)
      → All
          (IsResult kernel s now s' now' query f)
          (rerank m kernel s' now' query k (snapshot_docs s now f cands))
  unfolding rerank
  rerank-IsResult s now s' now' query k f cands =
      let P = IsResult kernel s now s' now' query f in
      let snaps = snapshot_docs s now f cands in
      All-cut P k _ (
        All-sort better_candidate_result P _ (
          All-map_list (λ a b. true) (rescore m kernel s' query) P
            (filter (still_live s' now') snaps)
            (All-filter _ (IsNoted s now f) (still_live s' now') snaps
              (λ snap n h. record {
                snap = snap;
                noted = n;
                current = still_live-IsCurrent s' now' snap h;
                same_id = refl;
                same_key = refl;
                same_meta = refl;
                exact = refl;
              })
              (snapshot_docs-IsNoted s now f cands))))

  pub rerank-IsSorted :
      {I : Type 0} (s : Shard I) (now : ℕ) (query : List Float) (k : ℕ) (snaps : List SnapshotDoc)
      → IsSorted better_candidate_result (rerank m kernel s now query k snaps)
        × (length (rerank m kernel s now query k snaps) ≤ k)
  unfolding rerank
  rerank-IsSorted s now query k snaps =
      let all = map (rescore m kernel s query) (filter (still_live s now) snaps) in
      (
        cut-IsSorted better_candidate_result k _
            (sort-IsSorted better_candidate_result-IsWeakOrder all),
        omega (arith, length-cut k (sort better_candidate_result all)),
      )

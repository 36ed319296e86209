-- ===== src/Shard/Read.antt =====
-- src/search_engine_impl.h: the reading calls of `Shard`. The candidates of a vector search are
-- noted under the lock, scored, and checked again under the lock; between the two, other calls may
-- change the shard, so the second part takes the shard and the time of its own.
use pomaisearch.Base.{
  ℕ, ◌*◌, Bool, false, ◌&&◌, List, [], map, none, some, ltb, ◌==◌, if◌then◌else◌, length, get_or,
  get_elem?, take, filter, min, max,
}
use pomaisearch.Base.Bytes.{Bytes}
use pomaisearch.Base.Maps.{nat_key, bytes_key, find}
use pomaisearch.Base.Sort.{sort}
use pomaisearch.Float.{Float, Arithmetic, sanitize_score}
use pomaisearch.Float.Ranks.{better_keyed}
use pomaisearch.Status.{StatusOr, value, error, status, invalid_argument, not_found, ◌>>=◌}
use pomaisearch.Types.{Metadata, VectorView, Filter, ResultItem, metadata_filter_match}
use pomaisearch.VectorStore
use pomaisearch.Index.{Index, Candidate}
use pomaisearch.KeywordIndex
use pomaisearch.Shard.{Shard, no_doc, is_live, prepare}

pub record CandidateResult : Type 0 where
  pub id : ℕ
  pub key : Bytes
  pub meta : Metadata
  pub score : Float

pub record SnapshotDoc : Type 0 where
  pub id : ℕ
  pub gen : ℕ
  pub key : Bytes
  pub meta : Metadata
  pub offset : ℕ

abbrev pub better_result : ResultItem → ResultItem → Bool
better_result a b = better_keyed (a.score, a.key, a.internal_id) (b.score, b.key, b.internal_id)

abbrev pub better_candidate_result : CandidateResult → CandidateResult → Bool
better_candidate_result a b = better_keyed (a.score, a.key, a.id) (b.score, b.key, b.id)

-- `if (size > k) resize(k)`.
unfoldable pub cut {ℓ} : {A : Type ℓ} → ℕ → List A → List A
cut k xs = if ltb k (length xs) then take k xs else xs

-- The tests of a document that a result may name: in range, live, and let through by the filter.
unfoldable pub admits : {I : Type 0} → Shard I → ℕ → Filter → ℕ → Bool
admits s now f id = elim (get_elem? s.docs id) [
  | none ↦ false
  | some doc ↦ is_live now doc && metadata_filter_match f doc.meta
]

unfoldable pub snapshot : {I : Type 0} → Shard I → Candidate → SnapshotDoc
snapshot s c =
    let doc = get_or s.docs c.id no_doc in
    record { id = c.id; gen = doc.gen; key = doc.key; meta = doc.meta; offset = doc.offset }

-- The first part of `SearchCandidates`, under the lock.
unfoldable pub snapshot_docs :
    {I : Type 0} → Shard I → ℕ → Filter → List Candidate → List SnapshotDoc
unfolding admits snapshot
snapshot_docs s now f cands = map (snapshot s) (filter (λ c. admits s now f c.id) cands)

-- The second check: still there, live, and of the generation that was noted.
unfoldable pub still_live : {I : Type 0} → Shard I → ℕ → SnapshotDoc → Bool
still_live s now snap = elim (get_elem? s.docs snap.id) [
  | none ↦ false
  | some doc ↦ is_live now doc && doc.gen == snap.gen
]

with_doc : {I : Type 0} → Shard I → Candidate → CandidateResult
with_doc s c =
    let doc = get_or s.docs c.id no_doc in
    record { id = c.id; key = doc.key; meta = doc.meta; score = sanitize_score c.score }

-- The key and the metadata are read from the document once more.
unfoldable pub result_item : {I : Type 0} → Shard I → CandidateResult → ResultItem
result_item s c =
    let doc = get_or s.docs c.id no_doc in
    record { key = doc.key; score = sanitize_score c.score; meta = doc.meta; internal_id = c.id }

module _ (m : Arithmetic) (kernel : List Float → List Float → Float) where
  -- The exact score of a noted document, read from the store as it is at the second part.
  unfoldable pub rescore : {I : Type 0} → Shard I → List Float → SnapshotDoc → CandidateResult
  rescore s query snap = record {
    id = snap.id;
    key = snap.key;
    meta = snap.meta;
    score = sanitize_score (kernel query (VectorStore.get s.store snap.offset));
  }

  -- The rest of `SearchCandidates`, on the shard as it is then.
  unfoldable pub rerank :
      {I : Type 0} → Shard I → ℕ → List Float → ℕ → List SnapshotDoc → List CandidateResult
  unfolding still_live rescore cut
  rerank s now query bounded_topk snaps =
      cut bounded_topk
        (sort better_candidate_result (map (rescore s query) (filter (still_live s now) snaps)))

module _ (m : Arithmetic) (kernel : List Float → List Float → Float) {I : Type 0}
    (ops : Index I) where
  -- How many candidates the index is asked for. The product does not overflow an `int` here.
  abbrev pub candidate_count : Shard I → ℕ → ℕ
  candidate_count s topk =
      let bounded = min topk s.max_candidates in
      min (max (bounded * s.rerank_factor) bounded) s.max_candidates

  -- `SearchCandidates`: the shard and the time at its first part and at its second.
  unfoldable pub search_candidates :
      Shard I → ℕ → Shard I → ℕ → VectorView → ℕ → Filter → StatusOr (List CandidateResult)
  unfolding rerank snapshot_docs
  search_candidates s now s' now' query topk f =
      if topk == 0
      then error (status invalid_argument "topk must be positive")
      else let q = prepare m s.similarity query in
        ops.search s.store s.index q (candidate_count s topk) f >>= λ cands. value (
          rerank m kernel s' now' (KeywordIndex.find_or q.elements []) (min topk s.max_candidates)
            (snapshot_docs s now f cands))

  -- `Search`: the results of ids that are documents, sorted again.
  unfoldable pub search :
      Shard I → ℕ → Shard I → ℕ → VectorView → ℕ → Filter → StatusOr (List ResultItem)
  unfolding search_candidates result_item
  search s now s' now' query topk f = search_candidates s now s' now' query topk f >>= λ cands.
      value
        (sort better_result (map (result_item s') (filter (λ c. ltb c.id (length s'.docs)) cands)))

  -- A keyword candidate with its document; its sort is the one of `CandidateResult`.
  unfoldable pub keyword_candidates_with_docs :
      Shard I → ℕ → Bytes → ℕ → Filter → List CandidateResult
  unfolding admits with_doc
  keyword_candidates_with_docs s now text topk f = sort better_candidate_result (
      map (with_doc s)
        (filter (λ c. admits s now f c.id) (KeywordIndex.search m s.keyword_index text topk)))

module _ {I : Type 0} where
  -- `Exists`: deleted and expired documents are there and do not exist.
  unfoldable pub exists : Shard I → ℕ → Bytes → StatusOr Bool
  exists s now key = elim (find key s.key_to_id) [
    | none ↦ error (status not_found "key not found")
    | some id ↦ value (is_live now (get_or s.docs id no_doc))
  ]

  unfoldable pub get_vector_copy : Shard I → ℕ → Bytes → StatusOr (List Float)
  get_vector_copy s now key = elim (find key s.key_to_id) [
    | none ↦ error (status not_found "key not found")
    | some id ↦
        let doc = get_or s.docs id no_doc in
        if is_live now doc
        then value (VectorStore.get s.store doc.offset)
        else error (status not_found "key not found")
  ]

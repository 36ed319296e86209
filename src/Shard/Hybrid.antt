-- ===== src/Shard/Hybrid.antt =====
-- src/search_engine_impl.h: `Shard::SearchHybrid` and `Shard::ExportRecords`.
use pomaisearch.Base.{
  ℕ, ◌*◌, List, [], ◌∷◌, map, Option, none, some, if◌then◌else◌, length, get_or, filter, ◌==◌,
}
use pomaisearch.Base.Bytes.{Bytes}
use pomaisearch.Base.Maps.{nat_key, find, assign}
use pomaisearch.Base.Sort.{sort}
use pomaisearch.Float.{Float, Arithmetic, zero_float, one_float, sanitize_score}
use pomaisearch.Status.{StatusOr, value, ◌>>=◌}
use pomaisearch.Types.{Metadata, VectorView, Filter, ResultItem}
use pomaisearch.VectorStore
use pomaisearch.Index.{Index, Candidate}
use pomaisearch.KeywordIndex
use pomaisearch.Shard.{Shard, ShardDoc, no_doc, is_live, prepare}
use pomaisearch.Shard.Read.{admits, cut, better_result}

-- A vector score and a keyword score for an id.
abbrev pub Scores : Type 0
Scores = List (ℕ × (Float × Float))

abbrev zero_scores : Float × Float
zero_scores = (zero_float, zero_float)

pub add_keyword : List Candidate → Scores → Scores
add_keyword [] scores = scores
add_keyword (c ∷ cands) scores =
    add_keyword cands
      (assign c.id ((KeywordIndex.find_or (find c.id scores) zero_scores).0, c.score) scores)

pub add_vector : List Candidate → Scores → Scores
add_vector [] scores = scores
add_vector (c ∷ cands) scores =
    add_vector cands
      (assign c.id (c.score, (KeywordIndex.find_or (find c.id scores) zero_scores).1) scores)

module _ (m : Arithmetic) where
  -- `alpha * vector + (1 - alpha) * keyword`.
  unfoldable pub weighted_sum : Float → Float → Float → Float
  weighted_sum alpha v k = m.add (m.mul alpha v) (m.mul (m.sub one_float alpha) k)

  hybrid_item : {I : Type 0} → Shard I → Float → ℕ × (Float × Float) → ResultItem
  unfolding weighted_sum
  hybrid_item s alpha (id, (v, k)) =
      let doc = get_or s.docs id no_doc in
      record {
        key = doc.key;
        score = sanitize_score (weighted_sum alpha v k);
        meta = doc.meta;
        internal_id = id;
      }

  abbrev score_id : ℕ × (Float × Float) → ℕ
  score_id (id, p) = id

  -- What is done with the two lists of candidates.
  pub fuse :
      {I : Type 0}
      → Shard I
      → ℕ
      → Float
      → ℕ
      → Filter
      → List Candidate
      → List Candidate
      → List ResultItem
  unfolding hybrid_item add_vector add_keyword
  fuse s now alpha topk f keyword_candidates vector_candidates =
      let scores = add_vector vector_candidates (add_keyword keyword_candidates []) in
      cut topk (
        sort better_result
          (map (hybrid_item s alpha) (filter (λ p. admits s now f (score_id p)) scores)))

  module _ {I : Type 0} (ops : Index I) where
    -- No vector, `none`, is `has_vector == false`.
    unfoldable pub search_hybrid :
        Shard I → ℕ → Bytes → Option VectorView → Float → ℕ → Filter → StatusOr (List ResultItem)
    unfolding fuse
    search_hybrid s now text query alpha topk f =
        let keyword_candidates =
          if length text == 0 then [] else KeywordIndex.search m s.keyword_index text (topk * 2) in
        elim query [
          | none ↦ value (fuse s now alpha topk f keyword_candidates [])
          | some q ↦ ops.search s.store s.index (prepare m s.similarity q) (topk * 2) f >>= λ cands.
              value (fuse s now alpha topk f keyword_candidates cands)
        ]

-- core/serialize/snapshot.h: what a snapshot or an export holds of a document.
pub record SnapshotRecord : Type 0 where
  pub key : Bytes
  pub vector : List Float
  pub meta : Metadata
  pub text : Option Bytes
  pub expiry : Option ℕ

abbrev export_doc : {I : Type 0} → Shard I → ShardDoc → SnapshotRecord
export_doc s doc = record {
  key = doc.key;
  vector = VectorStore.get s.store doc.offset;
  meta = doc.meta;
  text = doc.text;
  expiry = doc.expiry;
}

-- The records of the live documents, in the order of their ids.
unfoldable pub export_records : {I : Type 0} → Shard I → ℕ → List SnapshotRecord
export_records s now = map (export_doc s) (filter (is_live now) s.docs)

-- ===== src/Engine/Fusion.antt =====
-- src/search_engine.cc: `SearchHybridWithExplain`. The times are left out, and `topk * 2` has no bound.
-- `id_to_index` is the place of the candidate with the id among those that are there already.
use pomaisearch.Base.{
  ℕ, ◌+◌, ◌-◌, Bool, true, false, List, [], ◌∷◌, map, Option, none, some, ◌==◌, if◌then◌else◌,
  length, take, get_or,
}
use pomaisearch.Base.Bytes.{Bytes, codes}
use pomaisearch.Base.Maps.{nat_key, find, assign}
use pomaisearch.Base.Sort.{sort}
use pomaisearch.Float.{Float, Arithmetic, zero_float, one_float, sanitize_score}
use pomaisearch.Float.Ranks.{better_keyed}
use pomaisearch.Types.{ResultItem}
use pomaisearch.Shard.Read.{CandidateResult}
use pomaisearch.Shard.Hybrid as ShardHybrid
use pomaisearch.Engine.Explain.{FusionMethod, weighted_sum, rrf, ResultExplain}

pub record ScoredResult : Type 0 where
  pub base : CandidateResult
  pub vector_score : Float
  pub keyword_score : Float
  pub final_score : Float
  pub rank_before : ℕ

unfoldable pub add_candidate : Bool → CandidateResult → List CandidateResult → List CandidateResult
add_candidate is_vector c [] = c ∷ []
add_candidate is_vector c (d ∷ ds) =
    let rest = add_candidate is_vector c ds in
    if d.id == c.id
    then (if is_vector then d else record d { meta = c.meta; key = c.key }) ∷ ds
    else d ∷ rest

unfoldable pub add_candidates :
    Bool → List CandidateResult → List CandidateResult → List CandidateResult
unfolding add_candidate
add_candidates is_vector [] combined = combined
add_candidates is_vector (c ∷ cs) combined =
    add_candidates is_vector cs (add_candidate is_vector c combined)

-- The ranks of the candidates, the first of which has rank i + 1.
unfoldable pub ranks : ℕ → List CandidateResult → List (ℕ × ℕ) → List (ℕ × ℕ)
ranks i [] m = m
ranks i (c ∷ cs) m = ranks (i + 1) cs (assign c.id (i + 1) m)

abbrev pub no_candidate : CandidateResult
no_candidate = record { id = 0; key = []; meta = []; score = zero_float }

-- The score of the candidate of that rank, and the rank or 0.
abbrev pub ranked_score : List CandidateResult → Option ℕ → Float
ranked_score cs none = zero_float
ranked_score cs (some rank) = (get_or cs (rank - 1) no_candidate).score

abbrev pub rank_or : ℕ → Option ℕ → ℕ
rank_or missing none = missing
rank_or missing (some rank) = rank

abbrev pub better_scored : ScoredResult → ScoredResult → Bool
better_scored a b =
    better_keyed (a.final_score, a.base.key, a.base.id) (b.final_score, b.base.key, b.base.id)

abbrev pub fusion_name : FusionMethod → Bytes
fusion_name rrf = codes "rrf"
fusion_name weighted_sum = codes "weighted_sum"

abbrev pub fused_item : ScoredResult → ResultItem
fused_item item = record {
  key = item.base.key;
  score = sanitize_score item.final_score;
  meta = item.base.meta;
  internal_id = item.base.id;
}

-- What is told of the result of rank i + 1.
abbrev pub fused_detail : FusionMethod → ℕ → ScoredResult → ResultExplain
fused_detail fusion i item = record {
  vector_score_raw = sanitize_score item.vector_score;
  vector_score_normed = sanitize_score item.vector_score;
  keyword_score_raw = sanitize_score item.keyword_score;
  keyword_score_normed = sanitize_score item.keyword_score;
  fusion_method = fusion_name fusion;
  final_score = sanitize_score item.final_score;
  rank_before_fusion = item.rank_before;
  rank_after_fusion = i + 1;
}

unfoldable pub fused_details : FusionMethod → ℕ → List ScoredResult → List ResultExplain
fused_details fusion i [] = []
fused_details fusion i (item ∷ items) =
    fused_detail fusion i item ∷ fused_details fusion (i + 1) items

module _ (m : Arithmetic) where
  -- `1.0f / (60.0f + rank)`.
  abbrev reciprocal_rank : ℕ → Float
  reciprocal_rank rank = m.div one_float (m.add 1114636288 (m.of_nat rank))

  abbrev pub final_score_of : FusionMethod → Float → ℕ → Option ℕ → Option ℕ → Float → Float → Float
  final_score_of rrf alpha missing vec_rank key_rank v k =
      m.add (reciprocal_rank (rank_or missing vec_rank))
        (reciprocal_rank (rank_or missing key_rank))
  final_score_of weighted_sum alpha missing vec_rank key_rank v k =
      ShardHybrid.weighted_sum m alpha v k

  unfoldable pub score_one :
      FusionMethod
      → Float
      → ℕ
      → List CandidateResult
      → List CandidateResult
      → CandidateResult
      → ScoredResult
  unfolding ranks
  score_one fusion alpha missing vectors keywords c =
      let vec_rank = find c.id (ranks 0 vectors []) in
      let key_rank = find c.id (ranks 0 keywords []) in
      let v = ranked_score vectors vec_rank in
      let k = ranked_score keywords key_rank in
      record {
        base = c;
        vector_score = v;
        keyword_score = k;
        final_score = final_score_of fusion alpha missing vec_rank key_rank v k;
        rank_before = rank_or 0 vec_rank;
      }

  -- The candidates of both stages with their scores, in order, the best `topk`.
  unfoldable pub fuse_all :
      FusionMethod → Float → ℕ → List CandidateResult → List CandidateResult → List ScoredResult
  unfolding score_one add_candidates
  fuse_all fusion alpha topk vectors keywords =
      let combined = add_candidates false keywords (add_candidates true vectors []) in
      take topk (
        sort better_scored
          (map (score_one fusion alpha (length combined + 1) vectors keywords) combined))

-- ===== src/Engine/Scored.antt =====
-- The candidates with their scores, in order and explained.
use pomaisearch.Base.{
  ℕ, zero, suc, ◌+◌, ◌≡◌, refl, sym, ap, ◌∙◌, ◌||◌, List, [], ◌∷◌, map, arith, length, Option, some,
  none, take, get_elem?, false, true,
}
use mathlib.Core.Path.{subst}
use mathlib.Core.List.{Perm}
use mathlib.Core.Option.{some-injective}
use pomaisearch.Base.Maps.{nat_key, find}
use pomaisearch.Base.Order.{IsWeakOrder, pull-IsWeakOrder}
use pomaisearch.Base.Sort.{sort, IsSorted, sort-IsSorted, sort-perm}
use pomaisearch.Float.{Float, Arithmetic, one_float, sanitize_score}
use pomaisearch.Float.Ranks.{better_keyed-IsWeakOrder}
use pomaisearch.Shard.Read.{CandidateResult}
use pomaisearch.Shard.Hybrid as ShardHybrid
use pomaisearch.Engine.Explain.{FusionMethod, rrf, weighted_sum, SearchResponse, ResultExplain}
use pomaisearch.Engine.Fusion.{
  ScoredResult, better_scored, fused_item, fused_detail, fused_details, fuse_all, add_candidates,
  ranks, ranked_score, rank_or, final_score_of, score_one,
}
use pomaisearch.Engine.Combined.{
  has_id, HasIdsOnce, has_id-add_candidates, add_candidates-HasIdsOnce, IsRankOf, ranks-IsRankOf,
  IsScoreAt, ranked_score-IsScoreAt,
}

better_scored-IsWeakOrder : IsWeakOrder better_scored
better_scored-IsWeakOrder =
    pull-IsWeakOrder (λ (r : ScoredResult). (r.final_score, r.base.key, r.base.id))
      better_keyed-IsWeakOrder

-- A rank, or the one given for a candidate that is missing.
abbrev pub place : ℕ → Option ℕ → ℕ
place missing none = missing
place missing (some rank) = rank

-- The fused score: the sum of 1 / (60 + rank), or alpha * vector + (1 - alpha) * keyword.
abbrev pub IsFinal :
    Arithmetic → FusionMethod → Float → ℕ → Option ℕ → Option ℕ → ScoredResult → Type 0
IsFinal m rrf alpha missing vr kr s =
    s.final_score
    ≡ m.add (m.div one_float (m.add 1114636288 (m.of_nat (place missing vr))))
        (m.div one_float (m.add 1114636288 (m.of_nat (place missing kr))))
IsFinal m weighted_sum alpha missing vr kr s =
    s.final_score
    ≡ m.add (m.mul alpha s.vector_score) (m.mul (m.sub one_float alpha) s.keyword_score)

-- What is known of a candidate's scores, by its ranks in both lists.
pub record IsScored (m : Arithmetic) (fusion : FusionMethod) (alpha : Float) (missing : ℕ)
    (vectors keywords : List CandidateResult) (c : CandidateResult) (s : ScoredResult)
    : Type 0 where
  pub same_base : s.base ≡ c
  pub vector_rank : Option ℕ
  pub keyword_rank : Option ℕ
  pub is_vector_rank : IsRankOf vectors c.id vector_rank
  pub is_keyword_rank : IsRankOf keywords c.id keyword_rank
  pub is_vector_score : IsScoreAt vectors vector_rank s.vector_score
  pub is_keyword_score : IsScoreAt keywords keyword_rank s.keyword_score
  pub is_final : IsFinal m fusion alpha missing vector_rank keyword_rank s
  pub is_rank_before : s.rank_before ≡ place 0 vector_rank

-- What is told of the j-th result.
abbrev pub IsDetail : ℕ → ScoredResult → ResultExplain → Type 0
IsDetail j s d =
    (d.vector_score_raw ≡ sanitize_score s.vector_score)
    × (d.keyword_score_raw ≡ sanitize_score s.keyword_score)
    × (d.final_score ≡ sanitize_score s.final_score)
    × (d.rank_before_fusion ≡ s.rank_before)
    × (d.rank_after_fusion ≡ j + 1)

-- A response of the explained hybrid search, with the candidates that it is made of.
pub record IsFused (m : Arithmetic) (fusion : FusionMethod) (alpha : Float) (topk : ℕ)
    (vectors keywords : List CandidateResult) (r : SearchResponse) : Type 0 where
  pub combined : List CandidateResult
  pub every : (id : ℕ) → has_id id combined ≡ (has_id id keywords || has_id id vectors)
  pub once : HasIdsOnce combined
  pub score : CandidateResult → ScoredResult
  pub scored :
      (c : CandidateResult)
      → IsScored m fusion alpha (length combined + 1) vectors keywords c (score c)
  pub all : List ScoredResult
  pub same_candidates : Perm all (map score combined)
  pub in_order : IsSorted better_scored all
  pub same_results : r.results ≡ map fused_item (take topk all)
  pub one_each : length r.explain.result_details ≡ length r.results
  pub explained :
      (j : ℕ) (s : ScoredResult)
      → get_elem? (take topk all) j ≡ some s
      → (d : ResultExplain) × (get_elem? r.explain.result_details j ≡ some d) × IsDetail j s d

length-fused_details :
    (fusion : FusionMethod) (i : ℕ) (items : List ScoredResult)
    → length (fused_details fusion i items) ≡ length items
unfolding fused_details
length-fused_details fusion i [] = refl
length-fused_details fusion i (item ∷ items) = ap suc (length-fused_details fusion (i + 1) items)

length-map : (items : List ScoredResult) → length (map fused_item items) ≡ length items
length-map [] = refl
length-map (item ∷ items) = ap suc (length-map items)

fused_details-IsDetail :
    (fusion : FusionMethod) (i j : ℕ) (items : List ScoredResult) (s : ScoredResult)
    → get_elem? items j ≡ some s
    → (d : ResultExplain) × (get_elem? (fused_details fusion i items) j ≡ some d)
      × IsDetail (i + j) s d
unfolding fused_details
fused_details-IsDetail fusion i j [] s h = absurd (cc)
fused_details-IsDetail fusion i zero (item ∷ items) s h =
    let same : item ≡ s = some-injective _ _ h in
    let first : i + 1 ≡ i + 0 + 1 = omega arith in
    subst
      (λ x.
        (d : ResultExplain) × (some (fused_detail fusion i item) ≡ some d) × IsDetail (i + 0) x d)
      same (fused_detail fusion i item, refl, (refl, refl, refl, refl, first))
fused_details-IsDetail fusion i (suc j) (item ∷ items) s h =
    let (d, at, is) = fused_details-IsDetail fusion (i + 1) j items s h in
    let next : i + 1 + j ≡ i + suc j = omega arith in (d, at, subst (λ n. IsDetail n s d) next is)

place_lem : (missing : ℕ) (rank : Option ℕ) → rank_or missing rank ≡ place missing rank
place_lem missing none = refl
place_lem missing (some rank) = refl

zero_plus : (j : ℕ) → 0 + j ≡ j
zero_plus j = omega arith

no_id : (id : ℕ) → has_id id [] ≡ false
unfolding has_id
no_id id = refl

module _ (m : Arithmetic) where
  final_lem :
      (fusion : FusionMethod) (alpha : Float) (missing : ℕ) (vr kr : Option ℕ)
      (base : CandidateResult) (v k : Float) (before : ℕ)
      → IsFinal m fusion alpha missing vr kr (record {
        base = base;
        vector_score = v;
        keyword_score = k;
        final_score = final_score_of m fusion alpha missing vr kr v k;
        rank_before = before;
      })
  unfolding ShardHybrid.weighted_sum
  final_lem rrf alpha missing vr kr base v k before =
      rw (place_lem missing vr) (rw (place_lem missing kr) refl)
  final_lem weighted_sum alpha missing vr kr base v k before = refl

  score_one-IsScored :
      (fusion : FusionMethod) (alpha : Float) (missing : ℕ)
      (vectors keywords : List CandidateResult) (c : CandidateResult)
      → IsScored m fusion alpha missing vectors keywords c
          (score_one m fusion alpha missing vectors keywords c)
  unfolding score_one
  score_one-IsScored fusion alpha missing vectors keywords c =
      let vr = find c.id (ranks 0 vectors []) in
      let kr = find c.id (ranks 0 keywords []) in
      let v = ranks-IsRankOf vectors c.id in
      let k = ranks-IsRankOf keywords c.id in
      record {
        same_base = refl;
        vector_rank = vr;
        keyword_rank = kr;
        is_vector_rank = v;
        is_keyword_rank = k;
        is_vector_score = ranked_score-IsScoreAt vectors c.id vr v;
        is_keyword_score = ranked_score-IsScoreAt keywords c.id kr k;
        is_final =
            final_lem fusion alpha missing vr kr c (ranked_score vectors vr)
              (ranked_score keywords kr) (rank_or 0 vr);
        is_rank_before = place_lem 0 vr;
      }

  pub fuse_all-IsFused :
      (fusion : FusionMethod) (alpha : Float) (topk : ℕ) (vectors keywords : List CandidateResult)
      (r : SearchResponse)
      → r.results ≡ map fused_item (fuse_all m fusion alpha topk vectors keywords)
      → r.explain.result_details
        ≡ fused_details fusion 0 (fuse_all m fusion alpha topk vectors keywords)
      → IsFused m fusion alpha topk vectors keywords r
  unfolding fuse_all
  fuse_all-IsFused fusion alpha topk vectors keywords r results details =
      let combined = add_candidates false keywords (add_candidates true vectors []) in
      let score = score_one m fusion alpha (length combined + 1) vectors keywords in
      let all = sort better_scored (map score combined) in
      record {
        combined = combined;
        every = λ id. ground (
          arith,
          has_id-add_candidates false keywords (add_candidates true vectors []) id,
          has_id-add_candidates true vectors [] id,
          no_id id,
        );
        once =
            add_candidates-HasIdsOnce false keywords _
              (add_candidates-HasIdsOnce true vectors [] tt);
        score = score;
        scored = score_one-IsScored fusion alpha (length combined + 1) vectors keywords;
        all = all;
        same_candidates = sort-perm better_scored (map score combined);
        in_order = sort-IsSorted better_scored-IsWeakOrder (map score combined);
        same_results = results;
        one_each =
            ap length details
            ∙ length-fused_details fusion 0 (take topk all)
            ∙ sym (length-map (take topk all))
            ∙ sym (ap length results);
        explained = λ j s h.
            let (d, at, is) = fused_details-IsDetail fusion 0 j (take topk all) s h in
            (
              d,
              ap (λ ds. get_elem? ds j) details ∙ at,
              subst (λ n. IsDetail n s d) (zero_plus j) is,
            );
      }

-- ===== src/Engine/Combined.antt =====
-- The candidates of both stages of the explained hybrid search, put together by their ids, and their ranks.
use pomaisearch.Base.{
  ℕ, suc, ◌+◌, ◌-◌, ◌≡◌, ◌⊎◌, refl, sym, ap, ◌∙◌, inl, inr, Bool, true, false, ◌||◌, List, [], ◌∷◌,
  Option, none, some, arith, ◌==◌, ==_iff, get_elem?, get_or, get_or_of_some, Bool-cases,
}
use mathlib.Core.Path.{subst}
use pomaisearch.Base.Maps.{nat_key, find, assign, find-assign}
use pomaisearch.Float.{Float, zero_float}
use pomaisearch.Shard.Read.{CandidateResult}
use pomaisearch.Engine.Fusion.{add_candidate, add_candidates, ranks, ranked_score, no_candidate}

-- A candidate of the list has the id.
unfoldable pub has_id : ℕ → List CandidateResult → Bool
has_id id [] = false
has_id id (c ∷ cs) = c.id == id || has_id id cs

-- No two candidates have the same id.
abbrev pub HasIdsOnce : List CandidateResult → Type 0
HasIdsOnce [] = Unit
HasIdsOnce (c ∷ cs) = (has_id c.id cs ≡ false) × HasIdsOnce cs

has_id-add_candidate :
    (b : Bool) (c : CandidateResult) (cs : List CandidateResult) (id : ℕ)
    → has_id id (add_candidate b c cs) ≡ (c.id == id || has_id id cs)
unfolding add_candidate has_id
has_id-add_candidate b c [] id = refl
has_id-add_candidate b c (d ∷ ds) id = ground (arith, has_id-add_candidate b c ds id)

add_candidate-HasIdsOnce :
    (b : Bool) (c : CandidateResult) (cs : List CandidateResult)
    → HasIdsOnce cs
    → HasIdsOnce (add_candidate b c cs)
unfolding add_candidate has_id
add_candidate-HasIdsOnce b c [] h = (refl, tt)
add_candidate-HasIdsOnce true c (d ∷ ds) h = elim (Bool-cases (d.id == c.id)) [
  | inl e ↦ rw e h
  | inr e ↦ rw e (
    ground (arith, has_id-add_candidate true c ds d.id, e, h.0),
    add_candidate-HasIdsOnce true c ds h.1,
  )
]
add_candidate-HasIdsOnce false c (d ∷ ds) h = elim (Bool-cases (d.id == c.id)) [
  | inl e ↦ rw e h
  | inr e ↦ rw e (
    ground (arith, has_id-add_candidate false c ds d.id, e, h.0),
    add_candidate-HasIdsOnce false c ds h.1,
  )
]

pub has_id-add_candidates :
    (b : Bool) (cs combined : List CandidateResult) (id : ℕ)
    → has_id id (add_candidates b cs combined) ≡ (has_id id cs || has_id id combined)
unfolding add_candidates has_id
has_id-add_candidates b [] combined id = refl
has_id-add_candidates b (c ∷ cs) combined id = ground (
  arith,
  has_id-add_candidates b cs (add_candidate b c combined) id,
  has_id-add_candidate b c combined id,
)

pub add_candidates-HasIdsOnce :
    (b : Bool) (cs combined : List CandidateResult)
    → HasIdsOnce combined
    → HasIdsOnce (add_candidates b cs combined)
unfolding add_candidates
add_candidates-HasIdsOnce b [] combined h = h
add_candidates-HasIdsOnce b (c ∷ cs) combined h =
    add_candidates-HasIdsOnce b cs (add_candidate b c combined)
      (add_candidate-HasIdsOnce b c combined h)

-- The rank of an id among candidates, the first of which has rank 1: the place of a candidate with the id, or
-- none, where no candidate has it.
abbrev pub IsRankOf : List CandidateResult → ℕ → Option ℕ → Type 0
IsRankOf cs id none = has_id id cs ≡ false
IsRankOf cs id (some rank) =
    (j : ℕ) × (c : CandidateResult) × (get_elem? cs j ≡ some c) × (c.id ≡ id) × (rank ≡ j + 1)

find-ranks :
    (i : ℕ) (cs : List CandidateResult) (m : List (ℕ × ℕ)) (id : ℕ)
    → ((j : ℕ) × (c : CandidateResult) × (get_elem? cs j ≡ some c)
        × (c.id ≡ id)
        × (find id (ranks i cs m) ≡ some (i + j + 1)))
      ⊎ ((has_id id cs ≡ false) × (find id (ranks i cs m) ≡ find id m))
unfolding ranks has_id
find-ranks i [] m id = inr (refl, refl)
find-ranks i (c ∷ cs) m id = elim (find-ranks (i + 1) cs (assign c.id (i + 1) m) id) [
  | inl (j, d, at, same, found) ↦ inl (suc j, d, at, same, found ∙ ap some (next_rank i j))
  | inr (missed, found) ↦ elim (Bool-cases (c.id == id)) [
    | inl e ↦ inl (
      0,
      c,
      refl,
      (==_iff c.id id).0 e,
      found ∙ find-assign id c.id (i + 1) m ∙ rw e (ap some (first_rank i)),
    )
    | inr e ↦ inr (rw e missed, found ∙ find-assign id c.id (i + 1) m ∙ rw e refl)
  ]
]
  where
    next_rank : (i j : ℕ) → i + 1 + j + 1 ≡ i + suc j + 1
    next_rank i j = omega arith

    first_rank : (i : ℕ) → i + 1 ≡ i + 0 + 1
    first_rank i = omega arith

pub ranks-IsRankOf : (cs : List CandidateResult) (id : ℕ) → IsRankOf cs id (find id (ranks 0 cs []))
unfolding find
ranks-IsRankOf cs id = elim (find-ranks 0 cs [] id) [
  | inl (j, c, at, same, found) ↦ subst (IsRankOf cs id) (sym found) (j, c, at, same, omega arith)
  | inr (missed, found) ↦ subst (IsRankOf cs id) (sym found) missed
]

-- The score that goes with a rank: that of the candidate, or zero where there is none.
abbrev pub IsScoreAt : List CandidateResult → Option ℕ → Float → Type 0
IsScoreAt cs none score = score ≡ zero_float
IsScoreAt cs (some rank) score =
    (j : ℕ) × (c : CandidateResult) × (rank ≡ j + 1) × (get_elem? cs j ≡ some c) × (score ≡ c.score)

pub ranked_score-IsScoreAt :
    (cs : List CandidateResult) (id : ℕ) (rank : Option ℕ)
    → IsRankOf cs id rank
    → IsScoreAt cs rank (ranked_score cs rank)
ranked_score-IsScoreAt cs id none h = refl
ranked_score-IsScoreAt cs id (some rank) (j, c, at, same, e) =
    let place : rank - 1 ≡ j = omega (arith, e) in
    (
      j,
      c,
      e,
      at,
      ap (λ i. (get_or cs i no_candidate).score) place
          ∙ ap (λ (d : CandidateResult). d.score) (get_or_of_some cs j no_candidate at),
    )

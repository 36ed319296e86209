-- ===== src/VectorStore/Saving/FreeList.antt =====
-- The free list that `Load` makes from the flags.
use pomaisearch.Base.{
  ℕ, suc, ◌+◌, ◌-◌, ◌≤◌, ◌<◌, ◌≡◌, refl, inl, inr, List, [], ◌∷◌, arith, ◌==◌, length, get_or,
  Bool-cases,
}
use pomaisearch.Base.All.{All, All-map, Distinct}
use pomaisearch.VectorStore.Flags.{Balanced, count_live}
use pomaisearch.VectorStore.Saving.{dead_slots}

-- The free list that `Load` makes is in balance with the flags.
abbrev IsDeadFrom : ℕ → List ℕ → ℕ → Type 0
IsDeadFrom slot live j = (slot ≤ j) × (j < slot + length live) × (get_or live (j - slot) 0 ≡ 0)

IsDeadFrom-cons :
    (slot x : ℕ) (live : List ℕ) (j : ℕ)
    → IsDeadFrom (slot + 1) live j
    → IsDeadFrom slot (x ∷ live) j
IsDeadFrom-cons slot x live j (low, high, dead) =
    let next : j - slot ≡ suc (j - (slot + 1)) = omega arith in
    (omega arith, omega arith, rw next dead)

dead_slots-range : (live : List ℕ) (slot : ℕ) → All (IsDeadFrom slot live) (dead_slots slot live)
unfolding dead_slots
dead_slots-range [] slot = tt
dead_slots-range (x ∷ live) slot =
    let rest =
      All-map (dead_slots (slot + 1) live) (IsDeadFrom-cons slot x live)
        (dead_slots-range live (slot + 1)) in
    let none : slot - slot ≡ 0 = omega arith in
    elim (Bool-cases (x == 0)) [
      | inl e ↦ rw e ((omega arith, omega arith, rw none (ground (arith, e))), rest)
      | inr e ↦ rw e rest
    ]

dead_slots-Distinct : (live : List ℕ) (slot : ℕ) → Distinct (dead_slots slot live)
unfolding dead_slots
dead_slots-Distinct [] slot = tt
dead_slots-Distinct (x ∷ live) slot =
    let rest = dead_slots-Distinct live (slot + 1) in
    elim (Bool-cases (x == 0)) [
      | inl e ↦ rw e (
        All-map (dead_slots (slot + 1) live) (λ j d. omega (arith, d.0))
            (dead_slots-range live (slot + 1)),
        rest,
      )
      | inr e ↦ rw e rest
    ]

dead_slots-count :
    (live : List ℕ) (slot : ℕ) → length (dead_slots slot live) + count_live live ≡ length live
unfolding dead_slots
dead_slots-count [] slot = omega arith
dead_slots-count (x ∷ live) slot = ground (arith, dead_slots-count live (slot + 1))

pub dead_slots-Balanced : (live : List ℕ) → Balanced live (dead_slots 0 live) (count_live live)
dead_slots-Balanced live = record {
  counted = refl;
  free_dead =
      All-map (dead_slots 0 live)
        (λ j d. (omega (arith, d.1), let whole : j - 0 ≡ j = omega arith in rw whole at d.2))
        (dead_slots-range live 0);
  free_once = dead_slots-Distinct live 0;
  all_free = dead_slots-count live 0;
}

-- ===== src/KMeans/Assigned.antt =====
-- The nearest centroid, and a training that ends or writes out of bounds.
use pomaisearch.Base.{
  ℕ, zero, suc, ◌+◌, ◌≤◌, ◌<◌, ◌≡◌, refl, inl, inr, true, List, none, false, sym, ◌∙◌, ◌⊎◌,
  Option-cases, some, arith, Bool-cases,
}
use mathlib.Core.Path.{subst}
use mathlib.Core.Option.{some-injective}
use native.Mathlib.Decide.{ℕ_discrete}
use pomaisearch.Float.{Float, float_gt, float_lt}
use pomaisearch.KMeans.{KMeans, lowest, centroid, best_from, best_centroid, assign_one}

float_gt_trans : (x y z : Float) → float_gt x y ≡ true → float_gt y z ≡ true → float_gt x z ≡ true
unfolding float_lt
float_gt_trans x y z h1 h2 = ground (arith, h1, h2)

-- Not above a number that is above none of a third.
float_gt_not :
    (x y z low : Float)
    → float_gt x y ≡ true
    → float_gt z low ≡ true
    → float_gt x z ≡ false
    → float_gt y z ≡ false
unfolding float_lt
float_gt_not x y z low h1 h2 h3 = ground (arith, h1, h2, h3)

not_float_gt_trans :
    (x y z low : Float)
    → float_gt x y ≡ false
    → float_gt y low ≡ true
    → float_gt y z ≡ false
    → float_gt x z ≡ false
unfolding float_lt
not_float_gt_trans x y z low h1 h2 h3 = ground (arith, h1, h2, h3)

float_gt_irrefl : (x : Float) → float_gt x x ≡ false
unfolding float_lt
float_gt_irrefl x = ground arith

not_above :
    (x y : Float) → float_gt x lowest ≡ false → float_gt y lowest ≡ true → float_gt x y ≡ false
not_above x y h1 h2 = elim (Bool-cases (float_gt x y)) [
  | inl e ↦ absurd (cc (h1, float_gt_trans x y lowest e h2))
  | inr e ↦ e
]

pub not_both : true ≡ false → ⊥
not_both e = absurd (cc (e))

module _ (kernel : List Float → List Float → Float) where
  best_from-some :
      (dim : ℕ) (centroids vec : List Float) (n c b : ℕ) (d : Float)
      → b < c + n
      → (best : ℕ) × (best_from kernel dim centroids vec n c (some b) d ≡ some best)
        × (best < c + n)
  unfolding best_from
  best_from-some dim centroids vec zero c b d h = (b, refl, h)
  best_from-some dim centroids vec (suc n) c b d h =
      elim (Bool-cases (float_gt (kernel vec (centroid dim centroids c)) d)) [
        | inl e ↦
            let (best, found, l) =
              best_from-some dim centroids vec n (c + 1) c (kernel vec (centroid dim centroids c))
                (omega arith) in
            (best, rw e found, omega (arith, l))
        | inr e ↦
            let (best, found, l) = best_from-some dim centroids vec n (c + 1) b d (omega arith) in
            (best, rw e found, omega (arith, l))
      ]

  -- Where nothing is found, no score is above the one to beat.
  best_from-none :
      (dim : ℕ) (centroids vec : List Float) (n c : ℕ) (d : Float)
      → best_from kernel dim centroids vec n c none d ≡ none
      → (j : ℕ) → c ≤ j
      → j < c + n
      → float_gt (kernel vec (centroid dim centroids j)) d ≡ false
  unfolding best_from
  best_from-none dim centroids vec zero c d h j l1 l2 = absurd (omega (arith, l1, l2))
  best_from-none dim centroids vec (suc n) c d h j l1 l2 =
      let score = kernel vec (centroid dim centroids c) in
      elim (Bool-cases (float_gt score d)) [
        | inl e ↦
            let (best, found, below) =
              best_from-some dim centroids vec n (c + 1) c score (omega arith) in
            absurd (cc (found, rw e at h))
        | inr e ↦ elim (ℕ_discrete c j) [
          | yes p ↦ subst (λ i. float_gt (kernel vec (centroid dim centroids i)) d ≡ false) p e
          | no apart ↦
              best_from-none dim centroids vec n (c + 1) d (rw e at h) j (omega (arith, l1, apart))
                (omega (arith, l2))
        ]
      ]

  -- What is found from a centroid b on is as good as b and as all that are looked at.
  best_from-best :
      (dim : ℕ) (centroids vec : List Float) (n c b r : ℕ)
      → float_gt (kernel vec (centroid dim centroids b)) lowest ≡ true
      → best_from kernel dim centroids vec n c (some b) (kernel vec (centroid dim centroids b))
        ≡ some r
      → (float_gt (kernel vec (centroid dim centroids r)) lowest ≡ true)
        × (float_gt (kernel vec (centroid dim centroids b)) (kernel vec (centroid dim centroids r))
            ≡ false)
        × ((j : ℕ)
            → c ≤ j
            → j < c + n
            → float_gt
                (kernel vec (centroid dim centroids j))
                (kernel vec (centroid dim centroids r))
              ≡ false)
  unfolding best_from
  best_from-best dim centroids vec zero c b r above h =
      let same : b ≡ r = some-injective _ _ h in
      (
        subst (λ i. float_gt (kernel vec (centroid dim centroids i)) lowest ≡ true) same above,
        subst
            (λ i.
              float_gt (kernel vec (centroid dim centroids b))
                (kernel vec (centroid dim centroids i))
              ≡ false)
            same (float_gt_irrefl _),
        λ j l1 l2. absurd (omega (arith, l1, l2)),
      )
  best_from-best dim centroids vec (suc n) c b r above h =
      let score : ℕ → Float = λ i. kernel vec (centroid dim centroids i) in
      elim (Bool-cases (float_gt (score c) (score b))) [
        | inl e ↦
            let (high, own, others) =
              best_from-best dim centroids vec n (c + 1) c r
                (float_gt_trans (score c) (score b) lowest e above) (rw e at h) in
            (
              high,
              float_gt_not (score c) (score b) (score r) lowest e high own,
              λ j l1 l2. elim (ℕ_discrete c j) [
                | yes p ↦ subst (λ i. float_gt (score i) (score r) ≡ false) p own
                | no apart ↦ others j (omega (arith, l1, apart)) (omega (arith, l2))
              ],
            )
        | inr e ↦
            let (high, own, others) =
              best_from-best dim centroids vec n (c + 1) b r above (rw e at h) in
            (
              high,
              own,
              λ j l1 l2. elim (ℕ_discrete c j) [
                | yes p ↦
                    subst (λ i. float_gt (score i) (score r) ≡ false) p
                      (not_float_gt_trans (score c) (score b) (score r) lowest e above own)
                | no apart ↦ others j (omega (arith, l1, apart)) (omega (arith, l2))
              ],
            )
      ]

  -- From nothing found on.
  best_from-first :
      (dim : ℕ) (centroids vec : List Float) (n c r : ℕ)
      → best_from kernel dim centroids vec n c none lowest ≡ some r
      → (r < c + n)
        × (float_gt (kernel vec (centroid dim centroids r)) lowest ≡ true)
        × ((j : ℕ)
            → c ≤ j
            → j < c + n
            → float_gt
                (kernel vec (centroid dim centroids j))
                (kernel vec (centroid dim centroids r))
              ≡ false)
  unfolding best_from
  best_from-first dim centroids vec zero c r h = absurd (cc)
  best_from-first dim centroids vec (suc n) c r h =
      let score : ℕ → Float = λ i. kernel vec (centroid dim centroids i) in
      elim (Bool-cases (float_gt (score c) lowest)) [
        | inl e ↦
            let (best, found, l) =
              best_from-some dim centroids vec n (c + 1) c (score c) (omega arith) in
            let same : best ≡ r = some-injective _ _ (sym found ∙ rw e at h) in
            let (high, own, others) =
              best_from-best dim centroids vec n (c + 1) c r e (rw e at h) in
            (
              omega (arith, l, same),
              high,
              λ j l1 l2. elim (ℕ_discrete c j) [
                | yes p ↦ subst (λ i. float_gt (score i) (score r) ≡ false) p own
                | no apart ↦ others j (omega (arith, l1, apart)) (omega (arith, l2))
              ],
            )
        | inr e ↦
            let (l, high, others) = best_from-first dim centroids vec n (c + 1) r (rw e at h) in
            (
              omega (arith, l),
              high,
              λ j l1 l2. elim (ℕ_discrete c j) [
                | yes p ↦
                    subst (λ i. float_gt (score i) (score r) ≡ false) p
                      (not_above (score c) (score r) e high)
                | no apart ↦ others j (omega (arith, l1, apart)) (omega (arith, l2))
              ],
            )
      ]

  -- A vector has a score above the lowest float with some centroid.
  abbrev pub HasScore : KMeans → List Float → Type 0
  HasScore km vec =
      (c : ℕ) × (c < km.k) × (float_gt (kernel vec (centroid km.dim km.centroids c)) lowest ≡ true)

  -- Any arithmetic, NaNs and infinities included: the centroid that is found is one of the k, its score is above
  -- the lowest float, and no score is above its score. If none is found, no score is above the
  -- lowest float.
  pub assign_one-best :
      (km : KMeans) (vec : List Float)
      → ((c : ℕ) × (assign_one kernel km vec ≡ some c)
          × (c < km.k)
          × (float_gt (kernel vec (centroid km.dim km.centroids c)) lowest ≡ true)
          × ((j : ℕ)
              → j < km.k
              → float_gt
                  (kernel vec (centroid km.dim km.centroids j))
                  (kernel vec (centroid km.dim km.centroids c))
                ≡ false))
        ⊎ ((assign_one kernel km vec ≡ none)
            × ((j : ℕ)
                → j < km.k
                → float_gt (kernel vec (centroid km.dim km.centroids j)) lowest ≡ false))
  unfolding assign_one best_centroid
  assign_one-best km vec =
      elim (Option-cases (best_from kernel km.dim km.centroids vec km.k 0 none lowest)) [
        | inl e ↦ inr (
          e,
          λ j l.
              best_from-none km.dim km.centroids vec km.k 0 lowest e j (omega arith)
                (omega (arith, l)),
        )
        | inr (c, e) ↦
            let (l, high, others) = best_from-first km.dim km.centroids vec km.k 0 c e in
            inl (
              c,
              e,
              omega (arith, l),
              high,
              λ j below. others j (omega arith) (omega (arith, below)),
            )
      ]

  -- There is a nearest centroid of a vector that has a score.
  pub assign_one-some :
      (km : KMeans) (vec : List Float)
      → HasScore km vec
      → (c : ℕ) × (assign_one kernel km vec ≡ some c) × (c < km.k)
  assign_one-some km vec (j, l, above) = elim (assign_one-best km vec) [
    | inl (c, found, below, high, best) ↦ (c, found, below)
    | inr (missed, low) ↦ absurd (not_both (sym above ∙ low j l))
  ]

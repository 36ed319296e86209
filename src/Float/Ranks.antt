-- ===== src/Float/Ranks.antt =====
-- The order of results that every sort of the program uses: a higher sanitised score first, then
-- the smaller key, then the smaller id.
use pomaisearch.Base.{ℕ, ◌≡◌, ◌⊎◌, Bool, true, false, not, arith, ltb, ◌==◌, if◌then◌else◌}
use pomaisearch.Base.Order.{IsWeakOrder, before_irrefl}
use pomaisearch.Base.Bytes.{Bytes, bytes_eq, bytes_eq_iff, bytes_lt, bytes_lt-IsTotalOrder}
use pomaisearch.Float.{
  Float, is_nan, order_key, float_lt, float_gt, float_eq, float_ne, sanitize_score,
}

-- By score and id alone (`IsBetter` of the flat index, and the sorts of `Candidate`).
unfoldable pub better_scored : Float × ℕ → Float × ℕ → Bool
better_scored (a, i) (b, j) =
    let score_a = sanitize_score a in
    let score_b = sanitize_score b in
    if float_ne score_a score_b then float_gt score_a score_b else ltb i j

-- By score, key and id (the sorts of `ResultItem`, `CandidateResult` and `ScoredResult`).
unfoldable pub better_keyed : Float × Bytes × ℕ → Float × Bytes × ℕ → Bool
better_keyed (a, k, i) (b, l, j) =
    let score_a = sanitize_score a in
    let score_b = sanitize_score b in
    if float_ne score_a score_b
    then float_gt score_a score_b
    else if not (bytes_eq k l)
    then bytes_lt k l
    else ltb i j

-- A sanitised score is never a NaN, and every other score keeps its value.
pub sanitize_score_lem :
    (s : Float) → (is_nan (sanitize_score s) ≡ false) × (is_nan s ≡ false → sanitize_score s ≡ s)
unfolding sanitize_score is_nan
sanitize_score_lem s = ground arith

-- The rank of a score: sanitised scores compare as these numbers.
pub rank : Float → ℕ
rank s = order_key (sanitize_score s)

pub better_scored_lem :
    (a b : Float) (i j : ℕ)
    → better_scored (a, i) (b, j) ≡ (if rank a == rank b then ltb i j else ltb (rank b) (rank a))
unfolding better_scored float_lt float_eq rank
better_scored_lem a b i j = ground (arith, (sanitize_score_lem a).0, (sanitize_score_lem b).0)

pub better_keyed_lem :
    (a b : Float) (k l : Bytes) (i j : ℕ)
    → better_keyed (a, k, i) (b, l, j) ≡ (
        if rank a == rank b
        then (if bytes_eq k l then ltb i j else bytes_lt k l)
        else ltb (rank b) (rank a))
unfolding better_keyed float_lt float_eq rank
better_keyed_lem a b k l i j = ground (arith, (sanitize_score_lem a).0, (sanitize_score_lem b).0)

pub better_scored-IsWeakOrder : IsWeakOrder better_scored
better_scored-IsWeakOrder = record {
  asym = λ (a, i) (b, j). ground (arith, better_scored_lem a b i j, better_scored_lem b a j i);
  split = λ (a, i) (b, j) (c, k).
      ground
        (arith, better_scored_lem a b i j, better_scored_lem b c j k, better_scored_lem a c i k);
}

keyed_split :
    (a b c : Float) (k l m : Bytes) (i j n : ℕ)
    → better_keyed (a, k, i) (c, m, n) ≡ true
    → (better_keyed (a, k, i) (b, l, j) ≡ true) ⊎ (better_keyed (b, l, j) (c, m, n) ≡ true)
keyed_split a b c k l m i j n h =
    let order = bytes_lt-IsTotalOrder in
    ground (
      arith,
      better_keyed_lem a b k l i j,
      better_keyed_lem b c l m j n,
      better_keyed_lem a c k m i n,
      bytes_eq_iff k l,
      bytes_eq_iff l m,
      bytes_eq_iff k m,
      order.weak.split k l m,
      order.connected k l,
      before_irrefl order.weak k,
      before_irrefl order.weak l,
    )

-- The order of results, by sanitised score (highest first), key and id, is a strict weak order, as
-- `std::sort` requires: of any scores, NaN included.
pub better_keyed-IsWeakOrder : IsWeakOrder better_keyed
better_keyed-IsWeakOrder = record {
  asym = λ (a, k, i) (b, l, j). ground (
    arith,
    better_keyed_lem a b k l i j,
    better_keyed_lem b a l k j i,
    bytes_eq_iff k l,
    bytes_eq_iff l k,
    bytes_lt-IsTotalOrder.weak.asym k l,
  );
  split = λ (a, k, i) (b, l, j) (c, m, n). keyed_split a b c k l m i j n;
}

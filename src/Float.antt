-- ===== src/Float.antt =====
-- `float`: a value is its IEEE 754 binary32 bit pattern, a number below 2^32. Comparisons and the
-- NaN test are read off the pattern. Arithmetic is the machine's, and is a parameter.
-- `SanitizeScore` (include/pomai_search/scoring.h) stands here too.
pub mod Ranks
pub mod Examples
use pomaisearch.Base.{
  ℕ, ◌-◌, ◌+◌, ◌%◌, ◌≡◌, Bool, true, false, not, ◌&&◌, ◌||◌, List, [], ◌∷◌, arith, ltb, leb, ◌==◌,
  if◌then◌else◌, refl,
}

abbrev pub Float : Type 0
Float = ℕ

-- The bits without the sign.
unfoldable pub magnitude : Float → ℕ
magnitude x = x % 2147483648

-- The exponent is all ones and the fraction is not zero.
unfoldable pub is_nan : Float → Bool
unfolding magnitude
is_nan x = ltb 2139095040 (magnitude x)

-- A number that orders the patterns which are no NaN as their values, -0 and +0 together.
unfoldable pub order_key : Float → ℕ
unfolding magnitude
order_key x = if leb 2147483648 x then 2147483648 - magnitude x else 2147483648 + magnitude x

-- `x < y`, `x > y`, `x == y`, `x != y`: all but the last fail at a NaN.
unfoldable pub float_lt : Float → Float → Bool
float_lt x y = not (is_nan x) && not (is_nan y) && ltb (order_key x) (order_key y)

abbrev pub float_gt : Float → Float → Bool
float_gt x y = float_lt y x

unfoldable pub float_eq : Float → Float → Bool
float_eq x y = not (is_nan x) && not (is_nan y) && order_key x == order_key y

abbrev pub float_ne : Float → Float → Bool
float_ne x y = not (float_eq x y)

abbrev pub float_le : Float → Float → Bool
float_le x y = float_lt x y || float_eq x y

abbrev pub zero_float : Float
zero_float = 0

abbrev pub one_float : Float
one_float = 1065353216

abbrev pub neg_infinity : Float
neg_infinity = 4286578688

unfoldable pub sanitize_score : Float → Float
sanitize_score score = if is_nan score then neg_infinity else score

-- What the program takes from the machine and from `<cmath>`.
pub record Arithmetic : Type 0 where
  pub add : Float → Float → Float
  pub sub : Float → Float → Float
  pub mul : Float → Float → Float
  pub div : Float → Float → Float
  pub sqrt : Float → Float
  pub log : Float → Float
  pub of_nat : ℕ → Float

-- `DotScalar` (core/kernels/scalar_kernels.cc): the loop over the first `dim` places.
module _ (m : Arithmetic) where
  dot_from : Float → List Float → List Float → Float
  dot_from sum (x ∷ a) (y ∷ b) = dot_from (m.add sum (m.mul x y)) a b
  dot_from sum _ _ = sum

  unfoldable pub dot_scalar : List Float → List Float → Float
  unfolding dot_from
  dot_scalar a b = dot_from zero_float a b

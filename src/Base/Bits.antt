-- ===== src/Base/Bits.antt =====
-- The exclusive or of two numbers, digit by digit.
use Prim.Native.Nat.{
  ℕ, zero, suc, ◌+◌, ◌*◌, ◌/◌, ◌%◌, ◌≤◌, ◌<◌, ◌^◌, digits, differ, bit_xor, bit_xor-bitwise,
}
use mathlib.Core.Path.{◌≡◌, refl, sym, ap, ◌∙◌}
use native.Mathlib.Omega.{arith}

abbrev xor_digits : ℕ → ℕ → ℕ → ℕ
xor_digits = digits (λ b. b) differ

differ_self : (x : ℕ) → differ x x ≡ 0
differ_self zero = refl
differ_self (suc x) = differ_self x

-- Twice the same digit.
differ_twice : (x y : ℕ) → x ≤ 1 → y ≤ 1 → differ (differ x y) y ≡ x
differ_twice zero y h k = differ_self y
differ_twice (suc zero) zero h k = refl
differ_twice (suc zero) (suc zero) h k = refl
differ_twice (suc zero) (suc (suc y)) h k = absurd (omega arith)
differ_twice (suc (suc x)) y h k = absurd (omega arith)

differ-le : (x y : ℕ) → x ≤ 1 → y ≤ 1 → differ x y ≤ 1
differ-le zero y h k = k
differ-le (suc zero) zero h k = omega arith
differ-le (suc zero) (suc zero) h k = omega arith
differ-le (suc zero) (suc (suc y)) h k = absurd (omega arith)
differ-le (suc (suc x)) y h k = absurd (omega arith)

-- One more digit to go makes no difference.
enough_digits : (k a b : ℕ) → a ≤ k → xor_digits (suc k) a b ≡ xor_digits k a b
enough_digits zero zero b h = refl
enough_digits zero (suc a) b h = absurd (omega arith)
enough_digits (suc k) zero b h = refl
enough_digits (suc k) (suc a) b h =
    ap (λ n. n * 2 + differ (suc a % 2) (b % 2)) (enough_digits k (suc a / 2) (b / 2) (omega arith))

self_digits : (k b : ℕ) → b ≤ k → xor_digits k b b ≡ 0
self_digits zero zero h = refl
self_digits zero (suc b) h = absurd (omega arith)
self_digits (suc k) zero h = refl
self_digits (suc k) (suc b) h =
    omega (arith, self_digits k (suc b / 2) (omega arith), differ_self (suc b % 2))

no_digits : (k b : ℕ) → xor_digits k 0 b ≡ b
no_digits zero b = refl
no_digits (suc k) b = refl

low_digit : (k a b : ℕ) → xor_digits (suc k) a b % 2 ≡ differ (a % 2) (b % 2)
low_digit k zero b = refl
low_digit k (suc a) b = omega (arith, differ-le (suc a % 2) (b % 2) (omega arith) (omega arith))

high_digits : (k a b : ℕ) → xor_digits (suc k) a b / 2 ≡ xor_digits k (a / 2) (b / 2)
high_digits k zero b = sym (no_digits k (b / 2))
high_digits k (suc a) b = omega (arith, differ-le (suc a % 2) (b % 2) (omega arith) (omega arith))

digits_twice : (n k a b : ℕ) → a ≤ n → xor_digits n a b ≤ k → xor_digits k (xor_digits n a b) b ≡ a
digits_twice zero k zero b h j = self_digits k b j
digits_twice zero k (suc a) b h j = absurd (omega arith)
digits_twice (suc n) k a b h j =
    let c = xor_digits (suc n) a b in
    let d = xor_digits (suc k) c b in
    let low : d % 2 ≡ a % 2 =
      low_digit k c b
      ∙ ap (λ x. differ x (b % 2)) (low_digit n a b)
      ∙ differ_twice (a % 2) (b % 2) (omega arith) (omega arith) in
    let shifted = high_digits n a b in
    let high : d / 2 ≡ a / 2 =
      high_digits k c b
      ∙ ap (λ x. xor_digits k x (b / 2)) shifted
      ∙ digits_twice n k (a / 2) (b / 2) (omega arith) (omega (arith, shifted)) in
    sym (enough_digits k c b j) ∙ omega (arith, low, high)

bit_xor_lem : (a b : ℕ) → bit_xor a b ≡ xor_digits a a b
bit_xor_lem a b = bit_xor-bitwise a b

-- An exclusive or that is taken twice is undone.
pub bit_xor_twice : (a b : ℕ) → bit_xor (bit_xor a b) b ≡ a
bit_xor_twice a b =
    rw (bit_xor_lem (bit_xor a b) b)
      (rw (bit_xor_lem a b) (digits_twice a (xor_digits a a b) a b (omega arith) (omega arith)))

digits-lt : (w k a b : ℕ) → a < 2 ^ w → b < 2 ^ w → xor_digits k a b < 2 ^ w
digits-lt w zero a b h j = j
digits-lt zero (suc k) zero b h j = j
digits-lt zero (suc k) (suc a) b h j = absurd (omega arith)
digits-lt (suc w) (suc k) a b h j =
    let rest : xor_digits k (a / 2) (b / 2) < 2 ^ w =
      digits-lt w k (a / 2) (b / 2) (omega arith) (omega arith) in
    omega (arith, high_digits k a b, rest)

pub bit_xor-lt : (w a b : ℕ) → a < 2 ^ w → b < 2 ^ w → bit_xor a b < 2 ^ w
bit_xor-lt w a b h j = rw (bit_xor_lem a b) (digits-lt w a a b h j)

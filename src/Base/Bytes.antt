-- ===== src/Base/Bytes.antt =====
-- `std::string` and `std::string_view`: a list of bytes, with the two comparisons that the
-- program makes. `operator<` compares bytes as unsigned numbers, a prefix first.
use Prim.Native.Nat.{ℕ, zero, suc, ◌+◌, ◌/◌, ◌%◌}
use mathlib.Core.Path.{◌≡◌, refl}
use mathlib.Core.Logic.{◌⊎◌, inl, inr, ◌↔◌}
use mathlib.Core.Bool.{Bool, true, false, ◌&&◌}
use mathlib.Core.List.{List, [], ◌∷◌, ◌++◌}
use Prim.Native.Char.{code}
use Prim.Native.String.{String}
use native.Mathlib.Omega.{arith}
use pomaisearch.Base.Tests.{ltb, ◌==◌, if◌then◌else◌}
use pomaisearch.Base.Order.{IsTotalOrder}

abbrev pub Bytes : Type 0
Bytes = List ℕ

-- The bytes of an ASCII literal.
abbrev pub codes : String → Bytes
codes String.[] = []
codes (String.◌∷◌ c s) = code c ∷ codes s

-- `std::to_string` of a number of at most w + 1 digits.
pub decimal_digits : ℕ → ℕ → Bytes
decimal_digits zero n = (b'0' + n % 10) ∷ []
decimal_digits (suc w) n =
    let before = decimal_digits w (n / 10) in
    if ltb n 10 then (b'0' + n) ∷ [] else before ++ (b'0' + n % 10) ∷ []

-- 20 digits hold 64 bits.
unfoldable pub to_string : ℕ → Bytes
unfolding decimal_digits
to_string n = decimal_digits 19 n

unfoldable pub bytes_eq : Bytes → Bytes → Bool
bytes_eq [] [] = true
bytes_eq (x ∷ xs) (y ∷ ys) = x == y && bytes_eq xs ys
bytes_eq _ _ = false

unfoldable pub bytes_lt : Bytes → Bytes → Bool
bytes_lt [] [] = false
bytes_lt [] (y ∷ ys) = true
bytes_lt (x ∷ xs) [] = false
bytes_lt (x ∷ xs) (y ∷ ys) = if ltb x y then true else if ltb y x then false else bytes_lt xs ys

bytes_eq→eq : (xs ys : Bytes) → bytes_eq xs ys ≡ true → xs ≡ ys
unfolding bytes_eq
bytes_eq→eq [] [] h = refl
bytes_eq→eq [] (y ∷ ys) h = absurd (cc)
bytes_eq→eq (x ∷ xs) [] h = absurd (cc)
bytes_eq→eq (x ∷ xs) (y ∷ ys) h = ground (arith, bytes_eq→eq xs ys)

pub bytes_eq_refl : (xs : Bytes) → bytes_eq xs xs ≡ true
unfolding bytes_eq
bytes_eq_refl [] = refl
bytes_eq_refl (x ∷ xs) = ground (arith, bytes_eq_refl xs)

pub bytes_eq_iff : (xs ys : Bytes) → (bytes_eq xs ys ≡ true) ↔ (xs ≡ ys)
bytes_eq_iff xs ys = (bytes_eq→eq xs ys, λ e. rw e (bytes_eq_refl ys))

bytes_lt_asym : (xs ys : Bytes) → bytes_lt xs ys ≡ true → bytes_lt ys xs ≡ false
unfolding bytes_lt
bytes_lt_asym [] [] h = refl
bytes_lt_asym [] (y ∷ ys) h = refl
bytes_lt_asym (x ∷ xs) [] h = absurd (cc)
bytes_lt_asym (x ∷ xs) (y ∷ ys) h = ground (arith, bytes_lt_asym xs ys)

bytes_lt_split :
    (xs ys zs : Bytes) → bytes_lt xs zs ≡ true → (bytes_lt xs ys ≡ true) ⊎ (bytes_lt ys zs ≡ true)
unfolding bytes_lt
bytes_lt_split [] [] [] h = absurd (cc)
bytes_lt_split [] [] (z ∷ zs) h = inr refl
bytes_lt_split [] (y ∷ ys) zs h = inl refl
bytes_lt_split (x ∷ xs) ys [] h = absurd (cc)
bytes_lt_split (x ∷ xs) [] (z ∷ zs) h = inr refl
bytes_lt_split (x ∷ xs) (y ∷ ys) (z ∷ zs) h = ground (arith, bytes_lt_split xs ys zs)

bytes_lt_connected : (xs ys : Bytes) → bytes_lt xs ys ≡ false → bytes_lt ys xs ≡ false → xs ≡ ys
unfolding bytes_lt
bytes_lt_connected [] [] h k = refl
bytes_lt_connected [] (y ∷ ys) h k = absurd (cc)
bytes_lt_connected (x ∷ xs) [] h k = absurd (cc)
bytes_lt_connected (x ∷ xs) (y ∷ ys) h k = ground (arith, bytes_lt_connected xs ys)

-- The order of keys is total.
pub bytes_lt-IsTotalOrder : IsTotalOrder bytes_lt
bytes_lt-IsTotalOrder = record {
  weak = record { asym = bytes_lt_asym; split = bytes_lt_split };
  connected = bytes_lt_connected;
}

-- ===== src/File.antt =====
-- `std::FILE`: what `fwrite` puts into a file and what `fread` takes from one. A file is a list of
-- bytes; a number of w bytes is written with its lowest byte first, as the machine stores it.
pub mod Laws
pub mod Maps
use pomaisearch.Base.{
  ℕ, zero, suc, ◌+◌, ◌-◌, ◌*◌, ◌/◌, ◌%◌, Bool, true, false, List, [], ◌∷◌, ◌++◌, Option, none, some,
  String, leb, ◌==◌, if◌then◌else◌, length,
}
use pomaisearch.Base.Bytes.{Bytes}
use pomaisearch.Status.{StatusOr, value, error, status, internal, ◌>>=◌}

-- A file that is being written, and how many bytes the disk still takes.
pub record File : Type 0 where
  pub contents : Bytes
  pub room : ℕ

-- `fwrite`, with the status that the callers return if it fails. What a failed call leaves in the
-- file is of no use to anyone. Writing no bytes changes nothing, so that a guard against it is left
-- out.
unfoldable pub put : Bytes → File → StatusOr File
put bytes f =
    if leb (length bytes) f.room
    then value (record { contents = f.contents ++ bytes; room = f.room - length bytes })
    else error (status internal "write failed")

-- The w bytes of a number.
unfoldable pub le_bytes : ℕ → ℕ → Bytes
le_bytes zero n = []
le_bytes (suc w) n = n % 256 ∷ le_bytes w (n / 256)

abbrev pub put_le : ℕ → ℕ → File → StatusOr File
put_le w n = put (le_bytes w n)

-- A loop that writes one item after the other.
unfoldable pub put_list {ℓ} :
    {A : Type ℓ} → (A → File → StatusOr File) → List A → File → StatusOr File
put_list save [] f = value f
put_list save (x ∷ xs) f = save x f >>= put_list save xs

-- `fread` of one number of w bytes, and of n bytes.
unfoldable pub fread_le : ℕ → Bytes → Option (ℕ × Bytes)
fread_le zero s = some (0, s)
fread_le (suc w) [] = none
fread_le (suc w) (b ∷ s) = elim (fread_le w s) [
  | none ↦ none
  | some (n, rest) ↦ some (b + 256 * n, rest)
]

unfoldable pub fread_bytes : ℕ → Bytes → Option (Bytes × Bytes)
fread_bytes zero s = some ([], s)
fread_bytes (suc n) [] = none
fread_bytes (suc n) (b ∷ s) = elim (fread_bytes n s) [
  | none ↦ none
  | some (bs, rest) ↦ some (b ∷ bs, rest)
]

-- `if (!fread(…)) return Status(kInternal, "read failed");`
abbrev pub or_failed {ℓ} : {A : Type ℓ} → Option A → StatusOr A
or_failed none = error (status internal "read failed")
or_failed (some a) = value a

abbrev pub get_le : ℕ → Bytes → StatusOr (ℕ × Bytes)
get_le w s = or_failed (fread_le w s)

abbrev pub get_bytes : ℕ → Bytes → StatusOr (Bytes × Bytes)
get_bytes n s = or_failed (fread_bytes n s)

-- A loop that reads so many items.
unfoldable pub get_list {ℓ} :
    {A : Type ℓ} → (Bytes → StatusOr (A × Bytes)) → ℕ → Bytes → StatusOr (List A × Bytes)
get_list item zero s = value ([], s)
get_list item (suc n) s =
    item s >>= λ (x, rest). get_list item n rest >>= λ (xs, rest). value (x ∷ xs, rest)

-- `WriteString` and `ReadString` (src/search_engine.cc).
unfoldable pub put_string : Bytes → File → StatusOr File
put_string text f = put_le 8 (length text) f >>= put text

unfoldable pub get_string : Bytes → StatusOr (Bytes × Bytes)
get_string s = get_le 8 s >>= λ (n, rest). get_bytes n rest

-- A `bool` is a byte.
abbrev pub of_bool : Bool → ℕ
of_bool true = 1
of_bool false = 0

abbrev pub to_bool : ℕ → Bool
to_bool zero = false
to_bool (suc n) = true

-- `fwrite` and `fread` of an array of `float`.
unfoldable pub float_bytes : List ℕ → Bytes
unfolding le_bytes
float_bytes [] = []
float_bytes (x ∷ xs) = le_bytes 4 x ++ float_bytes xs

abbrev pub get_floats : ℕ → Bytes → StatusOr (List ℕ × Bytes)
get_floats = get_list (get_le 4)

-- ===== src/File/Laws.antt =====
-- What is written is read back: the lemmas that the formats share.
use pomaisearch.Base.{
  ℕ, zero, suc, ◌+◌, ◌-◌, ◌*◌, ◌/◌, ◌%◌, ◌^◌, ◌<◌, ◌≡◌, refl, sym, ap, inl, inr, Bool, true, false,
  List, [], ◌∷◌, map, ◌++◌, some, arith, leb, length, length-append, Bool-cases, Option-cases,
}
use mathlib.Core.Path.{subst}
use mathlib.Core.Option.{some-injective}
use mathlib.Core.List.{append_assoc, append-nil}
use pomaisearch.Base.Bytes.{Bytes}
use pomaisearch.Base.All.{All}
use pomaisearch.Status.{StatusOr, value, error, value-injective, ◌>>=◌}
use pomaisearch.File.{
  File, put, le_bytes, put_list, put_string, fread_le, fread_bytes, or_failed, get_le, get_bytes,
  get_list, get_string, of_bool, to_bool, float_bytes, get_floats,
}

-- Two writes are one write.
pub put-put : (a b : Bytes) (f : File) → (put a f >>= put b) ≡ put (a ++ b) f
unfolding put
put-put a b f = ground (arith, length-append a b, append_assoc f.contents a b)

pub put-nil : (f : File) → put [] f ≡ value f
unfolding put
put-nil f = ground (arith, append-nil f.contents)

-- What comes after a write that is known as one write.
pub put-then :
    (a b : Bytes) (f : File) {k : File → StatusOr File}
    → ((g : File) → k g ≡ put b g)
    → (put a f >>= k) ≡ put (a ++ b) f
unfolding put
put-then a b f h =
    let g : File = record { contents = f.contents ++ a; room = f.room - length a } in
    ground (arith, length-append a b, append_assoc f.contents a b, h g)

-- The bytes of a list of items.
unfoldable pub encode_list {ℓ} : {A : Type ℓ} → (A → Bytes) → List A → Bytes
encode_list enc [] = []
encode_list enc (x ∷ xs) = enc x ++ encode_list enc xs

pub put_list-put {ℓ} :
    {A : Type ℓ} (save : A → File → StatusOr File) (enc : A → Bytes)
    → ((a : A) (f : File) → save a f ≡ put (enc a) f)
    → (xs : List A) (f : File) → put_list save xs f ≡ put (encode_list enc xs) f
unfolding put_list encode_list
put_list-put save enc h [] f = sym (put-nil f)
put_list-put save enc h (x ∷ xs) f =
    rw (h x f) (put-then (enc x) (encode_list enc xs) f (put_list-put save enc h xs))

-- A file that was written to has the bytes at its end.
pub put-contents :
    (a : Bytes) (f : File) {g : File} → put a f ≡ value g → g.contents ≡ f.contents ++ a
unfolding put
put-contents a f h = elim (Bool-cases (leb (length a) f.room)) [
  | inl e ↦ ap (λ (k : File). k.contents) (sym (value-injective _ _ (rw e at h)))
  | inr e ↦ absurd (ground (arith, h, e))
]

pub fread_le-le_bytes :
    (w n : ℕ) (rest : Bytes) → n < 256 ^ w → fread_le w (le_bytes w n ++ rest) ≡ some (n, rest)
unfolding fread_le le_bytes
fread_le-le_bytes zero n rest h = ground arith
fread_le-le_bytes (suc w) n rest h =
    rw (fread_le-le_bytes w (n / 256) rest (omega arith)) (ground arith)

pub fread_bytes-append : (xs rest : Bytes) → fread_bytes (length xs) (xs ++ rest) ≡ some (xs, rest)
unfolding fread_bytes
fread_bytes-append [] rest = refl
fread_bytes-append (x ∷ xs) rest = rw (fread_bytes-append xs rest) refl

pub get_list-encode_list {ℓ κ} :
    {A : Type ℓ} (P : A → Type κ) (item : Bytes → StatusOr (A × Bytes)) (enc : A → Bytes)
    → ((a : A) (rest : Bytes) → P a → item (enc a ++ rest) ≡ value (a, rest))
    → (xs : List A) (rest : Bytes) → All P xs
    → get_list item (length xs) (encode_list enc xs ++ rest) ≡ value (xs, rest)
unfolding get_list encode_list
get_list-encode_list P item enc h [] rest a = refl
get_list-encode_list P item enc h (x ∷ xs) rest a =
    rw (append_assoc (enc x) (encode_list enc xs) rest) (
      rw (h x (encode_list enc xs ++ rest) a.0)
        (rw (get_list-encode_list P item enc h xs rest a.1) refl))

-- The bytes of a string with its length.
unfoldable pub encode_string : Bytes → Bytes
encode_string text = le_bytes 8 (length text) ++ text

pub put_string-put : (text : Bytes) (f : File) → put_string text f ≡ put (encode_string text) f
unfolding put_string encode_string
put_string-put text f = put-put (le_bytes 8 (length text)) text f

pub get_string-encode_string :
    (text rest : Bytes)
    → length text < 2 ^ 64
    → get_string (encode_string text ++ rest) ≡ value (text, rest)
unfolding get_string encode_string
get_string-encode_string text rest h = rw (append_assoc (le_bytes 8 (length text)) text rest) (
    rw (fread_le-le_bytes 8 (length text) (text ++ rest) (omega arith))
      (rw (fread_bytes-append text rest) refl))

pub to_bool-of_bool : (b : Bool) → to_bool (of_bool b) ≡ b
to_bool-of_bool true = refl
to_bool-of_bool false = refl

pub get_floats-float_bytes :
    (xs : List ℕ) (rest : Bytes)
    → All (λ x. x < 2 ^ 32) xs
    → get_floats (length xs) (float_bytes xs ++ rest) ≡ value (xs, rest)
unfolding get_list float_bytes
get_floats-float_bytes [] rest a = refl
get_floats-float_bytes (x ∷ xs) rest a = rw (append_assoc (le_bytes 4 x) (float_bytes xs) rest) (
    rw (fread_le-le_bytes 4 x (float_bytes xs ++ rest) (omega (arith, a.0)))
      (rw (get_floats-float_bytes xs rest a.1) refl))

pub get_le-le_bytes :
    (w n : ℕ) (rest : Bytes) → n < 256 ^ w → get_le w (le_bytes w n ++ rest) ≡ value (n, rest)
get_le-le_bytes w n rest h = ap or_failed (fread_le-le_bytes w n rest h)

pub get_bytes-append : (xs rest : Bytes) → get_bytes (length xs) (xs ++ rest) ≡ value (xs, rest)
get_bytes-append xs rest = ap or_failed (fread_bytes-append xs rest)

pub of_bool-lt : (b : Bool) → of_bool b < 256
of_bool-lt true = omega arith
of_bool-lt false = omega arith

-- The same for items that are not read as they were written, but as `g` of it.
pub get_list-encode_list_mapped {ℓ κ} :
    {A : Type ℓ} (P : A → Type κ) (item : Bytes → StatusOr (A × Bytes)) (enc : A → Bytes)
    (g : A → A)
    → ((a : A) (rest : Bytes) → P a → item (enc a ++ rest) ≡ value (g a, rest))
    → (xs : List A) (rest : Bytes) → All P xs
    → get_list item (length xs) (encode_list enc xs ++ rest) ≡ value (map g xs, rest)
unfolding get_list encode_list
get_list-encode_list_mapped P item enc g h [] rest a = refl
get_list-encode_list_mapped P item enc g h (x ∷ xs) rest a =
    rw (append_assoc (enc x) (encode_list enc xs) rest) (
      rw (h x (encode_list enc xs ++ rest) a.0)
        (rw (get_list-encode_list_mapped P item enc g h xs rest a.1) refl))

-- What was read was written so.
pub fread_le-eq-some :
    (w : ℕ) (s : Bytes) (n : ℕ) (rest : Bytes)
    → All (λ b. b < 256) s
    → fread_le w s ≡ some (n, rest)
    → (s ≡ le_bytes w n ++ rest) × (n < 256 ^ w) × All (λ b. b < 256) rest
unfolding fread_le le_bytes
fread_le-eq-some zero s n rest a h =
    let e = some-injective _ _ h in
    let same : s ≡ rest = ap (λ (p : ℕ × Bytes). p.1) e in
    (same, omega (arith, ap (λ (p : ℕ × Bytes). p.0) e), subst (All (λ b. b < 256)) same a)
fread_le-eq-some (suc w) [] n rest a h = absurd (cc)
fread_le-eq-some (suc w) (b ∷ s) n rest a h = elim (Option-cases (fread_le w s)) [
  | inl q ↦ absurd (cc (rw q at h))
  | inr ((m, r), q) ↦
      let e = some-injective _ _ (rw q at h) in
      let sum : b + 256 * m ≡ n = ap (λ (p : ℕ × Bytes). p.0) e in
      let same : r ≡ rest = ap (λ (p : ℕ × Bytes). p.1) e in
      let (split, bound, small) = fread_le-eq-some w s m r a.1 q in
      let low : n % 256 ≡ b = omega (arith, sum, a.0) in
      let high : n / 256 ≡ m = omega (arith, sum, a.0) in
      (
        rw (low, high) (rw split (rw same refl)),
        omega (arith, sum, a.0, bound),
        subst (All (λ b. b < 256)) same small,
      )
]

pub fread_bytes-eq-some :
    (n : ℕ) (s xs rest : Bytes) → fread_bytes n s ≡ some (xs, rest) → s ≡ xs ++ rest
unfolding fread_bytes
fread_bytes-eq-some zero s xs rest h =
    let e = some-injective _ _ h in ap (λ (p : Bytes × Bytes). p.0 ++ p.1) e
fread_bytes-eq-some (suc n) [] xs rest h = absurd (cc)
fread_bytes-eq-some (suc n) (b ∷ s) xs rest h = elim (Option-cases (fread_bytes n s)) [
  | inl q ↦ absurd (cc (rw q at h))
  | inr ((ys, r), q) ↦
      let e = some-injective _ _ (rw q at h) in
      rw (fread_bytes-eq-some n s ys r q) (ap (λ (p : Bytes × Bytes). p.0 ++ p.1) e)
]

-- The file after a call that may have failed.
abbrev pub written : File → StatusOr File → File
written f (value g) = g
written f (error e) = f

-- ===== src/Status.antt =====
-- include/pomai_search/status.h: `Status` and `StatusOr`.
use pomaisearch.Base.{◌≡◌, refl, Bool, true, false, String}

pub data StatusCode : Type 0 where
  code_ok invalid_argument not_found already_exists resource_exhausted internal unavailable :
      StatusCode

pub record Status : Type 0 where
  pub code : StatusCode
  pub message : String

abbrev pub ok_status : Status
ok_status = record { code = code_ok; message = "" }

abbrev pub status : StatusCode → String → Status
status c m = record { code = c; message = m }

abbrev is_ok_code : StatusCode → Bool
is_ok_code code_ok = true
is_ok_code _ = false

abbrev pub is_ok : Status → Bool
is_ok s = is_ok_code s.code

-- `StatusOr<T>`: a value, or a status that is not OK.
pub data StatusOr {ℓ} (A : Type ℓ) : Type ℓ where
  value : A → StatusOr A
  error : Status → StatusOr A

-- The constructor from a `Status` (with `EnsureNotOk`).
abbrev pub of_status {ℓ} : {A : Type ℓ} → Status → StatusOr A
of_status s = elim (is_ok s) [
  | true ↦ error (status internal "StatusOr constructed with OK status")
  | false ↦ error s
]

abbrev pub status_of {ℓ} : {A : Type ℓ} → StatusOr A → Status
status_of (value a) = ok_status
status_of (error s) = s

-- `if (!r.ok()) return r.status();` and then the rest.
infixl 5 ◌>>=◌
abbrev pub ◌>>=◌ {ℓ κ} : {A : Type ℓ} {B : Type κ} → StatusOr A → (A → StatusOr B) → StatusOr B
value a >>= f = f a
error s >>= f = error s

-- `if (!good) return s;`
abbrev pub ensure : Bool → Status → StatusOr {0} Unit
ensure true s = value tt
ensure false s = error s

-- A chain that succeeds succeeded at its first step.
pub >>=-eq-value {ℓ κ} :
    {A : Type ℓ} {B : Type κ} (r : StatusOr A) (f : A → StatusOr B) {b : B}
    → (r >>= f) ≡ value b
    → (a : A) × (r ≡ value a) × (f a ≡ value b)
>>=-eq-value (value a) f h = (a, refl, h)
>>=-eq-value (error s) f h = absurd (cc)

pub value-injective {ℓ} : {A : Type ℓ} (a b : A) → value a ≡ value b → a ≡ b
value-injective a b h = cc

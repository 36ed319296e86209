-- ===== src/IvfFlat/Lists.antt =====
-- The inverted lists: what is in them stays in them, if it is live.
use pomaisearch.Base.{
  ℕ, zero, suc, ◌<◌, ◌≡◌, ap, ◌∙◌, inl, inr, Bool, true, List, [], ◌∷◌, ◌++◌, some, length, get_or,
  get_elem?, set, filter, Bool-cases, get_elem?-set_self, get_elem?-set_ne, get_elem?-lt,
  get_or_of_some, get_elem?-append_left, get_elem?-append_end,
}
use mathlib.Core.Option.{some-injective}
use native.Mathlib.Decide.{ℕ_discrete}
use pomaisearch.IvfFlat.{PostingEntry, push}

-- The entry is in a list.
abbrev pub IsIn {ℓ} : {A : Type ℓ} → A → List A → Type ℓ
IsIn e list = (i : ℕ) × (get_elem? list i ≡ some e)

abbrev pub IsListed : PostingEntry → List (List PostingEntry) → Type 0
IsListed e lists =
    (c : ℕ) × (list : List PostingEntry) × (get_elem? lists c ≡ some list) × IsIn e list

module _ {ℓ} {A : Type ℓ} where
  pub IsIn-append : (e : A) (xs ys : List A) → IsIn e xs → IsIn e (xs ++ ys)
  IsIn-append e xs ys (i, h) = (i, get_elem?-append_left xs ys i (get_elem?-lt xs i h) ∙ h)

  pub IsIn-append_end : (e : A) (xs : List A) → IsIn e (xs ++ e ∷ [])
  IsIn-append_end e xs = (length xs, get_elem?-append_end xs e)

  pub IsIn-filter :
      (p : A → Bool) (e : A) (xs : List A) → p e ≡ true → IsIn e xs → IsIn e (filter p xs)
  IsIn-filter p e [] h (i, q) = absurd (cc)
  IsIn-filter p e (x ∷ xs) h (zero, q) =
      let passes : p x ≡ true = ap p (some-injective _ _ q) ∙ h in rw passes (zero, q)
  IsIn-filter p e (x ∷ xs) h (suc i, q) =
      let (j, found) = IsIn-filter p e xs h (i, q) in
      elim (Bool-cases (p x)) [ inl y ↦ rw y (suc j, found) | inr n ↦ rw n (j, found) ]

-- A list is replaced by one that still has the entry.
IsListed-set :
    (e : PostingEntry) (lists : List (List PostingEntry)) (c : ℕ) (list : List PostingEntry)
    → (IsIn e (get_or lists c []) → IsIn e list)
    → IsListed e lists
    → IsListed e (set lists c list)
IsListed-set e lists c list keep (d, old, at_, inside) = elim (ℕ_discrete c d) [
  | yes same ↦
      let there : get_elem? lists c ≡ some old = rw same at_ in
      (
        c,
        list,
        get_elem?-set_self lists c list (get_elem?-lt lists c there),
        keep (rw (get_or_of_some lists c [] there) inside),
      )
  | no other ↦ (d, old, get_elem?-set_ne lists c d list other ∙ at_, inside)
]

pub IsListed-push :
    (e new : PostingEntry) (c : ℕ) (lists : List (List PostingEntry))
    → IsListed e lists
    → IsListed e (push c new lists)
IsListed-push e new c lists h =
    IsListed-set e lists c (get_or lists c [] ++ new ∷ [])
      (IsIn-append e (get_or lists c []) (new ∷ [])) h

pub IsListed-push_self :
    (e : PostingEntry) (c : ℕ) (lists : List (List PostingEntry))
    → c < length lists
    → IsListed e (push c e lists)
IsListed-push_self e c lists h = (
  c,
  get_or lists c [] ++ e ∷ [],
  get_elem?-set_self lists c _ h,
  IsIn-append_end e (get_or lists c []),
)

-- Compaction of one list.
pub IsListed-filter :
    (p : PostingEntry → Bool) (e : PostingEntry) (c : ℕ) (lists : List (List PostingEntry))
    → p e ≡ true
    → IsListed e lists
    → IsListed e (set lists c (filter p (get_or lists c [])))
IsListed-filter p e c lists h = IsListed-set e lists c _ (IsIn-filter p e (get_or lists c []) h)

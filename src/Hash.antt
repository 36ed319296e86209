-- ===== src/Hash.antt =====
-- include/pomai_search/hash.h: the 64-bit FNV-1a hash of keys and queries.
mod Examples
use pomaisearch.Base.{
  ℕ, ◌*◌, ◌%◌, ◌^◌, ◌<◌, ◌≡◌, refl, List, [], ◌∷◌, ◌++◌, bit_xor, false, ◌==◌, if◌then◌else◌, arith,
  inl, inr, Bool-cases,
}
use pomaisearch.Base.Bytes.{Bytes}
use native.Mathlib.Nat.{mod-lt}

abbrev pub offset_basis : ℕ
offset_basis = 14695981039346656037

abbrev prime : ℕ
prime = 1099511628211

-- `hash ^= byte; hash *= prime;` of a `uint64_t`.
pub mix : ℕ → ℕ → ℕ
mix hash byte = bit_xor hash byte * prime % 2 ^ 64

pub mix_all : ℕ → Bytes → ℕ
unfolding mix
mix_all hash [] = hash
mix_all hash (c ∷ cs) = mix_all (mix hash c) cs

unfoldable pub stable_hash64 : Bytes → ℕ
unfolding mix_all
stable_hash64 key = mix_all offset_basis key

-- A seed of 0 stands for the offset basis.
unfoldable pub stable_hash64_bytes : Bytes → ℕ → ℕ
unfolding mix_all
stable_hash64_bytes bytes seed = mix_all (if seed == 0 then offset_basis else seed) bytes

unfoldable pub stable_hash64_combine : ℕ → Bytes → ℕ
unfolding stable_hash64_bytes
stable_hash64_combine seed text = stable_hash64_bytes text seed

mix_all-lt : (hash : ℕ) (bytes : Bytes) → hash < 2 ^ 64 → mix_all hash bytes < 2 ^ 64
unfolding mix_all
mix_all-lt hash [] h = h
mix_all-lt hash (c ∷ cs) h = mix_all-lt (mix hash c) cs (omega arith)

-- A combined hash has 64 bits, as has the one that it starts from.
pub stable_hash64_combine-lt :
    (seed : ℕ) (text : Bytes) → seed < 2 ^ 64 → stable_hash64_combine seed text < 2 ^ 64
unfolding stable_hash64_combine stable_hash64_bytes
stable_hash64_combine-lt seed text h = elim (Bool-cases (seed == 0)) [
  | inl e ↦ rw e (mix_all-lt offset_basis text (omega arith))
  | inr e ↦ rw e (mix_all-lt seed text h)
]

pub stable_hash64-lt : (text : Bytes) → stable_hash64 text < 2 ^ 64
unfolding stable_hash64
stable_hash64-lt text = mix_all-lt offset_basis text (omega arith)

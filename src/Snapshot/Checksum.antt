-- ===== src/Snapshot/Checksum.antt =====
-- `Crc32Update` (core/serialize/snapshot.cc), and the loop that reads a payload of a snapshot in
-- parts of 64 KiB. The table is made when it is first used; it is a constant here.
use pomaisearch.Base.{
  ℕ, zero, suc, ◌+◌, ◌/◌, ◌^◌, ◌≤◌, ◌<◌, ◌≡◌, inl, inr, Bool-cases, refl, sym, ap, ◌∙◌, List, [],
  ◌∷◌, ◌++◌, Option, none, some, arith, bit_and, bit_xor, ◌==◌, if◌then◌else◌, length, get_or, take,
  drop, take-drop, length-drop,
}
use pomaisearch.Base.Bytes.{Bytes}
use pomaisearch.Base.All.{All}
use pomaisearch.Base.Bits.{bit_xor_twice, bit_xor-lt}

-- `(c & 1) ? (0xEDB88320 ^ (c >> 1)) : (c >> 1)`.
table_step : ℕ → ℕ
table_step c = if bit_and c 1 == 1 then bit_xor 3988292384 (c / 2) else c / 2

table_entry : ℕ → ℕ → ℕ
unfolding table_step
table_entry zero c = c
table_entry (suc n) c = table_entry n (table_step c)

-- The entries from i on, of which n are to go.
table_from : ℕ → ℕ → List ℕ
unfolding table_entry
table_from zero i = []
table_from (suc n) i = table_entry 8 i ∷ table_from n (i + 1)

table : List ℕ
unfolding table_from
table = table_from 256 0

-- `table[(crc ^ data[i]) & 0xFF] ^ (crc >> 8)`.
crc_step : ℕ → ℕ → ℕ
unfolding table
crc_step crc byte = bit_xor (get_or table (bit_and (bit_xor crc byte) 255) 0) (crc / 256)

crc_steps : ℕ → Bytes → ℕ
unfolding crc_step
crc_steps crc [] = crc
crc_steps crc (byte ∷ bytes) = crc_steps (crc_step crc byte) bytes

unfoldable pub crc32_update : ℕ → Bytes → ℕ
unfolding crc_steps
crc32_update crc bytes = bit_xor (crc_steps (bit_xor crc 4294967295) bytes) 4294967295

abbrev pub buffer_size : ℕ
buffer_size = 65536

-- `while (remaining > 0)`, on fuel: `none` if it runs out.
unfoldable pub checksum : ℕ → ℕ → Bytes → Option ℕ
checksum fuel crc [] = some crc
checksum zero crc (b ∷ bytes) = none
checksum (suc fuel) crc (b ∷ bytes) =
    checksum fuel (crc32_update crc (take buffer_size (b ∷ bytes))) (drop buffer_size (b ∷ bytes))

crc_steps-append :
    (crc : ℕ) (xs ys : Bytes) → crc_steps crc (xs ++ ys) ≡ crc_steps (crc_steps crc xs) ys
unfolding crc_steps
crc_steps-append crc [] ys = refl
crc_steps-append crc (x ∷ xs) ys = crc_steps-append (crc_step crc x) xs ys

crc32_update-nil : (crc : ℕ) → crc32_update crc [] ≡ crc
unfolding crc32_update crc_steps
crc32_update-nil crc = bit_xor_twice crc 4294967295

-- The bytes may be given in parts.
pub crc32_update-append :
    (crc : ℕ) (xs ys : Bytes) → crc32_update crc (xs ++ ys) ≡ crc32_update (crc32_update crc xs) ys
unfolding crc32_update
crc32_update-append crc xs ys =
    rw (bit_xor_twice (crc_steps (bit_xor crc 4294967295) xs) 4294967295)
      (rw (crc_steps-append (bit_xor crc 4294967295) xs ys) refl)

-- However a payload is split into parts of the buffer's size, the loop ends, within as many rounds
-- as there are bytes, with the checksum of the whole payload.
pub checksum_lem :
    (fuel crc : ℕ) (payload : Bytes)
    → length payload ≤ fuel
    → checksum fuel crc payload ≡ some (crc32_update crc payload)
unfolding checksum
checksum_lem fuel crc [] h = ap some (sym (crc32_update-nil crc))
checksum_lem zero crc (b ∷ bytes) h = absurd (omega arith)
checksum_lem (suc fuel) crc (b ∷ bytes) h =
    let part = take buffer_size (b ∷ bytes) in
    let rest = drop buffer_size (b ∷ bytes) in
    checksum_lem fuel (crc32_update crc part) rest
      (omega (arith, length-drop buffer_size (b ∷ bytes)))
    ∙ ap some (
        sym (crc32_update-append crc part rest)
        ∙ ap (crc32_update crc) (take-drop buffer_size (b ∷ bytes)))

table_step-lt : (c : ℕ) → c < 2 ^ 32 → table_step c < 2 ^ 32
unfolding table_step
table_step-lt c h = elim (Bool-cases (bit_and c 1 == 1)) [
  | inl e ↦ rw e (bit_xor-lt 32 3988292384 (c / 2) (omega arith) (omega arith))
  | inr e ↦ rw e (omega arith)
]

table_entry-lt : (n c : ℕ) → c < 2 ^ 32 → table_entry n c < 2 ^ 32
unfolding table_entry
table_entry-lt zero c h = h
table_entry-lt (suc n) c h = table_entry-lt n (table_step c) (table_step-lt c h)

table_from-lt : (n i : ℕ) → i + n ≤ 256 → All (λ c. c < 2 ^ 32) (table_from n i)
unfolding table_from
table_from-lt zero i h = tt
table_from-lt (suc n) i h =
    (table_entry-lt 8 i (omega arith), table_from-lt n (i + 1) (omega arith))

get_or-lt : (cs : List ℕ) (i : ℕ) → All (λ c. c < 2 ^ 32) cs → get_or cs i 0 < 2 ^ 32
get_or-lt [] i h = omega arith
get_or-lt (c ∷ cs) zero h = h.0
get_or-lt (c ∷ cs) (suc i) h = get_or-lt cs i h.1

crc_steps-lt : (crc : ℕ) (bytes : Bytes) → crc < 2 ^ 32 → crc_steps crc bytes < 2 ^ 32
unfolding crc_steps crc_step table
crc_steps-lt crc [] h = h
crc_steps-lt crc (byte ∷ bytes) h =
    let entry =
      get_or-lt table (bit_and (bit_xor crc byte) 255) (table_from-lt 256 0 (omega arith)) in
    crc_steps-lt (crc_step crc byte) bytes (bit_xor-lt 32 _ (crc / 256) entry (omega arith))

-- A checksum has 32 bits.
pub crc32_update-lt : (crc : ℕ) (bytes : Bytes) → crc < 2 ^ 32 → crc32_update crc bytes < 2 ^ 32
unfolding crc32_update
crc32_update-lt crc bytes h =
    bit_xor-lt 32 _ 4294967295 (crc_steps-lt _ bytes (bit_xor-lt 32 crc 4294967295 h (omega arith)))
      (omega arith)

crc_example :
    crc32_update 0 (b'1' ∷ b'2' ∷ b'3' ∷ b'4' ∷ b'5' ∷ b'6' ∷ b'7' ∷ b'8' ∷ b'9' ∷ []) ≡ 3421780262
unfolding crc32_update crc_steps crc_step table table_from table_entry table_step
crc_example = refl

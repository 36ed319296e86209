-- ===== src/Snapshot/Accepted.antt =====
-- What the reader accepts as a snapshot.
use pomaisearch.Base.{
  ℕ, zero, suc, ◌-◌, ◌^◌, ◌<◌, ◌≡◌, ◌↔◌, refl, sym, ap, ◌∙◌, Bool, true, false, List, [], ◌∷◌, ◌++◌,
  Option, none, some, arith, String, leb, ◌==◌, ==_iff, length, take, drop, take-drop, length-take,
  ◌≢◌,
}
use mathlib.Core.List.{append_assoc}
use mathlib.Core.Path.{subst}
use mathlib.Core.Option.{some-injective}
use pomaisearch.Base.All.{All}
use pomaisearch.Base.Bytes.{Bytes, bytes_eq, bytes_eq_iff}
use pomaisearch.Status.{
  Status, StatusOr, value, error, ensure, ◌>>=◌, value-injective, >>=-eq-value,
}
use pomaisearch.File.{le_bytes, fread_le, fread_bytes}
use pomaisearch.File.Laws.{fread_le-le_bytes, fread_le-eq-some, fread_bytes-eq-some}
use pomaisearch.Types.{SearchEngineConfig}
use pomaisearch.Index.{IndexFile}
use pomaisearch.Engine.{Impl}
use pomaisearch.Snapshot.{magic, snapshot_version, header_size, or_invalid, read_header, read}
use pomaisearch.Snapshot.Checksum.{checksum, checksum_lem, crc32_update}
use pomaisearch.Snapshot.Header.{encode_header, read_header-encode_header, length-sealed}

module _ {ℓ κ} {A : Type ℓ} {B : Type κ} where
  or_invalid-eq-value :
      (message : String) (o : Option A) (k : A → StatusOr B) {b : B}
      → (or_invalid message o >>= k) ≡ value b
      → (a : A) × (o ≡ some a) × (k a ≡ value b)
  or_invalid-eq-value message none k h = absurd (cc)
  or_invalid-eq-value message (some a) k h = (a, refl, h)

ensure-eq-value {κ} :
    {B : Type κ} (good : Bool) (s : Status) (k : Unit → StatusOr B) {b : B}
    → (ensure good s >>= k) ≡ value b
    → (good ≡ true) × (k tt ≡ value b)
ensure-eq-value true s k h = (refl, h)
ensure-eq-value false s k h = absurd (cc)

All-after {ℓ κ} : {A : Type ℓ} (P : A → Type κ) (xs ys : List A) → All P (xs ++ ys) → All P ys
All-after P [] ys h = h
All-after P (x ∷ xs) ys h = All-after P xs ys h.1

-- The parts that the reader took, put together again.
assembled :
    (bytes found b1 b2 b3 payload : Bytes) (version size crc : ℕ)
    → All (λ b. b < 256) bytes
    → fread_bytes (length magic) bytes ≡ some (found, b1)
    → found ≡ magic
    → fread_le 4 b1 ≡ some (version, b2)
    → version ≡ snapshot_version
    → fread_le 8 b2 ≡ some (size, b3)
    → fread_le 4 b3 ≡ some (crc, payload)
    → length bytes - header_size ≡ size
    → crc32_update 0 payload ≡ crc
    → (bytes ≡ encode_header (length payload) (crc32_update 0 payload) ++ payload)
      × (length payload < 2 ^ 64)
unfolding encode_header magic
assembled bytes found b1 b2 b3 payload version size crc a r1 m r2 three r3 r4 whole right =
    let e1 : bytes ≡ magic ++ b1 = fread_bytes-eq-some _ bytes found b1 r1 ∙ ap (λ x. x ++ b1) m in
    let (e2, s2, a2) =
      fread_le-eq-some 4 b1 version b2 (All-after _ magic b1 (subst (All (λ b. b < 256)) e1 a))
        r2 in
    let (e3, s3, a3) = fread_le-eq-some 8 b2 size b3 a2 r3 in
    let (e4, s4, a4) = fread_le-eq-some 4 b3 crc payload a3 r4 in
    let split : bytes ≡ encode_header size crc ++ payload =
      e1 ∙ rw (e2, three, e3, e4) (simp append_assoc refl) in
    let same : size ≡ length payload =
      sym whole ∙ omega (arith, ap length split ∙ length-sealed size crc payload) in
    (split ∙ rw (same, right) refl, omega (arith, same, s3))

accepted :
    (bytes payload : Bytes)
    → All (λ b. b < 256) bytes
    → read_header bytes ≡ value payload
    → (bytes ≡ encode_header (length payload) (crc32_update 0 payload) ++ payload)
      × (length payload < 2 ^ 64)
unfolding read_header
accepted bytes payload a h =
    let ((found, b1), r1, h1) = or_invalid-eq-value _ (fread_bytes (length magic) bytes) _ h in
    let (same, h2) = ensure-eq-value (bytes_eq found magic) _ _ h1 in
    let ((version, b2), r2, h3) = or_invalid-eq-value _ (fread_le 4 b1) _ h2 in
    let (three, h4) = ensure-eq-value (version == snapshot_version) _ _ h3 in
    let ((size, b3), r3, h5) = or_invalid-eq-value _ (fread_le 8 b2) _ h4 in
    let ((crc, b4), r4, h6) = or_invalid-eq-value _ (fread_le 4 b3) _ h5 in
    let (long, h7) = ensure-eq-value (leb header_size (length bytes)) _ _ h6 in
    let (whole, h8) = ensure-eq-value (length bytes - header_size == size) _ _ h7 in
    let (computed, r5, h9) = or_invalid-eq-value _ (checksum (length b4) 0 b4) _ h8 in
    let (right, h10) = ensure-eq-value (computed == crc) _ _ h9 in
    let same_payload = value-injective _ _ h10 in
    let sum : crc32_update 0 b4 ≡ crc =
      some-injective _ _ (sym (checksum_lem (length b4) 0 b4 (omega arith)) ∙ r5)
      ∙ (==_iff computed crc).0 right in
    subst (λ p. (bytes ≡ encode_header (length p) (crc32_update 0 p) ++ p) × (length p < 2 ^ 64))
      same_payload
      (assembled bytes found b1 b2 b3 b4 version size crc a r1 ((bytes_eq_iff found magic).0 same)
        r2 ((==_iff version snapshot_version).0 three) r3 r4
        ((==_iff (length bytes - header_size) size).0 whole) sum)

-- A file is accepted, with a payload, exactly if it is a header with the payload's length and
-- checksum and then the payload.
pub read_header_iff :
    (bytes payload : Bytes)
    → All (λ b. b < 256) bytes
    → (read_header bytes ≡ value payload) ↔ (
        (bytes ≡ encode_header (length payload) (crc32_update 0 payload) ++ payload)
        × (length payload < 2 ^ 64))
read_header_iff bytes payload a =
    (accepted bytes payload a, λ (e, h). ap read_header e ∙ read_header-encode_header payload h)

All-take {ℓ κ} : {A : Type ℓ} (P : A → Type κ) (n : ℕ) (xs : List A) → All P xs → All P (take n xs)
All-take P zero xs h = tt
All-take P (suc n) [] h = tt
All-take P (suc n) (x ∷ xs) h = (h.0, All-take P n xs h.1)

after_version :
    (n crc : ℕ) (p : Bytes)
    → drop 15 (encode_header n crc ++ p) ≡ le_bytes 8 n ++ (le_bytes 4 crc ++ p)
unfolding encode_header magic le_bytes
after_version n crc p = refl

-- Two files that begin with a header say the same size in it, if they are the same.
header_sizes :
    (n crc m sum : ℕ) (p q : Bytes)
    → n < 2 ^ 64
    → m < 2 ^ 64
    → encode_header n crc ++ p ≡ encode_header m sum ++ q
    → n ≡ m
header_sizes n crc m sum p q h k e =
    let sizes = sym (after_version n crc p) ∙ ap (drop 15) e ∙ after_version m sum q in
    let first = fread_le-le_bytes 8 n (le_bytes 4 crc ++ p) (omega arith) in
    let second = fread_le-le_bytes 8 m (le_bytes 4 sum ++ q) (omega arith) in
    ap (λ (r : ℕ × Bytes). r.0) (some-injective _ _ (sym first ∙ ap (fread_le 8) sizes ∙ second))

-- Of an accepted file no proper beginning is accepted.
read_header-take :
    (bytes payload cut : Bytes) (k : ℕ)
    → All (λ b. b < 256) bytes
    → k < length bytes
    → read_header bytes ≡ value payload
    → read_header (take k bytes) ≢ value cut
read_header-take bytes payload cut k a h whole part =
    let (e, fits) = accepted bytes payload a whole in
    let (d, fits_cut) = accepted (take k bytes) cut (All-take _ k bytes a) part in
    let joined =
      sym (take-drop k bytes) ∙ ap (λ x. x ++ drop k bytes) d ∙ append_assoc _ cut (drop k bytes) in
    let same = header_sizes _ _ _ _ payload (cut ++ drop k bytes) fits fits_cut (sym e ∙ joined) in
    absurd (
      omega (
        arith,
        same,
        h,
        length-take k bytes,
        ap length e ∙ length-sealed (length payload) (crc32_update 0 payload) payload,
        ap length d ∙ length-sealed (length cut) (crc32_update 0 cut) cut,
      ))

no_value {ℓ κ} :
    {A : Type ℓ} {B : Type κ} (r : StatusOr A) (f : A → StatusOr B)
    → ((a : A) → r ≢ value a)
    → (s : Status) × ((r >>= f) ≡ error s)
no_value (value a) f n = absurd (n a refl)
no_value (error s) f n = (s, refl)

-- Of a snapshot that is read, no proper beginning is read as an engine: it is an error.
pub read-take :
    {I : Type 0} (files : IndexFile I) (make : SearchEngineConfig → I) (bytes : Bytes) (now k : ℕ)
    {u : Impl I}
    → All (λ b. b < 256) bytes
    → k < length bytes
    → read files make now bytes ≡ value u
    → (s : Status) × (read files make now (take k bytes) ≡ error s)
unfolding read
read-take files make bytes now k a h whole =
    let (payload, good, rest) = >>=-eq-value (read_header bytes) _ whole in
    no_value (read_header (take k bytes)) _ (λ cut. read_header-take bytes payload cut k a h good)

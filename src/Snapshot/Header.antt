-- ===== src/Snapshot/Header.antt =====
-- The header of a snapshot: what the reader accepts of what the writer wrote, and of nothing shorter.
use pomaisearch.Base.{
  ℕ, ◌+◌, ◌-◌, ◌^◌, ◌<◌, ◌≡◌, refl, ap, ◌∙◌, true, ◌++◌, arith, leb, ==_refl, length, length-append,
  drop,
}
use mathlib.Core.List.{append_assoc}
use pomaisearch.Base.Bytes.{Bytes, bytes_eq_refl}
use pomaisearch.Status.{value}
use pomaisearch.File.{File, put, le_bytes}
use pomaisearch.File.Laws.{put-put, fread_le-le_bytes, fread_bytes-append}
use pomaisearch.Snapshot.{
  magic, snapshot_version, header_size, put_header, patch, seal, read_header,
}
use pomaisearch.Snapshot.Checksum.{checksum_lem, crc32_update, crc32_update-lt}

unfoldable pub encode_header : ℕ → ℕ → Bytes
encode_header size crc = magic ++ le_bytes 4 snapshot_version ++ le_bytes 8 size ++ le_bytes 4 crc

pub put_header-put :
    (size crc : ℕ) (f : File) → put_header size crc f ≡ put (encode_header size crc) f
unfolding put_header encode_header
put_header-put size crc f = simp put-put

length-encode_header : (size crc : ℕ) → length (encode_header size crc) ≡ header_size
unfolding encode_header magic le_bytes
length-encode_header size crc = refl

patch-encode_header :
    (size crc : ℕ) (payload : Bytes)
    → patch size crc (encode_header 0 0 ++ payload) ≡ encode_header size crc ++ payload
unfolding patch encode_header magic le_bytes
patch-encode_header size crc payload = refl

drop-encode_header :
    (size crc : ℕ) (payload : Bytes)
    → drop header_size (encode_header size crc ++ payload) ≡ payload
unfolding encode_header magic le_bytes
drop-encode_header size crc payload = refl

pub length-sealed :
    (size crc : ℕ) (payload : Bytes)
    → length (encode_header size crc ++ payload) ≡ 27 + length payload
length-sealed size crc payload =
    length-append (encode_header size crc) payload
    ∙ ap (λ n. n + length payload) (length-encode_header size crc)

-- A file is sealed whatever its payload.
pub seal-encode_header :
    (payload : Bytes)
    → seal (encode_header 0 0 ++ payload)
      ≡ value (encode_header (length payload) (crc32_update 0 payload) ++ payload)
unfolding seal
seal-encode_header payload =
    let written = length-sealed 0 0 payload in
    let long : leb 27 (27 + length payload) ≡ true = ground arith in
    let size : length (encode_header 0 0 ++ payload) - header_size ≡ length payload =
      omega (arith, written) in
    let crc = crc32_update 0 payload in
    rw (written, seal)
      (rw long (
        rw (drop-encode_header 0 0 payload) (
          rw (checksum_lem (length payload) 0 payload (omega arith)) (
            ap value (
              ap (λ n. patch n crc (encode_header 0 0 ++ payload)) size
              ∙ patch-encode_header (length payload) crc payload)))))

pub read_header-encode_header :
    (payload : Bytes)
    → length payload < 2 ^ 64
    → read_header (encode_header (length payload) (crc32_update 0 payload) ++ payload)
      ≡ value payload
unfolding read_header encode_header
read_header-encode_header payload h =
    let size = length payload in
    let crc = crc32_update 0 payload in
    let last = le_bytes 4 crc ++ payload in
    let sizes = le_bytes 8 size ++ last in
    let long : leb 27 (27 + size) ≡ true = ground arith in
    let whole : 27 + size - 27 ≡ size = omega arith in
    rw (length-sealed size crc payload) (
      simp append_assoc (
        rw (fread_bytes-append magic (le_bytes 4 snapshot_version ++ sizes)) (
          rw (bytes_eq_refl magic) (
            rw (fread_le-le_bytes 4 snapshot_version sizes (omega arith)) (
              rw (fread_le-le_bytes 8 size last (omega arith)) (
                rw
                  (fread_le-le_bytes 4 crc payload
                    (omega (arith, crc32_update-lt 0 payload (omega arith))))
                  (rw long (
                    rw whole (
                      rw (==_refl size) (
                        rw (checksum_lem size 0 payload (omega arith))
                          (rw (==_refl crc) refl)))))))))))

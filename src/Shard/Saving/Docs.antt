-- ===== src/Shard/Saving/Docs.antt =====
-- The documents and the keys of a shard in a file.
use pomaisearch.Base.{ℕ, ◌^◌, ◌<◌, ◌≡◌, refl, true, false, ◌++◌, Option, none, some, arith, length}
use mathlib.Core.List.{append_assoc}
use pomaisearch.Base.Bytes.{Bytes}
use pomaisearch.Base.All.{All}
use pomaisearch.Base.Maps.{bytes_key, HasKeysOnce}
use pomaisearch.Status.{StatusOr, value}
use pomaisearch.File.{File, put, put_le, put_string, le_bytes, get_le, get_string, of_bool}
use pomaisearch.File.Laws.{
  put-put, put-then, encode_string, put_string-put, get_string-encode_string, get_le-le_bytes,
  to_bool-of_bool, of_bool-lt,
}
use pomaisearch.File.Maps.{encode_map, put_map-put, get_map-encode_map}
use pomaisearch.Shard.{ShardDoc}
use pomaisearch.Shard.Saving.{
  put_pair, get_pair, put_option, get_option, put_doc, get_doc, put_key, get_key,
}

abbrev pub FitsString : Bytes → Type 0
FitsString text = length text < 2 ^ 64

abbrev pub FitsPair : Bytes × Bytes → Type 0
FitsPair (k, v) = FitsString k × FitsString v

encode_pair : Bytes × Bytes → Bytes
encode_pair (k, v) = encode_string k ++ encode_string v

put_pair-put : (p : Bytes × Bytes) (f : File) → put_pair p f ≡ put (encode_pair p) f
unfolding put_pair encode_pair
put_pair-put (k, v) f =
    rw (put_string-put k f) (put-then (encode_string k) (encode_string v) f (put_string-put v))

get_pair-encode_pair :
    (p : Bytes × Bytes) (rest : Bytes)
    → FitsPair p
    → get_pair (encode_pair p ++ rest) ≡ value (p, rest)
unfolding get_pair encode_pair
get_pair-encode_pair (k, v) rest (h, j) =
    rw (append_assoc (encode_string k) (encode_string v) rest) (
      rw (get_string-encode_string k (encode_string v ++ rest) h)
        (rw (get_string-encode_string v rest j) refl))

encode_option {ℓ} : {A : Type ℓ} → (A → Bytes) → Option A → Bytes
encode_option enc none = le_bytes 1 (of_bool false)
encode_option enc (some a) = le_bytes 1 (of_bool true) ++ enc a

abbrev pub OnSome {ℓ κ} : {A : Type ℓ} → (A → Type κ) → Option A → Type κ
OnSome P none = Unit
OnSome P (some a) = P a

put_option-put {ℓ} :
    {A : Type ℓ} (save : A → File → StatusOr File) (enc : A → Bytes)
    → ((a : A) (f : File) → save a f ≡ put (enc a) f)
    → (o : Option A) (f : File) → put_option save o f ≡ put (encode_option enc o) f
unfolding put_option encode_option
put_option-put save enc h none f = refl
put_option-put save enc h (some a) f = put-then (le_bytes 1 (of_bool true)) (enc a) f (h a)

get_option-encode_option {ℓ κ} :
    {A : Type ℓ} (P : A → Type κ) (item : Bytes → StatusOr (A × Bytes)) (enc : A → Bytes)
    → ((a : A) (rest : Bytes) → P a → item (enc a ++ rest) ≡ value (a, rest))
    → (o : Option A) (rest : Bytes) → OnSome P o
    → get_option item (encode_option enc o ++ rest) ≡ value (o, rest)
unfolding get_option encode_option
get_option-encode_option P item enc h none rest p = rw (get_le-le_bytes 1 0 rest (omega arith)) refl
get_option-encode_option P item enc h (some a) rest p =
    rw (append_assoc (le_bytes 1 (of_bool true)) (enc a) rest)
      (rw (get_le-le_bytes 1 1 (enc a ++ rest) (omega arith)) (rw (h a rest p) refl))

-- What a document must be for the file to hold it.
pub record FitsDoc (doc : ShardDoc) : Type 0 where
  pub fits_key : FitsString doc.key
  pub fits_meta : length doc.meta < 2 ^ 64
  pub meta : All FitsPair doc.meta
  pub meta_once : HasKeysOnce doc.meta
  pub fits_offset : doc.offset < 2 ^ 64
  pub fits_expiry : OnSome (λ t. t < 2 ^ 64) doc.expiry
  pub fits_text : OnSome FitsString doc.text

pub encode_doc : ShardDoc → Bytes
unfolding encode_pair encode_option
encode_doc doc =
    encode_string doc.key
    ++ encode_map encode_pair doc.meta
    ++ le_bytes 8 doc.offset
    ++ le_bytes 1 (of_bool doc.deleted)
    ++ encode_option (le_bytes 8) doc.expiry
    ++ encode_option encode_string doc.text

pub put_doc-put : (doc : ShardDoc) (f : File) → put_doc doc f ≡ put (encode_doc doc) f
unfolding put_doc encode_doc
put_doc-put doc f =
    let key = encode_string doc.key in
    let meta = encode_map encode_pair doc.meta in
    let flags = key ++ meta ++ le_bytes 8 doc.offset ++ le_bytes 1 (of_bool doc.deleted) in
    rw (put_string-put doc.key f) (
      rw (put-then key meta f (put_map-put put_pair encode_pair put_pair-put doc.meta)) (
        rw (put-put (key ++ meta) (le_bytes 8 doc.offset) f) (
          rw (put-put (key ++ meta ++ le_bytes 8 doc.offset) (le_bytes 1 (of_bool doc.deleted)) f) (
            rw
              (put-then flags (encode_option (le_bytes 8) doc.expiry) f
                (put_option-put (put_le 8) (le_bytes 8) (λ t g. refl) doc.expiry))
              (put-then _ (encode_option encode_string doc.text) f
                (put_option-put put_string encode_string put_string-put doc.text))))))

-- A document as it is read: of generation 0.
abbrev pub reborn : ShardDoc → ShardDoc
reborn doc = record doc { gen = 0 }

pub get_doc-encode_doc :
    (doc : ShardDoc) (rest : Bytes)
    → FitsDoc doc
    → get_doc (encode_doc doc ++ rest) ≡ value (reborn doc, rest)
unfolding get_doc encode_doc
get_doc-encode_doc doc rest w =
    let text = encode_option encode_string doc.text ++ rest in
    let expiry = encode_option (le_bytes 8) doc.expiry ++ text in
    let deleted = le_bytes 1 (of_bool doc.deleted) ++ expiry in
    let offset = le_bytes 8 doc.offset ++ deleted in
    let meta = encode_map encode_pair doc.meta ++ offset in
    simp append_assoc (
      rw (get_string-encode_string doc.key meta w.fits_key) (
        rw
          (get_map-encode_map FitsPair get_pair encode_pair get_pair-encode_pair doc.meta offset
            w.fits_meta w.meta w.meta_once)
          (rw (get_le-le_bytes 8 doc.offset deleted (omega (arith, w.fits_offset))) (
            rw
              (get_le-le_bytes 1 (of_bool doc.deleted) expiry
                (omega (arith, of_bool-lt doc.deleted)))
              (rw
                (get_option-encode_option (λ t. t < 2 ^ 64) (get_le 8) (le_bytes 8)
                  (λ t r h. get_le-le_bytes 8 t r (omega (arith, h))) doc.expiry text w.fits_expiry)
                (rw
                  (get_option-encode_option FitsString get_string encode_string
                    get_string-encode_string doc.text rest w.fits_text)
                  (rw (to_bool-of_bool doc.deleted) refl)))))))

abbrev pub FitsKey : Bytes × ℕ → Type 0
FitsKey (key, id) = FitsString key × (id < 2 ^ 32)

pub encode_key : Bytes × ℕ → Bytes
encode_key (key, id) = encode_string key ++ le_bytes 4 id

pub put_key-put : (p : Bytes × ℕ) (f : File) → put_key p f ≡ put (encode_key p) f
unfolding put_key encode_key
put_key-put (key, id) f = rw (put_string-put key f) (put-put (encode_string key) (le_bytes 4 id) f)

pub get_key-encode_key :
    (p : Bytes × ℕ) (rest : Bytes) → FitsKey p → get_key (encode_key p ++ rest) ≡ value (p, rest)
unfolding get_key encode_key
get_key-encode_key (key, id) rest (h, k) =
    rw (append_assoc (encode_string key) (le_bytes 4 id) rest) (
      rw (get_string-encode_string key (le_bytes 4 id ++ rest) h)
        (rw (get_le-le_bytes 4 id rest (omega (arith, k))) refl))

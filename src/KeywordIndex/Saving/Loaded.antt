-- ===== src/KeywordIndex/Saving/Loaded.antt =====
-- A keyword index that was saved is loaded as it was.
use pomaisearch.Base.{ℕ, ◌^◌, ◌<◌, ◌≡◌, refl, sym, ◌∙◌, ◌++◌, arith, length}
use mathlib.Core.List.{append_assoc}
use pomaisearch.Base.Bytes.{Bytes}
use pomaisearch.Base.All.{All}
use pomaisearch.Base.Maps.{nat_key, bytes_key, HasKeysOnce}
use pomaisearch.Status.{value}
use pomaisearch.File.{File, put, le_bytes}
use pomaisearch.File.Laws.{
  put-put, put-then, put-contents, encode_string, put_string-put, get_string-encode_string,
  get_le-le_bytes,
}
use pomaisearch.File.Maps.{encode_map, put_map-put, get_map-encode_map}
use pomaisearch.KeywordIndex.{KeywordIndex, TermFreq, Posting}
use pomaisearch.KeywordIndex.Saving.{
  put_count, get_count, put_doc, get_doc, put_entry, get_entry, put_posting, get_posting, save,
  load,
}

-- What the entries must be for the file to hold them, and the bytes that it holds for them.
abbrev pub FitsCount : Bytes × ℕ → Type 0
FitsCount (token, count) = (length token < 2 ^ 64) × (count < 2 ^ 31)

encode_count : Bytes × ℕ → Bytes
encode_count (token, count) = encode_string token ++ le_bytes 4 count

put_count-put : (p : Bytes × ℕ) (f : File) → put_count p f ≡ put (encode_count p) f
unfolding put_count encode_count
put_count-put (token, count) f =
    rw (put_string-put token f) (put-put (encode_string token) (le_bytes 4 count) f)

get_count-encode_count :
    (p : Bytes × ℕ) (rest : Bytes)
    → FitsCount p
    → get_count (encode_count p ++ rest) ≡ value (p, rest)
unfolding get_count encode_count
get_count-encode_count (token, count) rest (h, k) =
    rw (append_assoc (encode_string token) (le_bytes 4 count) rest) (
      rw (get_string-encode_string token (le_bytes 4 count ++ rest) h)
        (rw (get_le-le_bytes 4 count rest (omega (arith, k))) refl))

abbrev pub FitsDoc : ℕ × TermFreq → Type 0
FitsDoc (id, tokens) =
    (id < 2 ^ 32) × (length tokens < 2 ^ 64) × All FitsCount tokens × HasKeysOnce tokens

encode_doc : ℕ × TermFreq → Bytes
encode_doc (id, tokens) = le_bytes 4 id ++ encode_map encode_count tokens

put_doc-put : (p : ℕ × TermFreq) (f : File) → put_doc p f ≡ put (encode_doc p) f
unfolding put_doc encode_doc
put_doc-put (id, tokens) f =
    put-then (le_bytes 4 id) (encode_map encode_count tokens) f
      (put_map-put put_count encode_count put_count-put tokens)

get_doc-encode_doc :
    (p : ℕ × TermFreq) (rest : Bytes) → FitsDoc p → get_doc (encode_doc p ++ rest) ≡ value (p, rest)
unfolding get_doc encode_doc
get_doc-encode_doc (id, tokens) rest (h, k, a, once) =
    let more = encode_map encode_count tokens ++ rest in
    rw (append_assoc (le_bytes 4 id) (encode_map encode_count tokens) rest) (
      rw (get_le-le_bytes 4 id more (omega (arith, h))) (
        rw
          (get_map-encode_map FitsCount get_count encode_count get_count-encode_count tokens rest k
            a once)
          refl))

abbrev pub FitsEntry : ℕ × ℕ → Type 0
FitsEntry (id, count) = (id < 2 ^ 32) × (count < 2 ^ 31)

encode_entry : ℕ × ℕ → Bytes
encode_entry (id, count) = le_bytes 4 id ++ le_bytes 4 count

put_entry-put : (p : ℕ × ℕ) (f : File) → put_entry p f ≡ put (encode_entry p) f
unfolding put_entry encode_entry
put_entry-put (id, count) f = put-put (le_bytes 4 id) (le_bytes 4 count) f

get_entry-encode_entry :
    (p : ℕ × ℕ) (rest : Bytes) → FitsEntry p → get_entry (encode_entry p ++ rest) ≡ value (p, rest)
unfolding get_entry encode_entry
get_entry-encode_entry (id, count) rest (h, k) =
    rw (append_assoc (le_bytes 4 id) (le_bytes 4 count) rest) (
      rw (get_le-le_bytes 4 id (le_bytes 4 count ++ rest) (omega (arith, h)))
        (rw (get_le-le_bytes 4 count rest (omega (arith, k))) refl))

abbrev pub FitsPosting : Bytes × Posting → Type 0
FitsPosting (term, posting) =
    (length term < 2 ^ 64) × (length posting < 2 ^ 64) × All FitsEntry posting × HasKeysOnce posting

encode_posting : Bytes × Posting → Bytes
encode_posting (term, posting) = encode_string term ++ encode_map encode_entry posting

put_posting-put : (p : Bytes × Posting) (f : File) → put_posting p f ≡ put (encode_posting p) f
unfolding put_posting encode_posting
put_posting-put (term, posting) f = rw (put_string-put term f) (
    put-then (encode_string term) (encode_map encode_entry posting) f
      (put_map-put put_entry encode_entry put_entry-put posting))

get_posting-encode_posting :
    (p : Bytes × Posting) (rest : Bytes)
    → FitsPosting p
    → get_posting (encode_posting p ++ rest) ≡ value (p, rest)
unfolding get_posting encode_posting
get_posting-encode_posting (term, posting) rest (h, k, a, once) =
    let more = encode_map encode_entry posting ++ rest in
    rw (append_assoc (encode_string term) (encode_map encode_entry posting) rest) (
      rw (get_string-encode_string term more h) (
        rw
          (get_map-encode_map FitsEntry get_entry encode_entry get_entry-encode_entry posting rest k
            a once)
          refl))

-- What an index must be for the file to hold it: maps without double keys, and numbers in range.
pub record FitsFile (k : KeywordIndex) : Type 0 where
  pub fits_count : k.doc_count < 2 ^ 64
  pub fits_docs : length k.doc_tokens < 2 ^ 64
  pub docs : All FitsDoc k.doc_tokens
  pub docs_once : HasKeysOnce k.doc_tokens
  pub fits_postings : length k.postings < 2 ^ 64
  pub postings : All FitsPosting k.postings
  pub postings_once : HasKeysOnce k.postings
  pub fits_freq : length k.doc_freq < 2 ^ 64
  pub freq : All FitsCount k.doc_freq
  pub freq_once : HasKeysOnce k.doc_freq

pub encode : KeywordIndex → Bytes
unfolding encode_doc encode_posting encode_count
encode k =
    le_bytes 8 k.doc_count
    ++ encode_map encode_doc k.doc_tokens
    ++ encode_map encode_posting k.postings
    ++ encode_map encode_count k.doc_freq

pub save-put : (k : KeywordIndex) (f : File) → save k f ≡ put (encode k) f
unfolding save encode
save-put k f =
    let docs =
      put-then (le_bytes 8 k.doc_count) (encode_map encode_doc k.doc_tokens) f
        (put_map-put put_doc encode_doc put_doc-put k.doc_tokens) in
    let postings =
      put-then (le_bytes 8 k.doc_count ++ encode_map encode_doc k.doc_tokens)
        (encode_map encode_posting k.postings) f
        (put_map-put put_posting encode_posting put_posting-put k.postings) in
    rw docs (
      rw postings (
        put-then _ (encode_map encode_count k.doc_freq) f
          (put_map-put put_count encode_count put_count-put k.doc_freq)))

pub load-encode :
    (k : KeywordIndex) (rest : Bytes) → FitsFile k → load (encode k ++ rest) ≡ value (k, rest)
unfolding load encode
load-encode k rest w =
    let freq = encode_map encode_count k.doc_freq ++ rest in
    let postings = encode_map encode_posting k.postings ++ freq in
    let docs = encode_map encode_doc k.doc_tokens ++ postings in
    simp append_assoc (
      rw (get_le-le_bytes 8 k.doc_count docs (omega (arith, w.fits_count))) (
        rw
          (get_map-encode_map FitsDoc get_doc encode_doc get_doc-encode_doc k.doc_tokens postings
            w.fits_docs w.docs w.docs_once)
          (rw
            (get_map-encode_map FitsPosting get_posting encode_posting get_posting-encode_posting
              k.postings freq w.fits_postings w.postings w.postings_once)
            (rw
              (get_map-encode_map FitsCount get_count encode_count get_count-encode_count k.doc_freq
                rest w.fits_freq w.freq w.freq_once)
              refl))))

-- A keyword index whose maps have no key twice and whose numbers are in range, saved into a file, is
-- loaded from what was written, and whatever follows it, as it was.
pub load-save_keywords :
    (k : KeywordIndex) (f : File) (rest : Bytes) {g : File}
    → FitsFile k
    → save k f ≡ value g
    → (bytes : Bytes) × (g.contents ≡ f.contents ++ bytes)
      × (load (bytes ++ rest) ≡ value (k, rest))
load-save_keywords k f rest w h =
    (encode k, put-contents (encode k) f (sym (save-put k f) ∙ h), load-encode k rest w)

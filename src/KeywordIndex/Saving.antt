-- ===== src/KeywordIndex/Saving.antt =====
-- `KeywordIndex::Save` and `KeywordIndex::Load` (src/search_engine.cc). A count
-- is an `int`, four bytes; an id is a `uint32_t`.
pub mod Loaded
mod Examples
use pomaisearch.Base.{ℕ, ◌^◌, ◌<◌, ◌≡◌, refl, sym, ◌∙◌, List, ◌∷◌, ◌++◌, arith, length}
use mathlib.Core.List.{append_assoc}
use pomaisearch.Base.Bytes.{Bytes}
use pomaisearch.Base.All.{All}
use pomaisearch.Base.Maps.{nat_key, bytes_key, HasKeysOnce}
use pomaisearch.Status.{StatusOr, value, ◌>>=◌}
use pomaisearch.File.{File, put, put_le, put_string, le_bytes, get_le, get_string}
use pomaisearch.File.Laws.{
  put-put, put-then, put-contents, encode_string, put_string-put, get_string-encode_string,
  get_le-le_bytes,
}
use pomaisearch.File.Maps.{put_map, encode_map, put_map-put, get_map, get_map-encode_map}
use pomaisearch.KeywordIndex.{KeywordIndex, TermFreq, Posting}

-- A token or a term with its count.
unfoldable pub put_count : Bytes × ℕ → File → StatusOr File
put_count (token, count) f = put_string token f >>= put_le 4 count

unfoldable pub get_count : Bytes → StatusOr ((Bytes × ℕ) × Bytes)
get_count bytes = do
  (token, b1) ← get_string bytes
  (count, b2) ← get_le 4 b1
  value ((token, count), b2)

unfoldable pub put_doc : ℕ × TermFreq → File → StatusOr File
unfolding put_count
put_doc (id, tokens) f = put_le 4 id f >>= put_map put_count tokens

unfoldable pub get_doc : Bytes → StatusOr ((ℕ × TermFreq) × Bytes)
unfolding get_count
get_doc bytes = do
  (id, b1) ← get_le 4 bytes
  (tokens, b2) ← get_map get_count b1
  value ((id, tokens), b2)

-- One entry of a posting, and a term with its posting.
unfoldable pub put_entry : ℕ × ℕ → File → StatusOr File
put_entry (id, count) f = put_le 4 id f >>= put_le 4 count

unfoldable pub get_entry : Bytes → StatusOr ((ℕ × ℕ) × Bytes)
get_entry bytes = do (id, b1) ← get_le 4 bytes; (count, b2) ← get_le 4 b1; value ((id, count), b2)

unfoldable pub put_posting : Bytes × Posting → File → StatusOr File
unfolding put_entry
put_posting (term, posting) f = put_string term f >>= put_map put_entry posting

unfoldable pub get_posting : Bytes → StatusOr ((Bytes × Posting) × Bytes)
unfolding get_entry
get_posting bytes = do
  (term, b1) ← get_string bytes
  (posting, b2) ← get_map get_entry b1
  value ((term, posting), b2)

unfoldable pub save : KeywordIndex → File → StatusOr File
unfolding put_doc put_posting put_count
save k f =
    put_le 8 k.doc_count f
    >>= put_map put_doc k.doc_tokens
    >>= put_map put_posting k.postings
    >>= put_map put_count k.doc_freq

unfoldable pub load : Bytes → StatusOr (KeywordIndex × Bytes)
unfolding get_doc get_posting get_count
load bytes = do
  (doc_count, b1) ← get_le 8 bytes
  (doc_tokens, b2) ← get_map get_doc b1
  (postings, b3) ← get_map get_posting b2
  (doc_freq, b4) ← get_map get_count b3
  value (
    record {
      doc_count = doc_count;
      doc_tokens = doc_tokens;
      postings = postings;
      doc_freq = doc_freq;
    },
    b4,
  )

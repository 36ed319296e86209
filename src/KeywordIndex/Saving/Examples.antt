-- ===== src/KeywordIndex/Saving/Examples.antt =====
-- The theorem on a keyword index in a file at a small index.
use pomaisearch.Base.{◌≡◌, refl, [], ◌∷◌, ◌++◌, arith}
use pomaisearch.Base.Bytes.{Bytes}
use pomaisearch.Status.{value}
use pomaisearch.File.{File, put, le_bytes, put_list, put_string}
use pomaisearch.File.Maps.{put_map}
use pomaisearch.File.Laws.{written}
use pomaisearch.KeywordIndex.{KeywordIndex}
use pomaisearch.KeywordIndex.Saving.{save, load, put_count, put_doc, put_entry, put_posting}
use pomaisearch.KeywordIndex.Saving.Loaded.{FitsFile, load-save_keywords}

abbrev term : Bytes
term = b'c' ∷ b'a' ∷ b't' ∷ []

-- Document 4 has the term twice.
abbrev one_doc : KeywordIndex
one_doc = record {
  doc_count = 1;
  doc_tokens = (4, (term, 2) ∷ []) ∷ [];
  postings = (term, (4, 2) ∷ []) ∷ [];
  doc_freq = (term, 1) ∷ [];
}

one_doc-FitsFile : FitsFile one_doc
one_doc-FitsFile = record {
  fits_count = omega arith;
  fits_docs = omega arith;
  docs = ((omega arith, omega arith, ((omega arith, omega arith), tt), (tt, tt)), tt);
  docs_once = (tt, tt);
  fits_postings = omega arith;
  postings = ((omega arith, omega arith, ((omega arith, omega arith), tt), (tt, tt)), tt);
  postings_once = (tt, tt);
  fits_freq = omega arith;
  freq = ((omega arith, omega arith), tt);
  freq_once = (tt, tt);
}

abbrev file : File
file = record { contents = 1 ∷ []; room = 200 }

save_example : save one_doc file ≡ value (written file (save one_doc file))
unfolding save put_count put_doc put_entry put_posting put put_map put_list put_string le_bytes
save_example = refl

load-save_keywords_example :
    (bytes : Bytes) × ((written file (save one_doc file)).contents ≡ 1 ∷ bytes)
    × (load (bytes ++ 9 ∷ []) ≡ value (one_doc, 9 ∷ []))
load-save_keywords_example = load-save_keywords one_doc file (9 ∷ []) one_doc-FitsFile save_example

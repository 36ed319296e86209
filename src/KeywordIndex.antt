-- ===== src/KeywordIndex.antt =====
-- src/search_engine_impl.h: `Tokenize` and `KeywordIndex`, an inverted index from terms to documents.
-- Counts are numbers without a bound, as they count what is stored.
pub mod Saving
use pomaisearch.Base.{
  ℕ, ◌+◌, ◌-◌, Bool, ◌&&◌, ◌||◌, List, [], ◌∷◌, ◌++◌, map, Option, none, some, ltb, leb, ◌==◌,
  if◌then◌else◌, length, take, max,
}
use pomaisearch.Base.Bytes.{Bytes}
use pomaisearch.Base.Maps.{nat_key, bytes_key, find, assign, erase}
use pomaisearch.Base.Sort.{sort}
use pomaisearch.Float.{Float, Arithmetic, zero_float, one_float}
use pomaisearch.Index.{Candidate}
use pomaisearch.FlatIndex.{better_candidate}

-- `std::isalnum` and `std::tolower` of the "C" locale.
pub is_alnum : ℕ → Bool
is_alnum c = (leb b'0' c && leb c b'9') || (leb b'A' c && leb c b'Z') || (leb b'a' c && leb c b'z')

pub to_lower : ℕ → ℕ
to_lower c = if leb b'A' c && leb c b'Z' then c + 32 else c

-- The end of a word: a token, unless nothing was read.
pub flush : Bytes → List Bytes → List Bytes
flush [] tokens = tokens
flush (c ∷ current) tokens = (c ∷ current) ∷ tokens

-- The loop, with the word that is being read.
pub tokenize_from : Bytes → Bytes → List Bytes
unfolding is_alnum to_lower flush
tokenize_from current [] = flush current []
tokenize_from current (c ∷ text) =
    let next = tokenize_from (if is_alnum c then current ++ to_lower c ∷ [] else []) text in
    if is_alnum c then next else flush current next

unfoldable pub tokenize : Bytes → List Bytes
unfolding tokenize_from
tokenize text = tokenize_from [] text

abbrev pub TermFreq : Type 0
TermFreq = List (Bytes × ℕ)

abbrev pub Posting : Type 0
Posting = List (ℕ × ℕ)

pub record KeywordIndex : Type 0 where
  pub doc_count : ℕ
  pub doc_tokens : List (ℕ × TermFreq)
  pub postings : List (Bytes × Posting)
  pub doc_freq : List (Bytes × ℕ)

abbrev pub empty : KeywordIndex
empty = record { doc_count = 0; doc_tokens = []; postings = []; doc_freq = [] }

-- What `map[key]` reads: a missing entry is made, with the default value.
abbrev pub find_or : {V : Type 0} → Option V → V → V
find_or none d = d
find_or (some v) d = v

-- `for (token : tokens) ++term_freq[token];`
pub count_terms : TermFreq → List Bytes → TermFreq
count_terms freq [] = freq
count_terms freq (token ∷ tokens) =
    count_terms (assign token (find_or (find token freq) 0 + 1) freq) tokens

-- One round of the loop of `DeleteInternal`.
pub unpost : ℕ → Bytes → KeywordIndex → KeywordIndex
unpost id term k = elim (find term k.postings) [
  | none ↦ k
  | some posting ↦
      let left = erase id posting in
      if length left == 0
      then record k { postings = erase term k.postings; doc_freq = erase term k.doc_freq }
      else record k {
        postings = assign term left k.postings;
        doc_freq = assign term (length left) k.doc_freq;
      }
]

pub unpost_all : ℕ → TermFreq → KeywordIndex → KeywordIndex
unfolding unpost
unpost_all id [] k = k
unpost_all id ((term, n) ∷ freq) k = unpost_all id freq (unpost id term k)

unfoldable pub delete : KeywordIndex → ℕ → KeywordIndex
unfolding unpost_all
delete k id = elim (find id k.doc_tokens) [
  | none ↦ k
  | some freq ↦
      let t = unpost_all id freq k in
      record t { doc_tokens = erase id t.doc_tokens; doc_count = t.doc_count - 1 }
]

-- `posting[id] = count` for each term.
pub post_all : ℕ → TermFreq → List (Bytes × Posting) → List (Bytes × Posting)
post_all id [] postings = postings
post_all id ((term, n) ∷ freq) postings =
    post_all id freq (assign term (assign id n (find_or (find term postings) [])) postings)

-- `doc_freq_[term] = postings_[term].size()` for each term.
pub freq_all : TermFreq → List (Bytes × Posting) → List (Bytes × ℕ) → List (Bytes × ℕ)
freq_all [] postings doc_freq = doc_freq
freq_all ((term, n) ∷ freq) postings doc_freq =
    freq_all freq postings (assign term (length (find_or (find term postings) [])) doc_freq)

-- The entries for the tokens of a text that has some.
pub add_tokens : KeywordIndex → ℕ → List Bytes → KeywordIndex
unfolding count_terms post_all freq_all
add_tokens k id [] = k
add_tokens k id (t ∷ tokens) =
    let freq = count_terms [] (t ∷ tokens) in
    let postings = post_all id freq k.postings in
    record {
      doc_count = k.doc_count + 1;
      doc_tokens = assign id freq k.doc_tokens;
      postings = postings;
      doc_freq = freq_all freq postings k.doc_freq;
    }

-- The early return on an empty text is the one on no tokens: an empty text has none.
unfoldable pub upsert : KeywordIndex → ℕ → Option Bytes → KeywordIndex
unfolding delete add_tokens tokenize
upsert k id none = delete k id
upsert k id (some text) = add_tokens (delete k id) id (tokenize text)

module _ (m : Arithmetic) where
  -- `scores[id] += count * idf` for each entry of a posting.
  pub score_posting : Float → Posting → List (ℕ × Float) → List (ℕ × Float)
  score_posting idf [] scores = scores
  score_posting idf ((id, n) ∷ posting) scores =
      score_posting idf posting
        (assign id (m.add (find_or (find id scores) zero_float) (m.mul (m.of_nat n) idf)) scores)

  -- `log(1 + doc_count / df)`, with `df` at least 1.
  pub inverse_freq : KeywordIndex → Bytes → Float
  inverse_freq k token =
      let df : ℕ = elim (find token k.doc_freq) [ none ↦ 1 | some n ↦ max 1 n ] in
      m.log (m.add one_float (m.div (m.of_nat k.doc_count) (m.of_nat df)))

  pub score_tokens : KeywordIndex → List Bytes → List (ℕ × Float) → List (ℕ × Float)
  unfolding score_posting inverse_freq
  score_tokens k [] scores = scores
  score_tokens k (token ∷ tokens) scores = score_tokens k tokens (elim (find token k.postings) [
    | none ↦ scores
    | some posting ↦ score_posting (inverse_freq k token) posting scores
  ])

  abbrev to_candidate : ℕ × Float → Candidate
  to_candidate (id, score) = record { id = id; score = score }

  -- With no tokens, or with no documents, nothing is found.
  unfoldable pub search : KeywordIndex → Bytes → ℕ → List Candidate
  unfolding score_tokens tokenize
  search k query topk =
      if length (tokenize query) == 0 || k.doc_count == 0
      then []
      else let results =
          sort better_candidate (map to_candidate (score_tokens k (tokenize query) [])) in
        if ltb topk (length results) then take topk results else results

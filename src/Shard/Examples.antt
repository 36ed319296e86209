-- ===== src/Shard/Examples.antt =====
-- The theorems on a shard at a small shard with a flat index.
use pomaisearch.Base.{
  ℕ, zero, suc, ap, sym, ◌∙◌, ◌==◌, true, false, get_elem?, ◌≡◌, ◌<◌, ◌≤◌, refl, List, [], ◌∷◌,
  arith, some, none, length, min,
}
use pomaisearch.Base.All.{All}
use pomaisearch.Base.Bytes.{Bytes, bytes_eq}
use pomaisearch.Base.Maps.{find, emplace, nat_key, bytes_key}
use pomaisearch.Base.Sort.{IsSorted, sort}
use pomaisearch.Base.TopK.{offer_all}
use pomaisearch.Float.{Float, dot_scalar, sanitize_score, is_nan}
use pomaisearch.Float.Examples.{machine}
use pomaisearch.Status.{Status, ok_status, value, error, status, not_found}
use pomaisearch.Types.{
  VectorView, Filter, dot, SearchEngineConfig, default_config, is_expired, metadata_filter_match,
}
use pomaisearch.VectorStore
use pomaisearch.VectorStore.{VectorStore}
use pomaisearch.Index.{Index}
use pomaisearch.FlatIndex
use pomaisearch.FlatIndex.{FlatIndex, flat_index}
use pomaisearch.Shard.{Shard, ShardDoc, init, prepare, purge_expired, is_live}
use pomaisearch.Shard.Write.{Entry, upsert, upsert_purged, upsert_new, delete}
use pomaisearch.Shard.Read.{
  CandidateResult, better_candidate_result, search_candidates, exists, get_vector_copy,
}
use pomaisearch.Shard.Results.{IsResult}
use pomaisearch.Shard.Searches.{query_elements, search_candidates-IsResult}
use pomaisearch.Shard.Purge.{Aged, purge_expired-ages}
use pomaisearch.Shard.Stored.{IsValid, init-IsValid_shard}
use pomaisearch.Shard.Laws.{stored_elements, upsert-reads, upsert-IsValid}
use pomaisearch.Shard.Deletes.{AllFresh, delete-reads, delete-stuck}

abbrev kernel : List Float → List Float → Float
kernel = dot_scalar machine

abbrev ops : Index FlatIndex
ops = flat_index machine kernel

abbrev config : SearchEngineConfig
config = record default_config {
  dim = 2;
  max_points_per_shard = 8;
  max_candidates = 4;
  rerank_factor = 2;
  global_seed = 1;
  contract_version = 1;
}

abbrev empty_shard : Shard FlatIndex
empty_shard = init config 32 (FlatIndex.init 2 dot 8)

abbrev key : Bytes
key = b'k' ∷ []

abbrev vec : VectorView
vec = record { elements = some (5 ∷ 6 ∷ []); dim = 2 }

abbrev entry : Entry
entry = record { meta = []; expiry = some 100; text = none }

abbrev one_doc : Shard FlatIndex
one_doc = (upsert machine kernel ops empty_shard 1 key vec entry).0

abbrev empty_shard-IsValid : IsValid empty_shard
empty_shard-IsValid = init-IsValid_shard config 32 (FlatIndex.init 2 dot 8)

dim_example : 2 ≡ empty_shard.dim
unfolding init
dim_example = refl

stored_example : length (stored_elements machine kernel ops empty_shard vec) ≡ empty_shard.dim
unfolding init prepare
stored_example = refl

few_example : length (purge_expired ops 1 32 empty_shard).docs < 4294967296
unfolding init purge_expired
few_example = omega arith

ok_example : (upsert machine kernel ops empty_shard 1 key vec entry).1 ≡ ok_status
unfolding upsert upsert_purged upsert_new init prepare purge_expired find flat_index
    FlatIndex.upsert FlatIndex.init
ok_example = refl

fresh_example : is_expired 50 entry.expiry ≡ false
unfolding is_expired
fresh_example = refl

upsert-reads_example :
    IsValid one_doc
    × ((exists one_doc 50 key ≡ value true)
        × (get_vector_copy one_doc 50 key
            ≡ value (stored_elements machine kernel ops empty_shard vec)))
upsert-reads_example =
    upsert-reads machine kernel ops empty_shard 1 50 key vec (5 ∷ 6 ∷ []) entry empty_shard-IsValid
      refl dim_example stored_example few_example ok_example fresh_example

abbrev one_doc-IsValid : IsValid one_doc
one_doc-IsValid =
    upsert-IsValid machine kernel ops empty_shard 1 key vec entry empty_shard-IsValid stored_example
      few_example

abbrev doc : ShardDoc
doc = record {
  key = key;
  meta = [];
  offset = 0;
  deleted = false;
  gen = 1;
  expiry = some 100;
  text = none;
}

known_example : find key one_doc.key_to_id ≡ some 0
unfolding upsert upsert_purged upsert_new init prepare purge_expired find bytes_eq emplace
    flat_index FlatIndex.upsert FlatIndex.init
known_example = refl

docs_example : one_doc.docs ≡ doc ∷ []
unfolding upsert upsert_purged upsert_new init prepare purge_expired find flat_index
    FlatIndex.upsert FlatIndex.init VectorStore.insert VectorStore.init
docs_example = refl

only_one : (j : ℕ) (d : ShardDoc) → get_elem? (doc ∷ []) j ≡ some d → (j == 0) ≡ false → ⊥
only_one zero d e h = absurd (cc)
only_one (suc j) d e h = absurd (cc)

one_doc-AllFresh : AllFresh 2 0 one_doc.docs
one_doc-AllFresh j d e live other =
    absurd (only_one j d (ap (λ docs. get_elem? docs j) (sym docs_example) ∙ e) other)

delete-reads_example :
    (t : Shard FlatIndex) × (result : Status) × (delete ops one_doc 2 key ≡ some (t, result))
    × IsValid t
    × (exists t 3 key ≡ value false)
    × (get_vector_copy t 3 key ≡ error (status not_found "key not found"))
delete-reads_example =
    delete-reads ops one_doc one_doc-IsValid 2 key 0 known_example 3 one_doc-AllFresh

-- A second document, at which the collection begins next.
abbrev key2 : Bytes
key2 = b'm' ∷ []

abbrev two_docs : Shard FlatIndex
two_docs = (upsert machine kernel ops one_doc 1 key2 vec entry).0

stored_example2 : length (stored_elements machine kernel ops one_doc vec) ≡ one_doc.dim
unfolding upsert upsert_purged upsert_new init prepare purge_expired find flat_index
    FlatIndex.upsert FlatIndex.init
stored_example2 = refl

few_example2 : length (purge_expired ops 1 32 one_doc).docs < 4294967296
unfolding upsert upsert_purged upsert_new init prepare purge_expired find flat_index
    FlatIndex.upsert FlatIndex.init is_expired
few_example2 = omega arith

two_docs-IsValid : IsValid two_docs
two_docs-IsValid =
    upsert-IsValid machine kernel ops one_doc 1 key2 vec entry one_doc-IsValid stored_example2
      few_example2

abbrev doc2 : ShardDoc
doc2 = record doc { key = key2; offset = 1 }

two_docs_example :
    (find key two_docs.key_to_id ≡ some 0)
    × (get_elem? two_docs.docs two_docs.gc_cursor ≡ some doc2)
    × ((two_docs.gc_cursor == 0) ≡ false)
unfolding upsert upsert_purged upsert_new init prepare purge_expired find bytes_eq emplace
    flat_index FlatIndex.upsert FlatIndex.init is_expired VectorStore.insert VectorStore.init
two_docs_example = (refl, refl, refl)

expired_example : is_expired 200 doc2.expiry ≡ true
unfolding is_expired
expired_example = refl

delete-stuck_example : delete ops two_docs 200 key ≡ none
delete-stuck_example =
    delete-stuck ops two_docs two_docs-IsValid 200 key 0 two_docs_example.0 doc2 two_docs_example.1
      two_docs_example.2 refl expired_example

doc_example : get_elem? one_doc.docs 0 ≡ some doc
unfolding upsert upsert_purged upsert_new init prepare purge_expired find flat_index
    FlatIndex.upsert FlatIndex.init VectorStore.insert VectorStore.init VectorStore.take_slot
    VectorStore.grow_live VectorStore.mark_live VectorStore.write_slot VectorStore.ensure_block
    VectorStore.new_block
doc_example = refl

purge_expired-ages_example :
    (doc' : ShardDoc) × (get_elem? (purge_expired ops 200 32 one_doc).docs 0 ≡ some doc')
    × Aged 200 doc doc'
purge_expired-ages_example =
    purge_expired-ages ops 200 32 one_doc 0 doc one_doc-IsValid.blocks doc_example

abbrev no_filter : Filter
no_filter = record { tag = none; source = none; lang = none }

abbrev found : List CandidateResult
found = record { id = 0; key = key; meta = []; score = 6 } ∷ []

found_example :
    search_candidates machine kernel ops one_doc 2 one_doc 3 vec 3 no_filter ≡ value found
unfolding search_candidates upsert upsert_purged upsert_new init prepare purge_expired find
    flat_index FlatIndex.upsert FlatIndex.init VectorStore.insert VectorStore.init
    VectorStore.take_slot VectorStore.grow_live VectorStore.mark_live VectorStore.write_slot
    VectorStore.ensure_block VectorStore.new_block sort offer_all is_live is_expired
    metadata_filter_match sanitize_score is_nan dot_scalar VectorStore.get
found_example = refl

search_candidates-IsResult_example :
    IsSorted better_candidate_result found
    × (length found ≤ min 3 one_doc.max_candidates)
    × All
        (IsResult kernel one_doc 2 one_doc 3
          (query_elements machine kernel ops one_doc 2 one_doc 3 vec 3 no_filter)
          no_filter)
        found
search_candidates-IsResult_example =
    search_candidates-IsResult machine kernel ops one_doc 2 one_doc 3 vec 3 no_filter found_example

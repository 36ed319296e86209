-- ===== src/IvfFlat/Examples.antt =====
-- The theorems on the inverted file index at an index that is trained by its second vector.
use pomaisearch.Base.{
  ℕ, ◌≤◌, ◌<◌, ◌≡◌, refl, sym, zero, suc, false, ◌==◌, inl, inr, Bool-cases, true, List, [], ◌∷◌,
  ◌++◌, map, Option, none, some, none, arith, length,
}
use mathlib.Core.Path.{subst}
use mathlib.Core.Option.{some-injective}
use pomaisearch.Base.All.{All}
use pomaisearch.Base.Maps.{nat_key, find, assign}
use pomaisearch.Base.Sort.{insert}
use pomaisearch.Float.{Float, dot_scalar, float_lt, is_nan, order_key}
use pomaisearch.Float.Examples.{machine}
use pomaisearch.Status.{Status, ok_status, value}
use pomaisearch.File.{File, put, le_bytes, float_bytes, put_list}
use pomaisearch.File.Laws.{written}
use pomaisearch.File.Maps.{put_map}
use pomaisearch.Base.Bytes.{Bytes}
use pomaisearch.KMeans.Saving as KMeansSaving
use pomaisearch.VectorStore.{VectorStore}
use pomaisearch.VectorStore
use pomaisearch.KMeans.{lowest, train, assign_one, best_centroid}
use pomaisearch.KMeans
use pomaisearch.IvfFlat.{
  IvfFlatIndex, DocState, Config, entry, no_metrics, next_state, init, upsert, upsert_untrained,
  train_impl, compact,
}
use pomaisearch.IvfFlat.Kept.{IsKept, init-IsKept, compact-IsKept}
use pomaisearch.IvfFlat.Training.{HasScores, IsBlockedTraining}
use pomaisearch.KMeans.Assigned.{HasScore}
use pomaisearch.IvfFlat.Upserts.{HasUpsertScores, buffered, upsert-IsKept, upsert-none}
use pomaisearch.IvfFlat.Saving.{save, load, save_trained, put_state, put_entries, put_entry}
use pomaisearch.IvfFlat.Saving.Loaded.{FitsFile, FitsEntry, IsReloaded, load-save_ivf}
use pomaisearch.IvfFlat.Search.{Scored, search, candidate, scan_buffer, offer_score, pair_greater}
use pomaisearch.IvfFlat.Found.{IsLive, search-IsLive}

abbrev kernel : List Float → List Float → Float
kernel = dot_scalar machine

abbrev shuffle : List ℕ → List ℕ
shuffle xs = xs

abbrev store : VectorStore
store =
    (VectorStore.insert (VectorStore.insert (VectorStore.init 2 32 4) (5 ∷ 6 ∷ [])).0
      (7 ∷ 8 ∷ [])).0

abbrev config : Config
config = record {
  nlist = 1;
  nprobe = 1;
  min_train_size = 2;
  stale_ratio_threshold = 0;
  max_list_size = 1;
  max_list_bytes = 100;
}

abbrev empty_index : IvfFlatIndex
empty_index = init 2 config

abbrev after : IvfFlatIndex → Option (IvfFlatIndex × Status) → IvfFlatIndex
after x none = x
after x (some (y, result)) = y

abbrev one_doc : IvfFlatIndex
one_doc = after empty_index (upsert machine kernel shuffle store empty_index 4 0)

lists_example : 0 < empty_index.config.nlist
unfolding init
lists_example = omega arith

one_doc_example : upsert machine kernel shuffle store empty_index 4 0 ≡ some (one_doc, ok_status)
unfolding init upsert upsert_untrained
one_doc_example = refl

one_doc-IsKept : IsKept one_doc
unfolding init upsert upsert_untrained
one_doc-IsKept =
    (upsert-IsKept machine kernel shuffle store empty_index 4 0 lists_example (init-IsKept 2 config)
      one_doc ok_status one_doc_example tt).1

one_doc_lists : 0 < one_doc.config.nlist
unfolding init upsert upsert_untrained train_impl
one_doc_lists = omega arith

-- The trained index of two documents.
abbrev two_docs : IvfFlatIndex
two_docs = record {
  dim = 2;
  config = config;
  trained = true;
  kmeans = record { k = 1; dim = 2; max_iterations = 20; centroids = 1065353216 ∷ 1065353216 ∷ [] };
  lists = (entry 4 1 ∷ entry 9 1 ∷ []) ∷ [];
  list_metrics = no_metrics ∷ [];
  docs = (4, next_state 4 0 []) ∷ (9, next_state 9 1 []) ∷ [];
  buffer_ids = [];
  compaction_runs = 0;
}

two_docs_ended : upsert machine kernel shuffle store one_doc 9 1 ≡ some (two_docs, ok_status)
unfolding init upsert upsert_untrained train_impl train assign assign_one best_centroid float_lt
    is_nan order_key find KMeans.init dot_scalar VectorStore.get VectorStore.insert VectorStore.init
two_docs_ended = refl

untrained_example : one_doc.trained ≡ false
unfolding init upsert upsert_untrained
untrained_example = refl

find-All :
    (docs : List (ℕ × DocState)) (P : DocState → Type 0)
    → All (λ (p : ℕ × DocState). P p.1) docs
    → (id : ℕ) (doc : DocState) → find id docs ≡ some doc
    → P doc
unfolding find
find-All [] P a id doc f = absurd (cc)
find-All ((j, d) ∷ docs) P a id doc f = elim (Bool-cases (j == id)) [
  | inl e ↦ subst P (some-injective _ _ (rw e at f)) a.0
  | inr e ↦ find-All docs P a.1 id doc (rw e at f)
]

score_example :
    (offset : ℕ) → offset < 2 → HasScore kernel two_docs.kmeans (VectorStore.get store offset)
unfolding dot_scalar VectorStore.get VectorStore.insert VectorStore.init float_lt is_nan order_key
score_example zero h = (0, omega arith, refl)
score_example (suc zero) h = (0, omega arith, refl)
score_example (suc (suc offset)) h = absurd (omega arith)

scores_example : HasScores machine kernel shuffle store true two_docs.kmeans two_docs.docs
unfolding find
scores_example id doc f live =
    find-All two_docs.docs
      (λ doc. HasScore kernel two_docs.kmeans (VectorStore.get store doc.offset))
      (score_example 0 (omega arith), (score_example 1 (omega arith), tt)) id doc f

two_docs-IsKept : IsKept two_docs
two_docs-IsKept =
    (upsert-IsKept machine kernel shuffle store one_doc 9 1 one_doc_lists one_doc-IsKept two_docs
      ok_status two_docs_ended
      (subst
        (λ b.
          HasUpsertScores machine kernel shuffle store one_doc 9 1 one_doc_lists one_doc-IsKept b
            two_docs)
        (sym untrained_example) scores_example)).1

two_docs_lists : 0 < two_docs.config.nlist
two_docs_lists = omega arith

abbrev three_docs : IvfFlatIndex
three_docs = after two_docs (upsert machine kernel shuffle store two_docs 4 1)

three_docs_ended : upsert machine kernel shuffle store two_docs 4 1 ≡ some (three_docs, ok_status)
unfolding init upsert upsert_untrained train_impl train assign assign_one best_centroid float_lt
    is_nan order_key find KMeans.init dot_scalar VectorStore.get VectorStore.insert VectorStore.init
three_docs_ended = refl

upsert-IsKept_example :
    (find 4 three_docs.docs ≡ some (next_state 4 1 two_docs.docs)) × IsKept three_docs
upsert-IsKept_example =
    upsert-IsKept machine kernel shuffle store two_docs 4 1 two_docs_lists two_docs-IsKept
      three_docs ok_status three_docs_ended (score_example 1 (omega arith))

compact-IsKept_example : IsKept (compact machine two_docs)
compact-IsKept_example = compact-IsKept machine two_docs refl two_docs-IsKept

search-IsLive_example :
    (y : IvfFlatIndex) × (found : List Scored) × (search kernel store (1 ∷ 2 ∷ []) 3 two_docs
      ≡ some (y, map (candidate kernel store (1 ∷ 2 ∷ []) 3) found))
    × (y.docs ≡ two_docs.docs)
    × (y.lists ≡ two_docs.lists)
    × (length found ≤ 3)
    × All (IsLive kernel store (1 ∷ 2 ∷ []) 3 two_docs.docs) found
search-IsLive_example = search-IsLive kernel store (1 ∷ 2 ∷ []) 3 (omega arith) two_docs

-- A store of one NaN, with which training writes out of bounds.
abbrev nan_store : VectorStore
nan_store = (VectorStore.insert (VectorStore.init 1 32 4) (2143289344 ∷ [])).0

abbrev nan_index : IvfFlatIndex
nan_index = init 1 (record config { min_train_size = 1 })

nan_lists : 0 < nan_index.config.nlist
unfolding init
nan_lists = omega arith

nan_example : upsert machine kernel shuffle nan_store nan_index 4 0 ≡ none
unfolding init upsert upsert_untrained train_impl train assign assign_one best_centroid float_lt
    is_nan order_key find KMeans.init dot_scalar VectorStore.get VectorStore.insert VectorStore.init
nan_example = refl

upsert-none_example :
    (nan_index.trained ≡ false)
    × IsBlockedTraining machine kernel shuffle nan_store (
        buffered machine kernel shuffle nan_store nan_index 4 0 nan_lists
          (init-IsKept 1 (record config { min_train_size = 1 })))
upsert-none_example =
    upsert-none machine kernel shuffle nan_store nan_index 4 0 nan_lists
      (init-IsKept 1 (record config { min_train_size = 1 })) nan_example

-- A document that is written again before the training is found twice.
abbrev same_doc : IvfFlatIndex
same_doc =
    let long : IvfFlatIndex = init 2 (record config { min_train_size = 5 }) in
    let once = after long (upsert machine kernel shuffle store long 4 0) in
    after once (upsert machine kernel shuffle store once 4 1)

twice :
    search kernel store (1 ∷ 2 ∷ []) 3 same_doc
    ≡ some (same_doc, record { id = 4; score = 8 } ∷ record { id = 4; score = 8 } ∷ [])
unfolding init upsert upsert_untrained search scan_buffer offer_score insert pair_greater assign
    find float_lt is_nan order_key dot_scalar VectorStore.get VectorStore.insert VectorStore.init
twice = refl

two_docs-FitsFile : FitsFile two_docs
unfolding find
two_docs-FitsFile =
    let both : All FitsEntry (entry 4 1 ∷ entry 9 1 ∷ []) =
      ((omega arith, omega arith), ((omega arith, omega arith), tt)) in
    record {
      fits_nlist = omega arith;
      fits_buffer = omega arith;
      buffer = tt;
      fits_docs = omega arith;
      docs =
          ((omega arith, omega arith, omega arith), ((omega arith, omega arith, omega arith), tt));
      docs_once = ((refl, tt), (tt, tt));
      kmeans = record {
        fits_dim = omega arith;
        fits_k = omega arith;
        fits_size = omega arith;
        fits_centroids = (omega arith, (omega arith, tt));
      };
      fits_lists = omega arith;
      lists = ((omega arith, both), tt);
    }

abbrev file : File
file = record { contents = 1 ∷ []; room = 200 }

abbrev padding : Bytes
padding = 0 ∷ 0 ∷ 0 ∷ []

save_example : save padding two_docs file ≡ value (written file (save padding two_docs file))
unfolding save save_trained put_state put_entries put_entry KMeansSaving.save put_map put le_bytes
    float_bytes put_list
save_example = refl

empty_lists : empty_index.kmeans.k ≡ empty_index.config.nlist
unfolding init KMeans.init
empty_lists = refl

same_lists : empty_index.config.nlist ≡ two_docs.config.nlist
unfolding init
same_lists = refl

load-save_ivf_example :
    (bytes : Bytes) × ((written file (save padding two_docs file)).contents ≡ 1 ∷ bytes)
    × ((y : IvfFlatIndex) × (load empty_index (bytes ++ 9 ∷ []) ≡ value (y, 9 ∷ []))
        × IsReloaded two_docs y)
load-save_ivf_example =
    load-save_ivf padding refl two_docs empty_index two_docs-FitsFile same_lists file (9 ∷ [])
      two_docs-IsKept empty_lists save_example

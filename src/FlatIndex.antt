-- ===== src/FlatIndex.antt =====
-- core/index/flat_index.h and flat_index.cc: the exact index. Ids are `uint32_t`; the position of an
-- item is the position of its id in `ids`.
pub mod Search
pub mod Entries
pub mod Saving
mod Examples
use pomaisearch.Base.{
  ℕ, ◌+◌, Bool, true, false, ◌||◌, List, [], ◌∷◌, ◌++◌, map, none, some, ltb, leb, ◌==◌,
  if◌then◌else◌, length, get_or, set, ◌&&◌, not,
}
use pomaisearch.Base.Maps.{nat_key, find, emplace}
use pomaisearch.Base.Sort.{sort}
use pomaisearch.Base.TopK.{offer_all}
use pomaisearch.Float.{Float, Arithmetic, zero_float, one_float, float_eq, sanitize_score}
use pomaisearch.Float.Ranks.{better_scored}
use pomaisearch.Status.{
  Status, StatusOr, value, error, ok_status, status, invalid_argument, not_found,
  resource_exhausted,
}
use pomaisearch.Types.{VectorView, Filter, Similarity, dot, cosine}
use pomaisearch.VectorStore.{VectorStore}
use pomaisearch.VectorStore
use pomaisearch.Index.{Candidate, IndexStats, Index}

pub record Item : Type 0 where
  pub offset : ℕ
  pub norm : Float
  pub deleted : Bool

pub record FlatIndex : Type 0 where
  pub dim : ℕ
  pub similarity : Similarity
  pub max_points : ℕ
  pub items : List Item
  pub ids : List ℕ
  pub id_to_index : List (ℕ × ℕ)

abbrev pub no_item : Item
no_item = record { offset = 0; norm = zero_float; deleted = true }

unfoldable pub init : ℕ → Similarity → ℕ → FlatIndex
init dim similarity max_points = record {
  dim = dim;
  similarity = similarity;
  max_points = max_points;
  items = [];
  ids = [];
  id_to_index = [];
}

abbrev pub live_item : ℕ → Float → Item
live_item offset norm = record { offset = offset; norm = norm; deleted = false }

unfoldable pub upsert : FlatIndex → ℕ → ℕ → Float → FlatIndex × Status
upsert x id offset norm = elim (find id x.id_to_index) [
  | some i ↦ (record x { items = set x.items i (live_item offset norm) }, ok_status)
  | none ↦
      if ltb 0 x.max_points && leb x.max_points (length x.items)
      then (x, status resource_exhausted "index at capacity")
      else (
        record x {
          id_to_index = emplace id (length x.items) x.id_to_index;
          ids = x.ids ++ id ∷ [];
          items = x.items ++ live_item offset norm ∷ [];
        },
        ok_status,
      )
]

abbrev pub mark_deleted : Item → Item
mark_deleted item = record item { deleted = true }

unfoldable pub delete : FlatIndex → ℕ → FlatIndex × Status
delete x id = elim (find id x.id_to_index) [
  | none ↦ (x, status not_found "id not found")
  | some i ↦
      (record x { items = set x.items i (mark_deleted (get_or x.items i no_item)) }, ok_status)
]

pub count_deleted : List Item → ℕ
count_deleted [] = 0
count_deleted (i ∷ is) = (if i.deleted then 1 else 0) + count_deleted is

unfoldable pub get_stats : FlatIndex → IndexStats
unfolding count_deleted
get_stats x = record { num_points = length x.items; num_deleted = count_deleted x.items }

-- A heap entry, `FlatCandidate`: score and id.
abbrev pub Scored : Type 0
Scored = Float × ℕ

abbrev pub candidate : Scored → Candidate
candidate (score, id) = record { id = id; score = score }

abbrev pub scored : Candidate → Scored
scored c = (c.score, c.id)

abbrev pub better_candidate : Candidate → Candidate → Bool
better_candidate a b = better_scored (scored a) (scored b)

module _ (m : Arithmetic) (kernel : List Float → List Float → Float) where
  sum_squares : Float → List Float → Float
  sum_squares sum [] = sum
  sum_squares sum (x ∷ xs) = sum_squares (m.add sum (m.mul x x)) xs

  pub query_norm : Similarity → List Float → Float
  unfolding sum_squares
  query_norm dot q = one_float
  query_norm cosine q = m.sqrt (sum_squares zero_float q)

  -- The score of one item, before and after `SanitizeScore`.
  pub item_score : Similarity → List Float → Float → Item → List Float → Float
  item_score dot q norm item vec = sanitize_score (kernel q vec)
  item_score cosine q norm item vec = sanitize_score (
      if float_eq item.norm zero_float || float_eq norm zero_float
      then zero_float
      else m.div (kernel q vec) (m.mul item.norm norm))

  -- What the loop over the items offers to the heap: the live items in order, with their scores.
  pub scored_items : FlatIndex → VectorStore → List Float → List Item → List ℕ → List Scored
  scored_items x store q (item ∷ items) (id ∷ ids) =
      let rest = scored_items x store q items ids in
      if item.deleted
      then rest
      else (
        item_score x.similarity q (query_norm x.similarity q) item
            (VectorStore.get store item.offset),
        id,
      )
        ∷ rest
  scored_items x store q _ _ = []

  unfoldable pub search :
      VectorStore → FlatIndex → VectorView → ℕ → Filter → StatusOr (List Candidate)
  unfolding scored_items
  search store x q topk filter =
      if not (q.dim == x.dim)
      then error (status invalid_argument "dimension mismatch")
      else elim q.elements [
        | none ↦ error (status invalid_argument "dimension mismatch")
        | some elements ↦
            if topk == 0
            then error (status invalid_argument "topk must be positive")
            else value (
                sort better_candidate (
                  map candidate (
                    offer_all better_scored topk [] (scored_items x store elements x.items x.ids))))
      ]

  unfoldable pub flat_index : Index FlatIndex
  unfolding search upsert delete get_stats
  flat_index = record {
    upsert = λ store. upsert;
    delete = delete;
    search = search;
    get_stats = get_stats;
  }

-- ===== src/Index.antt =====
-- core/index/index.h: the interface that a shard uses its index through.
use pomaisearch.Base.{ℕ, List, ◌++◌, ◌≡◌}
use pomaisearch.Base.Bytes.{Bytes}
use pomaisearch.Float.{Float}
use pomaisearch.Status.{Status, StatusOr, value}
use pomaisearch.File.{File, put}
use pomaisearch.Types.{VectorView, Filter}
use pomaisearch.VectorStore.{VectorStore}

pub record Candidate : Type 0 where
  pub id : ℕ
  pub score : Float

pub record IndexStats : Type 0 where
  pub num_points : ℕ
  pub num_deleted : ℕ

-- The virtual methods, over a state `I`. The index reads vectors from the shard's store, which a
-- call therefore takes.
pub record Index (I : Type 0) : Type 0 where
  pub upsert : VectorStore → I → ℕ → ℕ → Float → I × Status
  pub delete : I → ℕ → I × Status
  pub search : VectorStore → I → VectorView → ℕ → Filter → StatusOr (List Candidate)
  pub get_stats : I → IndexStats

-- `Save` and `Load`. The loading index gives what is not in the file.
pub record IndexFile (I : Type 0) : Type 0 where
  pub save : I → File → StatusOr File
  pub load : I → Bytes → StatusOr (I × Bytes)

-- What a client needs of them: an index is written as some bytes, from which another index, the one
-- that loads, gets one that stands in a relation to the first.
pub record IsReadBack {I : Type 0} (files : IndexFile I) (x t : I) (R : I → Type 0) : Type 0 where
  pub bytes : Bytes
  pub writes : (f : File) → files.save x f ≡ put bytes f
  pub reads : (rest : Bytes) → (y : I) × (files.load t (bytes ++ rest) ≡ value (y, rest)) × R y

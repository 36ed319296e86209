-- ===== src/Metrics.antt =====
-- src/observability/metrics.cc: the counters and the latency histogram. A latency is a number of
-- nanoseconds, which the buckets, in milliseconds, are compared with exactly.
use pomaisearch.Base.{ℕ, ◌+◌, ◌*◌, List, [], ◌∷◌, ltb, if◌then◌else◌, get_or, set, replicate}

pub record Metrics : Type 0 where
  pub queries_total : ℕ
  pub upserts_total : ℕ
  pub deletes_total : ℕ
  pub histogram : List ℕ

abbrev pub init : Metrics
init = record {
  queries_total = 0;
  upserts_total = 0;
  deletes_total = 0;
  histogram = replicate 12 0;
}

abbrev pub buckets : List ℕ
buckets = 1 ∷ 5 ∷ 10 ∷ 25 ∷ 50 ∷ 100 ∷ 250 ∷ 500 ∷ 1000 ∷ 2500 ∷ 5000 ∷ []

-- The `while`: the first bucket that is not below the latency.
pub bucket_index : ℕ → List ℕ → ℕ
bucket_index latency [] = 0
bucket_index latency (b ∷ bs) = if ltb (b * 1000000) latency then bucket_index latency bs + 1 else 0

-- The increments wrap at 2^64 in the source; so many calls are not made.
unfoldable pub record_query_latency : Metrics → ℕ → Metrics
unfolding bucket_index
record_query_latency m latency =
    let i = bucket_index latency buckets in
    record m { histogram = set m.histogram i (get_or m.histogram i 0 + 1) }

abbrev pub increment_queries : Metrics → Metrics
increment_queries m = record m { queries_total = m.queries_total + 1 }

abbrev pub increment_upserts : Metrics → Metrics
increment_upserts m = record m { upserts_total = m.upserts_total + 1 }

abbrev pub increment_deletes : Metrics → Metrics
increment_deletes m = record m { deletes_total = m.deletes_total + 1 }

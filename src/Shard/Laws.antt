-- ===== src/Shard/Laws.antt =====
-- The theorems on `Upsert`, `Exists` and `GetVectorCopy` of a shard.
use pomaisearch.Base.{
  ℕ, ◌≡◌, ◌<◌, ap, sym, ◌∙◌, inl, inr, true, false, List, Option, none, some, arith, ◌==◌, length,
  get_or, get_or_of_some, Option-cases, Bool-cases,
}
use mathlib.Core.Path.{subst}
use pomaisearch.Base.Bytes.{Bytes}
use pomaisearch.Base.Maps.{bytes_key}
use pomaisearch.Float.{Float, Arithmetic}
use pomaisearch.Status.{Status, value, ok_status, is_ok, status, invalid_argument}
use pomaisearch.Types.{VectorView, is_expired}
use pomaisearch.Index.{Index}
use pomaisearch.KeywordIndex
use pomaisearch.Shard.{Shard, no_doc, is_live, prepare, purge_expired}
use pomaisearch.Shard.Purge.{purge_expired-Purged}
use pomaisearch.Shard.Write.{Entry, upsert_purged, upsert}
use pomaisearch.Shard.Read.{exists, get_vector_copy}
use pomaisearch.Shard.Stored.{IsValid, Stored, purge_expired-IsValid, upsert_purged-Wrote}

module _ {I : Type 0} where
  -- What the two reads of a stored key return.
  Stored-reads :
      (s : Shard I) (now : ℕ) (key : Bytes) (xs : List Float) (expiry : Option ℕ)
      → Stored s key xs expiry
      → is_expired now expiry ≡ false
      → (exists s now key ≡ value true) × (get_vector_copy s now key ≡ value xs)
  unfolding exists get_vector_copy is_live
  Stored-reads s now key xs expiry st fresh =
      let same : get_or s.docs st.id no_doc ≡ st.doc = get_or_of_some s.docs st.id no_doc st.at in
      let alive : is_expired now st.doc.expiry ≡ false =
        ap (is_expired now) st.same_expiry ∙ fresh in
      ground (arith, st.known, same, alive, st.undeleted, st.contents)

module _ (m : Arithmetic) (kernel : List Float → List Float → Float) {I : Type 0}
    (ops : Index I) where
  -- The elements that a shard stores for a vector.
  abbrev pub stored_elements : Shard I → VectorView → List Float
  stored_elements s vec = KeywordIndex.find_or (prepare m s.similarity vec).elements List.[]

  upsert_step :
      (s : Shard I) (now : ℕ) (key : Bytes) (vec : VectorView) (xs : List Float) (e : Entry)
      → vec.elements ≡ some xs
      → vec.dim ≡ s.dim
      → upsert m kernel ops s now key vec e
        ≡ upsert_purged m kernel ops (purge_expired ops now 32 s) key (stored_elements s vec) e
  unfolding upsert
  upsert_step s now key vec xs e given dim =
      let same : (vec.dim == s.dim) ≡ true = ground arith in ground (arith, given, same)

  purged_fits :
      (s : Shard I) (now : ℕ) (xs : List Float)
      → IsValid s
      → length xs ≡ s.dim
      → length xs ≡ (purge_expired ops now 32 s).dim
  purged_fits s now xs v fits = fits ∙ sym (purge_expired-Purged ops now 32 s v.blocks).same_dim

  -- Read after write: in a valid shard with fewer than 2^32 documents, an upsert of a vector of the
  -- shard's dimension that returns OK leaves the shard valid, and under its key it leaves a document
  -- that exists and whose vector is the one given (normalised for the cosine similarity), at every
  -- time at which it has not expired. So for a new key and for a known one, deleted or not, whatever
  -- the free list holds, and whatever index the shard has.
  pub upsert-reads :
      (s : Shard I) (now now' : ℕ) (key : Bytes) (vec : VectorView) (xs : List Float) (e : Entry)
      → IsValid s
      → vec.elements ≡ some xs
      → vec.dim ≡ s.dim
      → length (stored_elements s vec) ≡ s.dim
      → length (purge_expired ops now 32 s).docs < 4294967296
      → (upsert m kernel ops s now key vec e).1 ≡ ok_status
      → is_expired now' e.expiry ≡ false
      → IsValid (upsert m kernel ops s now key vec e).0
        × ((exists (upsert m kernel ops s now key vec e).0 now' key ≡ value true)
            × (get_vector_copy (upsert m kernel ops s now key vec e).0 now' key
                ≡ value (stored_elements s vec)))
  upsert-reads s now now' key vec xs e v given dim fits few good fresh =
      let step = upsert_step s now key vec xs e given dim in
      let ys = stored_elements s vec in
      let t = purge_expired ops now 32 s in
      let wrote =
        upsert_purged-Wrote m kernel ops t (purge_expired-IsValid ops now 32 s v) key ys e
          (purged_fits s now ys v fits) few in
      let r = upsert_purged m kernel ops t key ys e in
      let fine : is_ok r.1 ≡ true =
        ap is_ok (sym (ap (λ (p : Shard I × Status). p.1) step) ∙ good) in
      rw step (wrote.0, Stored-reads r.0 now' key ys e.expiry (wrote.1 fine) fresh)

  -- An upsert into a valid shard, whatever it returns, keeps it valid, if the elements to store have
  -- the shard's dimension and the shard has fewer than 2^32 documents.
  pub upsert-IsValid :
      (s : Shard I) (now : ℕ) (key : Bytes) (vec : VectorView) (e : Entry)
      → IsValid s
      → length (stored_elements s vec) ≡ s.dim
      → length (purge_expired ops now 32 s).docs < 4294967296
      → IsValid (upsert m kernel ops s now key vec e).0
  unfolding upsert
  upsert-IsValid s now key vec e v fits few = elim (Bool-cases (vec.dim == s.dim)) [
    | inr other ↦ rw other v
    | inl same ↦ rw same (elim (Option-cases vec.elements) [
      | inl null ↦ subst (λ o. IsValid (upsert_elements o).0) (sym null) v
      | inr (xs, given) ↦
          subst (λ o. IsValid (upsert_elements o).0) (sym given)
            (upsert_purged-Wrote m kernel ops (purge_expired ops now 32 s)
              (purge_expired-IsValid ops now 32 s v) key (stored_elements s vec) e
              (purged_fits s now (stored_elements s vec) v fits) few).0
    ])
  ]
    where
      upsert_elements : Option (List Float) → Shard I × Status
      upsert_elements none = (s, status invalid_argument "dimension mismatch")
      upsert_elements (some _) =
          upsert_purged m kernel ops (purge_expired ops now 32 s) key (stored_elements s vec) e

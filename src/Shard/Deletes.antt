-- ===== src/Shard/Deletes.antt =====
-- The theorems on `Delete` of a shard, when it returns and when it does not.
use pomaisearch.Base.{
  ℕ, ◌≡◌, ◌<◌, refl, ap, sym, ◌∙◌, inl, inr, not, ◌&&◌, set, length-set, get_elem?-set_ne,
  get_or-set_ne, ◌≢◌, true, false, List, none, some, arith, ◌==◌, length, get_elem?, get_or,
  get_or_of_some, Bool-cases, get_elem?-set_self, get_elem?-lt,
}
use mathlib.Core.Option.{some-injective}
use native.Mathlib.Decide.{ℕ_discrete}
use pomaisearch.Base.Bytes.{Bytes}
use pomaisearch.Base.Maps.{bytes_key, find}
use pomaisearch.Status.{Status, value, error, status, not_found}
use pomaisearch.Types.{is_expired}
use pomaisearch.VectorStore.Valid.{release-HasBlocks}
use pomaisearch.Index.{Index}
use pomaisearch.Shard.{
  Shard, ShardDoc, no_doc, next_gen, is_live, purge_expired, expire_doc, begin_scan, scan,
}
use pomaisearch.Shard.Purge.{Aged, purge_expired-Purged}
use pomaisearch.Shard.Write.{delete_known, delete}
use pomaisearch.Shard.Read.{exists, get_vector_copy}
use pomaisearch.Shard.Stored.{IsValid, purge_expired-IsValid, KeysHaveDocs-set}
use pomaisearch.Shard.Scanned.{
  NoneDue, scan-none, scan_one-scan, scan_one-found, not_zero, get_or-due,
}

module _ {I : Type 0} (ops : Index I) (s : Shard I) (v : IsValid s) (id : ℕ) where
  -- The document after the delete.
  abbrev removed : ShardDoc
  removed = record (get_or s.docs id no_doc) {
    deleted = true;
    gen = next_gen (get_or s.docs id no_doc).gen;
  }

  delete_known-IsValid :
      (key : Bytes)
      → find key s.key_to_id ≡ some id
      → IsValid (delete_known ops s id).0
        × (get_elem? (delete_known ops s id).0.docs id ≡ some removed)
        × ((delete_known ops s id).0.key_to_id ≡ s.key_to_id)
  unfolding delete_known
  delete_known-IsValid key known =
      let (doc, at, named) = v.keys key id known in
      let same : get_or s.docs id no_doc ≡ doc = get_or_of_some s.docs id no_doc at in
      let freed = release-HasBlocks s.store v.blocks (get_or s.docs id no_doc).offset in
      (
        record {
          keys =
              KeysHaveDocs-set s.key_to_id s.docs id doc removed v.keys at
                (ap (λ (d : ShardDoc). d.key) same);
          dims = freed.1 ∙ v.dims;
          blocks = freed.0;
        },
        get_elem?-set_self s.docs id removed (get_elem?-lt s.docs id at),
        refl,
      )

-- A deleted document does not age.
Aged-deleted : (now : ℕ) (a b : ShardDoc) → a.deleted ≡ true → Aged now a b → b.deleted ≡ true
unfolding expire_doc
Aged-deleted now a b d (inl p) = ap (λ (x : ShardDoc). x.deleted) p ∙ d
Aged-deleted now a b d (inr p) = ap (λ (x : ShardDoc). x.deleted) p.0

deleted-reads :
    {I : Type 0} (s : Shard I) (now : ℕ) (key : Bytes) (id : ℕ) (doc : ShardDoc)
    → find key s.key_to_id ≡ some id
    → get_elem? s.docs id ≡ some doc
    → doc.deleted ≡ true
    → (exists s now key ≡ value false)
      × (get_vector_copy s now key ≡ error (status not_found "key not found"))
unfolding exists get_vector_copy is_live
deleted-reads s now key id doc known at gone =
    let same : get_or s.docs id no_doc ≡ doc = get_or_of_some s.docs id no_doc at in
    ground (arith, known, same, gone)

-- Every document but the one of an id is deleted or has not expired.
abbrev pub AllFresh : ℕ → ℕ → List ShardDoc → Type 0
AllFresh now id docs =
    (j : ℕ) (doc : ShardDoc)
    → get_elem? docs j ≡ some doc
    → doc.deleted ≡ false
    → (j == id) ≡ false
    → is_expired now doc.expiry ≡ false

module _ {I : Type 0} (ops : Index I) (s : Shard I) (v : IsValid s) (now : ℕ) (key : Bytes) (id : ℕ)
    (known : find key s.key_to_id ≡ some id) where
  none_due : AllFresh now id s.docs → NoneDue now (delete_known ops s id).0.docs
  unfolding delete_known
  none_due fresh j = get_or-due now (delete_known ops s id).0.docs j (λ doc e.
      elim (ℕ_discrete id j) [
        | yes p ↦
            let here =
              get_elem?-set_self s.docs id (removed ops s v id)
                (get_elem?-lt s.docs id (v.keys key id known).1) in
            let same : removed ops s v id ≡ doc =
              some-injective _ _
                (sym here ∙ ap (get_elem? (set s.docs id (removed ops s v id))) p ∙ e) in
            ground (arith, ap (λ (d : ShardDoc). d.deleted) same)
        | no n ↦
            let at = sym (get_elem?-set_ne s.docs id j (removed ops s v id) n) ∙ e in
            let other : (j == id) ≡ false = ground (arith, n) in
            elim (Bool-cases doc.deleted) [
              | inl gone ↦ rw gone refl
              | inr live ↦ rw live (fresh j doc at live other)
            ]
      ])

  -- A delete of a known key of a valid shard returns if every other document is deleted or has not expired.
  -- It keeps the shard valid; afterwards the key does not exist, and it has no vector to read, at
  -- any time.
  pub delete-reads :
      (now' : ℕ)
      → AllFresh now id s.docs
      → (t : Shard I) × (result : Status) × (delete ops s now key ≡ some (t, result))
        × IsValid t
        × (exists t now' key ≡ value false)
        × (get_vector_copy t now' key ≡ error (status not_found "key not found"))
  unfolding delete
  delete-reads now' fresh =
      let (vt, at, keys) = delete_known-IsValid ops s v id key known in
      let u = (delete_known ops s id).0 in
      let none_found = scan-none now 32 (begin_scan u) (none_due fresh) refl in
      let none_left : (length (scan now 32 (begin_scan u)).expired == 0) ≡ true =
        ap (λ (xs : List (ℕ × ℕ)). length xs == 0) none_found in
      let p = purge_expired-Purged ops now 32 u vt.blocks in
      let (doc, dat, aged) = p.aged id (removed ops s v id) at in
      (
        purge_expired ops now 32 u,
        (delete_known ops s id).1,
        rw (known, delete) (rw none_left refl),
        purge_expired-IsValid ops now 32 u vt,
        (deleted-reads (purge_expired ops now 32 u) now' key id doc
            (ap (find key) (p.same_keys ∙ keys) ∙ known) dat
            (Aged-deleted now (removed ops s v id) doc refl aged)).0,
        (deleted-reads (purge_expired ops now 32 u) now' key id doc
            (ap (find key) (p.same_keys ∙ keys) ∙ known) dat
            (Aged-deleted now (removed ops s v id) doc refl aged)).1,
      )

  stuck_at :
      (doc : ShardDoc)
      → get_elem? s.docs s.gc_cursor ≡ some doc
      → (s.gc_cursor == id) ≡ false
      → doc.deleted ≡ false
      → is_expired now doc.expiry ≡ true
      → ((not (get_or (delete_known ops s id).0.docs s.gc_cursor no_doc).deleted
            && is_expired now (get_or (delete_known ops s id).0.docs s.gc_cursor no_doc).expiry)
          ≡ true)
        × (s.gc_cursor < length (delete_known ops s id).0.docs)
  unfolding delete_known
  stuck_at doc at other live expired =
      let apart : id ≢ s.gc_cursor = λ e. ground (arith, e, other) in
      let same =
        get_or-set_ne s.docs id s.gc_cursor (removed ops s v id) no_doc apart
        ∙ get_or_of_some s.docs s.gc_cursor no_doc at in
      (
        rw same (rw (live, expired) refl),
        omega
            (arith, length-set s.docs id (removed ops s v id), get_elem?-lt s.docs s.gc_cursor at),
      )

  -- A delete of a known key does not return if another document, at which the collection is to begin, is
  -- live and has expired: the store's lock is taken twice.
  pub delete-stuck :
      (doc : ShardDoc)
      → get_elem? s.docs s.gc_cursor ≡ some doc
      → (s.gc_cursor == id) ≡ false
      → doc.deleted ≡ false
      → is_expired now doc.expiry ≡ true
      → delete ops s now key ≡ none
  unfolding delete
  delete-stuck doc at other live expired =
      let u = (delete_known ops s id).0 in
      let (due, within) = stuck_at doc at other live expired in
      let found = scan_one-found now (begin_scan u) within due in
      let more = scan_one-scan now 31 (begin_scan u) in
      let some_found : (length (scan now 32 (begin_scan u)).expired == 0) ≡ false =
        not_zero _ (omega (arith, more, found)) in
      rw (known, delete) (rw some_found refl)

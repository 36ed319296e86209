-- ===== src/Shard/Stored.antt =====
-- The keys of a shard: every key of the map has its document, every call keeps that so, and what
-- is read under a key is what was last written under it.
use pomaisearch.Base.{
  ℕ, ◌%◌, ◌<◌, ◌≡◌, refl, ap, sym, ◌∙◌, inl, inr, true, false, ◌&&◌, List, [], ◌∷◌, ◌++◌, Option,
  none, some, arith, ltb, leb, length, get_elem?, get_or, set, get_elem?-set_self, get_elem?-set_ne,
  get_elem?-lt, get_or_of_some, get_elem?-append_left, get_elem?-append_end, Bool-cases,
  Option-cases,
}
use mathlib.Core.Path.{subst}
use mathlib.Core.Option.{some-injective}
use native.Mathlib.Decide.{ℕ_discrete}
use pomaisearch.Base.Bytes.{Bytes, bytes_eq, bytes_eq_iff, bytes_eq_refl}
use pomaisearch.Base.Maps.{bytes_key, find, emplace, find-emplace}
use pomaisearch.Float.{Float, Arithmetic}
use pomaisearch.Status.{Status, is_ok}
use pomaisearch.Types.{SearchEngineConfig}
use pomaisearch.VectorStore
use pomaisearch.VectorStore.Valid.{HasBlocks, release-HasBlocks, init-IsValid}
use pomaisearch.VectorStore.Writes.{
  update-HasBlocks, insert-HasBlocks, get-update_any, get-insert_any,
}
use pomaisearch.Index.{Index}
use pomaisearch.Shard.{Shard, ShardDoc, no_doc, purge_expired, expire_doc, init}
use pomaisearch.Shard.Purge.{Aged, purge_expired-Purged}
use pomaisearch.Shard.Write.{Entry, fill_doc, upsert_known, upsert_new, upsert_purged}

-- The map names documents, and under their own keys.
abbrev pub KeysHaveDocs : List (Bytes × ℕ) → List ShardDoc → Type 0
KeysHaveDocs keys docs =
    (key : Bytes) (id : ℕ)
    → find key keys ≡ some id
    → (doc : ShardDoc) × (get_elem? docs id ≡ some doc) × (doc.key ≡ key)

-- The key map names documents with their keys, and the store has the dimension and whole blocks. It says
-- nothing of the slots that documents share, of the count of live documents, or of the index.
pub record IsValid {I : Type 0} (s : Shard I) : Type 0 where
  pub keys : KeysHaveDocs s.key_to_id s.docs
  pub dims : s.store.dim ≡ s.dim
  pub blocks : HasBlocks s.store

pub init-IsValid_shard :
    {I : Type 0} (cfg : SearchEngineConfig) (alignment : ℕ) (index : I)
    → IsValid (init cfg alignment index)
unfolding init find
init-IsValid_shard cfg alignment index = record {
  keys = λ key id e. absurd (cc);
  dims = refl_dim;
  blocks = (init-IsValid cfg.dim alignment 4096).has_blocks;
}
  where
    refl_dim : (VectorStore.init cfg.dim alignment 4096).dim ≡ cfg.dim
    refl_dim = VectorStore.dim-init cfg.dim alignment 4096

Aged-key : (now : ℕ) (a b : ShardDoc) → Aged now a b → b.key ≡ a.key
unfolding expire_doc
Aged-key now a b (inl p) = ap (λ (d : ShardDoc). d.key) p
Aged-key now a b (inr p) = ap (λ (d : ShardDoc). d.key) p.0

pub purge_expired-IsValid :
    {I : Type 0} (ops : Index I) (now budget : ℕ) (s : Shard I)
    → IsValid s
    → IsValid (purge_expired ops now budget s)
purge_expired-IsValid ops now budget s v =
    let p = purge_expired-Purged ops now budget s v.blocks in
    record {
      keys = λ key id e.
          let (doc, at, named) = v.keys key id (sym (ap (find key) p.same_keys) ∙ e) in
          let (doc', at', aged) = p.aged id doc at in
          (doc', at', Aged-key now doc doc' aged ∙ named);
      dims = p.store_dim ∙ v.dims ∙ sym p.same_dim;
      blocks = p.blocks;
    }

-- Writing one document in place, under the key that it has.
pub KeysHaveDocs-set :
    (keys : List (Bytes × ℕ)) (docs : List ShardDoc) (id : ℕ) (doc new : ShardDoc)
    → KeysHaveDocs keys docs
    → get_elem? docs id ≡ some doc
    → new.key ≡ doc.key
    → KeysHaveDocs keys (set docs id new)
KeysHaveDocs-set keys docs id doc new h at same key j e =
    let (d, dat, named) = h key j e in
    elim (ℕ_discrete id j) [
      | no n ↦ (d, get_elem?-set_ne docs id j new n ∙ dat, named)
      | yes p ↦ (
        new,
        subst (λ k. get_elem? (set docs id new) k ≡ some new) p
            (get_elem?-set_self docs id new (get_elem?-lt docs id at)),
        same ∙ some-key doc d (sym at ∙ ap (get_elem? docs) p ∙ dat) ∙ named,
      )
    ]
  where
    some-key : (a b : ShardDoc) → some a ≡ some b → a.key ≡ b.key
    some-key a b q = ap (λ (x : ShardDoc). x.key) (some-injective a b q)

-- A key is in the shard, live, with this vector and expiry.
pub record Stored {I : Type 0} (s : Shard I) (key : Bytes) (xs : List Float) (expiry : Option ℕ)
    : Type 0 where
  pub id : ℕ
  pub doc : ShardDoc
  pub known : find key s.key_to_id ≡ some id
  pub at : get_elem? s.docs id ≡ some doc
  pub undeleted : doc.deleted ≡ false
  pub same_expiry : doc.expiry ≡ expiry
  pub contents : VectorStore.get s.store doc.offset ≡ xs

module _ (m : Arithmetic) (kernel : List Float → List Float → Float) {I : Type 0} (ops : Index I)
    (s : Shard I) (v : IsValid s) (key : Bytes) (xs : List Float) (e : Entry)
    (fits : length xs ≡ s.dim) where
  -- After a write the shard is valid; if the write returned OK, the key is stored.
  abbrev Wrote : Shard I × Status → Type 0
  Wrote (t, result) = IsValid t × (is_ok result ≡ true → Stored t key xs e.expiry)

  upsert_known-Wrote :
      (id : ℕ) → find key s.key_to_id ≡ some id → Wrote (upsert_known m kernel ops s id xs e)
  unfolding upsert_known
  upsert_known-Wrote id known =
      let (doc, at, named) = v.keys key id known in
      let here = get_or s.docs id no_doc in
      let same : here ≡ doc = get_or_of_some s.docs id no_doc at in
      let store = VectorStore.update s.store here.offset xs in
      let kept = update-HasBlocks s.store v.blocks xs here.offset in
      let result = (ops.upsert store s.index id here.offset (m.sqrt (kernel xs xs))).1 in
      let dims : store.dim ≡ s.dim = kept.1 ∙ v.dims in
      elim (Bool-cases (is_ok result)) [
        | inl good ↦ rw good (
          record {
            keys =
                KeysHaveDocs-set s.key_to_id s.docs id doc (fill_doc here here.offset e) v.keys at
                  (ap (λ (d : ShardDoc). d.key) same);
            dims = dims;
            blocks = kept.0;
          },
          λ _. record {
            id = id;
            doc = fill_doc here here.offset e;
            known = known;
            at =
                get_elem?-set_self s.docs id (fill_doc here here.offset e)
                  (get_elem?-lt s.docs id at);
            undeleted = refl;
            same_expiry = refl;
            contents = get-update_any s.store v.blocks xs here.offset (fits ∙ sym v.dims);
          },
        )
        | inr bad ↦
            rw bad
              (record { keys = v.keys; dims = dims; blocks = kept.0 }, λ h. absurd (cc (h, bad)))
      ]

  appended-KeysHaveDocs :
      (new : ShardDoc)
      → find key s.key_to_id ≡ none
      → new.key ≡ key
      → KeysHaveDocs (emplace key (length s.docs) s.key_to_id) (s.docs ++ new ∷ [])
  appended-KeysHaveDocs new unknown named j id q = elim (Bool-cases (bytes_eq key j)) [
    | inl p ↦
        let at : length s.docs ≡ id =
          some-injective _ _
            (sym (find-emplace j key (length s.docs) s.key_to_id unknown ∙ rw p refl) ∙ q) in
        (
          new,
          subst (λ k. get_elem? (s.docs ++ new ∷ []) k ≡ some new) at
              (get_elem?-append_end s.docs new),
          named ∙ (bytes_eq_iff key j).0 p,
        )
    | inr p ↦
        let old : find j s.key_to_id ≡ some id =
          sym (find-emplace j key (length s.docs) s.key_to_id unknown ∙ rw p refl) ∙ q in
        let (doc, dat, dnamed) = v.keys j id old in
        (doc, get_elem?-append_left s.docs (new ∷ []) id (get_elem?-lt s.docs id dat) ∙ dat, dnamed)
  ]

  upsert_new-Wrote :
      find key s.key_to_id ≡ none
      → length s.docs < 4294967296
      → Wrote (upsert_new m kernel ops s key xs e)
  unfolding upsert_new
  upsert_new-Wrote unknown few =
      let id = length s.docs in
      let small : id % 4294967296 ≡ id = omega arith in
      let store = (VectorStore.insert s.store xs).0 in
      let offset = (VectorStore.insert s.store xs).1 in
      let kept = insert-HasBlocks s.store v.blocks xs in
      let result = (ops.upsert store s.index id offset (m.sqrt (kernel xs xs))).1 in
      let dims : store.dim ≡ s.dim = kept.1 ∙ v.dims in
      let new = fill_doc (record no_doc { key = key }) offset e in
      elim (Bool-cases (ltb 0 s.max_points && leb s.max_points s.live_docs)) [
        | inl full ↦ rw full (v, λ h. absurd (cc))
        | inr room ↦
            rw (room, small)
              (elim (Bool-cases (is_ok result)) [
                | inl good ↦ rw good (
                  record {
                    keys = appended-KeysHaveDocs new unknown refl;
                    dims = dims;
                    blocks = kept.0;
                  },
                  λ _. record {
                    id = id;
                    doc = new;
                    known =
                        find-emplace key key id s.key_to_id unknown ∙ rw (bytes_eq_refl key) refl;
                    at = get_elem?-append_end s.docs new;
                    undeleted = refl;
                    same_expiry = refl;
                    contents = get-insert_any s.store v.blocks xs (fits ∙ sym v.dims);
                  },
                )
                | inr bad ↦
                    let freed = release-HasBlocks store kept.0 offset in
                    rw bad (
                      record { keys = v.keys; dims = freed.1 ∙ dims; blocks = freed.0 },
                      λ h. absurd (cc (h, bad)),
                    )
              ])
      ]

  pub upsert_purged-Wrote :
      length s.docs < 4294967296 → Wrote (upsert_purged m kernel ops s key xs e)
  unfolding upsert_purged
  upsert_purged-Wrote few = elim (Option-cases (find key s.key_to_id)) [
    | inl p ↦ rw (p, upsert_purged) (upsert_new-Wrote p few)
    | inr (id, p) ↦ rw (p, upsert_purged) (upsert_known-Wrote id p)
  ]

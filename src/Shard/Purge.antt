-- ===== src/Shard/Purge.antt =====
-- `PurgeExpired` and its scan: which documents it changes, and what it leaves alone.
use pomaisearch.Base.{
  ℕ, zero, suc, ◌≡◌, ◌⊎◌, refl, ap, sym, ◌∙◌, inl, inr, true, false, not, ◌&&◌, ◌||◌, List, [], ◌∷◌,
  some, arith, leb, ◌==◌, if◌then◌else◌, length, get_elem?, get_or, set, get_elem?-set_self,
  get_elem?-set_ne, get_elem?-lt, get_or_of_some, Bool-cases,
}
use native.Mathlib.Decide.{ℕ_discrete}
use pomaisearch.Types.{is_expired}
use pomaisearch.VectorStore.{VectorStore}
use pomaisearch.VectorStore
use pomaisearch.VectorStore.Valid.{HasBlocks, release-HasBlocks}
use pomaisearch.Index.{Index}
use pomaisearch.Shard.{
  Shard, ShardDoc, Scan, no_doc, expire_doc, scan_one, scan, release_all, purge_expired,
}

-- A document is as it was, or it was live and had expired, and is now marked deleted.
abbrev pub Aged : ℕ → ShardDoc → ShardDoc → Type 0
Aged now doc doc' =
    (doc' ≡ doc)
    ⊎ ((doc' ≡ expire_doc doc) × (doc.deleted ≡ false) × (is_expired now doc.expiry ≡ true))

Aged-trans : (now : ℕ) (a b c : ShardDoc) → Aged now a b → Aged now b c → Aged now a c
unfolding expire_doc
Aged-trans now a b c (inl p) (inl q) = inl (q ∙ p)
Aged-trans now a b c (inl p) (inr q) = inr (q.0 ∙ ap expire_doc p, ground arith, ground arith)
Aged-trans now a b c (inr p) (inl q) = inr (q ∙ p.0, p.1, p.2)
Aged-trans now a b c (inr p) (inr q) = absurd (cc (ap (λ (d : ShardDoc). d.deleted) p.0, q.1))

-- Every document of the first list has aged into one of the second, at the same place.
abbrev pub AllAged : ℕ → List ShardDoc → List ShardDoc → Type 0
AllAged now docs docs' =
    (id : ℕ) (doc : ShardDoc)
    → get_elem? docs id ≡ some doc
    → (doc' : ShardDoc) × (get_elem? docs' id ≡ some doc') × Aged now doc doc'

scan_one-AllAged : (now : ℕ) (s : Scan) → AllAged now s.docs (scan_one now s).docs
unfolding scan_one
scan_one-AllAged now s id doc e =
    let cursor = if leb (length s.docs) s.cursor then 0 else s.cursor in
    let here = get_or s.docs cursor no_doc in
    elim (Bool-cases (not here.deleted && is_expired now here.expiry)) [
      | inr keep ↦ rw keep (doc, e, inl refl)
      | inl gone ↦ rw gone (elim (ℕ_discrete cursor id) [
        | no n ↦ (doc, get_elem?-set_ne s.docs cursor id _ n ∙ e, inl refl)
        | yes p ↦
            let same : here ≡ doc =
              get_or_of_some s.docs cursor no_doc (ap (get_elem? s.docs) p ∙ e) in
            (
              expire_doc here,
              ap (get_elem? (set s.docs cursor (expire_doc here))) (sym p)
                  ∙ get_elem?-set_self s.docs cursor (expire_doc here)
                      (get_elem?-lt s.docs cursor (ap (get_elem? s.docs) p ∙ e)),
              inr (ap expire_doc same, ground (arith, same), ground (arith, same)),
            )
      ])
    ]

scan-AllAged : (now budget : ℕ) (s : Scan) → AllAged now s.docs (scan now budget s).docs
unfolding scan
scan-AllAged now zero s id doc e = (doc, e, inl refl)
scan-AllAged now (suc budget) s id doc e =
    let (b, eb, p) = scan_one-AllAged now s id doc e in
    let (c, ec, q) = scan-AllAged now budget (scan_one now s) id b eb in
    (c, ec, Aged-trans now doc b c p q)

release_all-HasBlocks :
    (expired : List (ℕ × ℕ)) (s : VectorStore)
    → HasBlocks s
    → HasBlocks (release_all expired s) × ((release_all expired s).dim ≡ s.dim)
unfolding release_all
release_all-HasBlocks [] s h = (h, refl)
release_all-HasBlocks ((id, offset) ∷ expired) s h =
    let first = release-HasBlocks s h offset in
    let rest = release_all-HasBlocks expired (VectorStore.release s offset) first.0 in
    (rest.0, rest.1 ∙ first.1)

-- `PurgeExpired` only ages documents, keeps the key map and the dimension, and keeps the blocks.
pub record Purged {I : Type 0} (now : ℕ) (s t : Shard I) : Type 0 where
  pub aged : AllAged now s.docs t.docs
  pub same_keys : t.key_to_id ≡ s.key_to_id
  pub same_dim : t.dim ≡ s.dim
  pub store_dim : t.store.dim ≡ s.store.dim
  pub blocks : HasBlocks t.store

pub purge_expired-Purged :
    {I : Type 0} (ops : Index I) (now budget : ℕ) (s : Shard I)
    → HasBlocks s.store
    → Purged now s (purge_expired ops now budget s)
unfolding purge_expired
purge_expired-Purged ops now budget s h =
    let found : Scan =
      scan now budget
        (record { docs = s.docs; live_docs = s.live_docs; cursor = s.gc_cursor; expired = [] }) in
    elim (Bool-cases (budget == 0 || length s.docs == 0)) [
      | inl e ↦ rw e (record {
        aged = λ id doc p. (doc, p, inl refl);
        same_keys = refl;
        same_dim = refl;
        store_dim = refl;
        blocks = h;
      })
      | inr e ↦ rw e (record {
        aged = scan-AllAged now budget _;
        same_keys = refl;
        same_dim = refl;
        store_dim = (release_all-HasBlocks found.expired s.store h).1;
        blocks = (release_all-HasBlocks found.expired s.store h).0;
      })
    ]

-- In the garbage collection of a shard whose store has whole blocks, a document is either left as it was, or it was live and had expired,
-- and is then marked deleted in a new generation.
pub purge_expired-ages :
    {I : Type 0} (ops : Index I) (now budget : ℕ) (s : Shard I) (id : ℕ) (doc : ShardDoc)
    → HasBlocks s.store
    → get_elem? s.docs id ≡ some doc
    → (doc' : ShardDoc) × (get_elem? (purge_expired ops now budget s).docs id ≡ some doc')
      × Aged now doc doc'
purge_expired-ages ops now budget s id doc h = (purge_expired-Purged ops now budget s h).aged id doc

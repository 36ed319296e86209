-- ===== src/IvfFlat/Kept.antt =====
-- No document is lost: every live document is in the buffer before the training, and after it in a list
-- with its generation.
use pomaisearch.Base.{
  ℕ, zero, suc, ◌+◌, ◌≡◌, refl, sym, ◌∙◌, inl, inr, Bool, true, false, List, some, arith, leb, ◌==◌,
  ==_iff, ==_refl, length, length-set, Bool-cases, Option-cases,
}
use mathlib.Core.Path.{subst}
use mathlib.Core.Option.{some-injective}
use pomaisearch.Base.Maps.{nat_key, find, assign, find-assign}
use pomaisearch.Float.{Arithmetic}
use pomaisearch.KMeans.{KMeans, assign_one, train, lowest}
use pomaisearch.KMeans
use pomaisearch.IvfFlat.{
  IvfFlatIndex, Config, DocState, PostingEntry, entry, init, delete, entry_is_live, compact_list,
  list_needs_compaction, compact_from, compact,
}
use pomaisearch.IvfFlat.Lists.{IsIn, IsListed, IsListed-filter}

-- Where a live document has to be.
abbrev pub HasPlace : Bool → List (List PostingEntry) → List ℕ → ℕ → ℕ → Type 0
HasPlace true lists buffer id gen = IsListed (entry id gen) lists
HasPlace false lists buffer id gen = IsIn id buffer

pub record IsKept (x : IvfFlatIndex) : Type 0 where
  pub centroids : x.kmeans.k ≡ x.config.nlist
  pub sizes : x.trained ≡ true → length x.lists ≡ x.config.nlist
  pub kept :
      (id : ℕ) (doc : DocState)
      → find id x.docs ≡ some doc
      → doc.deleted ≡ false
      → HasPlace x.trained x.lists x.buffer_ids id doc.gen

pub init-IsKept : (dim : ℕ) (config : Config) → IsKept (init dim config)
unfolding init find KMeans.init
init-IsKept dim config = record {
  centroids = ground arith;
  sizes = λ h. absurd (cc);
  kept = λ id doc h live. absurd (cc);
}

-- What holds of the live documents, after one of them has changed.
pub live_after :
    (docs : List (ℕ × DocState)) (id : ℕ) (new : DocState) (P : ℕ → DocState → Type 0)
    → (new.deleted ≡ false → P id new)
    → ((j : ℕ) (doc : DocState) → find j docs ≡ some doc → doc.deleted ≡ false → P j doc)
    → (j : ℕ) (doc : DocState) → find j (assign id new docs) ≡ some doc
    → doc.deleted ≡ false
    → P j doc
live_after docs id new P at_ others j doc h live = elim (Bool-cases (id == j)) [
  | inl e ↦
      let same : new ≡ doc = some-injective _ _ (sym (find-assign j id new docs ∙ rw e refl) ∙ h) in
      let same_id = (==_iff id j).0 e in
      subst (λ i. P i doc) same_id (subst (P id) same (at_ (rw same live)))
  | inr e ↦ others j doc (sym (find-assign j id new docs ∙ rw e refl) ∙ h) live
]

pub delete-IsKept : (x : IvfFlatIndex) (id : ℕ) → IsKept x → IsKept (delete x id).0
unfolding delete
delete-IsKept x id v = elim (Option-cases (find id x.docs)) [
  | inl e ↦ rw (e, delete) v
  | inr (doc, e) ↦
      rw (e, delete)
        (record {
          centroids = v.centroids;
          sizes = v.sizes;
          kept =
              live_after x.docs id _ (λ j d. HasPlace x.trained x.lists x.buffer_ids j d.gen)
                (λ q. absurd (cc)) v.kept;
        })
]

-- The entry of a live document is live.
entry-is_live :
    (docs : List (ℕ × DocState)) (id : ℕ) (doc : DocState)
    → find id docs ≡ some doc
    → doc.deleted ≡ false
    → entry_is_live docs (entry id doc.gen) ≡ true
unfolding entry_is_live
entry-is_live docs id doc h live = rw (h, entry_is_live) (rw live (==_refl doc.gen))

pub compact_list-IsKept :
    (x : IvfFlatIndex) (c : ℕ) → x.trained ≡ true → IsKept x → IsKept (compact_list x c)
unfolding compact_list
compact_list-IsKept x c t v = elim (Bool-cases (leb (length x.lists) c)) [
  | inl e ↦ rw (e, compact_list) v
  | inr e ↦
      rw (e, compact_list)
        (record {
          centroids = v.centroids;
          sizes = λ h. length-set x.lists c _ ∙ v.sizes h;
          kept = λ id doc h live.
              let listed : IsListed (entry id doc.gen) x.lists = rw t at (v.kept id doc h live) in
              rw t (
                IsListed-filter (entry_is_live x.docs) (entry id doc.gen) c x.lists
                  (entry-is_live x.docs id doc h live) listed);
        })
]

trained-compact_list : (x : IvfFlatIndex) (c : ℕ) → (compact_list x c).trained ≡ x.trained
unfolding compact_list
trained-compact_list x c = ground arith

pub docs-compact_list : (x : IvfFlatIndex) (c : ℕ) → (compact_list x c).docs ≡ x.docs
unfolding compact_list
docs-compact_list x c = ground arith

module _ (m : Arithmetic) where
  compact_from-IsKept :
      (n c : ℕ) (x : IvfFlatIndex) → x.trained ≡ true → IsKept x → IsKept (compact_from m n c x)
  unfolding compact_from
  compact_from-IsKept zero c x t v = v
  compact_from-IsKept (suc n) c x t v = elim (Bool-cases (list_needs_compaction m x c)) [
    | inl e ↦ rw e (
        compact_from-IsKept n (c + 1) (compact_list x c) (trained-compact_list x c ∙ t)
          (compact_list-IsKept x c t v))
    | inr e ↦ rw e (compact_from-IsKept n (c + 1) x t v)
  ]

  -- Compaction of the lists loses no live document.
  pub compact-IsKept : (x : IvfFlatIndex) → x.trained ≡ true → IsKept x → IsKept (compact m x)
  unfolding compact
  compact-IsKept x t v = compact_from-IsKept (length x.lists) 0 x t v

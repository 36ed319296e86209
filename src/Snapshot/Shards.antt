-- ===== src/Snapshot/Shards.antt =====
-- The shards of an engine in a snapshot.
use pomaisearch.Base.{
  ℕ, zero, suc, ◌≡◌, ◌⊎◌, refl, sym, ap, inl, inr, List, [], ◌∷◌, ◌++◌, none, some, length,
  get_elem?, replicate,
}
use pomaisearch.Base.Bytes.{Bytes}
use pomaisearch.Base.All.{All}
use pomaisearch.Status.{value}
use pomaisearch.File.{File, put, put_list}
use pomaisearch.File.Laws.{put-then, put-nil}
use pomaisearch.Types.{SearchEngineConfig}
use pomaisearch.Index.{IndexFile, IsReadBack}
use pomaisearch.VectorStore
use pomaisearch.VectorStore.Saving.Loaded.{IsSavable}
use pomaisearch.Shard
use pomaisearch.Shard.{Shard}
use pomaisearch.Shard.Stored.{IsValid}
use pomaisearch.Shard.Saving as ShardSaving
use pomaisearch.Shard.Saving.Loaded as ShardLoaded
use pomaisearch.Snapshot.{load_shards}
use pomaisearch.Snapshot.Config.{saved_config}

module _ {I : Type 0} (files : IndexFile I) (make : SearchEngineConfig → I)
    (R : I → I → Type 0) where
  -- The shard that the reader makes, before it loads it.
  unfoldable pub fresh : SearchEngineConfig → Shard I
  fresh cfg = Shard.init (saved_config cfg) cfg.memory_alignment (make (saved_config cfg))

  -- A shard that can be written and read: it is valid, its numbers are in range, and so it is with
  -- its index, as far as the index itself can tell.
  pub record IsReady (cfg : SearchEngineConfig) (s : Shard I) : Type 0 where
    pub valid : IsValid s
    pub savable : IsSavable s.store
    pub fits : ShardLoaded.FitsFile s
    pub same_dim : s.store.dim ≡ cfg.dim
    pub index : IsReadBack files s.index (make (saved_config cfg)) (R s.index)

  -- Shard by shard.
  unfoldable pub AllReloaded : List (Shard I) → List (Shard I) → Type 0
  AllReloaded [] [] = Unit
  AllReloaded (s ∷ ss) (u ∷ us) =
      (ShardLoaded.IsReloaded s u × R s.index u.index) × AllReloaded ss us
  AllReloaded _ _ = ⊥

  fresh_dim :
      (cfg : SearchEngineConfig) (s : Shard I) → IsReady cfg s → (fresh cfg).store.dim ≡ s.store.dim
  unfolding fresh Shard.init saved_config VectorStore.init
  fresh_dim cfg s r = sym r.same_dim

  fresh_dims : (cfg : SearchEngineConfig) → (fresh cfg).store.dim ≡ (fresh cfg).dim
  unfolding fresh Shard.init saved_config VectorStore.init
  fresh_dims cfg = refl

  fresh_index :
      (cfg : SearchEngineConfig) (s : Shard I)
      → IsReady cfg s
      → IsReadBack files s.index (fresh cfg).index (R s.index)
  unfolding fresh Shard.init
  fresh_index cfg s r = r.index

  pub encode_shards :
      (cfg : SearchEngineConfig) (ss : List (Shard I)) → All (IsReady cfg) ss → Bytes
  encode_shards cfg [] r = []
  encode_shards cfg (s ∷ ss) r =
      ShardLoaded.encode files s (fresh cfg) r.0.valid r.0.savable r.0.fits (fresh_dim cfg s r.0)
        (fresh_index cfg s r.0)
      ++ encode_shards cfg ss r.1

  pub put_shards-put :
      (cfg : SearchEngineConfig) (ss : List (Shard I)) (r : All (IsReady cfg) ss) (f : File)
      → put_list (ShardSaving.save files) ss f ≡ put (encode_shards cfg ss r) f
  unfolding put_list encode_shards
  put_shards-put cfg [] r f = sym (put-nil f)
  put_shards-put cfg (s ∷ ss) r f =
      let first =
        ShardLoaded.encode files s (fresh cfg) r.0.valid r.0.savable r.0.fits (fresh_dim cfg s r.0)
          (fresh_index cfg s r.0) in
      rw
        (ShardLoaded.save-put files s (fresh cfg) r.0.valid r.0.savable r.0.fits
          (fresh_dim cfg s r.0) (fresh_index cfg s r.0) f)
        (put-then first (encode_shards cfg ss r.1) f (put_shards-put cfg ss r.1))

  pub load_shards-encode_shards :
      (cfg : SearchEngineConfig) (ss : List (Shard I)) (r : All (IsReady cfg) ss) (now : ℕ)
      → (us : List (Shard I)) × (load_shards files
            (replicate (length ss) (fresh cfg))
            now
            (encode_shards cfg ss r)
          ≡ value us)
        × AllReloaded ss us
  unfolding load_shards encode_shards AllReloaded
  load_shards-encode_shards cfg [] r now = ([], refl, tt)
  load_shards-encode_shards cfg (s ∷ ss) r now =
      let (u, loaded, same, index) =
        ShardLoaded.read_back files s (fresh cfg) r.0.valid r.0.savable r.0.fits
          (fresh_dim cfg s r.0) (fresh_index cfg s r.0) now (encode_shards cfg ss r.1)
          (fresh_dims cfg) in
      let (us, others, rest) = load_shards-encode_shards cfg ss r.1 now in
      (u ∷ us, rw loaded (rw others refl), ((same, index), rest))

  pub length-AllReloaded : (ss us : List (Shard I)) → AllReloaded ss us → length us ≡ length ss
  unfolding AllReloaded
  length-AllReloaded [] [] h = refl
  length-AllReloaded [] (u ∷ us) h = absurd h
  length-AllReloaded (s ∷ ss) [] h = absurd h
  length-AllReloaded (s ∷ ss) (u ∷ us) h = ap suc (length-AllReloaded ss us h.1)

  pub get_elem?-AllReloaded :
      (ss us : List (Shard I)) (i : ℕ)
      → AllReloaded ss us
      → ((get_elem? ss i ≡ none) × (get_elem? us i ≡ none))
        ⊎ ((s : Shard I) × (u : Shard I) × (get_elem? ss i ≡ some s)
            × (get_elem? us i ≡ some u)
            × ShardLoaded.IsReloaded s u)
  unfolding AllReloaded
  get_elem?-AllReloaded [] [] i h = inl (refl, refl)
  get_elem?-AllReloaded [] (u ∷ us) i h = absurd h
  get_elem?-AllReloaded (s ∷ ss) [] i h = absurd h
  get_elem?-AllReloaded (s ∷ ss) (u ∷ us) zero h = inr (s, u, refl, refl, h.0.0)
  get_elem?-AllReloaded (s ∷ ss) (u ∷ us) (suc i) h = get_elem?-AllReloaded ss us i h.1

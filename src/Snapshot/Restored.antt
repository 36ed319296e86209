-- ===== src/Snapshot/Restored.antt =====
-- An engine that was written into a snapshot is read back with the same keys and vectors.
use pomaisearch.Base.{
  ℕ, ◌^◌, ◌<◌, ◌≡◌, refl, sym, ap, ◌∙◌, inl, inr, [], ◌++◌, some, arith, ==_refl, length, replicate,
}
use mathlib.Core.List.{append_assoc}
use mathlib.Core.Path.{subst}
use pomaisearch.Base.Bytes.{Bytes}
use pomaisearch.Base.All.{All}
use pomaisearch.Status.{StatusOr, value, value-injective, >>=-eq-value}
use pomaisearch.File.{put_list}
use pomaisearch.File.Laws.{put-contents}
use pomaisearch.Types.{SearchEngineConfig}
use pomaisearch.Index.{IndexFile}
use pomaisearch.Shard.{Shard}
use pomaisearch.Shard.Saving as ShardSaving
use pomaisearch.Shard.Saving.Loaded as ShardLoaded
use pomaisearch.Metrics
use pomaisearch.Engine.{Impl, initialize, exists, get_vector, shard_index, from_shard}
use pomaisearch.Snapshot.{snapshot_seed, put_header, put_config, seal, load_shards, write, read}
use pomaisearch.Snapshot.Checksum.{crc32_update}
use pomaisearch.Snapshot.Header.{
  encode_header, length-sealed, put_header-put, seal-encode_header, read_header-encode_header,
}
use pomaisearch.Snapshot.Shards.{
  fresh, IsReady, AllReloaded, encode_shards, put_shards-put, load_shards-encode_shards,
  length-AllReloaded, get_elem?-AllReloaded,
}
use pomaisearch.Snapshot.Config.{
  encode_config, put_config-put, FitsFile, saved_config, get_config-encode_config,
}

module _ {I : Type 0} (files : IndexFile I) (make : SearchEngineConfig → I)
    (R : I → I → Type 0) where
  encode_payload : (e : Impl I) → All (IsReady files make R e.cfg) e.shards → Bytes
  encode_payload e r = encode_config e.cfg ++ encode_shards files make R e.cfg e.shards r

  -- A snapshot that is written is the payload under its header.
  written_snapshot :
      (e : Impl I) (r : All (IsReady files make R e.cfg) e.shards) (room : ℕ) (bytes : Bytes)
      → write files e room ≡ value bytes
      → bytes
        ≡ encode_header (length (encode_payload e r)) (crc32_update 0 (encode_payload e r))
          ++ encode_payload e r
  unfolding write encode_payload
  written_snapshot e r room bytes h =
      let (headed, r1, h1) =
        >>=-eq-value (put_header 0 0 (record { contents = []; room = room })) _ h in
      let (configured, r2, h2) = >>=-eq-value (put_config e.cfg headed) _ h1 in
      let (out, r3, h3) =
        >>=-eq-value (put_list (ShardSaving.save files) e.shards configured) _ h2 in
      let c1 = put-contents (encode_header 0 0) _ (sym (put_header-put 0 0 _) ∙ r1) in
      let c2 = put-contents (encode_config e.cfg) headed (sym (put_config-put e.cfg headed) ∙ r2) in
      let c3 =
        put-contents (encode_shards files make R e.cfg e.shards r) configured
          (sym (put_shards-put files make R e.cfg e.shards r configured) ∙ r3) in
      let contents : out.contents ≡ encode_header 0 0 ++ encode_payload e r =
        c3
        ∙ rw (c2, c1)
            (append_assoc (encode_header 0 0) (encode_config e.cfg)
              (encode_shards files make R e.cfg e.shards r)) in
      value-injective _ _ (sym h3 ∙ ap seal contents ∙ seal-encode_header (encode_payload e r))

  -- What an engine and the one that was read from its snapshot share.
  pub record IsRestored (e u : Impl I) : Type 0 where
    pub same_config : u.cfg ≡ saved_config e.cfg
    pub shards : AllReloaded files make R e.shards u.shards
    pub same_exists : (now : ℕ) (key : Bytes) → exists (some u) now key ≡ exists (some e) now key
    pub same_vectors :
        (now : ℕ) (key : Bytes) → get_vector (some u) now key ≡ get_vector (some e) now key

  from_shard-AllReloaded {ℓ} :
      {A : Type ℓ} (e u : Impl I) (i : ℕ) (call : Shard I → StatusOr A)
      → AllReloaded files make R e.shards u.shards
      → ((s t : Shard I) → ShardLoaded.IsReloaded s t → call t ≡ call s)
      → from_shard u i call ≡ from_shard e i call
  unfolding from_shard
  from_shard-AllReloaded e u i call h same =
      elim (get_elem?-AllReloaded files make R e.shards u.shards i h) [
        | inl (p, q) ↦ rw (p, from_shard) (rw (q, from_shard) refl)
        | inr (s, t, p, q, r) ↦ rw (p, from_shard) (rw (q, from_shard) (same s t r))
      ]

  restored :
      (e u : Impl I)
      → u.cfg ≡ saved_config e.cfg
      → AllReloaded files make R e.shards u.shards
      → IsRestored e u
  unfolding exists get_vector shard_index
  restored e u same h =
      let count = length-AllReloaded files make R e.shards u.shards h in
      record {
        same_config = same;
        shards = h;
        same_exists =
            λ now key. rw count (from_shard-AllReloaded e u _ _ h (λ s t r. r.same_exists now key));
        same_vectors = λ now key.
            rw count (from_shard-AllReloaded e u _ _ h (λ s t r. r.same_vectors now key));
      }

  same_seed : (cfg : SearchEngineConfig) → snapshot_seed (saved_config cfg) ≡ snapshot_seed cfg
  unfolding snapshot_seed saved_config
  same_seed cfg = refl

  -- The engine that the reader makes, before it loads the shards.
  initialized :
      (cfg : SearchEngineConfig)
      → 0 < cfg.dim
      → 0 < cfg.num_shards
      → initialize (saved_config cfg) (saved_config cfg).memory_alignment (make (saved_config cfg))
        ≡ value (record {
          cfg = saved_config cfg;
          shards = replicate cfg.num_shards (fresh files make R cfg);
          metrics = Metrics.init;
        })
  unfolding initialize saved_config fresh
  initialized cfg h k = ground arith

  -- An engine that was initialized, has ready shards and a configuration in range, and fits a file, is
  -- read from the snapshot that was written, with the same answers to `exists` and `get_vector`
  -- at every time and for every key; its configuration is the same but for four fields.
  pub read-write :
      (e : Impl I) (room later : ℕ) {bytes : Bytes}
      → 0 < e.cfg.dim
      → 0 < e.cfg.num_shards
      → length e.shards ≡ e.cfg.num_shards
      → FitsFile e.cfg
      → All (IsReady files make R e.cfg) e.shards
      → length bytes < 2 ^ 64
      → write files e room ≡ value bytes
      → (u : Impl I) × (read files make later bytes ≡ value u) × IsRestored e u
  unfolding read encode_payload
  read-write e room later some_dim some_shards count fits r small h =
      let split = written_snapshot e r room _ h in
      let payload = encode_payload e r in
      let long =
        ap length split ∙ length-sealed (length payload) (crc32_update 0 payload) payload in
      let (us, loaded, same) = load_shards-encode_shards files make R e.cfg e.shards r later in
      let counted =
        subst
          (λ n.
            load_shards files (replicate n (fresh files make R e.cfg)) later
              (encode_shards files make R e.cfg e.shards r)
            ≡ value us)
          count loaded in
      let u : Impl I = record { cfg = saved_config e.cfg; shards = us; metrics = Metrics.init } in
      (
        u,
        rw split (
            rw (read_header-encode_header payload (omega (arith, small, long))) (
              rw (get_config-encode_config e.cfg (encode_shards files make R e.cfg e.shards r) fits)
                (rw (same_seed e.cfg) (
                  rw (==_refl (snapshot_seed e.cfg))
                    (rw (initialized e.cfg some_dim some_shards) (rw counted refl)))))),
        restored e u refl same,
      )

-- ===== src/IvfFlat/Saving/Loaded.antt =====
-- An inverted file index that was saved is loaded with the same documents, and none of them is lost.
use pomaisearch.Base.{
  ℕ, ◌^◌, ◌<◌, ◌≡◌, refl, sym, ap, ◌∙◌, ◌==◌, Bool, true, false, List, [], ◌++◌, arith, length,
  replicate,
}
use mathlib.Core.Path.{subst}
use mathlib.Core.List.{append_assoc}
use pomaisearch.Base.All.{All}
use pomaisearch.Base.Bytes.{Bytes}
use pomaisearch.Base.Maps.{nat_key, HasKeysOnce, find}
use pomaisearch.Status.{value, ◌>>=◌}
use pomaisearch.File.{File, put, le_bytes, float_bytes, of_bool, get_bytes}
use pomaisearch.File.Laws.{
  put-put, put-then, put-nil, put-contents, encode_list, put_list-put, get_le-le_bytes,
  get_bytes-append, get_list-encode_list, get_floats-float_bytes, to_bool-of_bool, of_bool-lt,
}
use pomaisearch.File.Maps.{encode_map, put_map-put, get_map-encode_map}
use pomaisearch.KMeans.Saving as KMeansSaving
use pomaisearch.IvfFlat.{IvfFlatIndex, DocState, PostingEntry, no_metrics}
use pomaisearch.IvfFlat.Kept.{IsKept, HasPlace}
use pomaisearch.IvfFlat.Saving.{
  put_entry, get_entry, put_entries, get_entries, put_state, get_state, save_trained, load_trained,
  save, load,
}

unfoldable encode_entry : PostingEntry → Bytes
encode_entry e = le_bytes 4 e.id ++ le_bytes 4 e.gen

unfoldable encode_entries : List PostingEntry → Bytes
unfolding encode_entry
encode_entries es = le_bytes 8 (length es) ++ encode_list encode_entry es

unfoldable encode_state : Bytes → ℕ × DocState → Bytes
encode_state padding (id, doc) =
    le_bytes 4 id
    ++ le_bytes 8 doc.offset
    ++ le_bytes 4 doc.gen
    ++ le_bytes 1 (of_bool doc.deleted)
    ++ padding

unfoldable encode_trained : Bool → IvfFlatIndex → Bytes
unfolding encode_entries
encode_trained false x = []
encode_trained true x =
    KMeansSaving.encode x.kmeans
    ++ le_bytes 8 (length x.lists)
    ++ encode_list encode_entries x.lists

unfoldable encode : Bytes → IvfFlatIndex → Bytes
unfolding encode_state encode_trained
encode padding x =
    le_bytes 4 x.config.nlist
    ++ le_bytes 1 (of_bool x.trained)
    ++ le_bytes 8 (length x.buffer_ids)
    ++ float_bytes x.buffer_ids
    ++ encode_map (encode_state padding) x.docs
    ++ encode_trained x.trained x

-- What the numbers of an index must be for the file to hold them.
abbrev pub FitsEntry : PostingEntry → Type 0
FitsEntry e = (e.id < 2 ^ 32) × (e.gen < 2 ^ 32)

abbrev pub FitsEntries : List PostingEntry → Type 0
FitsEntries es = (length es < 2 ^ 64) × All FitsEntry es

abbrev pub FitsState : ℕ × DocState → Type 0
FitsState (id, doc) = (id < 2 ^ 32) × (doc.offset < 2 ^ 64) × (doc.gen < 2 ^ 32)

pub record FitsFile (x : IvfFlatIndex) : Type 0 where
  pub fits_nlist : x.config.nlist < 2 ^ 31
  pub fits_buffer : length x.buffer_ids < 2 ^ 64
  pub buffer : All (λ id. id < 2 ^ 32) x.buffer_ids
  pub fits_docs : length x.docs < 2 ^ 64
  pub docs : All FitsState x.docs
  pub docs_once : HasKeysOnce x.docs
  pub kmeans : KMeansSaving.FitsFile x.kmeans
  pub fits_lists : length x.lists < 2 ^ 64
  pub lists : All FitsEntries x.lists

put_entry-put : (e : PostingEntry) (f : File) → put_entry e f ≡ put (encode_entry e) f
unfolding put_entry encode_entry
put_entry-put e f = put-put (le_bytes 4 e.id) (le_bytes 4 e.gen) f

put_entries-put : (es : List PostingEntry) (f : File) → put_entries es f ≡ put (encode_entries es) f
unfolding put_entries encode_entries
put_entries-put es f =
    put-then (le_bytes 8 (length es)) (encode_list encode_entry es) f
      (put_list-put put_entry encode_entry put_entry-put es)

put_state-put :
    (padding : Bytes) (p : ℕ × DocState) (f : File)
    → put_state padding p f ≡ put (encode_state padding p) f
unfolding put_state encode_state
put_state-put padding (id, doc) f = simp put-put

save_trained-put :
    (trained : Bool) (x : IvfFlatIndex) (f : File)
    → save_trained trained x f ≡ put (encode_trained trained x) f
unfolding save_trained encode_trained
save_trained-put false x f = sym (put-nil f)
save_trained-put true x f =
    simp (KMeansSaving.save-put, put-put)
      (put-then _ (encode_list encode_entries x.lists) f
        (put_list-put put_entries encode_entries put_entries-put x.lists))

save-put :
    (padding : Bytes) (x : IvfFlatIndex) (f : File) → save padding x f ≡ put (encode padding x) f
unfolding save encode
save-put padding x f =
    let head =
      le_bytes 4 x.config.nlist
      ++ le_bytes 1 (of_bool x.trained)
      ++ le_bytes 8 (length x.buffer_ids)
      ++ float_bytes x.buffer_ids in
    let docs = encode_map (encode_state padding) x.docs in
    let begun : (put (le_bytes 4 x.config.nlist) f
          >>= put (le_bytes 1 (of_bool x.trained))
          >>= put (le_bytes 8 (length x.buffer_ids))
          >>= put (float_bytes x.buffer_ids))
        ≡ put head f =
      simp put-put in
    rw begun (
      rw
        (put-then head docs f
          (put_map-put (put_state padding) (encode_state padding) (put_state-put padding) x.docs))
        (put-then (head ++ docs) (encode_trained x.trained x) f (save_trained-put x.trained x)
          ∙ simp append_assoc))

get_entry-encode_entry :
    (e : PostingEntry) (rest : Bytes)
    → FitsEntry e
    → get_entry (encode_entry e ++ rest) ≡ value (e, rest)
unfolding get_entry encode_entry
get_entry-encode_entry e rest h = rw (append_assoc (le_bytes 4 e.id) (le_bytes 4 e.gen) rest) (
    rw (get_le-le_bytes 4 e.id (le_bytes 4 e.gen ++ rest) (omega (arith, h.0)))
      (rw (get_le-le_bytes 4 e.gen rest (omega (arith, h.1))) refl))

get_entries-encode_entries :
    (es : List PostingEntry) (rest : Bytes)
    → FitsEntries es
    → get_entries (encode_entries es ++ rest) ≡ value (es, rest)
unfolding get_entries encode_entries
get_entries-encode_entries es rest h =
    rw (append_assoc (le_bytes 8 (length es)) (encode_list encode_entry es) rest) (
      rw (get_le-le_bytes 8 (length es) (encode_list encode_entry es ++ rest) (omega (arith, h.0)))
        (get_list-encode_list FitsEntry get_entry encode_entry get_entry-encode_entry es rest h.1))

-- What `Load` makes of the part of a trained index in an index y.
abbrev reload_trained : Bool → IvfFlatIndex → IvfFlatIndex → IvfFlatIndex
reload_trained false x y = y
reload_trained true x y = record y {
  kmeans = record x.kmeans { max_iterations = y.kmeans.max_iterations };
  lists = x.lists;
  list_metrics = replicate (length x.lists) no_metrics;
}

load_trained-encode_trained :
    (trained : Bool) (x y : IvfFlatIndex) (rest : Bytes)
    → FitsFile x
    → load_trained trained y (encode_trained trained x ++ rest)
      ≡ value (reload_trained trained x y, rest)
unfolding load_trained encode_trained
load_trained-encode_trained false x y rest w = refl
load_trained-encode_trained true x y rest w =
    let lists = encode_list encode_entries x.lists ++ rest in
    simp append_assoc (
      rw
        (KMeansSaving.load-encode x.kmeans y.kmeans (le_bytes 8 (length x.lists) ++ lists) w.kmeans)
        (rw (get_le-le_bytes 8 (length x.lists) lists (omega (arith, w.fits_lists))) (
          rw
            (get_list-encode_list FitsEntries get_entries encode_entries get_entries-encode_entries
              x.lists rest w.lists)
            refl)))

-- What a trained index and the one that was loaded from it share.
abbrev pub HasSameLists : Bool → IvfFlatIndex → IvfFlatIndex → Type 0
HasSameLists true x y =
    (y.lists ≡ x.lists) × (y.kmeans.k ≡ x.kmeans.k) × (y.kmeans.centroids ≡ x.kmeans.centroids)
HasSameLists false x y = Unit

-- What an index and the one that was loaded from it share.
pub record IsReloaded (x y : IvfFlatIndex) : Type 0 where
  pub same_trained : y.trained ≡ x.trained
  pub same_docs : y.docs ≡ x.docs
  pub same_buffer : y.buffer_ids ≡ x.buffer_ids
  pub same_lists : HasSameLists x.trained x y
  pub kept : IsKept y

-- The lists and the centroids, without the documents and the flag.
record HasParts (trained : Bool) (x y : IvfFlatIndex) : Type 0 where
  same_docs : y.docs ≡ x.docs
  same_buffer : y.buffer_ids ≡ x.buffer_ids
  same_trained : y.trained ≡ trained
  same_lists : HasSameLists trained x y
  centroids : y.kmeans.k ≡ y.config.nlist
  sizes : trained ≡ true → length y.lists ≡ y.config.nlist

reload_trained-HasParts :
    (trained : Bool) (x t : IvfFlatIndex)
    → x.trained ≡ trained
    → IsKept x
    → t.kmeans.k ≡ t.config.nlist
    → t.config.nlist ≡ x.config.nlist
    → HasParts trained x (
        reload_trained trained x
          (record t { trained = trained; buffer_ids = x.buffer_ids; docs = x.docs }))
reload_trained-HasParts false x t e v k same = record {
  same_docs = refl;
  same_buffer = refl;
  same_trained = refl;
  same_lists = tt;
  centroids = k;
  sizes = λ h. absurd (cc);
}
reload_trained-HasParts true x t e v k same = record {
  same_docs = refl;
  same_buffer = refl;
  same_trained = refl;
  same_lists = (refl, refl, refl);
  centroids = v.centroids ∙ sym same;
  sizes = λ h. v.sizes e ∙ sym same;
}

-- Every document has its place in an index with the same parts.
has_place :
    (trained : Bool) (x y : IvfFlatIndex) (id gen : ℕ)
    → HasParts trained x y
    → HasPlace trained x.lists x.buffer_ids id gen
    → HasPlace trained y.lists y.buffer_ids id gen
has_place true x y id gen p h = rw p.same_lists.0 h
has_place false x y id gen p h = rw p.same_buffer h

reloaded : (x y : IvfFlatIndex) → IsKept x → HasParts x.trained x y → IsReloaded x y
reloaded x y v p = record {
  same_trained = p.same_trained;
  same_docs = p.same_docs;
  same_buffer = p.same_buffer;
  same_lists = p.same_lists;
  kept = record {
    centroids = p.centroids;
    sizes = λ h. p.sizes (sym p.same_trained ∙ h);
    kept = λ id doc h live.
        subst (λ b. HasPlace b y.lists y.buffer_ids id doc.gen) (sym p.same_trained)
          (has_place x.trained x y id doc.gen p
            (v.kept id doc (sym (ap (λ docs. find id docs) p.same_docs) ∙ h) live));
  };
}

module _ (padding : Bytes) (whole : length padding ≡ 3) where
  get_state-encode_state :
      (p : ℕ × DocState) (rest : Bytes)
      → FitsState p
      → get_state (encode_state padding p ++ rest) ≡ value (p, rest)
  unfolding get_state encode_state
  get_state-encode_state (id, doc) rest h =
      let b4 = padding ++ rest in
      let b3 = le_bytes 1 (of_bool doc.deleted) ++ b4 in
      let b2 = le_bytes 4 doc.gen ++ b3 in
      let b1 = le_bytes 8 doc.offset ++ b2 in
      let third : get_bytes 3 b4 ≡ value (padding, rest) =
        subst (λ n. get_bytes n b4 ≡ value (padding, rest)) whole (get_bytes-append padding rest) in
      simp append_assoc (
        rw (get_le-le_bytes 4 id b1 (omega (arith, h.0))) (
          rw (get_le-le_bytes 8 doc.offset b2 (omega (arith, h.1))) (
            rw (get_le-le_bytes 4 doc.gen b3 (omega (arith, h.2))) (
              rw
                (get_le-le_bytes 1 (of_bool doc.deleted) b4 (omega (arith, of_bool-lt doc.deleted)))
                (rw third (rw (to_bool-of_bool doc.deleted) refl))))))

  module _ (x t : IvfFlatIndex) (w : FitsFile x) (same : t.config.nlist ≡ x.config.nlist) where
    reload : IvfFlatIndex
    reload =
        reload_trained x.trained x
          (record t { trained = x.trained; buffer_ids = x.buffer_ids; docs = x.docs })

    load-encode : (rest : Bytes) → load t (encode padding x ++ rest) ≡ value (reload, rest)
    unfolding load encode reload
    load-encode rest =
        let last = encode_trained x.trained x ++ rest in
        let docs = encode_map (encode_state padding) x.docs ++ last in
        let buffer = float_bytes x.buffer_ids ++ docs in
        let size = le_bytes 8 (length x.buffer_ids) ++ buffer in
        let flag = le_bytes 1 (of_bool x.trained) ++ size in
        let right : (x.config.nlist == t.config.nlist) ≡ true = ground arith in
        simp append_assoc (
          rw (get_le-le_bytes 4 x.config.nlist flag (omega (arith, w.fits_nlist))) (
            rw right (
              rw (get_le-le_bytes 1 (of_bool x.trained) size (omega (arith, of_bool-lt x.trained)))
                (rw (get_le-le_bytes 8 (length x.buffer_ids) buffer (omega (arith, w.fits_buffer)))
                  (rw (get_floats-float_bytes x.buffer_ids docs w.buffer) (
                    rw
                      (get_map-encode_map FitsState get_state (encode_state padding)
                        get_state-encode_state x.docs last w.fits_docs w.docs w.docs_once)
                      (rw (to_bool-of_bool x.trained)
                        (load_trained-encode_trained x.trained x _ rest w))))))))

    -- An index that keeps its documents is saved into a file and loaded, from what was written and
    -- whatever follows it, into an index with as many lists that has a centroid for each: with the same
    -- documents, the same buffer and, if it is trained, the same lists and centroids. The loaded
    -- index keeps its documents: every live one is in the buffer, or in a list with its generation.
    pub load-save_ivf :
        (f : File) (rest : Bytes) {g : File}
        → IsKept x
        → t.kmeans.k ≡ t.config.nlist
        → save padding x f ≡ value g
        → (bytes : Bytes) × (g.contents ≡ f.contents ++ bytes)
          × ((y : IvfFlatIndex) × (load t (bytes ++ rest) ≡ value (y, rest)) × IsReloaded x y)
    unfolding reload
    load-save_ivf f rest v k h = (
      encode padding x,
      put-contents (encode padding x) f (sym (save-put padding x f) ∙ h),
      (
        reload,
        load-encode rest,
        reloaded x reload v (reload_trained-HasParts x.trained x t refl v k same),
      ),
    )

-- ===== src/KMeans/Saving.antt =====
-- `KMeans::Save` and `KMeans::Load`. The iterations are not in the file; `config_.k` is overwritten.
use pomaisearch.Base.{◌^◌, ◌<◌, ◌≡◌, refl, ◌++◌, arith, length}
use mathlib.Core.List.{append_assoc}
use pomaisearch.Base.All.{All}
use pomaisearch.Base.Bytes.{Bytes}
use pomaisearch.Status.{StatusOr, value, ◌>>=◌}
use pomaisearch.File.{File, put, put_le, le_bytes, float_bytes, get_le, get_floats}
use pomaisearch.File.Laws.{put-put, get_le-le_bytes, get_floats-float_bytes}
use pomaisearch.KMeans.{KMeans}

unfoldable pub save : KMeans → File → StatusOr File
save km f =
    put_le 4 km.dim f
    >>= put_le 4 km.k
    >>= put_le 8 (length km.centroids)
    >>= put (float_bytes km.centroids)

unfoldable pub load : KMeans → Bytes → StatusOr (KMeans × Bytes)
load km bytes = do
  (dim, b1) ← get_le 4 bytes
  (k, b2) ← get_le 4 b1
  (size, b3) ← get_le 8 b2
  (centroids, rest) ← get_floats size b3
  value (record km { dim = dim; k = k; centroids = centroids }, rest)

-- What the numbers of an object must be for the file to hold them.
pub record FitsFile (km : KMeans) : Type 0 where
  pub fits_dim : km.dim < 2 ^ 31
  pub fits_k : km.k < 2 ^ 31
  pub fits_size : length km.centroids < 2 ^ 64
  pub fits_centroids : All (λ x. x < 2 ^ 32) km.centroids

pub encode : KMeans → Bytes
encode km =
    le_bytes 4 km.dim
    ++ le_bytes 4 km.k
    ++ le_bytes 8 (length km.centroids)
    ++ float_bytes km.centroids

pub save-put : (km : KMeans) (f : File) → save km f ≡ put (encode km) f
unfolding save encode
save-put km f = simp put-put

pub load-encode :
    (km t : KMeans) (rest : Bytes)
    → FitsFile km
    → load t (encode km ++ rest) ≡ value (record km { max_iterations = t.max_iterations }, rest)
unfolding load encode
load-encode km t rest w =
    let centroids = float_bytes km.centroids ++ rest in
    let sizes = le_bytes 8 (length km.centroids) ++ centroids in
    simp append_assoc (
      rw (get_le-le_bytes 4 km.dim (le_bytes 4 km.k ++ sizes) (omega (arith, w.fits_dim))) (
        rw (get_le-le_bytes 4 km.k sizes (omega (arith, w.fits_k))) (
          rw (get_le-le_bytes 8 (length km.centroids) centroids (omega (arith, w.fits_size)))
            (rw (get_floats-float_bytes km.centroids rest w.fits_centroids) refl))))

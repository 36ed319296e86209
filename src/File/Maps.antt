-- ===== src/File/Maps.antt =====
-- Maps in a file: their size, then their entries. Reading assigns the entries one by one.
use pomaisearch.Base.{
  ℕ, zero, suc, ◌^◌, ◌<◌, ◌≡◌, refl, ap, ◌∙◌, List, [], ◌∷◌, ◌++◌, arith, length,
}
use mathlib.Core.List.{append_assoc, append-nil}
use pomaisearch.Base.Bytes.{Bytes}
use pomaisearch.Base.All.{All}
use pomaisearch.Base.Maps.{
  Key, assign, HasKeysOnce, AllFresh, assign_fresh, AllFresh-append_end, AllFresh-nil,
}
use pomaisearch.Status.{StatusOr, value, ◌>>=◌}
use pomaisearch.File.{File, put, put_le, put_list, le_bytes, get_le}
use pomaisearch.File.Laws.{put-then, encode_list, put_list-put, get_le-le_bytes}

module _ {K V : Type 0} where
  unfoldable pub put_map : (K × V → File → StatusOr File) → List (K × V) → File → StatusOr File
  put_map save m f = put_le 8 (length m) f >>= put_list save m

  unfoldable pub encode_map : (K × V → Bytes) → List (K × V) → Bytes
  encode_map enc m = le_bytes 8 (length m) ++ encode_list enc m

  pub put_map-put :
      (save : K × V → File → StatusOr File) (enc : K × V → Bytes)
      → ((p : K × V) (f : File) → save p f ≡ put (enc p) f)
      → (m : List (K × V)) (f : File) → put_map save m f ≡ put (encode_map enc m) f
  unfolding put_map encode_map
  put_map-put save enc h m f =
      put-then (le_bytes 8 (length m)) (encode_list enc m) f (put_list-put save enc h m)

module _ {K V : Type 0} ⦃e : Key K⦄ where
  -- The loop, with the entries that are still to be read.
  unfoldable pub get_entries :
      (Bytes → StatusOr ((K × V) × Bytes))
      → ℕ
      → List (K × V)
      → Bytes
      → StatusOr (List (K × V) × Bytes)
  get_entries item zero m s = value (m, s)
  get_entries item (suc n) m s = item s >>= λ ((k, v), rest). get_entries item n (assign k v m) rest

  unfoldable pub get_map :
      (Bytes → StatusOr ((K × V) × Bytes)) → Bytes → StatusOr (List (K × V) × Bytes)
  unfolding get_entries
  get_map item s = get_le 8 s >>= λ (n, rest). get_entries item n [] rest

  module _ {κ} (P : K × V → Type κ) (item : Bytes → StatusOr ((K × V) × Bytes))
      (enc : K × V → Bytes)
      (law : (p : K × V) (rest : Bytes) → P p → item (enc p ++ rest) ≡ value (p, rest)) where
    get_entries-encode_list :
        (xs m : List (K × V)) (rest : Bytes)
        → All P xs
        → HasKeysOnce xs
        → AllFresh m xs
        → get_entries item (length xs) m (encode_list enc xs ++ rest) ≡ value (m ++ xs, rest)
    unfolding get_entries encode_list
    get_entries-encode_list [] m rest a once fresh = rw append-nil refl
    get_entries-encode_list ((k, v) ∷ xs) m rest a once fresh =
        rw (append_assoc (enc (k, v)) (encode_list enc xs) rest) (
          rw (law (k, v) (encode_list enc xs ++ rest) a.0) (
            rw (assign_fresh k v m fresh.0) (
              get_entries-encode_list xs (m ++ (k, v) ∷ []) rest a.1 once.1
                (AllFresh-append_end m k v xs fresh.1 once.0)
              ∙ ap (λ l. value (l, rest)) (append_assoc m ((k, v) ∷ []) xs))))

    pub get_map-encode_map :
        (m : List (K × V)) (rest : Bytes)
        → length m < 2 ^ 64
        → All P m
        → HasKeysOnce m
        → get_map item (encode_map enc m ++ rest) ≡ value (m, rest)
    unfolding get_map encode_map
    get_map-encode_map m rest h a once =
        rw (append_assoc (le_bytes 8 (length m)) (encode_list enc m) rest) (
          rw (get_le-le_bytes 8 (length m) (encode_list enc m ++ rest) (omega (arith, h)))
            (get_entries-encode_list m [] rest a once (AllFresh-nil m)))

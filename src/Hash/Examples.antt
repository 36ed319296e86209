-- ===== src/Hash/Examples.antt =====
-- The hash at the published test vectors of FNV-1a with 64 bits.
use pomaisearch.Base.{◌≡◌, refl, [], ◌∷◌}
use pomaisearch.Hash.{stable_hash64, mix, mix_all}

empty_text : stable_hash64 [] ≡ 14695981039346656037
unfolding stable_hash64 mix_all
empty_text = refl

one_letter : stable_hash64 (b'a' ∷ []) ≡ 12638187200555641996
unfolding stable_hash64 mix_all mix
one_letter = refl

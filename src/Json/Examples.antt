-- ===== src/Json/Examples.antt =====
-- The theorems on JSON strings at small texts.
use pomaisearch.Base.{◌≡◌, refl, [], ◌∷◌, ◌++◌, arith}
use pomaisearch.Json.Text.{done, fail, json_escape, parse_string}
use pomaisearch.Json.RoundTrip.{parse_string-json_escape, parse_string-control}

parse_string-json_escape_example :
    parse_string (b'"' ∷ json_escape (b'a' ∷ b'"' ∷ 10 ∷ []) ++ b'"' ∷ b',' ∷ [])
    ≡ done (b'a' ∷ b'"' ∷ 10 ∷ []) (b',' ∷ [])
parse_string-json_escape_example =
    parse_string-json_escape (b'a' ∷ b'"' ∷ 10 ∷ []) (b',' ∷ []) (refl, (refl, (refl, tt)))

parse_string-control_example :
    parse_string (b'"' ∷ json_escape (1 ∷ []) ++ b'"' ∷ []) ≡ fail "Invalid unicode escape"
parse_string-control_example = parse_string-control 1 (omega arith) refl

-- ===== src/Json/RoundTrip.antt =====
-- `ParseString` reads back what `JsonEscape` writes, for the texts without the control characters
-- that have no escape of their own.
use pomaisearch.Base.{
  ℕ, ◌<◌, ◌≡◌, refl, ap, ◌∙◌, Bool, true, false, ◌||◌, [], ◌∷◌, ◌++◌, arith, leb, ◌==◌,
}
use mathlib.Core.List.{append_assoc, append-nil}
use pomaisearch.Base.Bytes.{Bytes}
use pomaisearch.Base.All.{All}
use pomaisearch.Json.Text.{
  done, fail, json_escape, escape_byte, parse_string, string_from, act, unescape, plain, hex,
  hex_digit,
}

-- The bytes that are no control characters, and the control characters with an escape of one letter.
abbrev pub has_escape : ℕ → Bool
has_escape c = leb 32 c || c == 8 || c == 9 || c == 10 || c == 12 || c == 13

string_from-escape_byte :
    (c : ℕ) (out s : Bytes)
    → has_escape c ≡ true
    → string_from plain out (escape_byte c ++ s) ≡ string_from plain (out ++ c ∷ []) s
unfolding string_from escape_byte act unescape
string_from-escape_byte c out s h = ground arith

string_from-json_escape :
    (text out rest : Bytes)
    → All (λ c. has_escape c ≡ true) text
    → string_from plain out (json_escape text ++ b'"' ∷ rest) ≡ done (out ++ text) rest
unfolding json_escape
string_from-json_escape [] out rest h = unfold string_from in rw append-nil refl
string_from-json_escape (c ∷ text) out rest h =
    rw (append_assoc (escape_byte c) (json_escape text) (b'"' ∷ rest)) (
      string_from-escape_byte c out (json_escape text ++ b'"' ∷ rest) h.0
      ∙ string_from-json_escape text (out ++ c ∷ []) rest h.1
      ∙ ap (λ t. done t rest) (append_assoc out (c ∷ []) text))

-- A text of such bytes, escaped and put between quotes, is parsed back as it was, with whatever
-- follows the closing quote left for the rest of the parser.
pub parse_string-json_escape :
    (text rest : Bytes)
    → All (λ c. has_escape c ≡ true) text
    → parse_string (b'"' ∷ json_escape text ++ b'"' ∷ rest) ≡ done text rest
unfolding parse_string
parse_string-json_escape text rest h = string_from-json_escape text [] rest h

-- Every other control character is written as a `\u` escape that is too short: alone between
-- quotes, with nothing after them, it does not parse.
pub parse_string-control :
    (c : ℕ)
    → c < 32
    → has_escape c ≡ false
    → parse_string (b'"' ∷ json_escape (c ∷ []) ++ b'"' ∷ []) ≡ fail "Invalid unicode escape"
unfolding parse_string json_escape string_from escape_byte hex hex_digit act unescape
parse_string-control c h k = ground arith

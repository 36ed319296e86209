-- ===== src/Json/Text.antt =====
-- app/json.cc: `JsonEscape` and `ParseString`, and their round trip.
use pomaisearch.Base.{
  ℕ, zero, suc, ◌+◌, ◌-◌, ◌/◌, ◌%◌, ◌||◌, [], ◌∷◌, ◌++◌, String, ltb, ◌==◌, if◌then◌else◌, length,
}
use pomaisearch.Base.Bytes.{Bytes}

-- What a parsing function returns: a value and the rest of the text, or its error.
pub data Parsed {ℓ} (A : Type ℓ) : Type ℓ where
  done : A → Bytes → Parsed A
  fail : String → Parsed A

unfoldable pub hex_digit : ℕ → ℕ
hex_digit n = if ltb n 10 then b'0' + n else b'A' + n - 10

-- `std::hex` and `std::uppercase`, with no padding, of a number below 32.
unfoldable pub hex : ℕ → Bytes
unfolding hex_digit
hex n = if ltb n 16 then hex_digit n ∷ [] else hex_digit (n / 16) ∷ hex_digit (n % 16) ∷ []

-- One `switch` of `JsonEscape`.
unfoldable pub escape_byte : ℕ → Bytes
unfolding hex
escape_byte c =
    if c == b'"'
    then b'\\' ∷ b'"' ∷ []
    else if c == b'\\'
    then b'\\' ∷ b'\\' ∷ []
    else if c == 8
    then b'\\' ∷ b'b' ∷ []
    else if c == 12
    then b'\\' ∷ b'f' ∷ []
    else if c == 10
    then b'\\' ∷ b'n' ∷ []
    else if c == 13
    then b'\\' ∷ b'r' ∷ []
    else if c == 9
    then b'\\' ∷ b't' ∷ []
    else if ltb c 32
    then b'\\' ∷ b'u' ∷ hex c
    else c ∷ []

unfoldable pub json_escape : Bytes → Bytes
unfolding escape_byte
json_escape [] = []
json_escape (c ∷ text) = escape_byte c ++ json_escape text

-- Where the loop of `ParseString` is: between characters, after a backslash, or with so many
-- digits of a `\u` escape to pass over.
pub data Mode : Type 0 where
  plain escaped : Mode
  passing : ℕ → Mode

-- What one character does.
pub data Act : Type 0 where
  close : Act
  reject : String → Act
  go : Mode → Bytes → Act

-- The `switch` on the character after a backslash. A `\u` wants four more characters.
unfoldable pub unescape : ℕ → ℕ → Bytes → Act
unescape left c out =
    if c == b'"' || c == b'\\' || c == b'/'
    then go plain (out ++ c ∷ [])
    else if c == b'b'
    then go plain (out ++ 8 ∷ [])
    else if c == b'f'
    then go plain (out ++ 12 ∷ [])
    else if c == b'n'
    then go plain (out ++ 10 ∷ [])
    else if c == b'r'
    then go plain (out ++ 13 ∷ [])
    else if c == b't'
    then go plain (out ++ 9 ∷ [])
    else if c == b'u'
    then if ltb left 4 then reject "Invalid unicode escape" else go (passing 3) (out ++ b'?' ∷ [])
    else reject "Invalid escape"

unfoldable pub act : Mode → ℕ → ℕ → Bytes → Act
unfolding unescape
act plain left c out =
    if c == b'"' then close else if c == b'\\' then go escaped out else go plain (out ++ c ∷ [])
act escaped left c out = unescape left c out
act (passing zero) left c out = go plain out
act (passing (suc n)) left c out = go (passing n) out

pub at_end : Mode → String
at_end plain = "Unterminated string"
at_end escaped = "Unterminated escape"
at_end (passing n) = "Unterminated string"

-- The loop, after the opening quote.
unfoldable pub string_from : Mode → Bytes → Bytes → Parsed Bytes
unfolding act at_end
string_from mode out [] = fail (at_end mode)
string_from mode out (c ∷ s) = elim (act mode (length s) c out) [
  | close ↦ done out s
  | reject e ↦ fail e
  | go next out' ↦ string_from next out' s
]

unfoldable pub parse_string : Bytes → Parsed Bytes
unfolding string_from
parse_string [] = fail "Expected '\"' to start string"
parse_string (c ∷ s) =
    if c == b'"' then string_from plain [] s else fail "Expected '\"' to start string"

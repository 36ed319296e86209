-- ===== src/Json.antt =====
-- app/json.h and app/json.cc: values and the parser. A text is its bytes; the parser's position is
-- the rest of the text. `strtod` is a parameter, since the C library is not in the repository.
pub mod Text
pub mod RoundTrip
mod Examples
use pomaisearch.Base.{
  ℕ, zero, suc, ◌+◌, ◌*◌, Bool, true, false, ◌&&◌, ◌||◌, List, [], ◌∷◌, ◌++◌, Option, none, some,
  String, leb, ltb, ◌==◌, if◌then◌else◌, length, take, drop,
}
use pomaisearch.Base.Bytes.{Bytes, bytes_eq, codes}
use Text.{Parsed, done, fail, parse_string}

mutual
  pub data JsonValue : Type 0 where
    null : JsonValue
    boolean : Bool → JsonValue
    number : ℕ → JsonValue
    string : Bytes → JsonValue
    array : Items → JsonValue
    object : Members → JsonValue

  pub data Items : Type 0 where
    nil : Items
    cons : JsonValue → Items → Items

  pub data Members : Type 0 where
    end : Members
    member : Bytes → JsonValue → Members → Members

-- `push_back`.
pub push_back : Items → JsonValue → Items
push_back nil v = cons v nil
push_back (cons x xs) v = cons x (push_back xs v)

-- `object.emplace`: the first value of a key is kept.
pub emplace_member : Bytes → JsonValue → Members → Members
emplace_member k v end = member k v end
emplace_member k v (member j w ms) =
    if bytes_eq j k then member j w ms else member j w (emplace_member k v ms)

-- `std::isspace` of the "C" locale, and `std::isdigit`.
pub is_space : ℕ → Bool
is_space c = c == 32 || (leb 9 c && leb c 13)

pub is_digit : ℕ → Bool
is_digit c = leb b'0' c && leb c b'9'

pub skip_whitespace : Bytes → Bytes
unfolding is_space
skip_whitespace [] = []
skip_whitespace (c ∷ s) = if is_space c then skip_whitespace s else c ∷ s

-- `Consume`: the rest of the text, if it begins with the character.
pub consume : ℕ → Bytes → Option Bytes
consume c [] = none
consume c (d ∷ s) = if d == c then some s else none

-- `input_.substr(pos_, n) == word`, and the rest of the text.
pub literal : Bytes → JsonValue → String → Bytes → Parsed JsonValue
literal word v message s =
    if bytes_eq (take (length word) s) word then done v (drop (length word) s) else fail message

pub parse_bool : Bytes → Parsed JsonValue
unfolding literal
parse_bool s =
    if bytes_eq (take 4 s) (codes "true")
    then done (boolean true) (drop 4 s)
    else literal (codes "false") (boolean false) "Invalid bool" s

pub parse_null : Bytes → Parsed JsonValue
unfolding literal
parse_null = literal (codes "null") null "Invalid null"

-- The digits at the front, and what follows them.
pub digits : Bytes → Bytes × Bytes
unfolding is_digit
digits [] = ([], [])
digits (c ∷ s) = let (ds, rest) = digits s in if is_digit c then (c ∷ ds, rest) else ([], c ∷ s)

abbrev sign : Bytes → Bytes × Bytes
sign s = elim (consume b'-' s) [ none ↦ ([], s) | some rest ↦ (b'-' ∷ [], rest) ]

abbrev fraction : Bytes → Bytes × Bytes
fraction s = elim (consume b'.' s) [
  | none ↦ ([], s)
  | some rest ↦ let (ds, more) = digits rest in (b'.' ∷ ds, more)
]

-- The text of a number, as `ParseNumber` cuts it out, and the rest.
unfoldable pub number_text : Bytes → Bytes × Bytes
unfolding digits consume
number_text s =
    let (minus, s1) = sign s in
    let (whole, s2) = digits s1 in let (part, s3) = fraction s2 in (minus ++ whole ++ part, s3)

-- `strtod` on that text: `none` if it reads nothing.
module _ (strtod : Bytes → Option ℕ) where
  pub parse_number : Bytes → Parsed JsonValue
  unfolding number_text
  parse_number s =
      let (text, rest) = number_text s in
      elim (strtod text) [ none ↦ fail "Invalid number" | some n ↦ done (number n) rest ]

-- The first character of a value decides what it is.
pub data Kind : Type 0 where
  is_string is_object is_array is_bool is_null is_number is_other : Kind

pub kind : ℕ → Kind
unfolding is_digit
kind c =
    if c == b'"'
    then is_string
    else if c == b'{'
    then is_object
    else if c == b'['
    then is_array
    else if c == b't' || c == b'f'
    then is_bool
    else if c == b'n'
    then is_null
    else if c == b'-' || is_digit c
    then is_number
    else is_other

pub parse_text : Bytes → Parsed JsonValue
unfolding parse_string
parse_text s = elim (parse_string s) [ done text rest ↦ done (string text) rest | fail e ↦ fail e ]

-- `ParseValue`, and the loops of `ParseObject` and `ParseArray` after their first bracket. Each
-- call takes one unit of fuel, and each reads at least one character first.
module _ (strtod : Bytes → Option ℕ) where
  unfoldable mutual
    unfolding kind parse_text parse_number parse_bool parse_null skip_whitespace consume
        parse_string push_back emplace_member

    pub parse_value : ℕ → Bytes → Parsed JsonValue
    parse_value zero s = fail "out of fuel"
    parse_value (suc fuel) [] = fail "Unexpected end of input"
    parse_value (suc fuel) (c ∷ s) = elim (kind c) [
      | is_string ↦ parse_text (c ∷ s)
      | is_object ↦ elim (consume b'}' (skip_whitespace s)) [
        | some rest ↦ done (object end) rest
        | none ↦ parse_members fuel end (skip_whitespace s)
      ]
      | is_array ↦ elim (consume b']' (skip_whitespace s)) [
        | some rest ↦ done (array nil) rest
        | none ↦ parse_items fuel nil (skip_whitespace s)
      ]
      | is_bool ↦ parse_bool (c ∷ s)
      | is_null ↦ parse_null (c ∷ s)
      | is_number ↦ parse_number strtod (c ∷ s)
      | is_other ↦ fail "Unexpected character"
    ]

    pub parse_items : ℕ → Items → Bytes → Parsed JsonValue
    parse_items zero items s = fail "out of fuel"
    parse_items (suc fuel) items [] = fail "Unterminated array"
    parse_items (suc fuel) items (c ∷ s) = elim (parse_value fuel (skip_whitespace (c ∷ s))) [
      | fail e ↦ fail e
      | done v rest ↦ elim (consume b']' (skip_whitespace rest)) [
        | some after ↦ done (array (push_back items v)) after
        | none ↦ elim (consume b',' (skip_whitespace rest)) [
          | none ↦ fail "Expected ',' in array"
          | some after ↦ parse_items fuel (push_back items v) after
        ]
      ]
    ]

    pub parse_members : ℕ → Members → Bytes → Parsed JsonValue
    parse_members zero members s = fail "out of fuel"
    parse_members (suc fuel) members [] = fail "Unterminated object"
    parse_members (suc fuel) members (c ∷ s) = elim (parse_string (skip_whitespace (c ∷ s))) [
      | fail e ↦ fail e
      | done key rest ↦ elim (consume b':' (skip_whitespace rest)) [
        | none ↦ fail "Expected ':' in object"
        | some after ↦ elim (parse_value fuel (skip_whitespace after)) [
          | fail e ↦ fail e
          | done v more ↦ elim (consume b'}' (skip_whitespace more)) [
            | some final ↦ done (object (emplace_member key v members)) final
            | none ↦ elim (consume b',' (skip_whitespace more)) [
              | none ↦ fail "Expected ',' in object"
              | some next ↦ parse_members fuel (emplace_member key v members) next
            ]
          ]
        ]
      ]
    ]

  -- `ParseJson`: one value, with nothing but white space after it.
  unfoldable pub parse_json : Bytes → Parsed JsonValue
  unfolding parse_value
  parse_json input = elim (parse_value (2 * length input + 2) (skip_whitespace input)) [
    | fail e ↦ fail e
    | done v rest ↦ elim (skip_whitespace rest) [
      | [] ↦ done v []
      | c ∷ s ↦ fail "Unexpected trailing characters"
    ]
  ]

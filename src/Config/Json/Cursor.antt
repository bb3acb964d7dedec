-- ===== src/Config/Json/Cursor.antt =====
-- The cursor of the parser in strict_json.cpp, and what the parser returns. `rest` is the text from
-- `pos_` on, so `at_end` is that nothing is left.
use remote_tool.Prelude.{
  ℕ, ◌+◌, Bool, true, false, ◌||◌, [], ◌∷◌, ◌++◌, Bytes, get_or, codes, ◌==◌, if◌then◌else◌,
}

pub record Cursor : Type 0 where
  pub rest : Bytes
  pub offset : ℕ
  pub line : ℕ
  pub column : ℕ

abbrev pub start : Bytes → Cursor
start text = record { rest = text; offset = 0; line = 1; column = 1 }

abbrev pub at_end : Cursor → Bool
at_end c = elim c.rest [ [] ↦ true | x ∷ xs ↦ false ]

-- The byte at the cursor. The parser reads it only where one is left.
abbrev pub peek : Cursor → ℕ
peek c = get_or c.rest 0 0

abbrev pub advance_on : Bytes → Cursor → Cursor
advance_on [] c = c
advance_on (x ∷ xs) c =
    if x == b'\n'
    then record { rest = xs; offset = c.offset + 1; line = c.line + 1; column = 1 }
    else record { rest = xs; offset = c.offset + 1; line = c.line; column = c.column + 1 }

unfoldable pub advance : Cursor → Cursor
advance c = advance_on c.rest c

abbrev pub is_ws : ℕ → Bool
is_ws c = c == b' ' || c == b'\t' || c == b'\n' || c == b'\r'

-- `text` is the text at the cursor.
unfoldable pub skip_ws_on : Bytes → Cursor → Cursor
skip_ws_on [] c = c
skip_ws_on (x ∷ xs) c = let more = skip_ws_on xs (advance c) in if is_ws x then more else c

unfoldable pub skip_ws : Cursor → Cursor
skip_ws c = skip_ws_on c.rest c

pub data Reason : Type 0 where
  bom_not_allowed empty_input trailing_characters unexpected_end comments_not_allowed : Reason
  unexpected_character : ℕ → Reason
  unterminated_object expected_string_key : Reason
  duplicate_key : Bytes → Reason
  expected_colon trailing_comma_in_object expected_comma_or_brace unterminated_array : Reason
  trailing_comma_in_array expected_comma_or_bracket unterminated_string : Reason
  unescaped_control_character unterminated_escape : Reason
  invalid_escape : ℕ → Reason
  incomplete_unicode_escape invalid_hex_digit expected_low_surrogate invalid_low_surrogate : Reason
  unexpected_low_surrogate invalid_bool_literal invalid_null_literal digit_after_minus : Reason
  leading_zero hexadecimal_number invalid_number_start digit_after_point digit_in_exponent : Reason
  invalid_number invalid_integer : Bytes → Reason

-- The text of `JsonParseError::reason`.
unfoldable pub reason_text : Reason → Bytes
reason_text bom_not_allowed = codes "UTF-8 BOM is not allowed"
reason_text empty_input = codes "empty input"
reason_text trailing_characters = codes "trailing characters after root value"
reason_text unexpected_end = codes "unexpected end of input"
reason_text comments_not_allowed = codes "comments are not allowed in strict JSON"
reason_text (unexpected_character c) = codes "unexpected character '" ++ c ∷ b'\'' ∷ []
reason_text unterminated_object = codes "unterminated object"
reason_text expected_string_key = codes "expected string key in object"
reason_text (duplicate_key k) = codes "duplicate key: \"" ++ k ++ b'"' ∷ []
reason_text expected_colon = codes "expected ':' after object key"
reason_text trailing_comma_in_object = codes "trailing comma in object"
reason_text expected_comma_or_brace = codes "expected ',' or '}' in object"
reason_text unterminated_array = codes "unterminated array"
reason_text trailing_comma_in_array = codes "trailing comma in array"
reason_text expected_comma_or_bracket = codes "expected ',' or ']' in array"
reason_text unterminated_string = codes "unterminated string"
reason_text unescaped_control_character = codes "unescaped control character in string"
reason_text unterminated_escape = codes "unterminated escape sequence"
reason_text (invalid_escape c) = codes "invalid escape sequence \\" ++ c ∷ []
reason_text incomplete_unicode_escape = codes "incomplete \\u escape (expected 4 hex digits)"
reason_text invalid_hex_digit = codes "invalid hex digit in \\u escape"
reason_text expected_low_surrogate = codes "expected low surrogate \\uXXXX after high surrogate"
reason_text invalid_low_surrogate = codes "invalid low surrogate after high surrogate"
reason_text unexpected_low_surrogate =
    codes "unexpected low surrogate without preceding high surrogate"
reason_text invalid_bool_literal = codes "invalid literal (expected true or false)"
reason_text invalid_null_literal = codes "invalid literal (expected null)"
reason_text digit_after_minus = codes "expected digit after '-'"
reason_text leading_zero = codes "leading zero not allowed in number"
reason_text hexadecimal_number = codes "hexadecimal numbers not allowed"
reason_text invalid_number_start = codes "invalid number"
reason_text digit_after_point = codes "expected digit after '.' in number"
reason_text digit_in_exponent = codes "expected digit in exponent"
reason_text (invalid_number s) = codes "invalid number: " ++ s
reason_text (invalid_integer s) = codes "invalid integer: " ++ s

pub record JsonParseError : Type 0 where
  pub offset : ℕ
  pub line : ℕ
  pub column : ℕ
  pub reason : Reason

-- A value with the cursor behind it, or an error. `stuck` is that the fuel ran out, which no
-- program run does.
pub data Parsed {ℓ} (A : Type ℓ) : Type ℓ where
  ok : A → Cursor → Parsed A
  err : JsonParseError → Parsed A
  stuck : Parsed A

abbrev pub make_error {ℓ} : {A : Type ℓ} → Cursor → Reason → Parsed A
make_error c r = err (record { offset = c.offset; line = c.line; column = c.column; reason = r })

abbrev pub bind {ℓ κ} : {A : Type ℓ} {B : Type κ} → Parsed A → (A → Cursor → Parsed B) → Parsed B
bind (ok a c) f = f a c
bind (err e) f = err e
bind stuck f = stuck

-- ===== src/Config/Json/Strings.antt =====
-- String literals of strict_json.cpp: escapes, code points, UTF-8. The bits that `|` joins in
-- `encode_utf8` and `parse_hex4` do not overlap, so `|` is `+`.
use remote_tool.Prelude.{
  ℕ, zero, suc, ◌+◌, ◌-◌, ◌*◌, ◌/◌, ◌%◌, not, ◌&&◌, ◌||◌, Option, none, some, [], ◌∷◌, ◌++◌, Bytes,
  length, get_or, ltb, leb, ◌==◌, if◌then◌else◌,
}
use remote_tool.Config.Json.Cursor.{
  Cursor, at_end, peek, advance, unterminated_string, unescaped_control_character,
  unterminated_escape, invalid_escape, incomplete_unicode_escape, invalid_hex_digit,
  expected_low_surrogate, invalid_low_surrogate, unexpected_low_surrogate, Parsed, ok, stuck,
  make_error, bind,
}

unfoldable pub encode_utf8 : ℕ → Bytes
encode_utf8 cp =
    if leb cp 0x7F
    then cp % 0x80 ∷ []
    else if leb cp 0x7FF
    then (0xC0 + cp / 0x40) ∷ (0x80 + cp % 0x40) ∷ []
    else if leb cp 0xFFFF
    then (0xE0 + cp / 0x1000) ∷ (0x80 + cp / 0x40 % 0x40) ∷ (0x80 + cp % 0x40) ∷ []
    else (0xF0 + cp / 0x4_0000)
      ∷ (0x80 + cp / 0x1000 % 0x40)
      ∷ (0x80 + cp / 0x40 % 0x40)
      ∷ (0x80 + cp % 0x40)
      ∷ []

unfoldable pub hex_digit : ℕ → Option ℕ
hex_digit c =
    if leb b'0' c && leb c b'9'
    then some (c - b'0')
    else if leb b'a' c && leb c b'f'
    then some (c - b'a' + 10)
    else if leb b'A' c && leb c b'F'
    then some (c - b'A' + 10)
    else none

-- The rounds left of the loop over four digits.
unfoldable pub hex_loop : ℕ → ℕ → Cursor → Parsed ℕ
hex_loop zero cp c = ok cp c
hex_loop (suc n) cp c = elim (hex_digit (peek c)) [
  | none ↦ make_error c invalid_hex_digit
  | some digit ↦ hex_loop n (cp * 16 + digit) (advance c)
]

unfoldable pub parse_hex4 : Cursor → Parsed ℕ
unfolding hex_loop
parse_hex4 c =
    if ltb (length c.rest) 4 then make_error c incomplete_unicode_escape else hex_loop 4 0 c

-- After a high surrogate.
unfoldable pub parse_low_surrogate : ℕ → Cursor → Parsed ℕ
parse_low_surrogate cp1 c =
    if ltb (length c.rest) 2 || not (get_or c.rest 0 0 == b'\\') || not (get_or c.rest 1 0 == b'u')
    then make_error c expected_low_surrogate
    else bind (parse_hex4 (advance (advance c))) λ cp2 c'.
      if ltb cp2 0xDC00 || ltb 0xDFFF cp2
      then make_error c' invalid_low_surrogate
      else ok (0x10000 + (cp1 - 0xD800) * 0x400 + (cp2 - 0xDC00)) c'

unfoldable pub parse_unicode_escape : Cursor → Parsed ℕ
parse_unicode_escape c = bind (parse_hex4 c) λ cp1 c'.
    if leb 0xD800 cp1 && leb cp1 0xDBFF
    then parse_low_surrogate cp1 c'
    else if leb 0xDC00 cp1 && leb cp1 0xDFFF
    then make_error c' unexpected_low_surrogate
    else ok cp1 c'

-- What the character after a backslash stands for, but for `u`.
unfoldable pub simple_escape : ℕ → Option ℕ
simple_escape e =
    if e == b'"'
    then some b'"'
    else if e == b'\\'
    then some b'\\'
    else if e == b'/'
    then some b'/'
    else if e == b'b'
    then some 0x08
    else if e == b'f'
    then some 0x0C
    else if e == b'n'
    then some 0x0A
    else if e == b'r'
    then some 0x0D
    else if e == b't'
    then some 0x09
    else none

-- The cursor stands behind the backslash. The bytes are what is appended to the string.
unfoldable pub parse_escape : Cursor → Parsed Bytes
parse_escape c =
    if at_end c then make_error c unterminated_escape else elim (simple_escape (peek c)) [
      | some b ↦ ok (b ∷ []) (advance c)
      | none ↦
          if peek c == b'u'
          then bind (parse_unicode_escape (advance c)) (λ cp c'. ok (encode_utf8 cp) c')
          else make_error c (invalid_escape (peek c))
    ]

-- The loop of `parse_string_raw`. Each round takes a byte at least.
unfoldable pub string_loop : ℕ → Bytes → Cursor → Parsed Bytes
string_loop zero out c = stuck
string_loop (suc fuel) out c =
    let escaped = bind (parse_escape (advance c)) (λ b c'. string_loop fuel (out ++ b) c') in
    let plain = string_loop fuel (out ++ peek c ∷ []) (advance c) in
    if at_end c
    then make_error c unterminated_string
    else if ltb (peek c) 0x20
    then make_error c unescaped_control_character
    else if peek c == b'"'
    then ok out (advance c)
    else if peek c == b'\\'
    then escaped
    else plain

unfoldable pub parse_string_raw : Cursor → Parsed Bytes
parse_string_raw c = let c' = advance c in string_loop (suc (length c'.rest)) [] c'

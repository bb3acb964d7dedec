-- ===== src/Protocol/Messages/Text.antt =====
-- How messages.cpp writes JSON: escaping, and `std::to_string`.
use remote_tool.Prelude.{
  ℕ, zero, suc, ◌+◌, ◌/◌, ◌%◌, ℤ, pos, negsuc, Bytes, [], ◌∷◌, ◌++◌, ltb, ◌==◌, if◌then◌else◌,
}

-- A digit of `%x`.
unfoldable pub hex_char : ℕ → ℕ
hex_char d = if ltb d 10 then b'0' + d else 87 + d

-- What `json_escape` appends for one character; `\u%04x` has four hexadecimal digits.
unfoldable pub escape_char : ℕ → Bytes
unfolding hex_char
escape_char c =
    if c == b'"'
    then b'\\' ∷ b'"' ∷ []
    else if c == b'\\'
    then b'\\' ∷ b'\\' ∷ []
    else if c == 0x08
    then b'\\' ∷ b'b' ∷ []
    else if c == 0x0C
    then b'\\' ∷ b'f' ∷ []
    else if c == 0x0A
    then b'\\' ∷ b'n' ∷ []
    else if c == 0x0D
    then b'\\' ∷ b'r' ∷ []
    else if c == 0x09
    then b'\\' ∷ b't' ∷ []
    else if ltb c 0x20
    then b'\\'
      ∷ b'u'
      ∷ hex_char (c / 0x1000 % 16)
      ∷ hex_char (c / 0x100 % 16)
      ∷ hex_char (c / 16 % 16)
      ∷ hex_char (c % 16)
      ∷ []
    else c ∷ []

unfoldable pub json_escape : Bytes → Bytes
json_escape [] = []
json_escape (c ∷ cs) = escape_char c ++ json_escape cs

-- The decimal digits of a number, before `acc`. A number has no more digits than its value and one.
unfoldable pub digits_onto : ℕ → ℕ → Bytes → Bytes
digits_onto zero n acc = acc
digits_onto (suc fuel) n acc =
    let more = digits_onto fuel (n / 10) ((b'0' + n % 10) ∷ acc) in
    if ltb n 10 then (b'0' + n) ∷ acc else more

unfoldable pub natural_text : ℕ → Bytes
natural_text n = digits_onto (suc n) n []

unfoldable pub to_string : ℤ → Bytes
to_string (pos n) = natural_text n
to_string (negsuc n) = b'-' ∷ natural_text (suc n)

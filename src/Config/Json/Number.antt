-- ===== src/Config/Json/Number.antt =====
-- Numbers of strict_json.cpp. A double stays the numeral that was read; whether `strtod` reports a
-- range error for it is a parameter. `strtoll` is modelled: it fails outside of 64-bit range.
use remote_tool.Prelude.{
  ℕ, ◌+◌, ◌-◌, ◌*◌, ◌^◌, Bool, true, false, not, ◌&&◌, ◌||◌, ℤ, pos, neg, Option, none, some, [],
  ◌∷◌, Bytes, take, ltb, leb, ◌==◌, if◌then◌else◌,
}
use remote_tool.Config.Json.Value.{JsonValue, int, double}
use remote_tool.Config.Json.Cursor.{
  Cursor, at_end, peek, advance, digit_after_minus, leading_zero, hexadecimal_number,
  invalid_number_start, digit_after_point, digit_in_exponent, invalid_number, invalid_integer,
  Parsed, ok, make_error, bind,
}

abbrev pub is_digit : ℕ → Bool
is_digit c = leb b'0' c && leb c b'9'

-- `text` is the text at the cursor.
unfoldable pub skip_digits_on : Bytes → Cursor → Cursor
skip_digits_on [] c = c
skip_digits_on (x ∷ xs) c =
    let more = skip_digits_on xs (advance c) in if is_digit x then more else c

abbrev pub skip_digits : Cursor → Cursor
skip_digits c = skip_digits_on c.rest c

unfoldable pub minus_part : Cursor → Parsed (Unit {0})
minus_part c =
    if not (at_end c) && peek c == b'-'
    then if at_end (advance c) then make_error (advance c) digit_after_minus else ok tt (advance c)
    else ok tt c

unfoldable pub int_part : Cursor → Parsed (Unit {0})
int_part c =
    let c' = advance c in
    if peek c == b'0'
    then if not (at_end c') && is_digit (peek c')
      then make_error c' leading_zero
      else if not (at_end c') && (peek c' == b'x' || peek c' == b'X')
      then make_error c' hexadecimal_number
      else ok tt c'
    else if leb b'1' (peek c) && leb (peek c) b'9'
    then ok tt (skip_digits c')
    else make_error c invalid_number_start

-- The result says whether there is a fractional part.
unfoldable pub fraction_part : Cursor → Parsed Bool
fraction_part c =
    let c' = advance c in
    if not (at_end c) && peek c == b'.'
    then if at_end c' || not (is_digit (peek c'))
      then make_error c' digit_after_point
      else ok true (skip_digits c')
    else ok false c

abbrev pub skip_sign : Cursor → Cursor
skip_sign c = if not (at_end c) && (peek c == b'+' || peek c == b'-') then advance c else c

unfoldable pub exponent_part : Bool → Cursor → Parsed Bool
exponent_part is_double c =
    let c' = skip_sign (advance c) in
    if not (at_end c) && (peek c == b'e' || peek c == b'E')
    then if at_end c' || not (is_digit (peek c'))
      then make_error c' digit_in_exponent
      else ok true (skip_digits c')
    else ok is_double c

unfoldable pub decimal : ℕ → Bytes → ℕ
decimal acc [] = acc
decimal acc (c ∷ cs) = decimal (acc * 10 + (c - b'0')) cs

abbrev within : ℕ → ℕ → ℤ → Option ℤ
within n limit i = if ltb n limit then some i else none

-- `strtoll` in base 10 on an optional minus and digits; `none` is `ERANGE`.
unfoldable pub strtoll : Bytes → Option ℤ
strtoll [] = some (pos 0)
strtoll (c ∷ cs) =
    let low = decimal 0 cs in
    let high = decimal 0 (c ∷ cs) in
    if c == b'-' then within low (2 ^ 63 + 1) (neg low) else within high (2 ^ 63) (pos high)

-- What is made of the numeral that was read, at the cursor behind it.
unfoldable pub number_value : (Bytes → Bool) → Bool → Bytes → Cursor → Parsed JsonValue
number_value strtod_ok true s c =
    if strtod_ok s then ok (double s) c else make_error c (invalid_number s)
number_value strtod_ok false s c = elim (strtoll s) [
  | some i ↦ ok (int i) c
  | none ↦ make_error c (invalid_integer s)
]

unfoldable pub parse_number : (Bytes → Bool) → Cursor → Parsed JsonValue
parse_number strtod_ok c = bind (minus_part c) λ _ c1. bind (int_part c1) λ _ c2.
    bind (fraction_part c2) λ is_fraction c3.
      bind (exponent_part is_fraction c3)
        λ is_double c4. number_value strtod_ok is_double (take (c4.offset - c.offset) c.rest) c4

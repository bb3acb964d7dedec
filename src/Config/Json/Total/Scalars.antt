-- ===== src/Config/Json/Total/Scalars.antt =====
-- Strings, literals and numbers end, at a place of the text.
use remote_tool.Prelude.{
  ℕ, zero, suc, ◌<◌, ◌≡◌, refl, Bool, true, false, not, inl, inr, [], ◌∷◌, ◌++◌, arith, ◌-◌, ◌&&◌,
  ◌||◌, leb, ◌==◌, get_or, Bool-cases, Bytes, length, codes, Option-cases, ltb,
}
use remote_tool.Config.Json.Cursor.{Cursor, at_end, peek, advance}
use remote_tool.Config.Json.Location.{
  On, On-mono, advance-On, advance-On-suc, rest-advance, Ends, ends, fails_at, Ends-if, Ends-bind,
  Ends-mono, On-pos, On-exact,
}
use remote_tool.Config.Json.Strings.{
  hex_digit, hex_loop, parse_hex4, parse_low_surrogate, parse_unicode_escape, simple_escape,
  parse_escape, string_loop, parse_string_raw,
}
use remote_tool.Config.Json.Number.{
  is_digit, skip_digits_on, skip_sign, minus_part, int_part, fraction_part, exponent_part, strtoll,
  number_value, parse_number,
}
use remote_tool.Config.Json.Parser.{
  parse_string_value, looking_at, advance_n, parse_bool_literal, parse_null_literal,
}

module _ (text : Bytes) where
  hex_loop-Ends : (n k cp : ℕ) (c : Cursor) → On text n c → Ends text n (hex_loop k cp c)
  unfolding hex_loop
  hex_loop-Ends n zero cp c o = ends o
  hex_loop-Ends n (suc k) cp c o = elim (Option-cases (hex_digit (peek c))) [
    | inl e ↦ rw (e, hex_loop) (fails_at n o)
    | inr (d, e) ↦ rw (e, hex_loop) (hex_loop-Ends n k _ (advance c) (advance-On text n c o))
  ]

  parse_hex4-Ends : (n : ℕ) (c : Cursor) → On text n c → Ends text n (parse_hex4 c)
  unfolding parse_hex4
  parse_hex4-Ends n c o =
      Ends-if (ltb (length c.rest) 4) (λ _. fails_at n o) (λ _. hex_loop-Ends n 4 0 c o)

  parse_low_surrogate-Ends :
      (n cp : ℕ) (c : Cursor) → On text n c → Ends text n (parse_low_surrogate cp c)
  unfolding parse_low_surrogate
  parse_low_surrogate-Ends n cp c o =
      Ends-if
        (ltb (length c.rest) 2
          || not (get_or c.rest 0 0 == b'\\')
          || not (get_or c.rest 1 0 == b'u'))
        (λ _. fails_at n o)
        λ _.
          Ends-bind n (parse_hex4-Ends n _ (advance-On text n _ (advance-On text n c o)))
            λ cp2 c' o'.
              Ends-if (ltb cp2 0xDC00 || ltb 0xDFFF cp2) (λ _. fails_at n o') (λ _. ends o')

  parse_unicode_escape-Ends :
      (n : ℕ) (c : Cursor) → On text n c → Ends text n (parse_unicode_escape c)
  unfolding parse_unicode_escape
  parse_unicode_escape-Ends n c o = Ends-bind n (parse_hex4-Ends n c o) λ cp c' o'.
      Ends-if (leb 0xD800 cp && leb cp 0xDBFF) (λ _. parse_low_surrogate-Ends n cp c' o')
        λ _. Ends-if (leb 0xDC00 cp && leb cp 0xDFFF) (λ _. fails_at n o') (λ _. ends o')

  parse_escape-Ends : (n : ℕ) (c : Cursor) → On text n c → Ends text n (parse_escape c)
  unfolding parse_escape
  parse_escape-Ends n c o = elim (Option-cases (simple_escape (peek c))) [
    | inl e ↦
        rw (e, parse_escape)
          (Ends-if (at_end c) (λ _. fails_at n o)
            λ _.
              Ends-if (peek c == b'u')
                (λ _.
                  Ends-bind n (parse_unicode_escape-Ends n _ (advance-On text n c o))
                    (λ cp c' o'. ends o'))
                (λ _. fails_at n o))
    | inr (b, e) ↦
        rw (e, parse_escape)
          (Ends-if (at_end c) (λ _. fails_at n o) (λ _. ends (advance-On text n c o)))
  ]

  -- The fuel is above the number of bytes left, and each round takes one at least.
  string_loop-Ends :
      (fuel n : ℕ) (out : Bytes) (c : Cursor)
      → n < fuel
      → On text n c
      → Ends text n (string_loop fuel out c)
  unfolding string_loop
  string_loop-Ends zero n out c h o = absurd (omega arith)
  string_loop-Ends (suc fuel) n out c h o =
      Ends-if (at_end c) (λ _. fails_at n o)
        λ some_left.
          let next = taken some_left in
          Ends-if (ltb (peek c) 0x20) (λ _. fails_at n o)
            λ _.
              Ends-if (peek c == b'"') (λ _. ends (advance-On text n c o))
                λ _.
                  Ends-if (peek c == b'\\')
                    (λ _. Ends-bind (n - 1) (parse_escape-Ends (n - 1) (advance c) next) λ b c' o'.
                      Ends-mono (n - 1) n (omega arith) (
                        string_loop-Ends fuel (n - 1) (out ++ b) c' (omega (arith, pos some_left))
                          o'))
                    λ _. Ends-mono (n - 1) n (omega arith) (
                      string_loop-Ends fuel (n - 1) (out ++ peek c ∷ []) (advance c)
                        (omega (arith, pos some_left)) next)
    where
      pos : at_end c ≡ false → 0 < n
      pos e = On-pos text n c e o

      taken : at_end c ≡ false → On text (n - 1) (advance c)
      taken e =
          advance-On-suc text (n - 1) c e
            (On-mono n (suc (n - 1)) (omega (arith, On-pos text n c e o)) o)

  pub parse_string_raw-Ends : (n : ℕ) (c : Cursor) → On text n c → Ends text n (parse_string_raw c)
  unfolding parse_string_raw
  parse_string_raw-Ends n c o =
      let o' = advance-On text n c o in
      Ends-mono (length (advance c).rest) n o'.short
        (string_loop-Ends _ _ [] (advance c) (omega arith) (On-exact o'))

  pub parse_string_value-Ends :
      (n : ℕ) (c : Cursor) → On text n c → Ends text n (parse_string_value c)
  unfolding parse_string_value
  parse_string_value-Ends n c o = Ends-bind n (parse_string_raw-Ends n c o) (λ s c' o'. ends o')

  advance_n-On : (k n : ℕ) (c : Cursor) → On text n c → On text n (advance_n k c)
  unfolding advance_n
  advance_n-On zero n c o = o
  advance_n-On (suc k) n c o = advance_n-On k n (advance c) (advance-On text n c o)

  pub parse_bool_literal-Ends :
      (n : ℕ) (c : Cursor) → On text n c → Ends text n (parse_bool_literal c)
  unfolding parse_bool_literal
  parse_bool_literal-Ends n c o =
      Ends-if (looking_at (codes "true") c) (λ _. ends (advance_n-On 4 n c o))
        λ _.
          Ends-if (looking_at (codes "false") c) (λ _. ends (advance_n-On 5 n c o))
            (λ _. fails_at n o)

  pub parse_null_literal-Ends :
      (n : ℕ) (c : Cursor) → On text n c → Ends text n (parse_null_literal c)
  unfolding parse_null_literal
  parse_null_literal-Ends n c o =
      Ends-if (looking_at (codes "null") c) (λ _. ends (advance_n-On 4 n c o)) (λ _. fails_at n o)

  skip_digits_on-On :
      (n : ℕ) (xs : Bytes) (c : Cursor)
      → c.rest ≡ xs
      → On text n c
      → On text n (skip_digits_on xs c)
  unfolding skip_digits_on
  skip_digits_on-On n [] c e o = o
  skip_digits_on-On n (x ∷ xs) c e o = elim (Bool-cases (is_digit x)) [
    | inl d ↦
        rw d (skip_digits_on-On n xs (advance c) (rest-advance c x xs e) (advance-On text n c o))
    | inr d ↦ rw d o
  ]

  minus_part-Ends : (n : ℕ) (c : Cursor) → On text n c → Ends text n (minus_part c)
  unfolding minus_part
  minus_part-Ends n c o =
      let o' = advance-On text n c o in
      Ends-if (not (at_end c) && peek c == b'-')
        (λ _. Ends-if (at_end (advance c)) (λ _. fails_at n o') (λ _. ends o')) (λ _. ends o)

  int_part-Ends : (n : ℕ) (c : Cursor) → On text n c → Ends text n (int_part c)
  unfolding int_part
  int_part-Ends n c o =
      let c' = advance c in
      let o' = advance-On text n c o in
      Ends-if (peek c == b'0')
        (λ _.
          Ends-if (not (at_end c') && is_digit (peek c')) (λ _. fails_at n o')
            λ _.
              Ends-if (not (at_end c') && (peek c' == b'x' || peek c' == b'X')) (λ _. fails_at n o')
                (λ _. ends o'))
        λ _.
          Ends-if (leb b'1' (peek c) && leb (peek c) b'9')
            (λ _. ends (skip_digits_on-On n _ c' refl o')) (λ _. fails_at n o)

  fraction_part-Ends : (n : ℕ) (c : Cursor) → On text n c → Ends text n (fraction_part c)
  unfolding fraction_part
  fraction_part-Ends n c o =
      let c' = advance c in
      let o' = advance-On text n c o in
      Ends-if (not (at_end c) && peek c == b'.')
        (λ _.
          Ends-if (at_end c' || not (is_digit (peek c'))) (λ _. fails_at n o')
            (λ _. ends (skip_digits_on-On n _ c' refl o')))
        (λ _. ends o)

  skip_sign-On : (n : ℕ) (c : Cursor) → On text n c → On text n (skip_sign c)
  skip_sign-On n c o = elim (Bool-cases (not (at_end c) && (peek c == b'+' || peek c == b'-'))) [
    | inl e ↦ rw e (advance-On text n c o)
    | inr e ↦ rw e o
  ]

  exponent_part-Ends :
      (n : ℕ) (d : Bool) (c : Cursor) → On text n c → Ends text n (exponent_part d c)
  unfolding exponent_part
  exponent_part-Ends n d c o =
      let c' = skip_sign (advance c) in
      let o' = skip_sign-On n (advance c) (advance-On text n c o) in
      Ends-if (not (at_end c) && (peek c == b'e' || peek c == b'E'))
        (λ _.
          Ends-if (at_end c' || not (is_digit (peek c'))) (λ _. fails_at n o')
            (λ _. ends (skip_digits_on-On n _ c' refl o')))
        (λ _. ends o)

  number_value-Ends :
      (strtod_ok : Bytes → Bool) (n : ℕ) (d : Bool) (s : Bytes) (c : Cursor)
      → On text n c
      → Ends text n (number_value strtod_ok d s c)
  unfolding number_value
  number_value-Ends strtod_ok n true s c o = Ends-if (strtod_ok s) (λ _. ends o) (λ _. fails_at n o)
  number_value-Ends strtod_ok n false s c o = elim (Option-cases (strtoll s)) [
    | inl e ↦ rw (e, number_value) (fails_at n o)
    | inr (i, e) ↦ rw (e, number_value) (ends o)
  ]

  pub parse_number-Ends :
      (strtod_ok : Bytes → Bool) (n : ℕ) (c : Cursor)
      → On text n c
      → Ends text n (parse_number strtod_ok c)
  unfolding parse_number
  parse_number-Ends strtod_ok n c o = Ends-bind n (minus_part-Ends n c o) λ _ c1 o1.
      Ends-bind n (int_part-Ends n c1 o1) λ _ c2 o2.
        Ends-bind n (fraction_part-Ends n c2 o2) λ f c3 o3.
          Ends-bind n (exponent_part-Ends n f c3 o3)
            λ d c4 o4. number_value-Ends strtod_ok n d _ c4 o4

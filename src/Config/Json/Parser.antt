-- ===== src/Config/Json/Parser.antt =====
-- The recursive descent of strict_json.cpp. Values nest, so `parse_value` and the loops of
-- `parse_object` and `parse_array` call one another on fuel.
use remote_tool.Prelude.{
  ℕ, zero, suc, ◌+◌, ◌*◌, Bool, true, false, not, ◌&&◌, ◌||◌, List, [], ◌∷◌, Bytes, length, take,
  codes, bytes_eq, contains, ◌==◌, if◌then◌else◌,
}
use remote_tool.Config.Json.Value.{
  JsonValue, null, bool, string, array, object, JsonArray, nil, JsonObject, end, push_back,
  emplace_back,
}
use remote_tool.Config.Json.Cursor.{
  Cursor, start, at_end, peek, advance, skip_ws, Reason, bom_not_allowed, empty_input,
  trailing_characters, unexpected_end, comments_not_allowed, unexpected_character,
  unterminated_object, expected_string_key, duplicate_key, expected_colon, trailing_comma_in_object,
  expected_comma_or_brace, unterminated_array, trailing_comma_in_array, expected_comma_or_bracket,
  invalid_bool_literal, invalid_null_literal, Parsed, ok, stuck, make_error, bind,
}
use remote_tool.Config.Json.Strings.{parse_string_raw}
use remote_tool.Config.Json.Number.{is_digit, parse_number}

unfoldable pub parse_string_value : Cursor → Parsed JsonValue
parse_string_value c = bind (parse_string_raw c) (λ s c'. ok (string s) c')

-- `text_.compare(pos_, n, literal) == 0`, for a literal of `n` characters.
unfoldable pub looking_at : Bytes → Cursor → Bool
looking_at literal c = bytes_eq (take (length literal) c.rest) literal

unfoldable pub advance_n : ℕ → Cursor → Cursor
advance_n zero c = c
advance_n (suc n) c = advance_n n (advance c)

unfoldable pub parse_bool_literal : Cursor → Parsed JsonValue
parse_bool_literal c =
    if looking_at (codes "true") c
    then ok (bool true) (advance_n 4 c)
    else if looking_at (codes "false") c
    then ok (bool false) (advance_n 5 c)
    else make_error c invalid_bool_literal

unfoldable pub parse_null_literal : Cursor → Parsed JsonValue
parse_null_literal c =
    if looking_at (codes "null") c
    then ok null (advance_n 4 c)
    else make_error c invalid_null_literal

-- Behind an item: a comma and `more`, or the closing character and `done`.
unfoldable pub after_item {ℓ} :
    {A : Type ℓ}
    → ℕ
    → Reason
    → Reason
    → Reason
    → (Cursor → Parsed A)
    → (Cursor → Parsed A)
    → Cursor
    → Parsed A
after_item close unterminated trailing expected more done c =
    let at_comma = skip_ws (advance c) in
    if at_end c
    then make_error c unterminated
    else if peek c == b','
    then if not (at_end at_comma) && peek at_comma == close
      then make_error at_comma trailing
      else more at_comma
    else if peek c == close
    then done (advance c)
    else make_error c expected

-- `parse_object` and `parse_array`: the brackets, round the loop over the items.
unfoldable pub parse_bracketed :
    ℕ → JsonValue → (Cursor → Parsed JsonValue) → Cursor → Parsed JsonValue
parse_bracketed close empty loop c =
    let c' = skip_ws (advance c) in
    if not (at_end c') && peek c' == close then ok empty (advance c') else loop c'

-- A key of an object and the colon behind it. `seen` are the keys before it.
unfoldable pub parse_key : List Bytes → Cursor → Parsed Bytes
parse_key seen c =
    let c' = skip_ws c in
    if at_end c'
    then make_error c' unterminated_object
    else if not (peek c' == b'"')
    then make_error c' expected_string_key
    else bind (parse_string_raw c') λ key c1.
      if contains key seen
      then make_error c1 (duplicate_key key)
      else if at_end (skip_ws c1) || not (peek (skip_ws c1) == b':')
      then make_error (skip_ws c1) expected_colon
      else ok key (advance (skip_ws c1))

-- The switch of `parse_value`, on the character at the cursor.
unfoldable pub value_switch :
    (Bytes → Bool)
    → (Cursor → Parsed JsonValue)
    → (Cursor → Parsed JsonValue)
    → Cursor
    → Parsed JsonValue
value_switch strtod_ok object_items array_items c =
    if at_end c
    then make_error c unexpected_end
    else if peek c == b'{'
    then parse_bracketed b'}' (object end) object_items c
    else if peek c == b'['
    then parse_bracketed b']' (array nil) array_items c
    else if peek c == b'"'
    then parse_string_value c
    else if peek c == b't' || peek c == b'f'
    then parse_bool_literal c
    else if peek c == b'n'
    then parse_null_literal c
    else if peek c == b'-' || is_digit (peek c)
    then parse_number strtod_ok c
    else if peek c == b'/'
    then make_error c comments_not_allowed
    else make_error c (unexpected_character (peek c))

module _ (strtod_ok : Bytes → Bool) where
  unfoldable mutual
    pub parse_value : ℕ → Cursor → Parsed JsonValue
    parse_value zero c = stuck
    parse_value (suc fuel) c =
        value_switch strtod_ok (λ c'. object_loop fuel [] end c') (λ c'. array_loop fuel nil c')
          (skip_ws c)

    pub object_loop : ℕ → List Bytes → JsonObject → Cursor → Parsed JsonValue
    object_loop zero seen obj c = stuck
    object_loop (suc fuel) seen obj c = bind (parse_key seen c) λ key c1.
        bind (parse_value fuel c1) λ v c2.
          after_item b'}' unterminated_object trailing_comma_in_object expected_comma_or_brace
            (λ c3. object_loop fuel (key ∷ seen) (emplace_back obj key v) c3)
            (λ c3. ok (object (emplace_back obj key v)) c3) (skip_ws c2)

    pub array_loop : ℕ → JsonArray → Cursor → Parsed JsonValue
    array_loop zero arr c = stuck
    array_loop (suc fuel) arr c = bind (parse_value fuel c) λ v c1.
        after_item b']' unterminated_array trailing_comma_in_array expected_comma_or_bracket
          (λ c2. array_loop fuel (push_back arr v) c2) (λ c2. ok (array (push_back arr v)) c2)
          (skip_ws c1)

  abbrev fuel_for : Bytes → ℕ
  fuel_for text = 2 * length text + 2

  unfoldable pub parse_root : ℕ → Cursor → Parsed JsonValue
  parse_root fuel c =
      if at_end c
      then make_error c empty_input
      else bind (parse_value fuel c) λ v c1.
        if not (at_end (skip_ws c1))
        then make_error (skip_ws c1) trailing_characters
        else ok v (skip_ws c1)

  unfoldable pub parse_json : Bytes → Parsed JsonValue
  unfolding parse_root
  parse_json text =
      if bytes_eq (take 3 text) (0xEF ∷ 0xBB ∷ 0xBF ∷ [])
      then make_error (start text) bom_not_allowed
      else parse_root (fuel_for text) (skip_ws (start text))

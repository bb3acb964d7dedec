-- ===== src/Config/Json/Total.antt =====
-- The parser returns on every text, and its errors state a place of the text.
mod Scalars
use remote_tool.Prelude.{
  ℕ, zero, suc, ◌+◌, ◌-◌, ◌*◌, ◌≤◌, ◌<◌, ◌≡◌, refl, Bool, true, false, not, ◌&&◌, ◌||◌, List, [],
  ◌∷◌, arith, sym, ap, ◌∙◌, ◌++◌, append-nil, inl, inr, Bool-cases, if◌then◌else◌, Bytes, length,
  take, codes, bytes_eq, contains, ◌==◌,
}
use remote_tool.Config.Json.Value.{
  JsonValue, array, object, JsonArray, nil, JsonObject, end, push_back, emplace_back,
}
use remote_tool.Config.Json.Cursor.{
  Cursor, start, at_end, peek, advance, skip_ws, Reason, unterminated_object,
  trailing_comma_in_object, expected_comma_or_brace, unterminated_array, trailing_comma_in_array,
  expected_comma_or_bracket, Parsed, ok, err, bind, JsonParseError, make_error, trailing_characters,
}
use remote_tool.Config.Json.Strings.{parse_string_raw}
use remote_tool.Config.Json.Number.{is_digit}
use remote_tool.Config.Json.Location.{
  On, start-On, On-mono, advance-On, advance-On-suc, skip_ws-On, Ends, ends, fails, IsPlace,
  fails_at, Ends-if, Ends-bind, Ends-mono, On-pos,
}
use remote_tool.Config.Json.Parser.{
  after_item, parse_bracketed, parse_key, value_switch, parse_value, object_loop, array_loop,
  parse_root, parse_json,
}
use Scalars.{
  parse_string_raw-Ends, parse_string_value-Ends, parse_number-Ends, parse_bool_literal-Ends,
  parse_null_literal-Ends,
}

module _ (text : Bytes) where
  after_item-Ends :
      {A : Type 0} (close : ℕ) (r1 r2 r3 : Reason) (more done : Cursor → Parsed A) (n : ℕ)
      (c : Cursor)
      → ((c' : Cursor) → 0 < n → On text (n - 1) c' → Ends text (n - 1) (more c'))
      → ((c' : Cursor) → On text n c' → Ends text n (done c'))
      → On text n c
      → Ends text n (after_item close r1 r2 r3 more done c)
  unfolding after_item
  after_item-Ends close r1 r2 r3 more done n c km kd o =
      Ends-if (at_end c) (λ _. fails_at n o)
        λ some_left.
          let pos = On-pos text n c some_left o in
          let o' =
            advance-On-suc text (n - 1) c some_left (On-mono n (suc (n - 1)) (omega arith) o) in
          let at_comma = skip_ws (advance c) in
          let o1 = skip_ws-On text (n - 1) (advance c) o' in
          Ends-if (peek c == b',')
            (λ _.
              Ends-if (not (at_end at_comma) && peek at_comma == close) (λ _. fails_at (n - 1) o1)
                (λ _. Ends-mono (n - 1) n (omega arith) (km at_comma pos o1)))
            λ _.
              Ends-if (peek c == close) (λ _. kd (advance c) (On-mono (n - 1) n (omega arith) o'))
                (λ _. fails_at n o)

  parse_bracketed-Ends :
      (close : ℕ) (empty : JsonValue) (loop : Cursor → Parsed JsonValue) (n : ℕ) (c : Cursor)
      → ((c' : Cursor) → On text n c' → Ends text n (loop c'))
      → On text n (advance c)
      → Ends text n (parse_bracketed close empty loop c)
  unfolding parse_bracketed
  parse_bracketed-Ends close empty loop n c k o =
      let c' = skip_ws (advance c) in
      let o' = skip_ws-On text n (advance c) o in
      Ends-if (not (at_end c') && peek c' == close) (λ _. ends (advance-On text n c' o'))
        (λ _. k c' o')

  parse_key-Ends :
      (seen : List Bytes) (n : ℕ) (c : Cursor) → On text n c → Ends text n (parse_key seen c)
  unfolding parse_key
  parse_key-Ends seen n c o =
      let c' = skip_ws c in
      let o' = skip_ws-On text n c o in
      Ends-if (at_end c') (λ _. fails_at n o')
        λ _.
          Ends-if (not (peek c' == b'"')) (λ _. fails_at n o')
            λ _. Ends-bind n (parse_string_raw-Ends text n c' o') λ key c1 o1.
              let o2 = skip_ws-On text n c1 o1 in
              Ends-if (contains key seen) (λ _. fails_at n o1)
                λ _.
                  Ends-if (at_end (skip_ws c1) || not (peek (skip_ws c1) == b':'))
                    (λ _. fails_at n o2) (λ _. ends (advance-On text n (skip_ws c1) o2))

  value_switch-Ends :
      (strtod_ok : Bytes → Bool) (object_items array_items : Cursor → Parsed JsonValue) (n : ℕ)
      (c : Cursor)
      → ((c' : Cursor) → 0 < n → On text (n - 1) c' → Ends text (n - 1) (object_items c'))
      → ((c' : Cursor) → 0 < n → On text (n - 1) c' → Ends text (n - 1) (array_items c'))
      → On text n c
      → Ends text n (value_switch strtod_ok object_items array_items c)
  unfolding value_switch
  value_switch-Ends strtod_ok object_items array_items n c ko ka o =
      Ends-if (at_end c) (λ _. fails_at n o)
        λ some_left.
          let pos = On-pos text n c some_left o in
          let o' =
            advance-On-suc text (n - 1) c some_left (On-mono n (suc (n - 1)) (omega arith) o) in
          let less : n - 1 ≤ n = omega arith in
          Ends-if (peek c == b'{')
            (λ _.
              Ends-mono (n - 1) n less (
                parse_bracketed-Ends b'}' (object end) object_items (n - 1) c (λ c1. ko c1 pos) o'))
            λ _.
              Ends-if (peek c == b'[')
                (λ _. Ends-mono (n - 1) n less (
                  parse_bracketed-Ends b']' (array nil) array_items (n - 1) c (λ c1. ka c1 pos) o'))
                λ _.
                  Ends-if (peek c == b'"') (λ _. parse_string_value-Ends text n c o)
                    λ _.
                      Ends-if (peek c == b't' || peek c == b'f')
                        (λ _. parse_bool_literal-Ends text n c o)
                        λ _.
                          Ends-if (peek c == b'n') (λ _. parse_null_literal-Ends text n c o)
                            λ _.
                              Ends-if (peek c == b'-' || is_digit (peek c))
                                (λ _. parse_number-Ends text strtod_ok n c o)
                                λ _.
                                  Ends-if (peek c == b'/') (λ _. fails_at n o) (λ _. fails_at n o)

module _ (text : Bytes) (strtod_ok : Bytes → Bool) where
  mutual
    unfolding parse_value object_loop array_loop

    parse_value-Ends :
        (fuel n : ℕ) (c : Cursor)
        → 2 * n < fuel
        → On text n c
        → Ends text n (parse_value strtod_ok fuel c)
    parse_value-Ends zero n c h o = absurd (omega arith)
    parse_value-Ends (suc fuel) n c h o =
        value_switch-Ends text strtod_ok _ _ n (skip_ws c)
          (λ c' pos o'. object_loop-Ends fuel (n - 1) [] end c' (omega arith) o')
          (λ c' pos o'. array_loop-Ends fuel (n - 1) nil c' (omega arith) o')
          (skip_ws-On text n c o)

    object_loop-Ends :
        (fuel n : ℕ) (seen : List Bytes) (obj : JsonObject) (c : Cursor)
        → 2 * n + 1 < fuel
        → On text n c
        → Ends text n (object_loop strtod_ok fuel seen obj c)
    object_loop-Ends zero n seen obj c h o = absurd (omega arith)
    object_loop-Ends (suc fuel) n seen obj c h o =
        Ends-bind n (parse_key-Ends text seen n c o) λ key c1 o1.
          Ends-bind n (parse_value-Ends fuel n c1 (omega arith) o1) λ v c2 o2.
            after_item-Ends text b'}' _ _ _ _ _ n (skip_ws c2)
              (λ c3 pos o3. object_loop-Ends fuel (n - 1) (key ∷ seen) _ c3 (omega arith) o3)
              (λ c3 o3. ends o3) (skip_ws-On text n c2 o2)

    array_loop-Ends :
        (fuel n : ℕ) (arr : JsonArray) (c : Cursor)
        → 2 * n + 1 < fuel
        → On text n c
        → Ends text n (array_loop strtod_ok fuel arr c)
    array_loop-Ends zero n arr c h o = absurd (omega arith)
    array_loop-Ends (suc fuel) n arr c h o =
        Ends-bind n (parse_value-Ends fuel n c (omega arith) o) λ v c1 o1.
          after_item-Ends text b']' _ _ _ _ _ n (skip_ws c1)
            (λ c2 pos o2. array_loop-Ends fuel (n - 1) _ c2 (omega arith) o2) (λ c2 o2. ends o2)
            (skip_ws-On text n c1 o1)

-- The outcome of parsing a whole text: a value and nothing left to read, or an error at a place of
-- the text. The fuel has not run out.
pub data Settles (text : Bytes) : Parsed JsonValue → Type 0 where
  accepts :
      {v : JsonValue} {c : Cursor} → c.rest ≡ [] → c.offset ≡ length text → Settles text (ok v c)
  refuses : {e : JsonParseError} → IsPlace text e → Settles text (err e)

Settles-fails :
    {text : Bytes} (n : ℕ) {c : Cursor} {r : Reason} → On text n c → Settles text (make_error c r)
Settles-fails n {c} o = refuses (record {
  read = o.read;
  unread = c.rest;
  splits = o.splits;
  offset_is = o.offset_is;
  place_is = o.place_is;
})

accepts_end :
    (text : Bytes) (n : ℕ) (v : JsonValue) (c : Cursor)
    → On text n c
    → at_end c ≡ true
    → Settles text (ok v c)
accepts_end text n v c o e = by_rest c.rest refl
  where
    by_rest : (r : Bytes) → c.rest ≡ r → Settles text (ok v c)
    by_rest [] q = accepts q (
        o.offset_is
        ∙ ap length (sym (append-nil o.read))
        ∙ ap (λ r. length (o.read ++ r)) (sym q)
        ∙ ap length (sym o.splits))
    by_rest (x ∷ xs) q = absurd (cc (sym e ∙ ap (λ r. elim r [ [] ↦ true | y ∷ ys ↦ false ]) q))

root_end :
    (text : Bytes) (n : ℕ) {p : Parsed JsonValue}
    → Ends text n p
    → Settles text (
        bind p (λ v c.
          if not (at_end (skip_ws c))
          then make_error (skip_ws c) trailing_characters
          else ok v (skip_ws c)))
root_end text n (ends {a} {c} o) = elim (Bool-cases (at_end (skip_ws c))) [
  | inl e ↦ rw e (accepts_end text n a (skip_ws c) (skip_ws-On text n c o) e)
  | inr e ↦ rw e (Settles-fails n (skip_ws-On text n c o))
]
root_end text n (fails p) = refuses p

parse_root-Settles :
    (text : Bytes) (strtod_ok : Bytes → Bool) (fuel n : ℕ) (c : Cursor)
    → 2 * n < fuel
    → On text n c
    → Settles text (parse_root strtod_ok fuel c)
unfolding parse_root
parse_root-Settles text strtod_ok fuel n c h o = elim (Bool-cases (at_end c)) [
  | inl e ↦ rw e (Settles-fails n o)
  | inr e ↦ rw e (root_end text n (parse_value-Ends text strtod_ok fuel n c h o))
]

-- The parser returns on every text, whatever `strtod` reports: its fuel suffices. Either it accepts,
-- and then it has read the whole text, or it refuses with an error whose offset, line and column
-- are those of a place of the text, lines and columns counted from 1.
pub parse_json-Settles :
    (strtod_ok : Bytes → Bool) (text : Bytes) → Settles text (parse_json strtod_ok text)
unfolding parse_json
parse_json-Settles strtod_ok text =
    elim (Bool-cases (bytes_eq (take 3 text) (0xEF ∷ 0xBB ∷ 0xBF ∷ []))) [
      | inl e ↦ rw e (Settles-fails (length text) (start-On text))
      | inr e ↦ rw e (
          parse_root-Settles text strtod_ok _ (length text) (skip_ws (start text)) (omega arith)
            (skip_ws-On text (length text) (start text) (start-On text)))
    ]

-- ===== src/Protocol/Messages/ReadBack/Objects.antt =====
-- The parser reads an object whose members are strings, integers and flags back to these members.
use remote_tool.Prelude.{
  ℕ, zero, suc, ◌+◌, ◌*◌, ◌^◌, ◌≤◌, ◌<◌, ◌≡◌, pos, refl, ◌∙◌, Bool, true, false, inl, inr, List, [],
  ◌∷◌, ◌++◌, arith, Bytes, length, length-append, contains, bytes_eq, codes, ◌==◌, if◌then◌else◌,
}
use remote_tool.Config.Json.Value.{
  JsonValue, string, int, bool, object, JsonObject, end, emplace_back,
}
use remote_tool.Config.Json.Cursor.{Cursor, start, at_end, advance, is_ws, skip_ws, skip_ws_on, ok}
use remote_tool.Config.Json.Location.{rest-advance}
use remote_tool.Config.Json.Number.{is_digit, parse_number}
use remote_tool.Config.Json.Parser.{
  parse_string_value, parse_bool_literal, looking_at, advance_n, after_item, parse_bracketed,
  parse_key, value_switch, parse_value, object_loop, parse_root, parse_json,
}
use remote_tool.Protocol.Messages.Text.{json_escape, natural_text}
use remote_tool.Protocol.Messages.ReadBack.Strings.{
  Reads, peek_cons, at_end_cons, parse_string_raw-json_escape,
}
use remote_tool.Protocol.Messages.ReadBack.Numbers.{Stops, natural_text-head, parse_number-Reads}

skip_ws_stop : (c : Cursor) (x : ℕ) (xs : Bytes) → c.rest ≡ x ∷ xs → is_ws x ≡ false → skip_ws c ≡ c
unfolding skip_ws skip_ws_on
skip_ws_stop c x xs e solid = rw e (rw solid refl)

skip_ws_end : (c : Cursor) → c.rest ≡ [] → skip_ws c ≡ c
unfolding skip_ws skip_ws_on
skip_ws_end c e = rw e refl

at_end_nil : (c : Cursor) → c.rest ≡ [] → at_end c ≡ true
at_end_nil c e = rw e refl

-- A quoted string, and what follows it.
abbrev pub quoted : Bytes → Bytes → Bytes
quoted s rest = b'"' ∷ (json_escape s ++ b'"' ∷ rest)

parse_key-Reads :
    (seen : List Bytes) (c : Cursor) (key rest : Bytes)
    → c.rest ≡ quoted key (b':' ∷ rest)
    → contains key seen ≡ false
    → Reads (parse_key seen) c key rest
unfolding parse_key
parse_key-Reads seen c key rest e fresh =
    let (c1, read, left) = parse_string_raw-json_escape key c (b':' ∷ rest) e in
    (
      advance c1,
      rw (skip_ws_stop c _ _ e refl, at_end_cons c _ _ e, peek_cons c _ _ e)
          (rw
            (
              read,
              fresh,
              skip_ws_stop c1 _ _ left refl,
              at_end_cons c1 _ _ left,
              peek_cons c1 _ _ left,
            )
            refl),
      rest-advance c1 b':' rest left,
    )

-- A value that messages carry.
pub data Scalar : Type 0 where
  text : Bytes → Scalar
  number : ℕ → Scalar
  flag : Bool → Scalar

abbrev pub scalar_text : Scalar → Bytes → Bytes
scalar_text (text s) rest = quoted s rest
scalar_text (number n) rest = natural_text n ++ rest
scalar_text (flag b) rest = (if b then codes "true" else codes "false") ++ rest

abbrev pub scalar_value : Scalar → JsonValue
scalar_value (text s) = string s
scalar_value (number n) = int (pos n)
scalar_value (flag b) = bool b

abbrev pub Fits : Scalar → Type 0
Fits (number n) = n < 2 ^ 63
Fits _ = Unit

module _ (strtod_ok : Bytes → Bool) (fuel : ℕ) (c : Cursor) where
  text-Reads :
      (s rest : Bytes)
      → c.rest ≡ quoted s rest
      → Reads (parse_value strtod_ok (suc fuel)) c (string s) rest
  unfolding parse_value value_switch parse_string_value
  text-Reads s rest e =
      let (c1, read, left) = parse_string_raw-json_escape s c rest e in
      (
        c1,
        rw (skip_ws_stop c _ _ e refl, at_end_cons c _ _ e, peek_cons c _ _ e) (rw read refl),
        left,
      )

  digit_value :
      (d : ℕ) (ds : Bytes)
      → 48 ≤ d
      → d ≤ 57
      → c.rest ≡ d ∷ ds
      → parse_value strtod_ok (suc fuel) c ≡ parse_number strtod_ok c
  unfolding parse_value value_switch
  digit_value d ds low high e =
      let solid : is_ws d ≡ false = ground (arith, low) in
      let t1 : (d == b'{') ≡ false = ground (arith, high) in
      let t2 : (d == b'[') ≡ false = ground (arith, high) in
      let t3 : (d == b'"') ≡ false = ground (arith, low) in
      let t4 : (d == b't') ≡ false = ground (arith, high) in
      let t5 : (d == b'f') ≡ false = ground (arith, high) in
      let t6 : (d == b'n') ≡ false = ground (arith, high) in
      let t7 : (d == b'-') ≡ false = ground (arith, low) in
      let t8 : is_digit d ≡ true = ground (arith, low, high) in
      rw (skip_ws_stop c d ds e solid, at_end_cons c d ds e, peek_cons c d ds e)
        (rw (t1, t2) (rw (t3, t4, t5) (rw (t6, t7) (rw t8 refl))))

  number-Reads :
      (n x : ℕ) (rest : Bytes)
      → n < 2 ^ 63
      → Stops x
      → c.rest ≡ natural_text n ++ x ∷ rest
      → Reads (parse_value strtod_ok (suc fuel)) c (int (pos n)) (x ∷ rest)
  number-Reads n x rest small stops e =
      let (c1, read, left) = parse_number-Reads strtod_ok c n x rest small stops e in
      let (d, ds, q, low, high) = natural_text-head n in
      (c1, digit_value d _ low high (rw q at e) ∙ read, left)

  flag-Reads :
      (b : Bool) (rest : Bytes)
      → c.rest ≡ (if b then codes "true" else codes "false") ++ rest
      → Reads (parse_value strtod_ok (suc fuel)) c (bool b) rest
  unfolding parse_value value_switch parse_bool_literal looking_at advance_n bytes_eq
  flag-Reads true rest e =
      let r1 = rest-advance c _ _ e in
      let r2 = rest-advance (advance c) _ _ r1 in
      let r3 = rest-advance (advance (advance c)) _ _ r2 in
      (
        advance (advance (advance (advance c))),
        rw (skip_ws_stop c _ _ e refl, at_end_cons c _ _ e, peek_cons c _ _ e) (rw e refl),
        rest-advance _ _ _ r3,
      )
  flag-Reads false rest e =
      let r1 = rest-advance c _ _ e in
      let r2 = rest-advance (advance c) _ _ r1 in
      let r3 = rest-advance (advance (advance c)) _ _ r2 in
      let r4 = rest-advance (advance (advance (advance c))) _ _ r3 in
      (
        advance (advance (advance (advance (advance c)))),
        rw (skip_ws_stop c _ _ e refl, at_end_cons c _ _ e, peek_cons c _ _ e) (rw e refl),
        rest-advance _ _ _ r4,
      )

  parse_value-Reads :
      (v : Scalar) (x : ℕ) (rest : Bytes)
      → Fits v
      → Stops x
      → c.rest ≡ scalar_text v (x ∷ rest)
      → Reads (parse_value strtod_ok (suc fuel)) c (scalar_value v) (x ∷ rest)
  parse_value-Reads (text s) x rest f stops e = text-Reads s (x ∷ rest) e
  parse_value-Reads (number n) x rest f stops e = number-Reads n x rest f stops e
  parse_value-Reads (flag b) x rest f stops e = flag-Reads b (x ∷ rest) e

abbrev pub Member : Type 0
Member = Bytes × Scalar

-- The text of members from the first on, to the closing brace.
abbrev pub members_text : Member → List Member → Bytes → Bytes
members_text m [] rest = quoted m.0 (b':' ∷ scalar_text m.1 (b'}' ∷ rest))
members_text m (n ∷ ns) rest = quoted m.0 (b':' ∷ scalar_text m.1 (b',' ∷ members_text n ns rest))

abbrev pub with_members : JsonObject → Member → List Member → JsonObject
with_members obj m [] = emplace_back obj m.0 (scalar_value m.1)
with_members obj m (n ∷ ns) = with_members (emplace_back obj m.0 (scalar_value m.1)) n ns

-- No key comes twice, and each value fits.
abbrev pub Fresh : List Bytes → Member → List Member → Type 0
Fresh seen m [] = (contains m.0 seen ≡ false) × Fits m.1
Fresh seen m (n ∷ ns) = (contains m.0 seen ≡ false) × Fits m.1 × Fresh (m.0 ∷ seen) n ns

members_text-quote :
    (m : Member) (ns : List Member) (rest : Bytes)
    → (t : Bytes) × (members_text m ns rest ≡ b'"' ∷ t)
members_text-quote m [] rest = (_, refl)
members_text-quote m (n ∷ ns) rest = (_, refl)

module _ (strtod_ok : Bytes → Bool) where
  object_loop-Reads :
      (fuel : ℕ) (seen : List Bytes) (obj : JsonObject) (m : Member) (ns : List Member) (c : Cursor)
      (rest : Bytes)
      → length ns + 2 ≤ fuel
      → Fresh seen m ns
      → c.rest ≡ members_text m ns rest
      → Reads (object_loop strtod_ok fuel seen obj) c (object (with_members obj m ns)) rest
  unfolding object_loop after_item
  object_loop-Reads zero seen obj m ns c rest h f e = absurd (omega arith)
  object_loop-Reads (suc zero) seen obj m ns c rest h f e = absurd (omega arith)
  object_loop-Reads (suc (suc fuel)) seen obj m [] c rest h f e =
      let (c1, key, at_value) =
        parse_key-Reads seen c m.0 (scalar_text m.1 (b'}' ∷ rest)) e (f.0) in
      let (c2, value, left) =
        parse_value-Reads strtod_ok fuel c1 m.1 b'}' rest (f.1) (inr refl) at_value in
      (
        advance c2,
        rw
            (
              key,
              value,
              skip_ws_stop c2 _ _ left refl,
              at_end_cons c2 _ _ left,
              peek_cons c2 _ _ left,
            )
            refl,
        rest-advance c2 _ _ left,
      )
  object_loop-Reads (suc (suc fuel)) seen obj m (n ∷ ns) c rest h f e =
      let (c1, key, at_value) =
        parse_key-Reads seen c m.0 (scalar_text m.1 (b',' ∷ members_text n ns rest)) e (f.0) in
      let (c2, value, left) =
        parse_value-Reads strtod_ok fuel c1 m.1 b',' (members_text n ns rest) (f.1) (inl refl)
          at_value in
      let next = rest-advance c2 _ _ left in
      let (t, starts) = members_text-quote n ns rest in
      let at_quote = next ∙ starts in
      let (c3, all, done) =
        object_loop-Reads (suc fuel) (m.0 ∷ seen) (emplace_back obj m.0 (scalar_value m.1)) n ns
          (advance c2) rest (omega arith) (f.2) next in
      (
        c3,
        rw
            (
              key,
              value,
              skip_ws_stop c2 _ _ left refl,
              at_end_cons c2 _ _ left,
              peek_cons c2 _ _ left,
            )
            (rw
              (
                skip_ws_stop (advance c2) _ _ at_quote refl,
                at_end_cons (advance c2) _ _ at_quote,
                peek_cons (advance c2) _ _ at_quote,
              )
              all),
        done,
      )

  length-scalar_text : (v : Scalar) (rest : Bytes) → length rest ≤ length (scalar_text v rest)
  length-scalar_text (text s) rest = omega (arith, length-append (json_escape s) (b'"' ∷ rest))
  length-scalar_text (number n) rest = omega (arith, length-append (natural_text n) rest)
  length-scalar_text (flag true) rest = omega arith
  length-scalar_text (flag false) rest = omega arith

  length-members_text :
      (m : Member) (ns : List Member) → length ns + 1 ≤ length (members_text m ns [])
  length-members_text m [] = omega arith
  length-members_text m (n ∷ ns) =
      let value = scalar_text m.1 (b',' ∷ members_text n ns []) in
      omega (
        arith,
        length-members_text n ns,
        length-append (json_escape m.0) (b'"' ∷ b':' ∷ value),
        length-scalar_text m.1 (b',' ∷ members_text n ns []),
      )

  object_value-Reads :
      (fuel : ℕ) (m : Member) (ns : List Member) (c : Cursor)
      → length ns + 3 ≤ fuel
      → Fresh [] m ns
      → c.rest ≡ b'{' ∷ members_text m ns []
      → Reads (parse_value strtod_ok fuel) c (object (with_members end m ns)) []
  unfolding parse_value value_switch parse_bracketed
  object_value-Reads zero m ns c h f e = absurd (omega arith)
  object_value-Reads (suc fuel) m ns c h f e =
      let inside = rest-advance c _ _ e in
      let (t, starts) = members_text-quote m ns [] in
      let at_quote = inside ∙ starts in
      let (c1, read, left) =
        object_loop-Reads fuel [] end m ns (advance c) [] (omega arith) f inside in
      (
        c1,
        rw (skip_ws_stop c _ _ e refl, at_end_cons c _ _ e, peek_cons c _ _ e)
            (rw
              (
                skip_ws_stop (advance c) _ _ at_quote refl,
                at_end_cons (advance c) _ _ at_quote,
                peek_cons (advance c) _ _ at_quote,
              )
              read),
        left,
      )

-- The text of an object of strings is read as that object.
pub parse_json-members_text :
    (strtod_ok : Bytes → Bool) (m : Member) (ns : List Member)
    → Fresh [] m ns
    → (c : Cursor) × (parse_json strtod_ok (b'{' ∷ members_text m ns [])
        ≡ ok (object (with_members end m ns)) c)
unfolding parse_json parse_root bytes_eq
parse_json-members_text strtod_ok m ns f =
    let text = b'{' ∷ members_text m ns [] in
    let c = start text in
    let (c1, read, left) =
      object_value-Reads strtod_ok (2 * length text + 2) m ns c
        (omega (arith, length-members_text strtod_ok m ns)) f refl in
    let ended : skip_ws c1 ≡ c1 = skip_ws_end c1 left in
    let finished = at_end_nil c1 left in
    (c1, rw (skip_ws_stop c _ _ refl refl) (rw read (rw (ended, finished) refl)))

-- ===== src/Protocol/Messages/ReadBack/Strings.antt =====
-- `parse_string_raw` undoes `json_escape`.
use remote_tool.Prelude.{
  ℕ, zero, suc, ◌+◌, ◌*◌, ◌/◌, ◌%◌, ◌≤◌, ◌<◌, ◌≡◌, refl, ap, ◌∙◌, false, inl, inr, some, [], ◌∷◌,
  ◌++◌, append-nil, append_assoc, arith, Bytes, length, length-append, ltb, leb, ◌==◌, ==_iff,
  Bool-cases,
}
use remote_tool.Config.Json.Cursor.{Cursor, at_end, peek, advance, Parsed, ok}
use remote_tool.Config.Json.Location.{rest-advance}
use remote_tool.Config.Json.Strings.{
  hex_digit, hex_loop, parse_hex4, parse_unicode_escape, simple_escape, encode_utf8, parse_escape,
  string_loop, parse_string_raw,
}
use remote_tool.Protocol.Messages.Text.{hex_char, escape_char, json_escape}

-- `p` reads `v` at the cursor `c`, and leaves `rest`.
abbrev pub Reads {ℓ} : {A : Type ℓ} → (Cursor → Parsed A) → Cursor → A → Bytes → Type ℓ
Reads p c v rest = (c' : Cursor) × (p c ≡ ok v c') × (c'.rest ≡ rest)

-- What is seen at a cursor in front of `x`.
pub peek_cons : (c : Cursor) (x : ℕ) (xs : Bytes) → c.rest ≡ x ∷ xs → peek c ≡ x
peek_cons c x xs e = rw e refl

pub at_end_cons : (c : Cursor) (x : ℕ) (xs : Bytes) → c.rest ≡ x ∷ xs → at_end c ≡ false
at_end_cons c x xs e = rw e refl

module _ (fuel : ℕ) (out : Bytes) (c : Cursor) where
  plain_step :
      (x : ℕ) (xs : Bytes)
      → c.rest ≡ x ∷ xs
      → ltb x 0x20 ≡ false
      → (x == b'"') ≡ false
      → (x == b'\\') ≡ false
      → string_loop (suc fuel) out c ≡ string_loop fuel (out ++ x ∷ []) (advance c)
  unfolding string_loop
  plain_step x xs e control quote backslash =
      rw (peek_cons c x xs e, at_end_cons c x xs e, control, quote, backslash) refl

  escape_step :
      (x b : ℕ) (xs : Bytes)
      → c.rest ≡ b'\\' ∷ x ∷ xs
      → simple_escape x ≡ some b
      → string_loop (suc fuel) out c ≡ string_loop fuel (out ++ b ∷ []) (advance (advance c))
  unfolding string_loop parse_escape
  escape_step x b xs e simple =
      let e' = rest-advance c b'\\' (x ∷ xs) e in
      rw
        (
          peek_cons c b'\\' (x ∷ xs) e,
          at_end_cons c b'\\' (x ∷ xs) e,
          peek_cons (advance c) x xs e',
          at_end_cons (advance c) x xs e',
          simple,
          parse_escape,
        )
        refl

hex_digit-hex_char : (d : ℕ) → d < 16 → hex_digit (hex_char d) ≡ some d
unfolding hex_digit hex_char
hex_digit-hex_char d h = ground arith

hex_loop_step :
    (n cp d : ℕ) (c : Cursor) (xs : Bytes)
    → d < 16
    → c.rest ≡ hex_char d ∷ xs
    → hex_loop (suc n) cp c ≡ hex_loop n (cp * 16 + d) (advance c)
unfolding hex_loop
hex_loop_step n cp d c xs small e =
    rw (peek_cons c (hex_char d) xs e, hex_digit-hex_char d small, hex_loop) refl

parse_hex4-Reads :
    (a b d e : ℕ) (c : Cursor) (xs : Bytes)
    → a < 16
    → b < 16
    → d < 16
    → e < 16
    → c.rest ≡ hex_char a ∷ hex_char b ∷ hex_char d ∷ hex_char e ∷ xs
    → Reads parse_hex4 c ((((0 * 16 + a) * 16 + b) * 16 + d) * 16 + e) xs
unfolding parse_hex4
parse_hex4-Reads a b d e c xs ha hb hd he at_c =
    let at_1 = rest-advance c _ _ at_c in
    let at_2 = rest-advance (advance c) _ _ at_1 in
    let at_3 = rest-advance (advance (advance c)) _ _ at_2 in
    let enough : ltb (length c.rest) 4 ≡ false = rw at_c (ground arith) in
    (
      advance (advance (advance (advance c))),
      rw
          (
            enough,
            hex_loop_step 3 0 a c _ ha at_c,
            hex_loop_step 2 _ b (advance c) _ hb at_1,
            hex_loop_step 1 _ d (advance (advance c)) _ hd at_2,
            hex_loop_step 0 _ e (advance (advance (advance c))) _ he at_3,
          )
          (unfold hex_loop in refl),
      rest-advance _ _ _ at_3,
    )

parse_unicode_escape-Reads :
    (c : Cursor) (cp : ℕ) (xs : Bytes)
    → cp < 0xD800
    → Reads parse_hex4 c cp xs
    → Reads parse_unicode_escape c cp xs
unfolding parse_unicode_escape
parse_unicode_escape-Reads c cp xs small (c', read, left) =
    let not_high : leb 0xD800 cp ≡ false = ground arith in
    let not_low : leb 0xDC00 cp ≡ false = ground arith in
    (c', rw (read, not_high, not_low) refl, left)

parse_escape_u :
    (c c' : Cursor) (cp : ℕ) (xs : Bytes)
    → c.rest ≡ b'u' ∷ xs
    → parse_unicode_escape (advance c) ≡ ok cp c'
    → parse_escape c ≡ ok (encode_utf8 cp) c'
unfolding parse_escape simple_escape
parse_escape_u c c' cp xs e read =
    rw (peek_cons c b'u' xs e, at_end_cons c b'u' xs e) (rw (peek_cons c b'u' xs e, read) refl)

ascii_utf8 : (x : ℕ) → x < 0x20 → encode_utf8 x ≡ x ∷ []
unfolding encode_utf8
ascii_utf8 x small = ground arith

-- A `\u00XX` for a control character.
unicode_step :
    (fuel : ℕ) (out : Bytes) (c : Cursor) (x : ℕ) (xs : Bytes)
    → x < 0x20
    → c.rest
      ≡ b'\\'
        ∷ b'u'
        ∷ hex_char (x / 0x1000 % 16)
        ∷ hex_char (x / 0x100 % 16)
        ∷ hex_char (x / 16 % 16)
        ∷ hex_char (x % 16)
        ∷ xs
    → (c' : Cursor) × (string_loop (suc fuel) out c ≡ string_loop fuel (out ++ x ∷ []) c')
      × (c'.rest ≡ xs)
unfolding string_loop
unicode_step fuel out c x xs small e =
    let at_u = rest-advance c _ _ e in
    let at_hex = rest-advance (advance c) _ _ at_u in
    let digits =
      parse_hex4-Reads (x / 0x1000 % 16) (x / 0x100 % 16) (x / 16 % 16) (x % 16)
        (advance (advance c)) xs (omega arith) (omega arith) (omega arith) (omega arith) at_hex in
    let value : ((((0 * 16 + x / 0x1000 % 16) * 16 + x / 0x100 % 16) * 16 + x / 16 % 16) * 16
          + x % 16)
        ≡ x =
      omega arith in
    let (c', read, left) =
      parse_unicode_escape-Reads (advance (advance c)) x xs (omega arith) (rw value at digits) in
    (
      c',
      rw
          (
            peek_cons c _ _ e,
            at_end_cons c _ _ e,
            parse_escape_u (advance c) c' x _ at_u read,
            ascii_utf8 x small,
          )
          refl,
      left,
    )

-- One escaped character is read as that character.
escape_char_step :
    (fuel : ℕ) (out : Bytes) (c : Cursor) (x : ℕ) (xs : Bytes)
    → c.rest ≡ escape_char x ++ xs
    → (c' : Cursor) × (string_loop (suc fuel) out c ≡ string_loop fuel (out ++ x ∷ []) c')
      × (c'.rest ≡ xs)
unfolding escape_char simple_escape
escape_char_step fuel out c x xs e = elim (Bool-cases (x == b'"')) [
  | inl t0 ↦ simple b'"' b'"' ((==_iff x b'"').0 t0) refl (rw t0 at e)
  | inr t0 ↦ elim (Bool-cases (x == b'\\')) [
    | inl t1 ↦ simple b'\\' b'\\' ((==_iff x b'\\').0 t1) refl (rw (t0, t1) at e)
    | inr t1 ↦ elim (Bool-cases (x == 0x08)) [
      | inl t2 ↦ simple 0x08 b'b' ((==_iff x 0x08).0 t2) refl (rw (t0, t1, t2) at e)
      | inr t2 ↦ elim (Bool-cases (x == 0x0C)) [
        | inl t3 ↦ simple 0x0C b'f' ((==_iff x 0x0C).0 t3) refl (rw (t0, t1, t2, t3) at e)
        | inr t3 ↦ elim (Bool-cases (x == 0x0A)) [
          | inl t4 ↦ simple 0x0A b'n' ((==_iff x 0x0A).0 t4) refl (rw (t0, t1, t2, t3, t4) at e)
          | inr t4 ↦ elim (Bool-cases (x == 0x0D)) [
            | inl t5 ↦
                simple 0x0D b'r' ((==_iff x 0x0D).0 t5) refl (rw (t0, t1, t2, t3, t4, t5) at e)
            | inr t5 ↦ elim (Bool-cases (x == 0x09)) [
              | inl t6 ↦
                  simple 0x09 b't' ((==_iff x 0x09).0 t6) refl
                    (rw (t0, t1, t2, t3, t4, t5, t6) at e)
              | inr t6 ↦ elim (Bool-cases (ltb x 0x20)) [
                | inl low ↦
                    unicode_step fuel out c x xs (ground arith)
                      (rw (t0, t1, t2, t3, t4, t5, t6, low) at e)
                | inr low ↦
                    let here = rw (t0, t1, t2, t3, t4, t5, t6, low) at e in
                    (advance c, plain_step fuel out c x xs here low t0 t1, rest-advance c x xs here)
              ]
            ]
          ]
        ]
      ]
    ]
  ]
]
  where
    simple :
        (y z : ℕ)
        → x ≡ y
        → simple_escape z ≡ some y
        → c.rest ≡ b'\\' ∷ z ∷ xs
        → (c' : Cursor) × (string_loop (suc fuel) out c ≡ string_loop fuel (out ++ x ∷ []) c')
          × (c'.rest ≡ xs)
    simple y z q s r = (
      advance (advance c),
      rw q (escape_step fuel out c z y xs r s),
      rest-advance (advance c) z xs (rest-advance c b'\\' (z ∷ xs) r),
    )

string_loop_escaped :
    (s : Bytes) (fuel : ℕ) (out : Bytes) (c : Cursor) (rest : Bytes)
    → length s < fuel
    → c.rest ≡ json_escape s ++ b'"' ∷ rest
    → Reads (string_loop fuel out) c (out ++ s) rest
unfolding json_escape
string_loop_escaped s zero out c rest h e = absurd (omega arith)
string_loop_escaped [] (suc fuel) out c rest h e = (
  advance c,
  unfold string_loop in rw (peek_cons c _ _ e, at_end_cons c _ _ e, append-nil) refl,
  rest-advance c _ _ e,
)
string_loop_escaped (x ∷ s) (suc fuel) out c rest h e =
    let (c', one, at_c') =
      escape_char_step fuel out c x (json_escape s ++ b'"' ∷ rest)
        (e ∙ append_assoc (escape_char x) (json_escape s) (b'"' ∷ rest)) in
    let (c'', all, left) = string_loop_escaped s fuel (out ++ x ∷ []) c' rest (omega arith) at_c' in
    (c'', one ∙ all ∙ ap (λ t. ok t c'') (append_assoc out (x ∷ []) s), left)

length-escape_char-pos : (x : ℕ) → 0 < length (escape_char x)
unfolding escape_char
length-escape_char-pos x = ground arith

length-le-json_escape : (s : Bytes) → length s ≤ length (json_escape s)
unfolding json_escape
length-le-json_escape [] = omega arith
length-le-json_escape (x ∷ s) = omega (
  arith,
  length-append (escape_char x) (json_escape s),
  length-escape_char-pos x,
  length-le-json_escape s,
)

-- A string that was escaped and quoted is read as that string, whatever follows the quotes.
pub parse_string_raw-json_escape :
    (s : Bytes) (c : Cursor) (rest : Bytes)
    → c.rest ≡ b'"' ∷ (json_escape s ++ b'"' ∷ rest)
    → Reads parse_string_raw c s rest
unfolding parse_string_raw
parse_string_raw-json_escape s c rest e =
    let inside = rest-advance c _ _ e in
    string_loop_escaped s (suc (length (advance c).rest)) [] (advance c) rest
      (omega (
        arith,
        ap length inside,
        length-append (json_escape s) (b'"' ∷ rest),
        length-le-json_escape s,
      ))
      inside

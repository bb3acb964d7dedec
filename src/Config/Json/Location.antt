-- ===== src/Config/Json/Location.antt =====
-- Where a cursor stands in the text, and how parsing moves it.
use remote_tool.Prelude.{
  ℕ, suc, ◌+◌, ◌≤◌, ◌<◌, ◌≡◌, refl, sym, ap, ◌∙◌, Bool, true, false, inl, inr, [], ◌∷◌, ◌++◌,
  append_assoc, arith, Bytes, length, length-append, ◌==◌, if◌then◌else◌, Bool-cases,
}
use remote_tool.Config.Json.Cursor.{
  Cursor, start, at_end, advance_on, advance, is_ws, skip_ws_on, skip_ws, Reason, JsonParseError,
  Parsed, ok, err, make_error, bind,
}

-- The line and the column behind a text that starts at the given ones.
abbrev pub walk : ℕ → ℕ → Bytes → ℕ × ℕ
walk line column [] = (line, column)
walk line column (x ∷ xs) =
    walk (if x == b'\n' then line + 1 else line) (if x == b'\n' then 1 else column + 1) xs

walk-append :
    (line column : ℕ) (xs ys : Bytes)
    → walk line column (xs ++ ys) ≡ walk (walk line column xs).0 (walk line column xs).1 ys
walk-append line column [] ys = refl
walk-append line column (x ∷ xs) ys =
    walk-append (if x == b'\n' then line + 1 else line) (if x == b'\n' then 1 else column + 1) xs ys

-- The cursor stands in `text`, behind `read`, with at most `n` bytes left.
pub record On (text : Bytes) (n : ℕ) (c : Cursor) : Type 0 where
  pub read : Bytes
  pub splits : text ≡ read ++ c.rest
  pub offset_is : c.offset ≡ length read
  pub place_is : walk 1 1 read ≡ (c.line, c.column)
  pub short : length c.rest ≤ n

pub start-On : (text : Bytes) → On text (length text) (start text)
start-On text = record {
  read = [];
  splits = refl;
  offset_is = refl;
  place_is = refl;
  short = omega arith;
}

pub On-mono : {text : Bytes} (n m : ℕ) {c : Cursor} → n ≤ m → On text n c → On text m c
On-mono n m h o = record {
  read = o.read;
  splits = o.splits;
  offset_is = o.offset_is;
  place_is = o.place_is;
  short = omega (arith, o.short);
}

pub On-exact : {text : Bytes} {n : ℕ} {c : Cursor} → On text n c → On text (length c.rest) c
On-exact o = record {
  read = o.read;
  splits = o.splits;
  offset_is = o.offset_is;
  place_is = o.place_is;
  short = omega arith;
}

module _ (text : Bytes) (n : ℕ) (c : Cursor) where
  advance_on-On :
      (x : ℕ) (xs : Bytes) → c.rest ≡ x ∷ xs → On text (suc n) c → On text n (advance_on (x ∷ xs) c)
  advance_on-On x xs e o = elim (Bool-cases (x == b'\n')) [
    | inl newline ↦ rw newline (record {
      read = o.read ++ x ∷ [];
      splits = o.splits ∙ ap (◌++◌ o.read) e ∙ sym (append_assoc o.read (x ∷ []) xs);
      offset_is = omega (arith, o.offset_is, length-append o.read (x ∷ []));
      place_is = walk-append 1 1 o.read (x ∷ []) ∙ rw (o.place_is, newline) refl;
      short = omega (arith, o.short, ap length e);
    })
    | inr other ↦ rw other (record {
      read = o.read ++ x ∷ [];
      splits = o.splits ∙ ap (◌++◌ o.read) e ∙ sym (append_assoc o.read (x ∷ []) xs);
      offset_is = omega (arith, o.offset_is, length-append o.read (x ∷ []));
      place_is = walk-append 1 1 o.read (x ∷ []) ∙ rw (o.place_is, other) refl;
      short = omega (arith, o.short, ap length e);
    })
  ]

  -- A byte is taken, if one is left.
  pub advance-On-suc : at_end c ≡ false → On text (suc n) c → On text n (advance c)
  unfolding advance
  advance-On-suc more o = by_rest c.rest refl
    where
      by_rest : (r : Bytes) → c.rest ≡ r → On text n (advance_on c.rest c)
      by_rest [] e = absurd (cc (sym more ∙ ap (λ r. elim r [ [] ↦ true | x ∷ xs ↦ false ]) e))
      by_rest (x ∷ xs) e = rw e (advance_on-On x xs e o)

pub advance-On : (text : Bytes) (n : ℕ) (c : Cursor) → On text n c → On text n (advance c)
unfolding advance
advance-On text n c o = by_rest c.rest refl
  where
    by_rest : (r : Bytes) → c.rest ≡ r → On text n (advance_on r c)
    by_rest [] e = o
    by_rest (x ∷ xs) e = advance_on-On text n c x xs e (On-mono n (suc n) (omega arith) o)

pub rest-advance : (c : Cursor) (x : ℕ) (xs : Bytes) → c.rest ≡ x ∷ xs → (advance c).rest ≡ xs
unfolding advance
rest-advance c x xs e = rw e (ground arith)

skip_ws_on-On :
    (text : Bytes) (n : ℕ) (xs : Bytes) (c : Cursor)
    → c.rest ≡ xs
    → On text n c
    → On text n (skip_ws_on xs c)
unfolding skip_ws_on
skip_ws_on-On text n [] c e o = o
skip_ws_on-On text n (x ∷ xs) c e o = elim (Bool-cases (is_ws x)) [
  | inl ws ↦
      rw ws (skip_ws_on-On text n xs (advance c) (rest-advance c x xs e) (advance-On text n c o))
  | inr other ↦ rw other o
]

pub skip_ws-On : (text : Bytes) (n : ℕ) (c : Cursor) → On text n c → On text n (skip_ws c)
unfolding skip_ws
skip_ws-On text n c o = skip_ws_on-On text n c.rest c refl o

-- The location that an error states is that of a place in the text.
pub record IsPlace (text : Bytes) (e : JsonParseError) : Type 0 where
  pub read : Bytes
  pub unread : Bytes
  pub splits : text ≡ read ++ unread
  pub offset_is : e.offset ≡ length read
  pub place_is : walk 1 1 read ≡ (e.line, e.column)

-- The outcome of a parsing function: a cursor in the text with at most `n` bytes left, or an error
-- at a place of the text. The fuel has not run out.
pub data Ends {ℓ} (text : Bytes) (n : ℕ) {A : Type ℓ} : Parsed A → Type ℓ where
  ends : {a : A} {c : Cursor} → On text n c → Ends text n (ok a c)
  fails : {e : JsonParseError} → IsPlace text e → Ends text n (err e)

module _ {ℓ} {text : Bytes} {n : ℕ} {A : Type ℓ} where
  pub fails_at :
      {c : Cursor} {r : Reason} (m : ℕ) → On text m c → Ends text n (make_error {A = A} c r)
  fails_at {c} m o = fails (record {
    read = o.read;
    unread = c.rest;
    splits = o.splits;
    offset_is = o.offset_is;
    place_is = o.place_is;
  })

  pub Ends-if :
      (b : Bool) {x y : Parsed A}
      → (b ≡ true → Ends text n x)
      → (b ≡ false → Ends text n y)
      → Ends text n (if b then x else y)
  Ends-if true hx hy = hx refl
  Ends-if false hx hy = hy refl

  pub Ends-bind {κ} :
      (m : ℕ) {B : Type κ} {p : Parsed B} {f : B → Cursor → Parsed A}
      → Ends text m p
      → ((b : B) (c : Cursor) → On text m c → Ends text n (f b c))
      → Ends text n (bind p f)
  Ends-bind m (ends {a} {c} o) k = k a c o
  Ends-bind m (fails h) k = fails h

pub Ends-mono {ℓ} :
    {text : Bytes} (n m : ℕ) {A : Type ℓ} {p : Parsed A} → n ≤ m → Ends text n p → Ends text m p
Ends-mono n m h (ends o) = ends (On-mono n m h o)
Ends-mono n m h (fails p) = fails p

pub On-pos : (text : Bytes) (n : ℕ) (c : Cursor) → at_end c ≡ false → On text n c → 0 < n
On-pos text n c more o = by_rest c.rest refl
  where
    by_rest : (r : Bytes) → c.rest ≡ r → 0 < n
    by_rest [] e = absurd (cc (sym more ∙ ap (λ r. elim r [ [] ↦ true | x ∷ xs ↦ false ]) e))
    by_rest (x ∷ xs) e = omega (arith, o.short, ap length e)

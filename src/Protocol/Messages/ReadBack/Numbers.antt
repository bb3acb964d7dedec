-- ===== src/Protocol/Messages/ReadBack/Numbers.antt =====
-- `parse_number` undoes `std::to_string` on the integers that messages carry.
use remote_tool.Prelude.{
  ℕ, zero, suc, ◌+◌, ◌-◌, ◌*◌, ◌/◌, ◌%◌, ◌^◌, ◌≤◌, ◌<◌, ◌≡◌, refl, sym, ap, ◌∙◌, Bool, true, false,
  inl, inr, ◌⊎◌, ◌||◌, pos, some, [], ◌∷◌, ◌++◌, append_assoc, arith, Bytes, All, length, ltb, leb,
  take, take-length, ◌==◌, Bool-cases,
}
use remote_tool.Config.Json.Value.{int}
use remote_tool.Config.Json.Cursor.{Cursor, advance, ok, bind}
use remote_tool.Config.Json.Location.{rest-advance}
use remote_tool.Config.Json.Number.{
  is_digit, skip_digits_on, minus_part, int_part, fraction_part, exponent_part, decimal, strtoll,
  number_value, parse_number,
}
use remote_tool.Protocol.Messages.Text.{digits_onto, natural_text}
use remote_tool.Protocol.Messages.ReadBack.Strings.{Reads, peek_cons, at_end_cons}

abbrev IsDigit : ℕ → Type 0
IsDigit c = (48 ≤ c) × (c ≤ 57)

-- What may stand behind a number: nothing that would continue it.
abbrev pub Stops : ℕ → Type 0
Stops x = (x ≡ b',') ⊎ (x ≡ b'}')

digits_onto-append :
    (fuel n : ℕ) (acc : Bytes) → digits_onto fuel n acc ≡ digits_onto fuel n [] ++ acc
unfolding digits_onto
digits_onto-append zero n acc = refl
digits_onto-append (suc fuel) n acc = elim (Bool-cases (ltb n 10)) [
  | inl e ↦ rw e refl
  | inr e ↦ rw e (
      digits_onto-append fuel (n / 10) ((b'0' + n % 10) ∷ acc)
      ∙ sym (append_assoc (digits_onto fuel (n / 10) []) ((b'0' + n % 10) ∷ []) acc)
      ∙ ap (λ t. t ++ acc) (sym (digits_onto-append fuel (n / 10) ((b'0' + n % 10) ∷ []))))
]

decimal-append :
    (acc : ℕ) (xs : Bytes) (x : ℕ) → decimal acc (xs ++ x ∷ []) ≡ decimal acc xs * 10 + (x - b'0')
unfolding decimal
decimal-append acc [] x = refl
decimal-append acc (y ∷ xs) x = decimal-append (acc * 10 + (y - b'0')) xs x

-- Enough fuel: the digits stand for the number.
decimal-digits_onto : (fuel n : ℕ) → n < fuel → decimal 0 (digits_onto fuel n []) ≡ n
unfolding digits_onto
decimal-digits_onto zero n h = absurd (omega arith)
decimal-digits_onto (suc fuel) n h = elim (Bool-cases (ltb n 10)) [
  | inl e ↦ rw e (unfold decimal in omega arith)
  | inr e ↦
      rw
        (
          e,
          digits_onto-append fuel (n / 10) ((b'0' + n % 10) ∷ []),
          decimal-append 0 (digits_onto fuel (n / 10) []) (b'0' + n % 10),
          decimal-digits_onto fuel (n / 10) (ground arith),
        )
        (omega arith)
]

digits_onto-All :
    (fuel n : ℕ) (acc : Bytes) → All IsDigit acc → All IsDigit (digits_onto fuel n acc)
unfolding digits_onto
digits_onto-All zero n acc h = h
digits_onto-All (suc fuel) n acc h = elim (Bool-cases (ltb n 10)) [
  | inl e ↦ rw e ((omega arith, ground arith), h)
  | inr e ↦
      rw e (digits_onto-All fuel (n / 10) ((b'0' + n % 10) ∷ acc) ((omega arith, omega arith), h))
]

-- A number that is not 0 has a first digit that is not 0.
digits_onto-first :
    (fuel n : ℕ) (acc : Bytes)
    → 1 ≤ n
    → n < fuel
    → (d : ℕ) × (ds : Bytes) × (digits_onto fuel n acc ≡ d ∷ ds) × (49 ≤ d)
unfolding digits_onto
digits_onto-first zero n acc some_n h = absurd (omega arith)
digits_onto-first (suc fuel) n acc some_n h = elim (Bool-cases (ltb n 10)) [
  | inl e ↦ (b'0' + n, acc, rw e refl, omega arith)
  | inr e ↦
      let (d, ds, q, big) =
        digits_onto-first fuel (n / 10) ((b'0' + n % 10) ∷ acc) (ground arith) (ground arith) in
      (d, ds, rw e q, big)
]

advance-offset :
    (c : Cursor) (x : ℕ) (xs : Bytes) → c.rest ≡ x ∷ xs → (advance c).offset ≡ c.offset + 1
unfolding advance
advance-offset c x xs e = elim (Bool-cases (x == b'\n')) [
  | inl t ↦ rw e (rw t refl)
  | inr t ↦ rw e (rw t refl)
]

skip_digits_on-digits :
    (ds : Bytes) (x : ℕ) (rest : Bytes) (c : Cursor)
    → All IsDigit ds
    → is_digit x ≡ false
    → c.rest ≡ ds ++ x ∷ rest
    → let c' = skip_digits_on (ds ++ x ∷ rest) c in
      (c'.rest ≡ x ∷ rest) × (c'.offset ≡ c.offset + length ds)
unfolding skip_digits_on
skip_digits_on-digits [] x rest c h stop e = rw stop (e, omega arith)
skip_digits_on-digits (d ∷ ds) x rest c h stop e =
    let digit : is_digit d ≡ true = ground (arith, h.0) in
    let (left, far) =
      skip_digits_on-digits ds x rest (advance c) (h.1) stop (rest-advance c d _ e) in
    rw digit (left, omega (arith, far, advance-offset c d _ e))

no_fraction :
    (c : Cursor) (x : ℕ) (rest : Bytes) → Stops x → c.rest ≡ x ∷ rest → fraction_part c ≡ ok false c
unfolding fraction_part
no_fraction c x rest stops e =
    let no_point : (x == b'.') ≡ false = ground (arith, stops) in
    rw (at_end_cons c x rest e, peek_cons c x rest e, no_point) refl

no_exponent :
    (c : Cursor) (x : ℕ) (rest : Bytes)
    → Stops x
    → c.rest ≡ x ∷ rest
    → exponent_part false c ≡ ok false c
unfolding exponent_part
no_exponent c x rest stops e =
    let none_there : (x == b'e' || x == b'E') ≡ false = ground (arith, stops) in
    rw (at_end_cons c x rest e) (rw (peek_cons c x rest e, none_there) refl)

-- Behind the integer part there is neither a fraction nor an exponent.
number_tail :
    (strtod_ok : Bytes → Bool) (c c2 : Cursor) (n x : ℕ) (text rest : Bytes)
    → Stops x
    → c.rest ≡ text ++ x ∷ rest
    → c2.rest ≡ x ∷ rest
    → c2.offset ≡ c.offset + length text
    → strtoll text ≡ some (pos n)
    → bind (fraction_part c2) (λ is_fraction c3.
      bind
        (exponent_part is_fraction c3)
        λ is_double c4. number_value strtod_ok is_double (take (c4.offset - c.offset) c.rest) c4)
      ≡ ok (int (pos n)) c2
unfolding number_value
number_tail strtod_ok c c2 n x text rest stops e e2 far value =
    let size : c2.offset - c.offset ≡ length text = omega (arith, far) in
    rw
      (
        no_fraction c2 x rest stops e2,
        no_exponent c2 x rest stops e2,
        size,
        e,
        take-length,
        value,
        number_value,
      )
      refl

strtoll-digits :
    (n d : ℕ) (ds : Bytes)
    → 48 ≤ d
    → decimal 0 (d ∷ ds) ≡ n
    → n < 2 ^ 63
    → strtoll (d ∷ ds) ≡ some (pos n)
unfolding strtoll
strtoll-digits n d ds digit value small =
    let no_minus : (d == b'-') ≡ false = ground (arith, digit) in
    let fits : ltb n (2 ^ 63) ≡ true = ground (arith, small) in rw (no_minus, value, fits) refl

no_minus_part :
    (c : Cursor) (d : ℕ) (xs : Bytes) → 48 ≤ d → c.rest ≡ d ∷ xs → minus_part c ≡ ok tt c
unfolding minus_part
no_minus_part c d xs digit e =
    let no_minus : (d == b'-') ≡ false = ground (arith, digit) in
    rw (at_end_cons c d xs e, peek_cons c d xs e, no_minus) refl

-- The integer part of a number that starts with another digit than 0.
int_part-digits :
    (c : Cursor) (d x : ℕ) (ds rest : Bytes)
    → 49 ≤ d
    → All IsDigit (d ∷ ds)
    → Stops x
    → c.rest ≡ d ∷ ds ++ x ∷ rest
    → (c2 : Cursor) × (int_part c ≡ ok tt c2)
      × (c2.rest ≡ x ∷ rest)
      × (c2.offset ≡ c.offset + length (d ∷ ds))
unfolding int_part
int_part-digits c d x ds rest big digits stops e =
    let next = rest-advance c d _ e in
    let not_digit : is_digit x ≡ false = ground (arith, stops) in
    let not_zero : (d == b'0') ≡ false = ground (arith, big) in
    let low : leb b'1' d ≡ true = ground (arith, big) in
    let high : leb d b'9' ≡ true = ground (arith, digits.0) in
    let (left, far) = skip_digits_on-digits ds x rest (advance c) (digits.1) not_digit next in
    (
      skip_digits_on (ds ++ x ∷ rest) (advance c),
      rw (peek_cons c d _ e, not_zero) (rw (low, high, next) refl),
      left,
      omega (arith, far, advance-offset c d _ e),
    )

int_part_zero :
    (c : Cursor) (x : ℕ) (rest : Bytes)
    → Stops x
    → c.rest ≡ b'0' ∷ x ∷ rest
    → int_part c ≡ ok tt (advance c)
unfolding int_part
int_part_zero c x rest stops e =
    let next = rest-advance c _ _ e in
    let not_digit : is_digit x ≡ false = ground (arith, stops) in
    let no_x : (x == b'x' || x == b'X') ≡ false = ground (arith, stops) in
    rw (peek_cons c _ _ e, at_end_cons (advance c) _ _ next, peek_cons (advance c) _ _ next)
      (rw (not_digit, no_x) refl)

natural_text-first :
    (n : ℕ)
    → ((n ≡ 0) × (natural_text n ≡ b'0' ∷ []))
      ⊎ ((d : ℕ) × (ds : Bytes) × (natural_text n ≡ d ∷ ds) × (49 ≤ d))
unfolding natural_text digits_onto
natural_text-first zero = inl (refl, refl)
natural_text-first (suc n) =
    inr (digits_onto-first (suc (suc n)) (suc n) [] (omega arith) (omega arith))

natural_text-All : (n : ℕ) → All IsDigit (natural_text n)
unfolding natural_text
natural_text-All n = digits_onto-All (suc n) n [] tt

decimal-natural_text : (n : ℕ) → decimal 0 (natural_text n) ≡ n
unfolding natural_text
decimal-natural_text n = decimal-digits_onto (suc n) n (omega arith)

-- An integer below 2^63, followed by a comma or a closing brace, is read as it was written.
pub parse_number-Reads :
    (strtod_ok : Bytes → Bool) (c : Cursor) (n x : ℕ) (rest : Bytes)
    → n < 2 ^ 63
    → Stops x
    → c.rest ≡ natural_text n ++ x ∷ rest
    → Reads (parse_number strtod_ok) c (int (pos n)) (x ∷ rest)
unfolding parse_number
parse_number-Reads strtod_ok c n x rest small stops e = elim (natural_text-first n) [
  | inl (z, text) ↦
      let here = rw text at e in
      let value : decimal 0 (b'0' ∷ []) ≡ n = rw text at (decimal-natural_text n) in
      (
        advance c,
        rw (no_minus_part c _ _ (omega arith) here) (
            rw (int_part_zero c x rest stops here) (
              number_tail strtod_ok c (advance c) n x (b'0' ∷ []) rest stops here
                (rest-advance c _ _ here) (advance-offset c _ _ here)
                (strtoll-digits n b'0' [] (omega arith) value small))),
        rest-advance c _ _ here,
      )
  | inr (d, ds, text, big) ↦
      let all : All IsDigit (d ∷ ds) = rw text at (natural_text-All n) in
      let value : decimal 0 (d ∷ ds) ≡ n = rw text at (decimal-natural_text n) in
      let here = rw text at e in
      let (c2, read, left, far) = int_part-digits c d x ds rest big all stops here in
      (
        c2,
        rw (no_minus_part c d _ (omega (arith, big)) here) (
            rw read (
              number_tail strtod_ok c c2 n x (d ∷ ds) rest stops here left far
                (strtoll-digits n d ds (omega (arith, big)) value small))),
        left,
      )
]

-- A numeral starts with a digit.
pub natural_text-head :
    (n : ℕ) → (d : ℕ) × (ds : Bytes) × (natural_text n ≡ d ∷ ds) × (48 ≤ d) × (d ≤ 57)
natural_text-head n = elim (natural_text-first n) [
  | inl (z, text) ↦ (b'0', [], text, omega arith, omega arith)
  | inr (d, ds, text, big) ↦
      let all : All IsDigit (d ∷ ds) = rw text at (natural_text-All n) in
      (d, ds, text, all.0.0, all.0.1)
]

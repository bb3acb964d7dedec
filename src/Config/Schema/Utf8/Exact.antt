-- ===== src/Config/Schema/Utf8/Exact.antt =====
-- `count_utf8_codepoints` accepts what UTF-8 writes, and counts the code points.
use remote_tool.Prelude.{
  ℕ, zero, suc, ◌+◌, ◌/◌, ◌%◌, ◌≤◌, ◌<◌, ◌≡◌, inl, inr, ◌↔◌, refl, ap, ◌∙◌, subst, true, false, not,
  ◌&&◌, ◌||◌, Option, none, some, List, [], ◌∷◌, ◌++◌, Bytes, length, All, leb, ltb, ◌==◌, arith,
  length-append, Bool-cases, Option-cases, some-injective, none_is_not_some,
}
use remote_tool.Config.Schema.Utf8.{next_sequence, count_loop, count_utf8_codepoints}
use remote_tool.Config.Schema.Utf8.Decode.{next_sequence-Fronts}
use remote_tool.Config.Schema.Utf8.Encode.{
  encode, is_continuation, next_one, next_two, next_three, next_four,
}

abbrev next_of : Bytes → Option Bytes
next_of [] = none
next_of (c ∷ cs) = next_sequence c cs

module _ (p : ℕ) (rest : Bytes) where
  encode_one : p < 0x80 → next_of (encode p ++ rest) ≡ some rest
  unfolding encode
  encode_one h =
      let test : ltb p 0x80 ≡ true = ground arith in rw test (next_one p (omega arith) rest h)

  encode_two : 0x80 ≤ p → p < 0x800 → next_of (encode p ++ rest) ≡ some rest
  unfolding encode
  encode_two lo hi =
      let t : ltb p 0x80 ≡ false = ground arith in
      let u : ltb p 0x800 ≡ true = ground arith in
      let b = 0x80 + p % 64 in
      let good : is_continuation b ≡ true = ground arith in
      rw (t, u)
        (next_two (0xC0 + p / 64) (omega arith) b rest (omega arith) (omega arith) (omega arith)
          ∙ rw good refl)

  encode_three : 0x800 ≤ p → p < 0x10000 → next_of (encode p ++ rest) ≡ some rest
  unfolding encode
  encode_three lo hi =
      let t : ltb p 0x80 ≡ false = ground arith in
      let u : ltb p 0x800 ≡ false = ground arith in
      let v : ltb p 0x10000 ≡ true = ground arith in
      let a = 0x80 + p / 64 % 64 in
      let b = 0x80 + p % 64 in
      let c = 0xE0 + p / 4096 in
      let good : (is_continuation a && is_continuation b && not (c == 0xE0 && leb a 0x9F)) ≡ true =
        ground arith in
      rw (t, u, v)
        (next_three c (omega arith) a b rest (omega arith) (omega arith) (omega arith) (omega arith)
          ∙ rw good refl)

  encode_four : 0x10000 ≤ p → p < 0x110000 → next_of (encode p ++ rest) ≡ some rest
  unfolding encode
  encode_four lo hi =
      let t : ltb p 0x80 ≡ false = ground arith in
      let u : ltb p 0x800 ≡ false = ground arith in
      let v : ltb p 0x10000 ≡ false = ground arith in
      let a = 0x80 + p / 4096 % 64 in
      let b = 0x80 + p / 64 % 64 in
      let d = 0x80 + p % 64 in
      let c = 0xF0 + p / 262144 in
      let good : (is_continuation a
            && is_continuation b
            && is_continuation d
            && not (c == 0xF0 && leb a 0x8F || c == 0xF4 && ltb 0x8F a))
          ≡ true =
        ground arith in
      rw (t, u, v)
        (next_four c (omega arith) a b d rest (omega arith) (omega arith) (omega arith)
            (omega arith) (omega arith)
          ∙ rw good refl)

  next-encode : p < 0x110000 → next_of (encode p ++ rest) ≡ some rest
  next-encode h = elim (Bool-cases (ltb p 0x80)) [
    | inl a ↦ encode_one (ground arith)
    | inr a ↦ elim (Bool-cases (ltb p 0x800)) [
      | inl b ↦ encode_two (ground arith) (ground arith)
      | inr b ↦ elim (Bool-cases (ltb p 0x10000)) [
        | inl c ↦ encode_three (ground arith) (ground arith)
        | inr c ↦ encode_four (ground arith) h
      ]
    ]
  ]

abbrev pub encode_all : List ℕ → Bytes
encode_all [] = []
encode_all (p ∷ ps) = encode p ++ encode_all ps

abbrev pub AreCodePoints : List ℕ → Type 0
AreCodePoints ps = All (λ p. p < 0x110000) ps

encode_nonempty : (p : ℕ) → 1 ≤ length (encode p)
unfolding encode
encode_nonempty p = ground arith

count_step :
    (fuel n : ℕ) (s rest : Bytes)
    → next_of s ≡ some rest
    → count_loop (suc fuel) s n ≡ count_loop fuel rest (n + 1)
unfolding count_loop
count_step fuel n [] rest e = cc
count_step fuel n (c ∷ cs) rest e = rw e refl

count_loop-encode_all :
    (ps : List ℕ) (fuel n : ℕ)
    → AreCodePoints ps
    → length (encode_all ps) ≤ fuel
    → count_loop fuel (encode_all ps) n ≡ some (n + length ps)
unfolding count_loop
count_loop-encode_all [] zero n h f = ap some (omega arith)
count_loop-encode_all [] (suc fuel) n h f = ap some (omega arith)
count_loop-encode_all (p ∷ ps) zero n h f =
    absurd (omega (arith, encode_nonempty p, length-append (encode p) (encode_all ps), f))
count_loop-encode_all (p ∷ ps) (suc fuel) n h f =
    count_step fuel n (encode p ++ encode_all ps) (encode_all ps)
      (next-encode p (encode_all ps) h.0)
    ∙ count_loop-encode_all ps fuel (n + 1) h.1
        (omega (arith, encode_nonempty p, length-append (encode p) (encode_all ps), f))
    ∙ ap some (omega arith)

bytes_after : (xs ys : Bytes) → All (λ x. x < 256) (xs ++ ys) → All (λ x. x < 256) ys
bytes_after [] ys h = h
bytes_after (x ∷ xs) ys h = bytes_after xs ys h.1

Counted : ℕ → ℕ → Bytes → Type 0
Counted n m s = (ps : List ℕ) × AreCodePoints ps × (s ≡ encode_all ps) × (m ≡ n + length ps)

count_loop-Counted :
    (fuel n m : ℕ) (s : Bytes) → All (λ x. x < 256) s → count_loop fuel s n ≡ some m → Counted n m s
unfolding count_loop Counted
count_loop-Counted zero n m [] h e = ([], tt, refl, omega (arith, some-injective e))
count_loop-Counted (suc fuel) n m [] h e = ([], tt, refl, omega (arith, some-injective e))
count_loop-Counted zero n m (c ∷ cs) h e = cc
count_loop-Counted (suc fuel) n m (c ∷ cs) h e = elim (Option-cases (next_sequence c cs)) [
  | inl stop ↦ absurd (none_is_not_some (rw stop at e))
  | inr (rest, go) ↦
      let (p, small, front) = next_sequence-Fronts c h.0 rest cs h.1 go in
      let bytes = bytes_after (encode p) rest (subst (All (λ x. x < 256)) front h) in
      let (ps, good, same, total) = count_loop-Counted fuel (n + 1) m rest bytes (rw go at e) in
      (p ∷ ps, (small, good), front ∙ ap (λ r. encode p ++ r) same, omega (arith, total))
]

-- A text of bytes is accepted, with a count, exactly where it is the UTF-8 encoding of as many code
-- points below U+110000, surrogates included.
pub count_utf8_codepoints_iff :
    (s : Bytes) (n : ℕ)
    → All (λ x. x < 256) s
    → (count_utf8_codepoints s ≡ some n)
      ↔ ((ps : List ℕ) × AreCodePoints ps × (s ≡ encode_all ps) × (length ps ≡ n))
unfolding count_utf8_codepoints Counted
count_utf8_codepoints_iff s n h = (
  λ e.
      let (ps, good, same, total) = count_loop-Counted (length s) 0 n s h e in
      (ps, good, same, omega (arith, total)),
  λ (ps, good, same, total). rw same (
      count_loop-encode_all ps (length (encode_all ps)) 0 good (omega arith)
      ∙ ap some (omega (arith, total))),
)

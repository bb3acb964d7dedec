-- ===== src/Config/Schema/Utf8/Decode.antt =====
-- The other way: what a round of the loop takes is the encoding of a code point.
use remote_tool.Prelude.{
  ℕ, ◌+◌, ◌-◌, ◌*◌, ◌/◌, ◌%◌, ◌≤◌, ◌<◌, ◌≡◌, refl, sym, ◌∙◌, Bool, true, false, not, ◌&&◌, ◌||◌,
  none, some, [], ◌∷◌, ◌++◌, Bytes, All, leb, ltb, ◌==◌, inl, inr, subst, if◌then◌else◌, arith,
  Bool-cases, some-injective, none_is_not_some,
}
use remote_tool.Config.Schema.Utf8.{next_sequence}
use remote_tool.Config.Schema.Utf8.Tables.{lead}
use remote_tool.Config.Schema.Utf8.Encode.{
  encode, is_continuation, next_one, next_two, next_three, next_four, next_cut, next_none,
}

-- A sequence stands at the front of a text, and `rest` after it.
abbrev pub Fronts : ℕ → Bytes → Bytes → Type 0
Fronts c cs rest = (p : ℕ) × (p < 0x110000) × (c ∷ cs ≡ encode p ++ rest)

decode_two :
    (c b : ℕ) (rest : Bytes)
    → 0xC2 ≤ c
    → c < 0xE0
    → is_continuation b ≡ true
    → Fronts c (b ∷ rest) rest
unfolding encode
decode_two c b rest lo hi q =
    let b_lo : 0x80 ≤ b = ground arith in
    let b_hi : b ≤ 0xBF = ground arith in
    let p = (c - 0xC0) * 64 + (b - 0x80) in
    let t : ltb p 0x80 ≡ false = ground arith in
    let u : ltb p 0x800 ≡ true = ground arith in
    let first : 0xC0 + p / 64 ≡ c = omega arith in
    let second : 0x80 + p % 64 ≡ b = omega arith in
    (p, omega arith, rw (t, u) (rw (first, second) refl))

decode_three :
    (c a b : ℕ) (rest : Bytes)
    → 0xE0 ≤ c
    → c < 0xF0
    → (is_continuation a && is_continuation b && not (c == 0xE0 && leb a 0x9F)) ≡ true
    → Fronts c (a ∷ b ∷ rest) rest
unfolding encode
decode_three c a b rest lo hi q =
    let a_lo : 0x80 ≤ a = ground arith in
    let a_hi : a ≤ 0xBF = ground arith in
    let b_lo : 0x80 ≤ b = ground arith in
    let b_hi : b ≤ 0xBF = ground arith in
    let p = (c - 0xE0) * 4096 + (a - 0x80) * 64 + (b - 0x80) in
    let large : 0x800 ≤ p = ground arith in
    let t : ltb p 0x80 ≡ false = ground arith in
    let u : ltb p 0x800 ≡ false = ground arith in
    let v : ltb p 0x10000 ≡ true = ground arith in
    let first : 0xE0 + p / 4096 ≡ c = omega arith in
    let second : 0x80 + p / 64 % 64 ≡ a = omega arith in
    let third : 0x80 + p % 64 ≡ b = omega arith in
    (p, omega arith, rw (t, u, v) (rw (first, second, third) refl))

decode_four :
    (c a b d : ℕ) (rest : Bytes)
    → 0xF0 ≤ c
    → c < 0xF5
    → (is_continuation a
        && is_continuation b
        && is_continuation d
        && not (c == 0xF0 && leb a 0x8F || c == 0xF4 && ltb 0x8F a))
      ≡ true
    → Fronts c (a ∷ b ∷ d ∷ rest) rest
unfolding encode
decode_four c a b d rest lo hi q =
    let a_lo : 0x80 ≤ a = ground arith in
    let a_hi : a ≤ 0xBF = ground arith in
    let b_lo : 0x80 ≤ b = ground arith in
    let b_hi : b ≤ 0xBF = ground arith in
    let d_lo : 0x80 ≤ d = ground arith in
    let d_hi : d ≤ 0xBF = ground arith in
    let p = (c - 0xF0) * 262144 + (a - 0x80) * 4096 + (b - 0x80) * 64 + (d - 0x80) in
    let large : 0x10000 ≤ p = ground arith in
    let small : p < 0x110000 = ground arith in
    let t : ltb p 0x80 ≡ false = ground arith in
    let u : ltb p 0x800 ≡ false = ground arith in
    let v : ltb p 0x10000 ≡ false = ground arith in
    let first : 0xF0 + p / 262144 ≡ c = omega arith in
    let second : 0x80 + p / 4096 % 64 ≡ a = omega arith in
    let third : 0x80 + p / 64 % 64 ≡ b = omega arith in
    let fourth : 0x80 + p % 64 ≡ d = omega arith in
    (p, small, rw (t, u, v) (rw (first, second, third, fourth) refl))

-- A round that goes on by a test has passed the test.
if_some : (b : Bool) (x y : Bytes) → (if b then some x else none) ≡ some y → (b ≡ true) × (x ≡ y)
if_some true x y h = (refl, some-injective h)
if_some false x y h = cc

module _ (c : ℕ) (h : c < 256) (rest : Bytes) where
  front_two :
      (cs : Bytes)
      → All (λ x. x < 256) cs
      → 0xC2 ≤ c
      → c < 0xE0
      → next_sequence c cs ≡ some rest
      → Fronts c cs rest
  front_two [] k lo hi e =
      absurd (none_is_not_some (sym (next_cut c h [] 2 (ground arith) (omega arith)) ∙ e))
  front_two (b ∷ cs) k lo hi e =
      let (q, same) = if_some (is_continuation b) cs rest (sym (next_two c h b cs k.0 lo hi) ∙ e) in
      subst (Fronts c (b ∷ cs)) same (decode_two c b cs lo hi q)

  front_three :
      (cs : Bytes)
      → All (λ x. x < 256) cs
      → 0xE0 ≤ c
      → c < 0xF0
      → next_sequence c cs ≡ some rest
      → Fronts c cs rest
  front_three [] k lo hi e =
      absurd (none_is_not_some (sym (next_cut c h [] 3 (ground arith) (omega arith)) ∙ e))
  front_three (a ∷ []) k lo hi e =
      absurd (none_is_not_some (sym (next_cut c h (a ∷ []) 3 (ground arith) (omega arith)) ∙ e))
  front_three (a ∷ b ∷ cs) k lo hi e =
      let (q, same) =
        if_some (is_continuation a && is_continuation b && not (c == 0xE0 && leb a 0x9F)) cs rest
          (sym (next_three c h a b cs k.0 k.1.0 lo hi) ∙ e) in
      subst (Fronts c (a ∷ b ∷ cs)) same (decode_three c a b cs lo hi q)

  front_four :
      (cs : Bytes)
      → All (λ x. x < 256) cs
      → 0xF0 ≤ c
      → c < 0xF5
      → next_sequence c cs ≡ some rest
      → Fronts c cs rest
  front_four (a ∷ b ∷ d ∷ cs) k lo hi e =
      let (q, same) =
        if_some
          (is_continuation a
            && is_continuation b
            && is_continuation d
            && not (c == 0xF0 && leb a 0x8F || c == 0xF4 && ltb 0x8F a))
          cs rest (sym (next_four c h a b d cs k.0 k.1.0 k.1.1.0 lo hi) ∙ e) in
      subst (Fronts c (a ∷ b ∷ d ∷ cs)) same (decode_four c a b d cs lo hi q)
  front_four [] k lo hi e =
      absurd (none_is_not_some (sym (next_cut c h [] 4 (ground arith) (omega arith)) ∙ e))
  front_four (a ∷ []) k lo hi e =
      absurd (none_is_not_some (sym (next_cut c h (a ∷ []) 4 (ground arith) (omega arith)) ∙ e))
  front_four (a ∷ b ∷ []) k lo hi e =
      absurd (none_is_not_some (sym (next_cut c h (a ∷ b ∷ []) 4 (ground arith) (omega arith)) ∙ e))

  front_one : (cs : Bytes) → c < 0x80 → next_sequence c cs ≡ some rest → Fronts c cs rest
  unfolding encode
  front_one cs lo e =
      let same : cs ≡ rest = some-injective (sym (next_one c h cs lo) ∙ e) in
      let t : ltb c 0x80 ≡ true = ground arith in
      subst (Fronts c cs) same (c, omega arith, rw t refl)

  no_lead : (cs : Bytes) → lead c ≡ none → next_sequence c cs ≡ some rest → ⊥
  no_lead cs n e = none_is_not_some (sym (next_none c h cs n) ∙ e)

  -- A round of the loop goes on only where a code point is encoded at the front.
  pub next_sequence-Fronts :
      (cs : Bytes) → All (λ x. x < 256) cs → next_sequence c cs ≡ some rest → Fronts c cs rest
  next_sequence-Fronts cs k e = elim (Bool-cases (ltb c 0x80)) [
    | inl a ↦ front_one cs (ground arith) e
    | inr a ↦ elim (Bool-cases (ltb c 0xC2)) [
      | inl b ↦ absurd (no_lead cs (rw (a, b) refl) e)
      | inr b ↦ elim (Bool-cases (ltb c 0xE0)) [
        | inl d ↦ front_two cs k (ground arith) (ground arith) e
        | inr d ↦ elim (Bool-cases (ltb c 0xF0)) [
          | inl f ↦ front_three cs k (ground arith) (ground arith) e
          | inr f ↦ elim (Bool-cases (ltb c 0xF5)) [
            | inl g ↦ front_four cs k (ground arith) (ground arith) e
            | inr g ↦ absurd (no_lead cs (rw (a, b, d, f, g) refl) e)
          ]
        ]
      ]
    ]
  ]

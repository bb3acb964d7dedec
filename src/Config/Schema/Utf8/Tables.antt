-- ===== src/Config/Schema/Utf8/Tables.antt =====
-- The tests on bits in `count_utf8_codepoints` as ranges of bytes, by a check of all bytes.
use Prim.Native.Nat.{bit_and}
use remote_tool.Prelude.{
  ℕ, zero, suc, ◌≤◌, ◌<◌, ◌≡◌, refl, Bool, true, false, not, ◌&&◌, Option, none, some, leb, ltb,
  ◌==◌, if◌then◌else◌, arith, Bool-cases, inl, inr, ==_iff,
}
use remote_tool.Config.Schema.Utf8.{sequence_length}

-- Whether a test passes for each byte up to some value.
bytes_pass : (ℕ → Bool) → ℕ → Bool
bytes_pass test zero = test zero
bytes_pass test (suc top) = bytes_pass test top && test (suc top)

byte_passes : (test : ℕ → Bool) (top c : ℕ) → c ≤ top → bytes_pass test top ≡ true → test c ≡ true
unfolding bytes_pass
byte_passes test zero c small pass = let e : c ≡ 0 = omega arith in rw e pass
byte_passes test (suc top) c small pass = elim (Bool-cases (c == suc top)) [
  | inl e ↦ rw ((==_iff c (suc top)).0 e) (ground (arith, pass))
  | inr e ↦ byte_passes test top c (ground (arith, e, small)) (ground (arith, pass))
]

abbrev agree : Bool → Bool → Bool
agree a b = if a then b else not b

agree_eq : (a b : Bool) → agree a b ≡ true → a ≡ b
agree_eq true b h = ground arith
agree_eq false b h = ground arith

abbrev same_option : Option ℕ → Option ℕ → Bool
same_option none none = true
same_option (some m) (some n) = m == n
same_option _ _ = false

same_option_eq : (o p : Option ℕ) → same_option o p ≡ true → o ≡ p
same_option_eq none none h = refl
same_option_eq none (some n) h = cc
same_option_eq (some m) none h = cc
same_option_eq (some m) (some n) h = ground arith

-- The leading bytes of sequences of one to four bytes.
abbrev pub lead : ℕ → Option ℕ
lead c =
    if ltb c 0x80
    then some 1
    else if ltb c 0xC2
    then none
    else if ltb c 0xE0
    then some 2
    else if ltb c 0xF0
    then some 3
    else if ltb c 0xF5
    then some 4
    else none

lead_table : bytes_pass (λ c. same_option (sequence_length c) (lead c)) 255 ≡ true
unfolding bytes_pass sequence_length
lead_table = refl

continue_table :
    bytes_pass (λ c. agree (bit_and c 0xC0 == 0x80) (leb 0x80 c && leb c 0xBF)) 255 ≡ true
unfolding bytes_pass
continue_table = refl

low3_table : bytes_pass (λ c. agree (bit_and c 0xE0 == 0x80) (leb 0x80 c && leb c 0x9F)) 255 ≡ true
unfolding bytes_pass
low3_table = refl

low4_table : bytes_pass (λ c. agree (bit_and c 0xF0 == 0x80) (leb 0x80 c && leb c 0x8F)) 255 ≡ true
unfolding bytes_pass
low4_table = refl

module _ (c : ℕ) (h : c < 256) where
  pub continues : (bit_and c 0xC0 == 0x80) ≡ (leb 0x80 c && leb c 0xBF)
  continues = agree_eq _ _ (byte_passes _ 255 c (omega arith) continue_table)

  pub low3 : (bit_and c 0xE0 == 0x80) ≡ (leb 0x80 c && leb c 0x9F)
  low3 = agree_eq _ _ (byte_passes _ 255 c (omega arith) low3_table)

  pub low4 : (bit_and c 0xF0 == 0x80) ≡ (leb 0x80 c && leb c 0x8F)
  low4 = agree_eq _ _ (byte_passes _ 255 c (omega arith) low4_table)

  pub sequence_length-lead : sequence_length c ≡ lead c
  sequence_length-lead = same_option_eq _ _ (byte_passes _ 255 c (omega arith) lead_table)

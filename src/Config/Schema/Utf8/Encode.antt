-- ===== src/Config/Schema/Utf8/Encode.antt =====
-- UTF-8 as a reference: the bytes of a code point. `next_sequence` takes them off the front.
use remote_tool.Prelude.{
  ℕ, ◌+◌, ◌/◌, ◌%◌, ◌≤◌, ◌<◌, ◌≡◌, refl, Bool, not, ◌&&◌, ◌||◌, none, some, [], ◌∷◌, Bytes, length,
  leb, ltb, ◌==◌, if◌then◌else◌, arith,
}
use remote_tool.Config.Schema.Utf8.{
  all_continue, is_excluded, sequence_accepted, after_sequence, next_sequence,
}
use remote_tool.Config.Schema.Utf8.Tables.{continues, low3, low4, sequence_length-lead, lead}

unfoldable pub encode : ℕ → Bytes
encode p =
    if ltb p 0x80
    then p ∷ []
    else if ltb p 0x800
    then (0xC0 + p / 64) ∷ (0x80 + p % 64) ∷ []
    else if ltb p 0x10000
    then (0xE0 + p / 4096) ∷ (0x80 + p / 64 % 64) ∷ (0x80 + p % 64) ∷ []
    else (0xF0 + p / 262144) ∷ (0x80 + p / 4096 % 64) ∷ (0x80 + p / 64 % 64) ∷ (0x80 + p % 64) ∷ []

-- A round of the loop on a sequence of each length, read as ranges.
next_sequence-lead :
    (c : ℕ) (cs : Bytes) → c < 256 → next_sequence c cs ≡ after_sequence (lead c) c cs
unfolding next_sequence
next_sequence-lead c cs h = rw (sequence_length-lead c h) refl

abbrev pub is_continuation : ℕ → Bool
is_continuation b = leb 0x80 b && leb b 0xBF

module _ (c : ℕ) (h : c < 256) where
  pub next_one : (rest : Bytes) → c < 0x80 → next_sequence c rest ≡ some rest
  unfolding after_sequence sequence_accepted all_continue is_excluded
  next_one rest low = rw (next_sequence-lead c rest h) (ground arith)

  pub next_two :
      (b : ℕ) (rest : Bytes)
      → b < 256
      → 0xC2 ≤ c
      → c < 0xE0
      → next_sequence c (b ∷ rest) ≡ (if is_continuation b then some rest else none)
  unfolding after_sequence sequence_accepted all_continue is_excluded
  next_two b rest hb lo hi = rw (next_sequence-lead c (b ∷ rest) h) (ground (arith, continues b hb))

  pub next_three :
      (a b : ℕ) (rest : Bytes)
      → a < 256
      → b < 256
      → 0xE0 ≤ c
      → c < 0xF0
      → next_sequence c (a ∷ b ∷ rest) ≡ (
          if is_continuation a && is_continuation b && not (c == 0xE0 && leb a 0x9F)
          then some rest
          else none)
  unfolding after_sequence sequence_accepted all_continue is_excluded
  next_three a b rest ha hb lo hi =
      rw (next_sequence-lead c (a ∷ b ∷ rest) h)
        (ground (arith, continues a ha, continues b hb, low3 a ha))

  pub next_four :
      (a b d : ℕ) (rest : Bytes)
      → a < 256
      → b < 256
      → d < 256
      → 0xF0 ≤ c
      → c < 0xF5
      → next_sequence c (a ∷ b ∷ d ∷ rest) ≡ (
          if is_continuation a
            && is_continuation b
            && is_continuation d
            && not (c == 0xF0 && leb a 0x8F || c == 0xF4 && ltb 0x8F a)
          then some rest
          else none)
  unfolding after_sequence sequence_accepted all_continue is_excluded
  next_four a b d rest ha hb hd lo hi =
      rw (next_sequence-lead c (a ∷ b ∷ d ∷ rest) h)
        (ground (arith, continues a ha, continues b hb, continues d hd, low4 a ha))

  -- A sequence that is cut off is refused, and so is a byte that leads none.
  pub next_cut :
      (cs : Bytes) (n : ℕ) → lead c ≡ some n → length cs + 1 < n → next_sequence c cs ≡ none
  unfolding after_sequence sequence_accepted
  next_cut cs n e short = rw (next_sequence-lead c cs h) (rw e (ground arith))

  pub next_none : (cs : Bytes) → lead c ≡ none → next_sequence c cs ≡ none
  unfolding after_sequence
  next_none cs e = rw (next_sequence-lead c cs h) (rw e refl)

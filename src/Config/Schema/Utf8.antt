-- ===== src/Config/Schema/Utf8.antt =====
-- `count_utf8_codepoints` of src/config/config_schema.cpp. The loop takes what is left of the text
-- where the source has an index into it; each round that goes on takes a byte at least, so the length
-- of the text is fuel enough.
pub mod Tables
pub mod Encode
pub mod Decode
pub mod Exact
use Prim.Native.Nat.{bit_and}
use remote_tool.Prelude.{
  ℕ, zero, suc, ◌+◌, ◌-◌, Bool, true, false, not, ◌&&◌, ◌||◌, Option, none, some, [], ◌∷◌, Bytes,
  length, get_or, take, drop, leb, ltb, ◌==◌, if◌then◌else◌,
}

-- The length of the sequence that a byte leads, by its leading bits.
unfoldable pub sequence_length : ℕ → Option ℕ
sequence_length c =
    if ltb c 0x80
    then some 1
    else if bit_and c 0xE0 == 0xC0
    then (if ltb c 0xC2 then none else some 2)
    else if bit_and c 0xF0 == 0xE0
    then some 3
    else if bit_and c 0xF8 == 0xF0
    then (if ltb 0xF4 c then none else some 4)
    else none

unfoldable pub all_continue : Bytes → Bool
all_continue [] = true
all_continue (c ∷ cs) = bit_and c 0xC0 == 0x80 && all_continue cs

-- Overlong sequences of three and four bytes, and those above U+10FFFF.
unfoldable pub is_excluded : ℕ → ℕ → ℕ → Bool
is_excluded len c b1 =
    len == 3 && c == 0xE0 && bit_and b1 0xE0 == 0x80
    || len == 4 && (c == 0xF0 && bit_and b1 0xF0 == 0x80 || c == 0xF4 && ltb 0x8F b1)

-- The bytes after the leading one of a sequence.
unfoldable pub sequence_accepted : ℕ → ℕ → Bytes → Bool
unfolding all_continue is_excluded
sequence_accepted len c cs =
    leb len (length cs + 1)
    && all_continue (take (len - 1) cs)
    && not (is_excluded len c (get_or cs 0 0))

-- What is left after a sequence whose leading byte says its length.
unfoldable pub after_sequence : Option ℕ → ℕ → Bytes → Option Bytes
unfolding sequence_accepted
after_sequence none c cs = none
after_sequence (some len) c cs =
    if sequence_accepted len c cs then some (drop (len - 1) cs) else none

-- One round of the loop: what is left after the sequence at the front.
unfoldable pub next_sequence : ℕ → Bytes → Option Bytes
unfolding sequence_length after_sequence
next_sequence c cs = after_sequence (sequence_length c) c cs

-- The rest of the loop, unless it has returned.
abbrev go_on : Option Bytes → (Bytes → Option ℕ) → Option ℕ
go_on none k = none
go_on (some rest) k = k rest

unfoldable pub count_loop : ℕ → Bytes → ℕ → Option ℕ
unfolding next_sequence
count_loop fuel [] count = some count
count_loop zero (c ∷ cs) count = none
count_loop (suc fuel) (c ∷ cs) count =
    go_on (next_sequence c cs) (λ rest. count_loop fuel rest (count + 1))

unfoldable pub count_utf8_codepoints : Bytes → Option ℕ
unfolding count_loop
count_utf8_codepoints s = count_loop (length s) s 0

-- ===== src/Protocol/Frame/Local.antt =====
-- What one round of the decoder's loop depends on, and what it takes out of the buffer.
use remote_tool.Prelude.{
  ℕ, ◌+◌, ◌≤◌, ◌<◌, ◌≡◌, refl, ◌⊎◌, ◌++◌, arith, get_or, take, drop, false, Bytes, length,
  length-append, length-drop, take-append, drop-append, get_or-append, none, some, Bool-cases, ltb,
  inl, inr, Option, Option-cases,
}
use remote_tool.Protocol.Frame.{
  IsAlive, FrameHeader, Frame, Next, more, refused, found, Refusal, parse_header, check_header,
  take_frame, after_check, after_header, next_frame,
}

-- A header is read from its 16 bytes alone.
pub parse_header-append :
    (buf later : Bytes) → 16 ≤ length buf → parse_header (buf ++ later) ≡ parse_header buf
unfolding parse_header
parse_header-append buf later h =
    rw
      (
        same 0 (omega arith),
        same 1 (omega arith),
        same 2 (omega arith),
        same 3 (omega arith),
        same 4 (omega arith),
        same 5 (omega arith),
        same 6 (omega arith),
        same 7 (omega arith),
        same 8 (omega arith),
        same 9 (omega arith),
        same 10 (omega arith),
        same 11 (omega arith),
        same 12 (omega arith),
        same 13 (omega arith),
        same 14 (omega arith),
        same 15 (omega arith),
      )
      refl
  where
    same : (i : ℕ) → i < 16 → get_or (buf ++ later) i 0 ≡ get_or buf i 0
    same i lt = get_or-append buf later i 0 (omega arith)

pub Next-cases :
    (n : Next)
    → (n ≡ more)
      ⊎ ((r : Refusal) × (n ≡ refused r))
      ⊎ ((f : Frame) × (rest : Bytes) × (n ≡ found f rest))
Next-cases more = inl refl
Next-cases (refused r) = inr (inl (r, refl))
Next-cases (found f rest) = inr (inr (f, rest, refl))

-- What a round decides stays decided when more bytes follow.
abbrev pub Extends : Next → Next → Bytes → Type 0
Extends more n later = Unit {0}
Extends (refused r) n later = n ≡ refused r
Extends (found f rest) n later = n ≡ found f (rest ++ later)

take_frame-Extends :
    (h : FrameHeader) (buf later : Bytes)
    → Extends (take_frame h buf) (take_frame h (buf ++ later)) later
unfolding take_frame
take_frame-Extends h buf later = elim (Bool-cases (ltb (length buf) (16 + h.payload_length))) [
  | inl short ↦ rw short tt
  | inr enough ↦ rw (enough, enough_later enough, payload_same enough, rest_same enough) refl
]
  where
    enough_later :
        ltb (length buf) (16 + h.payload_length) ≡ false
        → ltb (length (buf ++ later)) (16 + h.payload_length) ≡ false
    enough_later e = ground (arith, length-append buf later)

    rest_same :
        ltb (length buf) (16 + h.payload_length) ≡ false
        → drop (16 + h.payload_length) (buf ++ later) ≡ drop (16 + h.payload_length) buf ++ later
    rest_same e = drop-append (16 + h.payload_length) buf later (ground arith)

    payload_same :
        ltb (length buf) (16 + h.payload_length) ≡ false
        → take h.payload_length (drop 16 (buf ++ later)) ≡ take h.payload_length (drop 16 buf)
    payload_same e =
        rw (drop-append 16 buf later (ground arith))
          (take-append h.payload_length (drop 16 buf) later (ground (arith, length-drop 16 buf)))

after_check-Extends :
    (o : Option Refusal) (h : FrameHeader) (buf later : Bytes)
    → Extends (after_check o h buf) (after_check o h (buf ++ later)) later
unfolding after_check
after_check-Extends none h buf later = take_frame-Extends h buf later
after_check-Extends (some r) h buf later = refl

after_header-Extends :
    (o : Option FrameHeader) (buf later : Bytes)
    → Extends (after_header o buf) (after_header o (buf ++ later)) later
unfolding after_header
after_header-Extends none buf later = refl
after_header-Extends (some h) buf later = after_check-Extends (check_header h) h buf later

pub next_frame-Extends :
    (buf later : Bytes) → Extends (next_frame buf) (next_frame (buf ++ later)) later
unfolding next_frame
next_frame-Extends buf later = elim (Bool-cases (ltb (length buf) 16)) [
  | inl short ↦ rw short tt
  | inr enough ↦
      rw (enough, enough_later enough, parse_header-append buf later (ground arith))
        (after_header-Extends (parse_header buf) buf later)
]
  where
    enough_later : ltb (length buf) 16 ≡ false → ltb (length (buf ++ later)) 16 ≡ false
    enough_later e = ground (arith, length-append buf later)

-- What holds of a frame that was found, of its bytes and of those behind it.
abbrev pub Found {ℓ} : (Frame → Bytes → Type ℓ) → Next → Type ℓ
Found P more = Unit
Found P (refused r) = Unit
Found P (found f rest) = P f rest

-- The frame that `take_frame` cuts off.
take_frame-Found {ℓ} :
    (P : Frame → Bytes → Type ℓ) (h : FrameHeader) (buf : Bytes)
    → (16 + h.payload_length ≤ length buf
        → P
            (record { header = h; payload = take h.payload_length (drop 16 buf) })
            (drop (16 + h.payload_length) buf))
    → Found P (take_frame h buf)
unfolding take_frame
take_frame-Found P h buf k = elim (Bool-cases (ltb (length buf) (16 + h.payload_length))) [
  | inl short ↦ rw short tt
  | inr enough ↦ rw enough (k (ground arith))
]

-- To show a fact of every frame that a round finds, show it of a header that was parsed and passed
-- the checks, and whose payload is there.
pub next_frame-Found {ℓ} :
    (P : Frame → Bytes → Type ℓ) (buf : Bytes)
    → ((h : FrameHeader)
        → parse_header buf ≡ some h
        → check_header h ≡ none
        → 16 + h.payload_length ≤ length buf
        → P
            (record { header = h; payload = take h.payload_length (drop 16 buf) })
            (drop (16 + h.payload_length) buf))
    → Found P (next_frame buf)
unfolding next_frame after_header after_check
next_frame-Found P buf k = elim (Bool-cases (ltb (length buf) 16)) [
  | inl short ↦ rw short tt
  | inr enough ↦ rw enough (elim (Option-cases (parse_header buf)) [
    | inl e ↦ rw (e, after_header) tt
    | inr (h, e) ↦
        rw (e, after_header)
          (elim (Option-cases (check_header h)) [
            | inl c ↦ rw (c, after_check) (take_frame-Found P h buf (k h e c))
            | inr (r, c) ↦ rw (c, after_check) tt
          ])
  ])
]

-- A refusal's status is one that ends the connection.
abbrev pub Dead : Next → Type 0
Dead (refused r) = ¬ IsAlive r.0
Dead _ = Unit

check_header-Dead : (h : FrameHeader) (r : Refusal) → check_header h ≡ some r → ¬ IsAlive r.0
unfolding check_header
check_header-Dead h r e = ground arith

take_frame-Dead : (h : FrameHeader) (buf : Bytes) → Dead (take_frame h buf)
unfolding take_frame
take_frame-Dead h buf = elim (Bool-cases (ltb (length buf) (16 + h.payload_length))) [
  | inl e ↦ rw e tt
  | inr e ↦ rw e tt
]

after_check-Dead :
    (o : Option Refusal) (h : FrameHeader) (buf : Bytes)
    → ((r : Refusal) → o ≡ some r → ¬ IsAlive r.0)
    → Dead (after_check o h buf)
unfolding after_check
after_check-Dead none h buf k = take_frame-Dead h buf
after_check-Dead (some r) h buf k = k r refl

after_header-Dead : (o : Option FrameHeader) (buf : Bytes) → Dead (after_header o buf)
unfolding after_header
after_header-Dead none buf = λ a. a
after_header-Dead (some h) buf = after_check-Dead (check_header h) h buf (check_header-Dead h)

pub next_frame-Dead : (buf : Bytes) → Dead (next_frame buf)
unfolding next_frame
next_frame-Dead buf = elim (Bool-cases (ltb (length buf) 16)) [
  | inl short ↦ rw short tt
  | inr enough ↦ rw enough (after_header-Dead (parse_header buf) buf)
]

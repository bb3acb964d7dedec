-- ===== src/Protocol/Frame/Lossless.antt =====
-- The decoder drops no byte and makes none up.
use remote_tool.Prelude.{
  ℕ, suc, ◌+◌, ◌*◌, ◌/◌, ◌%◌, ◌^◌, ◌≤◌, ◌<◌, ◌≡◌, refl, ap, sym, ◌∙◌, inl, inr, List, ◌++◌,
  append_assoc, arith, Bytes, All, All-append, All-drop, All_get_or, length, length-take,
  length-drop, take, drop, take-append-drop, drop_add, take-window, get_or, Option, none, some,
  zero,
}
use remote_tool.Protocol.Frame.Local.{Next-cases, Found, next_frame-Found}
use remote_tool.Protocol.Frame.Scan.{scan, outcome}
use remote_tool.Protocol.Frame.Stream.{scan_all, consume-scan}
use remote_tool.Protocol.Frame.RoundTrip.{encode_all, check_header-payload}
use remote_tool.Protocol.Frame.{
  FrameHeader, Frame, Refusal, FrameDecoder, put_be32, put_be16, encode_frame, parse_header,
  check_header, next_frame, consume,
}

abbrev pub IsByte : ℕ → Type 0
IsByte b = b < 256

abbrev b : Bytes → ℕ → ℕ
b buf i = get_or buf i 0

abbrev be32 : ℕ → ℕ → ℕ → ℕ → ℕ
be32 x y z w = x * 2 ^ 24 + y * 2 ^ 16 + z * 2 ^ 8 + w

-- The four bytes of a big-endian number are the ones that it was read from.
be32_split :
    (v x y z w : ℕ)
    → v ≡ be32 x y z w
    → x < 256
    → y < 256
    → z < 256
    → w < 256
    → (v / 2 ^ 24 % 256 ≡ x) × (v / 2 ^ 16 % 256 ≡ y) × (v / 2 ^ 8 % 256 ≡ z) × (v % 256 ≡ w)
be32_split v x y z w e hx hy hz hw = omega arith

parse_header_fields :
    (h : FrameHeader) (buf : Bytes)
    → parse_header buf ≡ some h
    → (0x524D5431 ≡ be32 (b buf 0) (b buf 1) (b buf 2) (b buf 3))
      × (h.version ≡ b buf 4)
      × (h.msg_type ≡ b buf 5)
      × (h.flags ≡ b buf 6 * 2 ^ 8 + b buf 7)
      × (h.session_id ≡ be32 (b buf 8) (b buf 9) (b buf 10) (b buf 11))
      × (h.payload_length ≡ be32 (b buf 12) (b buf 13) (b buf 14) (b buf 15))
unfolding parse_header
parse_header_fields h buf e = ground arith

-- The header that was parsed, and a payload of the size that it states, encode to the bytes read.
encode_frame-parse_header :
    (h : FrameHeader) (buf p : Bytes)
    → All IsByte buf
    → 16 ≤ length buf
    → parse_header buf ≡ some h
    → check_header h ≡ none
    → length p ≡ h.payload_length
    → encode_frame (record { header = h; payload = p }) ≡ take 16 buf ++ p
unfolding encode_frame put_be32 put_be16
encode_frame-parse_header h buf p bytes long e c l =
    let (m, ver, typ, flags, sid, len) = parse_header_fields h buf e in
    let small : length p % 2 ^ 32 ≡ be32 (b buf 12) (b buf 13) (b buf 14) (b buf 15) =
      omega (arith, check_header-payload h c) in
    let ms = be32_split _ _ _ _ _ m (at 0) (at 1) (at 2) (at 3) in
    let ss = be32_split _ _ _ _ _ sid (at 8) (at 9) (at 10) (at 11) in
    let ls = be32_split _ _ _ _ _ small (at 12) (at 13) (at 14) (at 15) in
    let f0 : h.flags / 2 ^ 8 % 256 ≡ b buf 6 = omega (arith, flags, at 6, at 7) in
    let f1 : h.flags % 256 ≡ b buf 7 = omega (arith, flags, at 6, at 7) in
    rw (take-window 16 0 buf long) (
      rw
        (
          ver,
          typ,
          f0,
          f1,
          ss.0,
          ss.1,
          ss.2,
          ss.3,
          ls.0,
          ls.1,
          ls.2,
          ls.3,
          ← ms.0,
          ← ms.1,
          ← ms.2,
          ← ms.3,
        )
        refl)
  where
    at : (i : ℕ) → b buf i < 256
    at i = All_get_or IsByte buf i 0 (omega arith) bytes

abbrev Splits : Bytes → Frame → Bytes → Type 0
Splits buf f rest = (buf ≡ encode_frame f ++ rest) × All IsByte rest

next_frame-Splits : (buf : Bytes) → All IsByte buf → Found (Splits buf) (next_frame buf)
next_frame-Splits buf bytes = next_frame-Found (Splits buf) buf λ h e c enough.
    let p = take h.payload_length (drop 16 buf) in
    let rest = drop (16 + h.payload_length) buf in
    let sized = length-take h.payload_length (drop 16 buf) (omega (arith, length-drop 16 buf)) in
    let again = encode_frame-parse_header h buf p bytes (omega arith) e c sized in
    (
      rw
          (
            again,
            drop_add 16 h.payload_length buf,
            append_assoc (take 16 buf) p _,
            take-append-drop h.payload_length (drop 16 buf),
            take-append-drop 16 buf,
          )
          refl,
      All-drop IsByte (16 + h.payload_length) buf bytes,
    )

scan-Splits :
    (n : ℕ) (buf : Bytes)
    → All IsByte buf
    → buf ≡ encode_all (scan n buf).frames ++ (scan n buf).left
unfolding scan
scan-Splits zero buf bytes = refl
scan-Splits (suc n) buf bytes = elim (Next-cases (next_frame buf)) [
  | inl e ↦ rw (e, scan) refl
  | inr (inl (r, e)) ↦ rw (e, scan) refl
  | inr (inr (f, rest, e)) ↦
      let (split, bytes') = rw e at (next_frame-Splits buf bytes) in
      rw (e, scan)
        (split
          ∙ ap (◌++◌ (encode_frame f)) (scan-Splits n rest bytes')
          ∙ sym
              (append_assoc (encode_frame f) (encode_all (scan n rest).frames) (scan n rest).left))
]

outcome-frames : (fs : List Frame) (o : Option Refusal) → (outcome fs o).frames ≡ fs
outcome-frames fs none = refl
outcome-frames fs (some r) = refl

-- On bytes, whatever they are, and whether or not the call is refused: the bytes that were buffered
-- and the new ones are the encodings of the frames returned, in order, followed by the bytes that
-- are still buffered.
pub consume_lossless :
    (d : FrameDecoder) (chunk : Bytes)
    → All IsByte d.buf
    → All IsByte chunk
    → d.buf ++ chunk ≡ encode_all (consume d chunk).0.frames ++ (consume d chunk).1.buf
consume_lossless d chunk hb hc =
    let buf = d.buf ++ chunk in
    let s = scan_all buf in
    rw (consume-scan d chunk, outcome-frames s.frames s.refusal)
      (scan-Splits (suc (length buf)) buf (All-append IsByte d.buf chunk hb hc))

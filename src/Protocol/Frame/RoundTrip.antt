-- ===== src/Protocol/Frame/RoundTrip.antt =====
-- Encoding and decoding undo one another, frame by frame and over a whole stream.
use remote_tool.Prelude.{
  ℕ, zero, suc, ◌+◌, ◌*◌, ◌/◌, ◌%◌, ◌^◌, ◌≤◌, ◌<◌, ◌≡◌, refl, ap, sym, ◌∙◌, inl, inr, List, [], ◌∷◌,
  ◌++◌, append-nil, append_assoc, arith, Bytes, All, length, length-append, length-drop, take, drop,
  take-append-drop, take-length, drop-length, drop_add, drop-append, none, some, ltb, false,
}
use remote_tool.Protocol.ErrorCode.{ErrorCode}
use remote_tool.Protocol.Frame.Local.{Next-cases, Extends, next_frame-Extends}
use remote_tool.Protocol.Frame.Scan.{scan, after, scan_fuel, scan_starved}
use remote_tool.Protocol.Frame.Stream.{prepend, consume-scan}
use remote_tool.Protocol.Frame.{
  FrameHeader, Frame, more, found, status_of, new_decoder, put_be32, put_be16, encode_frame,
  parse_header, check_header, take_frame, after_header, after_check, next_frame, consume,
}

-- A frame that the protocol allows: its header passes the decoder's checks and states the size of
-- the payload, and its session id is a 32-bit number.
pub record IsWireFrame (f : Frame) : Type 0 where
  pub checked : check_header f.header ≡ none
  pub sized : f.header.payload_length ≡ length f.payload
  pub id_bound : f.header.session_id < 2 ^ 32

-- What `check_header` passes.
pub check_header-flags : (h : FrameHeader) → check_header h ≡ none → h.flags ≡ 0
unfolding check_header
check_header-flags h e = ground arith

pub check_header-payload : (h : FrameHeader) → check_header h ≡ none → h.payload_length ≤ 1048576
unfolding check_header
check_header-payload h e = ground arith

pub length-encode_frame : (f : Frame) → length (encode_frame f) ≡ 16 + length f.payload
unfolding encode_frame put_be32 put_be16
length-encode_frame f = omega arith

be32_bytes :
    (x : ℕ)
    → x < 2 ^ 32
    → x / 2 ^ 24 % 256 * 2 ^ 24 + x / 2 ^ 16 % 256 * 2 ^ 16 + x / 2 ^ 8 % 256 * 2 ^ 8 + x % 256 ≡ x
be32_bytes x h = omega arith

parse_header-encode_frame :
    (f : Frame) (rest : Bytes)
    → IsWireFrame f
    → parse_header (encode_frame f ++ rest) ≡ some f.header
unfolding parse_header encode_frame
parse_header-encode_frame f rest w =
    let small : f.header.payload_length < 2 ^ 32 =
      omega (arith, check_header-payload f.header w.checked) in
    let same : length f.payload % 2 ^ 32 ≡ f.header.payload_length = omega (arith, w.sized) in
    let no_flags = check_header-flags f.header w.checked in
    rw (same, be32_bytes f.header.payload_length small, be32_bytes f.header.session_id w.id_bound)
      (ground arith)

encode_frame_behind : (f : Frame) → drop 16 (encode_frame f) ≡ f.payload
unfolding encode_frame put_be32 put_be16
encode_frame_behind f = refl

drop_16-encode_frame :
    (f : Frame) (rest : Bytes) → drop 16 (encode_frame f ++ rest) ≡ f.payload ++ rest
drop_16-encode_frame f rest =
    drop-append 16 (encode_frame f) rest (omega (arith, length-encode_frame f))
    ∙ ap (λ p. p ++ rest) (encode_frame_behind f)

take_frame-encode_frame :
    (f : Frame) (rest : Bytes)
    → IsWireFrame f
    → take_frame f.header (encode_frame f ++ rest) ≡ found f rest
unfolding take_frame
take_frame-encode_frame f rest w =
    let long : ltb (length (encode_frame f ++ rest)) (16 + f.header.payload_length) ≡ false =
      ground (arith, length-append (encode_frame f) rest, length-encode_frame f, w.sized) in
    rw
      (
        long,
        drop_add 16 f.header.payload_length (encode_frame f ++ rest),
        drop_16-encode_frame f rest,
        w.sized,
        take-length f.payload rest,
        drop-length f.payload rest,
      )
      refl

next_frame-encode_frame :
    (f : Frame) (rest : Bytes) → IsWireFrame f → next_frame (encode_frame f ++ rest) ≡ found f rest
unfolding next_frame after_header after_check
next_frame-encode_frame f rest w =
    let long : ltb (length (encode_frame f ++ rest)) 16 ≡ false =
      ground (arith, length-append (encode_frame f) rest, length-encode_frame f) in
    rw (long, parse_header-encode_frame f rest w, after_header, w.checked, after_check)
      (take_frame-encode_frame f rest w)

abbrev pub encode_all : List Frame → Bytes
encode_all [] = []
encode_all (f ∷ fs) = encode_frame f ++ encode_all fs

scan-encode_all :
    (n m : ℕ) (fs : List Frame) (rest : Bytes)
    → All IsWireFrame fs
    → length (encode_all fs ++ rest) < n
    → length rest < m
    → scan n (encode_all fs ++ rest) ≡ prepend fs (scan m rest)
unfolding scan
scan-encode_all n m [] rest w hn hm = scan_fuel n m rest hn hm
scan-encode_all zero m (f ∷ fs) rest w hn hm = absurd (omega arith)
scan-encode_all (suc n) m (f ∷ fs) rest w hn hm =
    let split = append_assoc (encode_frame f) (encode_all fs) rest in
    let one = next_frame-encode_frame f (encode_all fs ++ rest) w.0 in
    rw (split, one, scan)
      (ap (after f) (
        scan-encode_all n m fs rest w.1
          (omega (
            arith,
            ap length split,
            length-append (encode_frame f) (encode_all fs ++ rest),
            length-encode_frame f,
          ))
          hm))

-- A frame that is cut off anywhere is waited for.
found_rest : (f g : Frame) (a b : Bytes) → found f a ≡ found g b → length a ≡ length b
found_rest f g a b e = ap length (cc)

next_frame_cut :
    (f : Frame) (k : ℕ)
    → IsWireFrame f
    → k < length (encode_frame f)
    → next_frame (take k (encode_frame f)) ≡ more
next_frame_cut f k w short = elim (Next-cases (next_frame cut)) [
  | inl e ↦ e
  | inr (inl (r, e)) ↦ absurd (cc (whole, rw e at seen))
  | inr (inr (g, rest, e)) ↦
      let longer = rw e at seen in
      absurd (
        omega (
          arith,
          length-append rest (drop k (encode_frame f)),
          length-drop k (encode_frame f),
          found_rest f g [] (rest ++ drop k (encode_frame f)) (sym whole ∙ longer),
        ))
]
  where
    cut : Bytes
    cut = take k (encode_frame f)

    seen : Extends (next_frame cut) (next_frame (encode_frame f)) (drop k (encode_frame f))
    seen =
        rw (take-append-drop k (encode_frame f)) at
          (next_frame-Extends cut (drop k (encode_frame f)))

    whole : next_frame (encode_frame f) ≡ found f []
    whole = rw append-nil at (next_frame-encode_frame f [] w)

-- A stream of encoded frames, cut off inside a further one, is decoded to exactly these frames,
-- in order; the bytes of the cut frame, and no others, stay in the buffer; there is no error.
pub consume-encode_all :
    (fs : List Frame) (g : Frame) (k : ℕ)
    → All IsWireFrame fs
    → IsWireFrame g
    → k < length (encode_frame g)
    → consume new_decoder (encode_all fs ++ take k (encode_frame g)) ≡ (
      record { status = status_of fs; error = ErrorCode.ok; frames = fs },
      record { buf = take k (encode_frame g) },
    )
consume-encode_all fs g k ws w short =
    let cut = take k (encode_frame g) in
    rw
      (
        consume-scan new_decoder (encode_all fs ++ cut),
        scan-encode_all (suc (length (encode_all fs ++ cut))) (suc (length cut)) fs cut ws
            (omega arith) (omega arith),
        scan_starved (length cut) cut (next_frame_cut g k w short),
        append-nil,
      )
      refl

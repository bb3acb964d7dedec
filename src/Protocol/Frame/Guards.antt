-- ===== src/Protocol/Frame/Guards.antt =====
-- What the decoder guarantees of any input: what it lets through, how much it keeps, and that it
-- never recovers from a refusal.
use remote_tool.Prelude.{
  ℕ, suc, ◌∷◌, ◌+◌, ◌≤◌, ◌<◌, ◌≡◌, ◌≢◌, refl, List, inl, inr, [], ◌++◌, arith, Bytes, All, length,
  length-drop, length-take, take, drop, Option, none, some, Bool-cases, ltb, Option-cases, ◌⊎◌,
}
use remote_tool.Protocol.Frame.Local.{Found, next_frame-Found, next_frame-Extends}
use remote_tool.Protocol.Frame.Scan.{
  outcome, scan-All, scan-Stopped, scan_alive, scan_refused, scan_refuses,
}
use remote_tool.Protocol.Frame.Stream.{scan_all, consume-scan}
use remote_tool.Protocol.Frame.RoundTrip.{check_header-payload}
use remote_tool.Protocol.Frame.{
  FrameHeader, Frame, Next, more, refused, found, Refusal, IsAlive, FrameDecoder,
  is_control_message, is_session_message, check_header, take_frame, after_check, after_header,
  parse_header, next_frame, consume, buffered, status_of,
}

-- The rules of the protocol for a frame, as PROTOCOL_SPEC.md states them.
pub record IsLegal (f : Frame) : Type 0 where
  pub version_known : f.header.version ≡ 1
  pub no_flags : f.header.flags ≡ 0
  pub payload_whole : length f.payload ≡ f.header.payload_length
  pub payload_bound : f.header.payload_length ≤ 1_048_576
  pub type_known :
      (0x01 ≤ f.header.msg_type) × (f.header.msg_type ≤ 0x06)
      ⊎ (0x10 ≤ f.header.msg_type) × (f.header.msg_type ≤ 0x15)
      ⊎ (f.header.msg_type ≡ 0x20)
  pub control_id : f.header.msg_type ≤ 0x06 → f.header.session_id ≡ 0
  pub session_id : 0x10 ≤ f.header.msg_type → f.header.msg_type ≤ 0x15 → f.header.session_id ≢ 0
  pub data_bounds : f.header.msg_type ≡ 0x13 → (0 < length f.payload) × (length f.payload ≤ 16_384)

check_header-IsLegal :
    (h : FrameHeader) (p : Bytes)
    → check_header h ≡ none
    → length p ≡ h.payload_length
    → IsLegal (record { header = h; payload = p })
unfolding check_header is_control_message is_session_message
check_header-IsLegal h p e l = record {
  version_known = ground arith;
  no_flags = ground arith;
  payload_whole = l;
  payload_bound = ground arith;
  type_known = ground arith;
  control_id = λ c. ground arith;
  session_id = λ c u z. ground arith;
  data_bounds = λ c. ground arith;
}

next_frame-IsLegal : (buf : Bytes) → Found (λ f rest. IsLegal f) (next_frame buf)
next_frame-IsLegal buf =
    next_frame-Found (λ f rest. IsLegal f) buf
      (λ h p c enough.
        check_header-IsLegal h (take h.payload_length (drop 16 buf)) c
          (length-take h.payload_length (drop 16 buf) (omega (arith, length-drop 16 buf))))

outcome-All {ℓ} :
    (P : Frame → Type ℓ) (fs : List Frame) (o : Option Refusal)
    → All P fs
    → All P (outcome fs o).frames
outcome-All P fs none h = h
outcome-All P fs (some r) h = h

-- Whatever bytes arrive, in whatever state of the decoder, every frame that it hands on keeps the
-- rules of the protocol: the version is 1, there are no flags, the payload has the stated size of
-- at most 1 MiB, the type is known, a control message has session id 0 and a session message has
-- another one, and SESSION_DATA carries 1 to 16384 bytes.
pub consume-IsLegal : (d : FrameDecoder) (chunk : Bytes) → All IsLegal (consume d chunk).0.frames
consume-IsLegal d chunk =
    rw (consume-scan d chunk) (outcome-All IsLegal _ _ (scan-All IsLegal next_frame-IsLegal _ _))

-- If a round waits for more bytes, there are less than `size + 1 MiB` of them.
abbrev IsShort : ℕ → Next → Type 0
IsShort size more = size < 16 + 1_048_576
IsShort size (refused r) = Unit
IsShort size (found f rest) = Unit

take_frame-IsShort :
    (h : FrameHeader) (buf : Bytes)
    → h.payload_length ≤ 1_048_576
    → IsShort (length buf) (take_frame h buf)
unfolding take_frame
take_frame-IsShort h buf bound = elim (Bool-cases (ltb (length buf) (16 + h.payload_length))) [
  | inl short ↦ rw short (ground arith)
  | inr enough ↦ rw enough tt
]

after_header-IsShort :
    (o : Option FrameHeader) (buf : Bytes) → IsShort (length buf) (after_header o buf)
unfolding after_header after_check
after_header-IsShort none buf = tt
after_header-IsShort (some h) buf = elim (Option-cases (check_header h)) [
  | inl e ↦ rw (e, after_check) (take_frame-IsShort h buf (check_header-payload h e))
  | inr (r, e) ↦ rw (e, after_check) tt
]

next_frame-IsShort : (buf : Bytes) → IsShort (length buf) (next_frame buf)
unfolding next_frame
next_frame-IsShort buf = elim (Bool-cases (ltb (length buf) 16)) [
  | inl short ↦ rw short (ground arith)
  | inr enough ↦ rw enough (after_header-IsShort (parse_header buf) buf)
]

more-bound : (buf : Bytes) → next_frame buf ≡ more → length buf < 16 + 1_048_576
more-bound buf e = rw e at (next_frame-IsShort buf)

-- After a call that the connection survives, less than one frame of the largest size, which is a
-- header and 1 MiB, stays buffered.
pub buffered-consume :
    (d : FrameDecoder) (chunk : Bytes)
    → IsAlive (consume d chunk).0.status
    → buffered (consume d chunk).1 < 16 + 1_048_576
unfolding buffered
buffered-consume d chunk alive =
    let buf = d.buf ++ chunk in
    let s = scan_all buf in
    let none_refused =
      scan_alive (suc (length buf)) buf (omega arith) (rw (consume-scan d chunk) at alive) in
    rw (consume-scan d chunk)
      (more-bound s.left (rw none_refused at (scan-Stopped (suc (length buf)) buf (omega arith))))

status_of-IsAlive : (fs : List Frame) → IsAlive (status_of fs)
unfolding status_of
status_of-IsAlive [] = tt
status_of-IsAlive (f ∷ fs) = tt

scan_all_refused :
    (buf later : Bytes)
    → ¬ IsAlive (outcome (scan_all buf).frames (scan_all buf).refusal).status
    → let s = scan_all buf in
      let t = scan_all (s.left ++ later) in
      let r = outcome s.frames s.refusal in
      outcome t.frames t.refusal ≡ record { status = r.status; error = r.error; frames = [] }
scan_all_refused buf later dead =
    let s = scan_all buf in
    elim (Option-cases s.refusal) [
      | inl e ↦ absurd (dead (rw e (status_of-IsAlive s.frames)))
      | inr (r, e) ↦
          let stays : next_frame (s.left ++ later) ≡ refused r =
            rw (scan_refused (suc (length buf)) buf r (omega arith) e) at
              (next_frame-Extends s.left later) in
          rw (e, scan_refuses (length (s.left ++ later)) (s.left ++ later) r stays) refl
    ]

-- The decoder never resynchronises. Once a call is refused, every later call is refused with the
-- same status and error and gives no frame, whatever bytes it brings.
pub consume_refused :
    (d : FrameDecoder) (chunk later : Bytes)
    → ¬ IsAlive (consume d chunk).0.status
    → let r = consume d chunk in
      (consume r.1 later).0 ≡ record { status = r.0.status; error = r.0.error; frames = [] }
consume_refused d chunk later dead =
    let s = scan_all (d.buf ++ chunk) in
    rw (consume-scan d chunk, consume-scan (record { buf = s.left }) later)
      (scan_all_refused (d.buf ++ chunk) later (rw (consume-scan d chunk) at dead))

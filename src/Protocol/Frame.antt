-- ===== src/Protocol/Frame.antt =====
-- include/rmt/protocol/frame.h and src/protocol/frame.cpp: the RMT/1 frame codec. A byte is a
-- number below 256; `x >> k` is `x / 2 ^ k`, `& 0xFF` is `% 256`, and an `|` of shifted bytes,
-- whose bits do not overlap, is their sum.
pub mod Local
mod Scan
pub mod Stream
pub mod RoundTrip
pub mod Guards
pub mod Lossless
use remote_tool.Prelude.{
  ℕ, zero, suc, ◌+◌, ◌*◌, ◌/◌, ◌%◌, ◌^◌, Bool, not, ◌&&◌, ◌||◌, Option, none, some, List, [], ◌∷◌,
  ◌++◌, Bytes, length, get_or, take, drop, ltb, ◌==◌, if◌then◌else◌,
}
use remote_tool.Protocol.ErrorCode.{
  ErrorCode, unsupported_version, invalid_frame, frame_too_large, invalid_payload,
  unexpected_message,
}
use remote_tool.Protocol.Msg

abbrev pub magic : ℕ
magic = 0x524D5431

abbrev pub version_1 : ℕ
version_1 = 1

abbrev pub header_size : ℕ
header_size = 16

abbrev pub max_payload_length : ℕ
max_payload_length = 1_048_576

abbrev pub max_session_data_payload : ℕ
max_session_data_payload = 16_384

pub record FrameHeader : Type 0 where
  pub version : ℕ
  pub msg_type : ℕ
  pub flags : ℕ
  pub session_id : ℕ
  pub payload_length : ℕ

pub record Frame : Type 0 where
  pub header : FrameHeader
  pub payload : Bytes

-- A default-constructed header.
abbrev pub default_header : FrameHeader
default_header = record {
  version = version_1;
  msg_type = 0;
  flags = 0;
  session_id = 0;
  payload_length = 0;
}

unfoldable pub put_be32 : Bytes → ℕ → Bytes
put_be32 out v = out ++ ((v / 2 ^ 24) % 256 ∷ (v / 2 ^ 16) % 256 ∷ (v / 2 ^ 8) % 256 ∷ v % 256 ∷ [])

unfoldable pub put_be16 : Bytes → ℕ → Bytes
put_be16 out v = out ++ ((v / 2 ^ 8) % 256 ∷ v % 256 ∷ [])

-- The header's own `payload_length` is not written: the size of the payload is.
unfoldable pub encode_frame : Frame → Bytes
unfolding put_be32 put_be16
encode_frame f =
    let h = f.header in
    let out = put_be32 [] magic in
    let out = out ++ h.version ∷ [] in
    let out = out ++ h.msg_type ∷ [] in
    let out = put_be16 out h.flags in
    let out = put_be32 out h.session_id in
    let out = put_be32 out (length f.payload % 2 ^ 32) in out ++ f.payload

abbrev byte : Bytes → ℕ → ℕ
byte p i = get_or p i 0

abbrev be32_at : Bytes → ℕ → ℕ
be32_at p i = byte p i * 2 ^ 24 + byte p (i + 1) * 2 ^ 16 + byte p (i + 2) * 2 ^ 8 + byte p (i + 3)

-- `none` is the result `false`.
unfoldable pub parse_header : Bytes → Option FrameHeader
parse_header p =
    if be32_at p 0 == magic
    then some (record {
      version = byte p 4;
      msg_type = byte p 5;
      flags = byte p 6 * 2 ^ 8 + byte p 7;
      session_id = be32_at p 8;
      payload_length = be32_at p 12;
    })
    else none

unfoldable pub is_control_message : ℕ → Bool
is_control_message t =
    t == Msg.hello
    || t == Msg.hello_ack
    || t == Msg.heartbeat
    || t == Msg.heartbeat_ack
    || t == Msg.pair_provision
    || t == Msg.pair_provision_ack

unfoldable pub is_session_message : ℕ → Bool
is_session_message t =
    t == Msg.open_session
    || t == Msg.session_opened
    || t == Msg.session_open_failed
    || t == Msg.session_data
    || t == Msg.session_half_close
    || t == Msg.close_session

pub data DecodeStatus : Type 0 where
  ok need_more protocol_error disconnect : DecodeStatus

pub record DecodeResult : Type 0 where
  pub status : DecodeStatus
  pub error : ErrorCode
  pub frames : List Frame

-- Why the loop of `consume` gives up: the status and the error that it returns.
abbrev pub Refusal : Type 0
Refusal = DecodeStatus × ErrorCode

-- The results after which the connection goes on.
abbrev pub IsAlive : DecodeStatus → Type 0
IsAlive ok = Unit
IsAlive need_more = Unit
IsAlive protocol_error = ⊥
IsAlive disconnect = ⊥

-- The checks of `consume` on a parsed header, in their order; `none` where all pass.
unfoldable pub check_header : FrameHeader → Option Refusal
check_header h =
    if not (h.version == version_1)
    then some (disconnect, unsupported_version)
    else if not (h.flags == 0)
    then some (protocol_error, invalid_frame)
    else if ltb max_payload_length h.payload_length
    then some (protocol_error, frame_too_large)
    else if not (is_control_message h.msg_type)
        && not (is_session_message h.msg_type)
        && not (h.msg_type == Msg.protocol_error)
    then some (protocol_error, unexpected_message)
    else if not (h.msg_type == Msg.protocol_error)
        && is_control_message h.msg_type
        && not (h.session_id == 0)
    then some (protocol_error, invalid_payload)
    else if not (h.msg_type == Msg.protocol_error)
        && is_session_message h.msg_type
        && h.session_id == 0
    then some (protocol_error, invalid_payload)
    else if h.msg_type == Msg.session_data && h.payload_length == 0
    then some (protocol_error, invalid_payload)
    else if h.msg_type == Msg.session_data && ltb max_session_data_payload h.payload_length
    then some (protocol_error, frame_too_large)
    else none

-- What one round of the loop of `consume` finds at the front of the buffer.
pub data Next : Type 0 where
  more : Next
  refused : Refusal → Next
  found : Frame → Bytes → Next

-- The payload is cut off once all of it is there.
unfoldable pub take_frame : FrameHeader → Bytes → Next
take_frame h buf =
    let total = header_size + h.payload_length in
    if ltb (length buf) total
    then more
    else found (record { header = h; payload = take h.payload_length (drop header_size buf) })
        (drop total buf)

unfoldable pub after_check : Option Refusal → FrameHeader → Bytes → Next
after_check (some r) h buf = refused r
after_check none h buf = take_frame h buf

unfoldable pub after_header : Option FrameHeader → Bytes → Next
after_header none buf = refused (disconnect, invalid_frame)
after_header (some h) buf = after_check (check_header h) h buf

unfoldable pub next_frame : Bytes → Next
next_frame buf = if ltb (length buf) header_size then more else after_header (parse_header buf) buf

-- `frames.empty() ? NeedMore : Ok`.
unfoldable pub status_of : List Frame → DecodeStatus
status_of [] = need_more
status_of (f ∷ fs) = ok

-- The loop. Each round that goes on takes a header at least out of the buffer, so more fuel than
-- the buffer has bytes is never used up.
unfoldable pub consume_loop : ℕ → Bytes → List Frame → DecodeResult × Bytes
unfolding status_of
consume_loop zero buf fs =
    (record { status = status_of fs; error = ErrorCode.ok; frames = fs }, buf)
consume_loop (suc fuel) buf fs = elim (next_frame buf) [
  | more ↦ (record { status = status_of fs; error = ErrorCode.ok; frames = fs }, buf)
  | refused r ↦ (record { status = r.0; error = r.1; frames = fs }, buf)
  | found f rest ↦ consume_loop fuel rest (fs ++ f ∷ [])
]

pub record FrameDecoder : Type 0 where
  pub buf : Bytes

abbrev pub new_decoder : FrameDecoder
new_decoder = record { buf = [] }

unfoldable pub consume : FrameDecoder → Bytes → DecodeResult × FrameDecoder
consume d chunk =
    let buf = d.buf ++ chunk in
    let (result, left) = consume_loop (suc (length buf)) buf [] in (result, record { buf = left })

unfoldable pub reset : FrameDecoder → FrameDecoder
reset d = record { buf = [] }

unfoldable pub buffered : FrameDecoder → ℕ
buffered d = length d.buf

-- ===== src/Protocol/Delivery.antt =====
-- From a message to the bytes of the connection and back: messages.cpp and frame.cpp together.
use remote_tool.Prelude.{
  ℕ, ◌≤◌, ◌<◌, ◌≡◌, ◌^◌, refl, ◌∙◌, Bool, [], ◌∷◌, append-nil, arith, Bytes, length,
}
use remote_tool.Protocol.Msg
use remote_tool.Protocol.ErrorCode
use remote_tool.Protocol.Frame.{
  Frame, DecodeStatus, new_decoder, encode_frame, check_header, status_of, consume,
  is_control_message, is_session_message,
}
use remote_tool.Protocol.Frame.RoundTrip.{IsWireFrame, length-encode_frame, consume-encode_all}
use remote_tool.Protocol.Messages.Connection.{json_frame}
use remote_tool.Protocol.Messages.Extract.{
  Decoded, check_frame_type, parse_payload_json, decode_preamble,
}
use remote_tool.Protocol.Messages.Session.{
  OpenSessionMessage, CloseSessionMessage, encode_open_session, decode_open_session,
  encode_close_session, decode_close_session,
}
use remote_tool.Protocol.Messages.ReadBack.RoundTrip.{
  for_session, decode_close_session-encode_close_session,
}
use remote_tool.Protocol.Messages.ReadBack.Wire.{
  IsValidOpen, decode_open_session-encode_open_session,
}

-- The header as it arrives: with the size of the payload.
abbrev pub sized : Frame → Frame
sized f = record f { header = record f.header { payload_length = length f.payload } }

encode_frame-sized : (f : Frame) → encode_frame (sized f) ≡ encode_frame f
unfolding encode_frame
encode_frame-sized f = refl

delivered :
    (f : Frame)
    → IsWireFrame (sized f)
    → consume new_decoder (encode_frame f) ≡ (
      record { status = DecodeStatus.ok; error = ErrorCode.ok; frames = sized f ∷ [] },
      new_decoder,
    )
unfolding status_of
delivered f w =
    let one =
      consume-encode_all (sized f ∷ []) (sized f) 0 (w, tt) w
        (omega (arith, length-encode_frame (sized f))) in
    rw (append-nil, append-nil, encode_frame-sized f) at one

-- The decoders do not look at the size in the header.
preamble_ignores_size :
    (strtod_ok : Bytes → Bool) (f : Frame) (t : ℕ)
    → decode_preamble strtod_ok (sized f) t ≡ decode_preamble strtod_ok f t
unfolding decode_preamble check_frame_type parse_payload_json
preamble_ignores_size strtod_ok f t = refl

ignores_size :
    (strtod_ok : Bytes → Bool) (f : Frame)
    → decode_close_session strtod_ok (sized f) ≡ decode_close_session strtod_ok f
unfolding decode_close_session
ignores_size strtod_ok f = rw (preamble_ignores_size strtod_ok f Msg.close_session) refl

open_ignores_size :
    (strtod_ok : Bytes → Bool) (f : Frame)
    → decode_open_session strtod_ok (sized f) ≡ decode_open_session strtod_ok f
unfolding decode_open_session
open_ignores_size strtod_ok f = rw (preamble_ignores_size strtod_ok f Msg.open_session) refl

-- A CLOSE_SESSION with any reason and message whose text fits into a frame, sent for a session id,
-- arrives: the bytes that are sent are decoded to one frame for that session, with nothing left over,
-- and the frame's payload to the message.
pub close_session_arrives :
    (strtod_ok : Bytes → Bool) (sid : ℕ) (m : CloseSessionMessage)
    → 1 ≤ sid
    → sid < 2 ^ 32
    → length (encode_close_session m).payload ≤ 1_048_576
    → (g : Frame) × (consume new_decoder (encode_frame (for_session sid (encode_close_session m)))
        ≡ (record { status = DecodeStatus.ok; error = ErrorCode.ok; frames = g ∷ [] }, new_decoder))
      × (g.header.session_id ≡ sid)
      × (decode_close_session strtod_ok g ≡ Decoded.ok m)
unfolding check_header is_control_message is_session_message encode_close_session json_frame
close_session_arrives strtod_ok sid m low high fits =
    let f = for_session sid (encode_close_session m) in
    (
      sized f,
      delivered f (record { checked = ground (arith, low, fits); sized = refl; id_bound = high }),
      refl,
      ignores_size strtod_ok f ∙ decode_close_session-encode_close_session strtod_ok sid m,
    )

-- A valid OPEN_SESSION whose text fits into a frame, sent for a session id, arrives: the bytes that
-- are sent are decoded to one frame for that session, with nothing left over, and the frame's payload
-- to the message.
pub open_session_arrives :
    (strtod_ok : Bytes → Bool) (sid : ℕ) (m : OpenSessionMessage) (port timeout : ℕ)
    → 1 ≤ sid
    → sid < 2 ^ 32
    → IsValidOpen m port timeout
    → length (encode_open_session m).payload ≤ 1_048_576
    → (g : Frame) × (consume new_decoder (encode_frame (for_session sid (encode_open_session m)))
        ≡ (record { status = DecodeStatus.ok; error = ErrorCode.ok; frames = g ∷ [] }, new_decoder))
      × (g.header.session_id ≡ sid)
      × (decode_open_session strtod_ok g ≡ Decoded.ok m)
unfolding check_header is_control_message is_session_message encode_open_session json_frame
open_session_arrives strtod_ok sid m port timeout low high v fits =
    let f = for_session sid (encode_open_session m) in
    (
      sized f,
      delivered f (record { checked = ground (arith, low, fits); sized = refl; id_bound = high }),
      refl,
      open_ignores_size strtod_ok f
          ∙ decode_open_session-encode_open_session strtod_ok sid m port timeout v,
    )

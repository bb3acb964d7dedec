-- ===== src/Protocol/Messages/ReadBack/RoundTrip.antt =====
-- Messages of strings: what one side encodes, the other decodes.
use remote_tool.Prelude.{
  ℕ, ◌≡◌, refl, Bool, true, List, arith, [], ◌∷◌, append_assoc, inl, inr, Bool-cases, if◌then◌else◌,
  Bytes, codes, bytes_eq, contains, ◌==◌,
}
use remote_tool.Protocol.Frame.{Frame}
use remote_tool.Config.Json.Value.{object, end, find, find_field, try_as_string, emplace_back}
use remote_tool.Protocol.Messages.Text.{json_escape, escape_char}
use remote_tool.Protocol.Messages.Connection.{json_frame}
use remote_tool.Protocol.Messages.Extract.{
  ok, err, invalid_field, check_frame_type, from_parsed, parse_payload_json, known_fields,
  check_unknown_fields, extract_string, decode_preamble,
}
use remote_tool.Protocol.Messages.Session.{
  SessionOpenFailedMessage, SessionHalfCloseMessage, CloseSessionMessage,
  encode_session_open_failed, encode_session_half_close, encode_close_session,
  decode_session_open_failed, decode_session_half_close, decode_close_session,
}
use remote_tool.Protocol.Messages.ReadBack.Objects.{
  text, Member, Fresh, members_text, with_members, parse_json-members_text,
}

-- A frame as it is sent for a session.
abbrev pub for_session : ℕ → Frame → Frame
for_session sid f = record f { header = record f.header { session_id = sid } }

pub decode_preamble-members :
    (strtod_ok : Bytes → Bool) (f : Frame) (m : Member) (ns : List Member)
    → f.payload ≡ b'{' ∷ members_text m ns []
    → Fresh [] m ns
    → decode_preamble strtod_ok f f.header.msg_type ≡ ok (object (with_members end m ns))
unfolding decode_preamble check_frame_type parse_payload_json from_parsed
decode_preamble-members strtod_ok f m ns written fresh =
    let (c, read) = parse_json-members_text strtod_ok m ns fresh in
    let same : (f.header.msg_type == f.header.msg_type) ≡ true = ground arith in
    rw (same, written, read) refl

-- A CLOSE_SESSION frame for any session, with any reason and message, is decoded to the message that
-- was encoded.
pub decode_close_session-encode_close_session :
    (strtod_ok : Bytes → Bool) (sid : ℕ) (m : CloseSessionMessage)
    → decode_close_session strtod_ok (for_session sid (encode_close_session m)) ≡ ok m
unfolding decode_close_session encode_close_session json_frame json_escape escape_char
    check_unknown_fields known_fields extract_string find find_field try_as_string emplace_back
    contains bytes_eq
decode_close_session-encode_close_session strtod_ok sid m =
    let f = for_session sid (encode_close_session m) in
    let read =
      decode_preamble-members strtod_ok f (codes "reason", text m.reason)
        ((codes "message", text m.message) ∷ []) (simp append_assoc refl) (refl, tt, (refl, tt)) in
    rw read refl

-- A SESSION_OPEN_FAILED frame for any session, with any error code and message, is decoded to the
-- message that was encoded.
pub decode_session_open_failed-encode_session_open_failed :
    (strtod_ok : Bytes → Bool) (sid : ℕ) (m : SessionOpenFailedMessage)
    → decode_session_open_failed strtod_ok (for_session sid (encode_session_open_failed m)) ≡ ok m
unfolding decode_session_open_failed encode_session_open_failed json_frame json_escape escape_char
    check_unknown_fields known_fields extract_string find find_field try_as_string emplace_back
    contains bytes_eq
decode_session_open_failed-encode_session_open_failed strtod_ok sid m =
    let f = for_session sid (encode_session_open_failed m) in
    let read =
      decode_preamble-members strtod_ok f (codes "error_code", text m.error_code)
        ((codes "message", text m.message) ∷ []) (simp append_assoc refl) (refl, tt, (refl, tt)) in
    rw read refl

-- The HALF_CLOSE that is sent when the sending side of a session ends is accepted by the decoder,
-- for any session, while one with another direction is encoded, but refused.
pub decode_session_half_close-encode_session_half_close :
    (strtod_ok : Bytes → Bool) (sid : ℕ) (m : SessionHalfCloseMessage)
    → decode_session_half_close strtod_ok (for_session sid (encode_session_half_close m)) ≡ (
        if bytes_eq m.direction (codes "write")
        then ok m
        else err (invalid_field (codes "direction")))
unfolding decode_session_half_close encode_session_half_close json_frame json_escape escape_char
    check_unknown_fields known_fields extract_string find find_field try_as_string emplace_back
    contains bytes_eq
decode_session_half_close-encode_session_half_close strtod_ok sid m =
    let f = for_session sid (encode_session_half_close m) in
    let read =
      decode_preamble-members strtod_ok f (codes "direction", text m.direction) []
        (simp append_assoc refl) (refl, tt) in
    rw read (elim (Bool-cases (bytes_eq m.direction (codes "write"))) [
      | inl e ↦ rw e refl
      | inr e ↦ rw e refl
    ])

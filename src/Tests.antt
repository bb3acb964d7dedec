-- ===== src/Tests.antt =====
-- Runs of the modelled code on concrete inputs, and instances of its theorems.
mod Schema
mod Devices
mod Connection
mod Agent
use remote_tool.Prelude.{
  length, bytes_eq, if◌then◌else◌, pos, false, none, some, ◌↔◌, ◌≤◌, get_or, ℕ, ◌+◌, ◌<◌, ◌≡◌, refl,
  true, List, [], ◌∷◌, ◌++◌, arith, All, Bytes, codes, take,
}
use remote_tool.Protocol.Msg
use remote_tool.Protocol.ErrorCode
use remote_tool.Protocol.Frame.{
  DecodeStatus, Frame, IsAlive, new_decoder, encode_frame, status_of, check_header, next_frame,
  consume_loop, consume, buffered, put_be32, put_be16, parse_header, after_header,
  is_control_message, is_session_message,
}
use remote_tool.Protocol.Frame.Stream.{joined, consume-append}
use remote_tool.Protocol.Frame.RoundTrip.{IsWireFrame, encode_all, consume-encode_all}
use remote_tool.Protocol.Frame.Guards.{IsLegal, consume-IsLegal, buffered-consume, consume_refused}
use remote_tool.Protocol.Frame.Lossless.{IsByte, consume_lossless}
use remote_tool.Session.Ids.{SessionIdAllocator, new_allocator, allocate}
use remote_tool.Session.Ids.Monotone.{
  IsValid, allocate-next_id, Call, allocates, releases, results, Ascends, results-Ascends,
}
use remote_tool.Config.Json.Cursor.{start}
use remote_tool.Config.Json.Strings.{parse_string_raw}
use remote_tool.Config.Json.Parser.{parse_json}
use remote_tool.Config.Json.Total.{Settles, parse_json-Settles}
use remote_tool.Protocol.Messages.Text.{json_escape}
use remote_tool.Protocol.Messages.ReadBack.Strings.{Reads, parse_string_raw-json_escape}
use remote_tool.Security.Whitelist.Address.{
  span_digits, octet_value, parse_octet, skip_dot, octet_loop, all_read, parse_ipv4, find_dc, back,
  split_from, split_colon, has_dot, try_v4_suffix, hex_value, group_loop, parse_group, parse_groups,
  zeros, v4_groups, group_bytes, place_groups, count_groups, take_suffix, read_groups, parse_ipv6,
}
use remote_tool.Security.Whitelist.Cidr.{
  CidrV4, CidrV6, make_v4_mask, or_at, mask_loop, make_v6_mask, and_bytes, find_slash, prefix_loop,
  parse_prefix, cidr_v4, parse_cidr_v4, cidr_v6, parse_cidr_v6, matches_v4, matches_v6,
}
use remote_tool.Security.Whitelist.Policy.{
  TargetPolicy, TargetWhitelist, ok, is_listed, add_ports, has_colon, add_cidr, add_cidrs, create,
  check,
}
use remote_tool.Security.Whitelist.Masks.{leading}
use remote_tool.Security.Whitelist.Covers.{IsRangeV4, parse_cidr_v4-covers}
use remote_tool.Security.Whitelist.Sixteen.{IsAddress}
use remote_tool.Security.Whitelist.CoversV6.{IsRangeV6, bits_in, parse_cidr_v6-covers}
use remote_tool.Security.Whitelist.Enforces.{PolicyPermits, create-check}
use remote_tool.Session.Manager.State.{SessionManager, Outside, new_entry}
use remote_tool.Session.Manager.Agent.{Event, creates, attaches, closes, step}
use remote_tool.Session.Manager.Account.{count_key, count_fired}
use remote_tool.Session.Manager.Routine.{step-accounts}
use remote_tool.Session.Manager.Once.{new_manager}
use remote_tool.Protocol.Messages.Extract.{Decoded, invalid_field}
use remote_tool.Protocol.Messages.Session.{
  SessionOpenFailedMessage, SessionHalfCloseMessage, CloseSessionMessage,
  encode_session_open_failed, encode_session_half_close, encode_close_session,
  decode_session_open_failed, decode_session_half_close, decode_close_session,
}
use remote_tool.Protocol.Messages.ReadBack.RoundTrip.{
  for_session, decode_close_session-encode_close_session,
  decode_session_open_failed-encode_session_open_failed,
  decode_session_half_close-encode_session_half_close,
}
use remote_tool.Protocol.Messages.Connection.{
  HelloMessage, HelloAckMessage, HeartbeatMessage, HeartbeatAckMessage, encode_hello, decode_hello,
  encode_hello_ack, decode_hello_ack, encode_heartbeat, decode_heartbeat, encode_heartbeat_ack,
  decode_heartbeat_ack,
}
use remote_tool.Protocol.Messages.Session.{
  OpenSessionMessage, SessionOpenedMessage, encode_open_session, decode_open_session,
  encode_session_opened, decode_session_opened,
}
use remote_tool.Protocol.Messages.Extract.{
  is_valid_device_id, is_valid_version_string, is_valid_platform, is_valid_base64url,
}
use remote_tool.Protocol.Messages.ReadBack.Wire.{
  decode_heartbeat-encode_heartbeat, decode_heartbeat_ack-encode_heartbeat_ack, IsValidOpen,
  decode_open_session-encode_open_session,
}
use remote_tool.Protocol.Messages.ReadBack.Handshake.{
  decode_session_opened-encode_session_opened, IsValidHello, decode_hello-encode_hello, IsValidAck,
  decode_hello_ack-encode_hello_ack,
}
use remote_tool.Protocol.Messages.Connection.{json_frame}
use remote_tool.Protocol.Messages.Text.{escape_char, to_string, natural_text, digits_onto}
use remote_tool.Protocol.Delivery.{close_session_arrives, open_session_arrives}

abbrev data_frame : Frame
data_frame = record {
  header = record {
    version = 1;
    msg_type = Msg.session_data;
    flags = 0;
    session_id = 7;
    payload_length = 2;
  };
  payload = b'h' ∷ b'i' ∷ [];
}

-- The start of a frame with another magic number.
abbrev bad_magic : Bytes
bad_magic = 0 ∷ 0 ∷ 0 ∷ 0 ∷ 1 ∷ 0 ∷ 0 ∷ 0 ∷ 0 ∷ 0 ∷ 0 ∷ 0 ∷ 0 ∷ 0 ∷ 0 ∷ 0 ∷ []

data_frame-IsWireFrame : IsWireFrame data_frame
unfolding check_header is_control_message is_session_message
data_frame-IsWireFrame = record { checked = refl; sized = refl; id_bound = omega arith }

consume-encode_all_example :
    consume new_decoder (encode_all (data_frame ∷ []) ++ take 5 (encode_frame data_frame)) ≡ (
      record {
        status = status_of (data_frame ∷ []);
        error = ErrorCode.ok;
        frames = data_frame ∷ [];
      },
      record { buf = take 5 (encode_frame data_frame) },
    )
unfolding encode_frame put_be32 put_be16
consume-encode_all_example =
    consume-encode_all (data_frame ∷ []) data_frame 5 (data_frame-IsWireFrame, tt)
      data_frame-IsWireFrame (omega arith)

abbrev half : Bytes
half = take 9 (encode_frame data_frame)

half-IsAlive : IsAlive (consume new_decoder half).0.status
unfolding encode_frame put_be32 put_be16 consume consume_loop next_frame status_of
half-IsAlive = tt

consume-append_example : consume new_decoder (half ++ half) ≡ (
  joined (consume new_decoder half).0 (consume (consume new_decoder half).1 half).0,
  (consume (consume new_decoder half).1 half).1,
)
consume-append_example = consume-append new_decoder half half half-IsAlive

consume-IsLegal_example : All IsLegal (consume new_decoder (encode_frame data_frame)).0.frames
consume-IsLegal_example = consume-IsLegal new_decoder (encode_frame data_frame)

buffered-consume_example : buffered (consume new_decoder half).1 < 16 + 1_048_576
buffered-consume_example = buffered-consume new_decoder half half-IsAlive

bad_magic_refused : ¬ IsAlive (consume new_decoder bad_magic).0.status
unfolding consume consume_loop next_frame parse_header after_header
bad_magic_refused alive = alive

consume_refused_example : (consume (consume new_decoder bad_magic).1 half).0 ≡ record {
  status = (consume new_decoder bad_magic).0.status;
  error = (consume new_decoder bad_magic).0.error;
  frames = [];
}
consume_refused_example = consume_refused new_decoder bad_magic half bad_magic_refused

half_bytes : All IsByte half
unfolding encode_frame put_be32 put_be16
half_bytes = (
  omega arith,
  (
    omega arith,
    (
      omega arith,
      (omega arith, (omega arith, (omega arith, (omega arith, (omega arith, (omega arith, tt)))))),
    ),
  ),
)

consume_lossless_example :
    [] ++ half ≡ encode_all (consume new_decoder half).0.frames ++ (consume new_decoder half).1.buf
consume_lossless_example = consume_lossless new_decoder half tt half_bytes

abbrev one_released : SessionIdAllocator
one_released = record { next_id = 3; blacklist = record { id = 1; released = 4 } ∷ [] }

one_released-IsValid : IsValid one_released
one_released-IsValid = record { started = omega arith; past = (omega arith, tt) }

allocate-next_id_example :
    ((allocate (λ t. 5) one_released).0 ≡ 3)
    × ((allocate (λ t. 5) one_released).1.next_id ≡ 3 + 1)
    × IsValid (allocate (λ t. 5) one_released).1
allocate-next_id_example = allocate-next_id (λ t. 5) one_released one_released-IsValid (omega arith)

abbrev history : List Call
history = allocates (λ t. 5) ∷ releases 6 1 ∷ allocates (λ t. 7) ∷ []

results-Ascends_example : Ascends 1 (results new_allocator history)
results-Ascends_example = results-Ascends new_allocator history

parse_json-Settles_example :
    Settles (codes "{\"a\": [1, tru]}") (parse_json (λ s. true) (codes "{\"a\": [1, tru]}"))
parse_json-Settles_example = parse_json-Settles (λ s. true) (codes "{\"a\": [1, tru]}")

-- The string `a"`, written down and followed by a comma.
abbrev quoted : Bytes
quoted = b'"' ∷ (json_escape (b'a' ∷ b'"' ∷ []) ++ b'"' ∷ b',' ∷ [])

parse_string_raw-json_escape_example :
    Reads parse_string_raw (start quoted) (b'a' ∷ b'"' ∷ []) (b',' ∷ [])
parse_string_raw-json_escape_example =
    parse_string_raw-json_escape (b'a' ∷ b'"' ∷ []) (start quoted) (b',' ∷ []) refl

loopback_v6 :
    parse_ipv6 (codes "::1")
    ≡ some (0 ∷ 0 ∷ 0 ∷ 0 ∷ 0 ∷ 0 ∷ 0 ∷ 0 ∷ 0 ∷ 0 ∷ 0 ∷ 0 ∷ 0 ∷ 0 ∷ 0 ∷ 1 ∷ [])
unfolding span_digits octet_value parse_octet skip_dot octet_loop all_read parse_ipv4 find_dc back
    split_from split_colon has_dot try_v4_suffix hex_value group_loop parse_group parse_groups zeros
    v4_groups group_bytes place_groups count_groups take_suffix read_groups parse_ipv6
loopback_v6 = refl

mapped_v4 :
    parse_ipv6 (codes "::ffff:192.168.1.2")
    ≡ some (0 ∷ 0 ∷ 0 ∷ 0 ∷ 0 ∷ 0 ∷ 0 ∷ 0 ∷ 0 ∷ 0 ∷ 255 ∷ 255 ∷ 192 ∷ 168 ∷ 1 ∷ 2 ∷ [])
unfolding span_digits octet_value parse_octet skip_dot octet_loop all_read parse_ipv4 find_dc back
    split_from split_colon has_dot try_v4_suffix hex_value group_loop parse_group parse_groups zeros
    v4_groups group_bytes place_groups count_groups take_suffix read_groups parse_ipv6
mapped_v4 = refl

two_gaps : parse_ipv6 (codes "1::2::3") ≡ none
unfolding find_dc parse_ipv6
two_gaps = refl

abbrev ten_net : CidrV4
ten_net = record { net = 0x0A00_0000; mask = 0xFF00_0000 }

ten_net_read : parse_cidr_v4 (codes "10.0.0.1/8") ≡ some ten_net
unfolding span_digits octet_value parse_octet skip_dot octet_loop all_read parse_ipv4 find_slash
    prefix_loop parse_prefix cidr_v4 parse_cidr_v4 make_v4_mask
ten_net_read = refl

parse_cidr_v4-covers_example :
    (addr prefix : ℕ) × IsRangeV4 (codes "10.0.0.1/8") addr prefix
    × (prefix ≤ 32)
    × ((matches_v4 0x0A02_0304 ten_net ≡ true)
        ↔ (leading 32 prefix 0x0A02_0304 ≡ leading 32 prefix addr))
parse_cidr_v4-covers_example =
    parse_cidr_v4-covers (codes "10.0.0.1/8") ten_net 0x0A02_0304 ten_net_read (omega arith)

abbrev local_net : CidrV6
local_net = record { net = 0xFE ∷ 0x80 ∷ zeros_14; mask = 0xFF ∷ 0xC0 ∷ zeros_14 }
  where
    zeros_14 : Bytes
    zeros_14 = 0 ∷ 0 ∷ 0 ∷ 0 ∷ 0 ∷ 0 ∷ 0 ∷ 0 ∷ 0 ∷ 0 ∷ 0 ∷ 0 ∷ 0 ∷ 0 ∷ []

local_net_read : parse_cidr_v6 (codes "fe80::1/10") ≡ some local_net
unfolding span_digits octet_value parse_octet skip_dot octet_loop all_read parse_ipv4 find_dc back
    split_from split_colon has_dot try_v4_suffix hex_value group_loop parse_group parse_groups zeros
    v4_groups group_bytes place_groups count_groups take_suffix read_groups parse_ipv6 find_slash
    prefix_loop parse_prefix cidr_v6 parse_cidr_v6 make_v6_mask mask_loop or_at and_bytes
local_net_read = refl

abbrev zero_address : Bytes
zero_address = 0 ∷ 0 ∷ 0 ∷ 0 ∷ 0 ∷ 0 ∷ 0 ∷ 0 ∷ 0 ∷ 0 ∷ 0 ∷ 0 ∷ 0 ∷ 0 ∷ 0 ∷ 0 ∷ []

zero_address-IsAddress : IsAddress zero_address
zero_address-IsAddress = (
  refl,
  (
    omega arith,
    (
      omega arith,
      (
        omega arith,
        (
          omega arith,
          (
            omega arith,
            (
              omega arith,
              (
                omega arith,
                (
                  omega arith,
                  (
                    omega arith,
                    (
                      omega arith,
                      (
                        omega arith,
                        (
                          omega arith,
                          (omega arith, (omega arith, (omega arith, (omega arith, tt)))),
                        ),
                      ),
                    ),
                  ),
                ),
              ),
            ),
          ),
        ),
      ),
    ),
  ),
)

parse_cidr_v6-covers_example :
    (addr : Bytes) × (prefix : ℕ) × IsRangeV6 (codes "fe80::1/10") addr prefix
    × IsAddress addr
    × (prefix ≤ 128)
    × ((matches_v6 zero_address local_net ≡ true) ↔ (
        (i : ℕ)
        → i < 16
        → leading 8 (bits_in prefix i) (get_or zero_address i 0)
          ≡ leading 8 (bits_in prefix i) (get_or addr i 0)))
parse_cidr_v6-covers_example =
    parse_cidr_v6-covers (codes "fe80::1/10") local_net zero_address local_net_read
      zero_address-IsAddress

abbrev web_only : TargetPolicy
web_only = record {
  allowed_cidrs = codes "10.0.0.1/8" ∷ [];
  allowed_ports = pos 80 ∷ pos 443 ∷ pos 80 ∷ [];
  allow_ipv6 = false;
  self_listener_port = pos 9000;
}

abbrev web_whitelist : TargetWhitelist
web_whitelist = record {
  policy = web_only;
  cidrs_v4 = ten_net ∷ [];
  cidrs_v6 = [];
  ports = 80 ∷ 443 ∷ [];
}

web_only_created : create web_only ≡ ok web_whitelist
unfolding span_digits octet_value parse_octet skip_dot octet_loop all_read parse_ipv4 find_slash
    prefix_loop parse_prefix cidr_v4 parse_cidr_v4 make_v4_mask has_colon has_dot is_listed
    add_ports add_cidr add_cidrs create
web_only_created = refl

create-check_example :
    ((check web_whitelist (codes "10.2.3.4") 443).allowed ≡ true)
    ↔ PolicyPermits web_only (codes "10.2.3.4") 443
create-check_example = create-check web_only web_whitelist (codes "10.2.3.4") 443 web_only_created

abbrev all_up : Outside
all_up = record { is_up = λ t. true; clock = λ i. 10 }

abbrev short_life : List (Outside × Event)
short_life =
    (all_up, creates (codes "device") (some 3) (codes "web"))
    ∷ (all_up, attaches 1 5)
    ∷ (all_up, closes 1)
    ∷ (all_up, closes 1)
    ∷ []

abbrev one_session : SessionManager
one_session = record new_manager {
  sessions = (1, new_entry (some 3) (codes "device") (codes "web")) ∷ [];
  on_session_closed = true;
}

step-accounts_example :
    let n = step (λ s. true) all_up (closes 1) one_session in
    count_key 1 n.sessions + count_fired 1 n.effects
    ≡ count_key 1 one_session.sessions + count_fired 1 one_session.effects
step-accounts_example = step-accounts (λ s. true) all_up (closes 1) one_session 1 tt refl

abbrev goodbye : CloseSessionMessage
goodbye = record { reason = codes "NORMAL"; message = codes "say \"bye\"" }

abbrev refusal : SessionOpenFailedMessage
refusal = record { error_code = codes "TARGET_NOT_ALLOWED"; message = [] }

decode_session_open_failed-encode_session_open_failed_example :
    decode_session_open_failed (λ s. true) (for_session 9 (encode_session_open_failed refusal))
    ≡ Decoded.ok refusal
decode_session_open_failed-encode_session_open_failed_example =
    decode_session_open_failed-encode_session_open_failed (λ s. true) 9 refusal

abbrev read_half : SessionHalfCloseMessage
read_half = record { direction = codes "read" }

decode_session_half_close-encode_session_half_close_example :
    decode_session_half_close (λ s. true) (for_session 9 (encode_session_half_close read_half)) ≡ (
      if bytes_eq read_half.direction (codes "write")
      then Decoded.ok read_half
      else Decoded.err (invalid_field (codes "direction")))
decode_session_half_close-encode_session_half_close_example =
    decode_session_half_close-encode_session_half_close (λ s. true) 9 read_half

decode_heartbeat-encode_heartbeat_example :
    let m : HeartbeatMessage = record {
      sequence = pos 7;
      sent_unix_ms = pos 1700;
      active_sessions = pos 0;
    } in
    decode_heartbeat (λ s. true) (encode_heartbeat m) ≡ Decoded.ok m
decode_heartbeat-encode_heartbeat_example =
    decode_heartbeat-encode_heartbeat (λ s. true) 7 1700 0 (omega arith) (omega arith) (omega arith)

decode_heartbeat_ack-encode_heartbeat_ack_example :
    let m : HeartbeatAckMessage = record { sequence = pos 7; received_unix_ms = pos 1701 } in
    decode_heartbeat_ack (λ s. true) (encode_heartbeat_ack m) ≡ Decoded.ok m
decode_heartbeat_ack-encode_heartbeat_ack_example =
    decode_heartbeat_ack-encode_heartbeat_ack (λ s. true) 7 1701 (omega arith) (omega arith)

abbrev web_open : OpenSessionMessage
web_open = record {
  mapping_id = codes "web";
  target_host = codes "10.2.3.4";
  target_port = pos 443;
  connect_timeout_ms = pos 5000;
}

web_open-IsValidOpen : IsValidOpen web_open 443 5000
web_open-IsValidOpen = record {
  port_is = refl;
  port_range = (omega arith, omega arith);
  timeout_is = refl;
  timeout_range = (omega arith, omega arith);
  mapping_length = (omega arith, omega arith);
  has_host = omega arith;
}

decode_session_opened-encode_session_opened_example :
    let m : SessionOpenedMessage = record {
      mapping_id = codes "web";
      connected_host = codes "10.2.3.4";
      connected_port = pos 443;
    } in
    decode_session_opened (λ s. true) (for_session 9 (encode_session_opened m)) ≡ Decoded.ok m
decode_session_opened-encode_session_opened_example =
    decode_session_opened-encode_session_opened (λ s. true) 9 (codes "web") (codes "10.2.3.4") 443
      (omega arith)

abbrev pc_hello : HelloMessage
pc_hello = record {
  device_id = codes "pc-1";
  agent_version = codes "0.1";
  platform = codes "windows";
  protocol_version = pos 1;
  instance_nonce = codes "A_b-9";
}

pc_hello-IsValidHello : IsValidHello pc_hello
unfolding is_valid_device_id is_valid_version_string is_valid_platform is_valid_base64url
pc_hello-IsValidHello = record {
  device = refl;
  agent = refl;
  system = refl;
  protocol = refl;
  nonce = refl;
}

decode_hello-encode_hello_example :
    decode_hello (λ s. true) (encode_hello pc_hello) ≡ Decoded.ok pc_hello
decode_hello-encode_hello_example =
    decode_hello-encode_hello (λ s. true) pc_hello pc_hello-IsValidHello

abbrev pc_ack : HelloAckMessage
pc_ack = record {
  accepted = false;
  server_version = codes "0.1";
  heartbeat_interval_ms = pos 5000;
  heartbeat_timeout_ms = pos 15000;
  max_sessions = pos 32;
  error_code = codes "DEVICE_DISABLED";
  message = [];
}

pc_ack-IsValidAck : IsValidAck pc_ack 5000 15000 32
unfolding is_valid_version_string
pc_ack-IsValidAck = record {
  version = refl;
  interval_is = refl;
  interval_range = (omega arith, omega arith);
  timeout_is = refl;
  timeout_range = (omega arith, omega arith);
  sessions_is = refl;
  sessions_range = omega arith;
}

decode_hello_ack-encode_hello_ack_example :
    decode_hello_ack (λ s. true) (encode_hello_ack pc_ack) ≡ Decoded.ok pc_ack
decode_hello_ack-encode_hello_ack_example =
    decode_hello_ack-encode_hello_ack (λ s. true) pc_ack 5000 15000 32 pc_ack-IsValidAck

goodbye_fits : length (encode_close_session goodbye).payload ≤ 1_048_576
unfolding encode_close_session json_frame json_escape escape_char
goodbye_fits = omega arith

close_session_arrives_example :
    (g : Frame) × (consume new_decoder (encode_frame (for_session 9 (encode_close_session goodbye)))
      ≡ (record { status = DecodeStatus.ok; error = ErrorCode.ok; frames = g ∷ [] }, new_decoder))
    × (g.header.session_id ≡ 9)
    × (decode_close_session (λ s. true) g ≡ Decoded.ok goodbye)
close_session_arrives_example =
    close_session_arrives (λ s. true) 9 goodbye (omega arith) (omega arith) goodbye_fits

web_open_fits : length (encode_open_session web_open).payload ≤ 1_048_576
unfolding encode_open_session json_frame json_escape escape_char to_string natural_text digits_onto
web_open_fits = omega arith

open_session_arrives_example :
    (g : Frame) × (consume new_decoder (encode_frame (for_session 9 (encode_open_session web_open)))
      ≡ (record { status = DecodeStatus.ok; error = ErrorCode.ok; frames = g ∷ [] }, new_decoder))
    × (g.header.session_id ≡ 9)
    × (decode_open_session (λ s. true) g ≡ Decoded.ok web_open)
open_session_arrives_example =
    open_session_arrives (λ s. true) 9 web_open 443 5000 (omega arith) (omega arith)
      web_open-IsValidOpen web_open_fits

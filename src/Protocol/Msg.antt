-- ===== src/Protocol/Msg.antt =====
-- include/rmt/protocol/frame.h: `enum MessageTypeEnum`, the message types of the wire.
use remote_tool.Prelude.{ℕ}

abbrev pub hello : ℕ
hello = 0x01

abbrev pub hello_ack : ℕ
hello_ack = 0x02

abbrev pub heartbeat : ℕ
heartbeat = 0x03

abbrev pub heartbeat_ack : ℕ
heartbeat_ack = 0x04

abbrev pub pair_provision : ℕ
pair_provision = 0x05

abbrev pub pair_provision_ack : ℕ
pair_provision_ack = 0x06

abbrev pub open_session : ℕ
open_session = 0x10

abbrev pub session_opened : ℕ
session_opened = 0x11

abbrev pub session_open_failed : ℕ
session_open_failed = 0x12

abbrev pub session_data : ℕ
session_data = 0x13

abbrev pub session_half_close : ℕ
session_half_close = 0x14

abbrev pub close_session : ℕ
close_session = 0x15

abbrev pub protocol_error : ℕ
protocol_error = 0x20

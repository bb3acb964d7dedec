-- ===== src/Lib.antt =====
-- RemoteTool: a tunnel that carries local TCP connections to targets beside a remote agent. The
-- remote agent dials in; both sides exchange frames of the protocol RMT/1 over one connection. Bytes
-- from the connection go into a frame decoder, which cuts them into frames; the payload of most
-- frames is a JSON object, which the strict parser of the configuration reads and the message
-- decoders check field by field; each session has an id that one allocator hands out. A whitelist
-- says which addresses and ports the agent may connect to; the sources build it, but no caller asks
-- it. A session of the agent carries bytes between the tunnel and a target; on the other side the
-- session manager carries them between local sockets and the tunnel, whose connection has two queues
-- of frames to send. The registry of devices there decides which agent is online. Four configuration
-- files are checked field by field once they are parsed.
--
-- Which file models what:
--   Prelude and the modules below it: lists of bytes, Boolean tests, integers.
--   Protocol/Frame.antt: src/protocol/frame.cpp and include/rmt/protocol/frame.h. `FrameDecoder` is
--     the buffer; `consume`, `reset` and `buffered` are its methods; `next_frame` is one round of the
--     loop of `consume`. Protocol/Msg.antt and Protocol/ErrorCode.antt: the message types and
--     include/rmt/common/error_code.h.
--   Protocol/Messages: src/protocol/messages.cpp, with one encode and one decode function for each
--     message, as there.
--   Protocol/Delivery.antt: src/protocol/messages.cpp and frame.cpp together.
--   Config/Json: src/config/strict_json.cpp. `Cursor` is the state of the parser, its text being the
--     part that is left; each method of the parser is a function of the same name.
--   Config/Schema: src/config/config_schema.cpp. Checks.antt has its helpers, and each of the four
--     validators is a module; Agent.antt has `validate_config` and `validate_config_text` too.
--     Exact and the modules below it say what is accepted, and Utf8 what counts as a character.
--   Session/Ids.antt: include/rmt/session/session_id.h.
--   Security/Whitelist: src/security/target_whitelist.cpp. Address.antt reads address literals,
--     Cidr.antt ranges and masks, Policy.antt holds `create` and `check`.
--   Session/Manager: src/tunnel/session_manager.cpp. State.antt holds the entries and the table,
--     Local.antt the end of a session and the reads and writes of its local socket, Agent.antt the
--     frames from the agent, and `step` and `run` over the events that can happen. What the manager
--     does to sockets, tunnels and its callback is a list of effects; a handler that asio or a tunnel
--     calls later is an event of its own, so a list of events is an interleaving. The callback does
--     not call the manager.
--   Agent/Session: src/tunnel/agent_session.cpp. State.antt holds the state and `cleanup`,
--     Target.antt the target's socket, Frames.antt the frames, and `session_step` and `session_run`
--     over the events that can happen, in the way of the session manager. Effects.antt and the
--     modules after it are about the list of effects.
--   Tunnel/Devices: src/tunnel/device_manager.cpp. State.antt holds the table of the connections,
--     Dispatch.antt the frames and the closings, Timeouts.antt the cleanup, and `device_step` and
--     `device_run` over the events. The other modules count the online entries of an id.
--   Tunnel/Connection: src/tunnel/connection.cpp. State.antt holds the state and its end, Writes.antt
--     the two queues, Steps.antt connecting, reading and the events. Kept.antt reduces a claim about
--     every step to the parts of a step; Callbacks.antt to Ended.antt follow the callbacks of
--     `send_frame`, Queues.antt to InOrder.antt the order of the queues.
--   Tests.antt and the modules below it: runs on concrete inputs.
--
-- Bounds and fuel: the loop of `consume` has more fuel than the buffer has bytes, and each round
-- that goes on takes a header out of it; the parser has twice the length of the text and two, and
-- each value and each item of an object or an array reads a character; a decimal numeral has no
-- more digits than its value and one. Machine integers are numbers with their wrap-around written
-- out where the source can wrap.
--
-- Outside of the model: a JSON number with a fraction or an exponent is kept as its numeral, and
-- whether `strtod` reports a range error for it is a parameter. The texts of log lines and of decoder
-- errors are left out or are values. Which texts asio reads as an address, and whether it can open a
-- socket, are arguments. The reconnecting connection of the agent, its table of sessions, sockets,
-- TLS, files, threads and the windows of the applications are not modelled.
mod Prelude
pub mod Protocol
pub mod Session
pub mod Agent
pub mod Tunnel
pub mod Config
pub mod Security
mod Tests

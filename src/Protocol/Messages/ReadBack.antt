-- ===== src/Protocol/Messages/ReadBack.antt =====
-- What `messages.cpp` writes, `strict_json.cpp` reads back.
pub mod Strings
mod Numbers
mod Objects
pub mod RoundTrip
pub mod Wire
pub mod Handshake

-- ===== src/Config/Json.antt =====
-- include/rmt/config/strict_json.h and src/config/strict_json.cpp: the strict JSON parser.
pub mod Value
pub mod Cursor
pub mod Strings
pub mod Number
pub mod Parser
pub mod Location
pub mod Total

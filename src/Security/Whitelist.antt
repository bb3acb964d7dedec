-- ===== src/Security/Whitelist.antt =====
-- src/security/target_whitelist.cpp and include/rmt/security/target_whitelist.h.
pub mod Address
pub mod Cidr
pub mod Policy
pub mod Masks
pub mod Covers
pub mod Sixteen
pub mod CoversV6
pub mod Rules
mod Accepts
mod Ranges
pub mod Enforces

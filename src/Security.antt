-- ===== src/Security.antt =====
-- src/security: which targets an agent may connect to.
pub mod Whitelist

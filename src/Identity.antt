-- ===== src/Identity.antt =====
-- Throttling of logins and of verification codes, internal/identity.
pub mod Windows
pub mod Throttle
pub mod Otp
mod Tests

-- ===== src/Context.antt =====
-- Context management, internal/contextmgmt: the repair of tool pairing, the grouping of messages
-- into rounds, the token estimate and the compression of a history.
pub mod Pairing
pub mod Rounds
pub mod Tokens
pub mod Compress
mod Tests

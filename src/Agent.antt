-- ===== src/Agent.antt =====
-- The agent loop, internal/agent, with the parts of internal/toolruntime that it calls.
mod Types
pub use Types.*
pub mod Emit
pub mod Tools
pub mod Stream
pub mod Loop
pub mod Builtin
mod Tests

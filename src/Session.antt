-- ===== src/Session.antt =====
-- The in-memory stores of a session: internal/session/types.go, memstore.go, the MemStore parts of
-- approval.go and batch.go, and memmessagestore.go. A store is a state that each call takes and
-- returns, which the mutex makes one step; the clock and `uuid.NewString` are arguments.
mod Types
mod Orders
pub use Types.*
pub use Orders.*
pub mod Store
pub mod Ledger
pub mod Gate
pub mod Messages
pub mod Fold
pub mod Broker
pub mod Runtime
pub mod Recovery
mod Tests

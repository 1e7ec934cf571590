-- ===== src/Broker.antt =====
-- The broker (pkg/broker): who is registered, who is linked, and what each client may do.
pub mod Router
mod Samples
pub mod State
pub mod Close
pub mod Logs
pub mod Server

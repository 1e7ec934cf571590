-- ===== src/Tunnel.antt =====
-- The ends of a tunnel (pkg/tunnel): the streams that each keeps, and how a lost connection is tried
-- again.
pub mod Reconnect
pub mod Payloads
pub mod EndToEnd
pub mod Net
pub mod Login
pub mod Listener
pub mod Connector

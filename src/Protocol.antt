-- ===== src/Protocol.antt =====
-- The wire protocol (pkg/protocol): frames on a connection, the encrypted session, the handshake.
pub mod Wire
pub mod Framing
pub mod Codec
pub mod Session
pub mod Handshake

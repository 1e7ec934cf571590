-- ===== src/Cmd.antt =====
-- The commands (cmd/): what flags and the environment come to, how the broker is set up, and the
-- sessions that a reconnecting client has.
pub mod Settings
pub mod Broker
pub mod Sessions

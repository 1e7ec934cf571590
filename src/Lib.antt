-- ===== src/Lib.antt =====
-- A verification library of go-connect: two machines behind NAT are connected through a broker,
-- which relays encrypted messages between a listener and a connector.
--
-- The parts, and which file models which. Paths are from the repository's root.
-- - Bytes, Pb: bytes as numbers with the big-endian integers the code writes, and the messages
--   of pb/messages.pb.go with the getters of their oneof.
-- - Crypto.Aead, Crypto.Keys: pkg/crypto/aead.go and pkg/crypto/handshake.go. `encrypt` and
--   `decrypt` pass the nonce counters on; `derive_directional_keys` gives each end its two keys.
--   AES-GCM, X25519, SHA-256 and HKDF are parameters (`Gcm`, `Primitives`) with their documented
--   laws as hypotheses.
-- - Protocol.Framing, Protocol.Session, Protocol.Handshake: pkg/protocol/framing.go, session.go
--   and handshake.go. A connection (Protocol.Wire) has the bytes that are still to be read,
--   those that were written, and room for so many more, so that reads end early and writes fail.
--   Protobuf is a parameter (`Codec`).
-- - Broker.Router: pkg/broker/router.go, two maps as association lists (Base.Maps).
-- - Broker.State, Broker.Close: pkg/broker/client_conn.go. A `*ClientConn` is a number, and the
--   server's heap has what it points to; `close` closes the peer as well.
-- - Broker.Server: pkg/broker/server.go. Each function is what a handler does from one blocking
--   read to the next; what was read, and the time in nanoseconds, are arguments.
--   Broker.Server.Events has these as events that come in any order, and `run` is the server
--   after a history of them, the latest first; Broker.Server.Events.Relays has the turns of two
--   linked clients.
-- - Filters.Ipsum, Filters.Geoblock: pkg/ipsum/ipsum.go and pkg/geoblock/geoblock.go, which the
--   broker's accept loop asks (there they are parameters). Text functions, address parsing and
--   the MaxMind database are parameters.
-- - Tunnel.Reconnect: `RunWithReconnect` of pkg/tunnel/reconnect.go, over a script of what
--   `connect` and the waits answer.
-- - Tunnel.Listener, Tunnel.Connector: pkg/tunnel/listener.go and connector.go. The goroutines
--   of each are workers, `handle_open_stream`, `drain`, `wait_for_ack` and
--   `pump_local_to_remote` are what one does from one wait to the next, and the `Events` below
--   each let these come in any order. Tunnel.Net has the local connections, which are numbers,
--   with what was written to and read from each, and the messages that went to the broker;
--   Tunnel.Login has the part of `Start` that both share, Tunnel.Payloads counts the bytes of a
--   stream among messages, and Tunnel.EndToEnd puts the two ends together. The session's own
--   limits on a message, which Tunnel.Net leaves out, are kept by what the connector sends
--   (Tunnel.Connector.Chunks).
-- - Filters.Ipsum.Download, Files: the download of the feed in pkg/ipsum/ipsum.go; Files are the
--   disk, with every state it was in.
-- - Logging, Broker.Logs: pkg/logging/logger.go, which appends lines to a file of the day, and
--   the texts that pkg/broker/server.go gives to it.
-- - Ui, Ui.Network: pkg/ui/ui.go and pkg/ui/network.go. Each method returns the text it prints;
--   Ui.Modes has the calls as a list.
-- - Cmd.Settings, Cmd.Broker, Cmd.Sessions: cmd/helpers.go, broker.go, listen.go and connect.go.
--   `run_broker` is the broker command up to its wait for a signal: it asks the filters' modules
--   for what the flags want and gives the result to `new_server`. Cmd.Sessions has the functions
--   that listen and connect give to `RunWithReconnect`.
-- Base has what all share: Go's pair of value and error, maps, tests on numbers. Samples and
-- Broker.Samples have inputs for the tests.
--
-- Choices. A call under a mutex is one step; so is a handler's part between two reads, which in
-- the program may be interleaved with others at its locks. Loops are recursion on what they
-- read: bytes, lines, clients, rounds. `close` has a depth of calls, which is 2: the call and
-- the one for the peer, who then has no peer. In the tunnel a write to a local connection that
-- follows a lookup under the lock is one step with it; a connection breaks after the bytes it
-- has room for; a local connection may still come after `Close`, and a pump that starts after
-- `Close` may read once. Numbers are naturals, with the wrap-around of the 32-bit length, the
-- 32-bit stream number and the 64-bit nonce counter written out; Go's `int` is `ℤ` where it may
-- be negative.
--
-- Not modelled: unknown protobuf fields, sockets and deadlines beyond their results, a write
-- that blocks, the floating-point backoff with its jitter, the declaration of commands and
-- flags, signals and the version command. `Stop` stands apart from the event runs. Go leaves the
-- order of a `range` over a map open; here it is that of the list.
mod Base
mod Bytes
pub mod Pb
pub mod Crypto
pub mod Protocol
pub mod Broker
mod Files
pub mod Logging
pub mod Ui
pub mod Filters
pub mod Tunnel
pub mod Cmd
mod Samples

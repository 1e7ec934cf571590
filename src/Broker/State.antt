-- ===== src/Broker/State.antt =====
-- The state of pkg/broker/server.go and client_conn.go: the server with its clients. A `*ClientConn`
-- is a number, and `heap` has what it points to.
use Prim.Native.String.{String}
use go_connect.Base.{
  ℕ, [], ◌∷◌, ◌++◌, List, Bool, false, not, ◌&&◌, Option, ok, err, M, ◌==◌, if◌then◌else◌, take,
}
use go_connect.Bytes.{Bytes}
use go_connect.Pb.{Envelope}
use go_connect.Broker.Router.{Router, Client}

-- How far the handler of a client has come: at which blocking read it waits. `gone` is a handler
-- that has returned, and a number that is not in use.
pub data Phase : Type 0 where
  shaking authenticating choosing relaying gone : Phase

-- `done`: `Close` was called. `conn_open`: the network connection was not closed at this end.
-- `broken`: it was at the other end, so that writes fail. `outbox` is what was sent.
pub record ClientConn : Type 0 where
  pub phase : Phase
  pub done : Bool
  pub conn_open : Bool
  pub broken : Bool
  pub connection_id : String
  pub last_seen : ℕ
  pub remote : String
  pub outbox : List Envelope

pub data LogEntry : Type 0 where
  invalid_auth_payload : String → Bytes → LogEntry
  passphrase_mismatch : String → LogEntry
  invalid_connection_id : String → String → LogEntry
  blocked_ip : String → ℕ → LogEntry
  geo_blocked_ip : String → String → LogEntry

-- The filters are nil or a test of an address; the logger is nil or not.
pub record Server : Type 0 where
  pub router : Router
  pub heap : Client → ClientConn
  pub next : Client
  pub clients : List Client
  pub slots : ℕ
  pub closing : Bool
  pub passphrase_hash : Bytes
  pub logger : Bool
  pub log : List LogEntry
  pub ip_filter : Option (String → Option ℕ)
  pub geo_filter : Option (String → Option String)

abbrev pub update {ℓ} : {A : Type ℓ} → (ℕ → A) → ℕ → A → ℕ → A
update f x a y = if x == y then a else f y

abbrev pub set_client : Client → ClientConn → Server → Server
set_client x c s = record s { heap = update s.heap x c }

-- `ClientConn.Send`: it fails on a connection that is closed at either end.
pub data SendError : Type 0 where
  send_failed : SendError

unfoldable pub send_to : Client → Envelope → M Server SendError (Unit {0})
send_to x env s =
    let c = s.heap x in
    if c.conn_open && not c.broken
    then (ok tt, set_client x (record c { outbox = c.outbox ++ (env ∷ []) }) s)
    else (err send_failed, s)

-- `_ = client.Send(env)`
unfoldable pub notify : Client → Envelope → Server → Server
unfolding send_to
notify x env s = (send_to x env s).1

-- `client.conn.Close()`, without `client.Close()`.
unfoldable pub close_conn : Client → Server → Server
close_conn x s = set_client x (record (s.heap x) { conn_open = false }) s

unfoldable pub set_connection_id : Client → String → Server → Server
set_connection_id x id s = set_client x (record (s.heap x) { connection_id = id }) s

unfoldable pub update_last_seen : Client → ℕ → Server → Server
update_last_seen x now s = set_client x (record (s.heap x) { last_seen = now }) s

unfoldable pub set_phase : Client → Phase → Server → Server
set_phase x p s = set_client x (record (s.heap x) { phase = p }) s

abbrev pub max_log_payload_bytes : ℕ
max_log_payload_bytes = 256

-- Nothing is logged where the logger is nil.
unfoldable pub warn : LogEntry → Server → Server
warn entry s = if s.logger then record s { log = entry ∷ s.log } else s

unfoldable pub log_invalid_auth_payload : Client → Bytes → Server → Server
unfolding warn
log_invalid_auth_payload x raw s =
    warn (invalid_auth_payload (s.heap x).remote (take max_log_payload_bytes raw)) s

unfoldable pub log_passphrase_mismatch : Client → Server → Server
unfolding warn
log_passphrase_mismatch x s = warn (passphrase_mismatch (s.heap x).remote) s

unfoldable pub log_invalid_connection_id : Client → String → Server → Server
unfolding warn
log_invalid_connection_id x id s = warn (invalid_connection_id id (s.heap x).remote) s

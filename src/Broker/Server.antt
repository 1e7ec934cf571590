-- ===== src/Broker/Server.antt =====
-- The handlers of pkg/broker/server.go. Each function is what a handler does from one blocking read
-- to the next; what it read, and the time, are arguments.
pub mod Events
pub mod Isolation
pub mod Authentication
pub mod Stopping
mod Tests
use Prim.Native.String.{String}
use go_connect.Base.{
  ℕ, zero, suc, ◌+◌, ◌-◌, ◌*◌, ◌^◌, [], ◌∷◌, ◌++◌, List, Bool, true, false, not, ◌&&◌, Option, none,
  some, Result, ok, err, ◌==◌, if◌then◌else◌, ltb,
}
use go_connect.Bytes.{Bytes, bytes_eq}
use go_connect.Pb.{
  Envelope, Register, ConnectRequest, Authenticate, carrying, register_ack, connect_ack, error_msg,
  heartbeat, get_register, get_connect_request, get_heartbeat, get_authenticate,
}
use go_connect.Broker.Router.{
  Router, Client, RouterError, new_router, register_listener, link_connector, get_peer,
}
use go_connect.Broker.State.{
  Server, ClientConn, Phase, shaking, authenticating, choosing, relaying, gone, SendError, send_to,
  notify, close_conn, set_client, set_connection_id, update_last_seen, set_phase, warn, blocked_ip,
  geo_blocked_ip, log_invalid_auth_payload, log_passphrase_mismatch, log_invalid_connection_id,
}
use go_connect.Broker.Close.{close}

abbrev pub default_max_connections : ℕ
default_max_connections = 1024

-- Times are in nanoseconds.
abbrev pub heartbeat_interval : ℕ
heartbeat_interval = 15 * 10 ^ 9

abbrev pub heartbeat_timeout : ℕ
heartbeat_timeout = 45 * 10 ^ 9

abbrev nobody : ClientConn
nobody = record {
  phase = gone;
  done = false;
  conn_open = false;
  broken = false;
  connection_id = "";
  last_seen = 0;
  remote = "";
  outbox = [];
}

-- `NewServer`, with SHA-256 as a parameter. Where no option sets a passphrase it is the empty one.
or_empty : Option Bytes → Bytes
or_empty none = []
or_empty (some passphrase) = passphrase

unfoldable pub new_server :
    (Bytes → Bytes)
    → Option Bytes
    → Bool
    → Option (String → Option ℕ)
    → Option (String → Option String)
    → Server
unfolding or_empty
new_server sha256 passphrase logger ip_filter geo_filter = record {
  router = new_router;
  heap = λ _. nobody;
  next = 0;
  clients = [];
  slots = 0;
  closing = false;
  passphrase_hash = sha256 (or_empty passphrase);
  logger = logger;
  log = [];
  ip_filter = ip_filter;
  geo_filter = geo_filter;
}

-- A filter is asked where it is set and the address could be split.
unfoldable pub ask {ℓ} : {A : Type ℓ} → Option (String → Option A) → Option String → Option A
ask none host = none
ask (some filter) none = none
ask (some filter) (some host) = filter host

-- A slot of the semaphore, and a handler that starts with the handshake.
admit : String → Server → Server
admit remote s =
    record (set_client s.next (record nobody { phase = shaking; conn_open = true; remote = remote })
      s) { next = s.next + 1; slots = s.slots + 1 }

-- One round of `acceptLoop`: a connection from `remote`, whose host is `host` if it can be split off.
unfoldable pub accept : String → Option String → Server → Server
unfolding ask warn admit
accept remote host s = if s.closing then s else (elim (ask s.ip_filter host) [
  | some count ↦ warn (blocked_ip remote count) s
  | none ↦ elim (ask s.geo_filter host) [
    | some country ↦ warn (geo_blocked_ip remote country) s
    | none ↦ if ltb s.slots default_max_connections then admit remote s else s
  ]
])

unfoldable pub track_client : Client → Server → Server
track_client x s = record s { clients = x ∷ s.clients }

remove_all : Client → List Client → List Client
remove_all x [] = []
remove_all x (y ∷ ys) = let rest = remove_all x ys in if y == x then rest else y ∷ rest

unfoldable pub untrack_client : Client → Server → Server
unfolding remove_all
untrack_client x s = record s { clients = remove_all x s.clients }

-- The handler returns: the slot is free again, and the client is no longer tracked.
unfoldable pub leave : Client → Server → Server
unfolding untrack_client set_phase
leave x s = let t = untrack_client x (set_phase x gone s) in record t { slots = t.slots - 1 }

-- What the read of the Authenticate message comes to.
pub data AuthInput : Type 0 where
  set_deadline_failed : AuthInput
  receive_failed : Bytes → AuthInput
  clear_deadline_failed : AuthInput
  received : Bytes → Envelope → AuthInput

pub data AuthError : Type 0 where
  deadline_error no_auth_message not_authenticate mismatch : AuthError

-- `ConstantTimeCompare` is 1 for slices that are equal.
unfoldable pub authenticate_client :
    Client → AuthInput → Server → Result AuthError (Unit {0}) × Server
unfolding close_conn log_invalid_auth_payload log_passphrase_mismatch
authenticate_client x set_deadline_failed s = (err deadline_error, close_conn x s)
authenticate_client x (receive_failed raw) s =
    (err no_auth_message, close_conn x (log_invalid_auth_payload x raw s))
authenticate_client x clear_deadline_failed s = (err deadline_error, close_conn x s)
authenticate_client x (received raw env) s = elim (get_authenticate env) [
  | none ↦ (err not_authenticate, close_conn x (log_invalid_auth_payload x raw s))
  | some auth ↦
      if bytes_eq auth.passphrase_hash s.passphrase_hash
      then (ok tt, s)
      else (err mismatch, close_conn x (log_passphrase_mismatch x s))
]

abbrev pub registration_failed : Envelope
registration_failed =
    carrying (register_ack (record { success = false; message = "registration failed" }))

abbrev pub registered : Envelope
registered = carrying (register_ack (record { success = true; message = "registered" }))

abbrev pub connection_failed : Envelope
connection_failed =
    carrying (connect_ack (record { success = false; message = "connection failed" }))

abbrev pub connected : Envelope
connected = carrying (connect_ack (record { success = true; message = "connected" }))

abbrev pub bad_first_message : Envelope
bad_first_message =
    carrying
      (error_msg (record { message = "expected Register or ConnectRequest as first message" }))

-- The end of both handlers: an answer, and then the relay loop or the way out.
pub refuse : Client → Envelope → Server → Server
unfolding notify leave
refuse x answer s = leave x (close x (notify x answer s))

pub welcome : Client → Envelope → Server → Server
unfolding notify set_phase
welcome x answer s = set_phase x relaying (notify x answer s)

-- A change of the router alone.
abbrev pub with_router : Result RouterError (Unit {0}) × Router → Server → Server
with_router (r, router) s = record s { router = router }

unfoldable pub handle_listener : Client → String → Server → Server
unfolding set_connection_id log_invalid_connection_id refuse welcome
handle_listener x id s0 =
    let s = set_connection_id x id s0 in
    let r = register_listener id x s.router in
    elim (r.0) [
      | err e ↦ refuse x registration_failed (log_invalid_connection_id x id (with_router r s))
      | ok _ ↦ welcome x registered (with_router r s)
    ]

unfoldable pub handle_connector : Client → String → Server → Server
unfolding set_connection_id log_invalid_connection_id refuse welcome
handle_connector x id s0 =
    let s = set_connection_id x id s0 in
    let r = link_connector id x s.router in
    elim (r.0) [
      | err e ↦ refuse x connection_failed (log_invalid_connection_id x id (with_router r s))
      | ok _ ↦ welcome x connected (with_router r s)
    ]

-- `handleClient`, part by part: the handshake, the authentication, and the first message.
unfoldable pub handle_handshake : Client → Bool → ℕ → Server → Server
unfolding leave close_conn track_client set_phase update_last_seen
handle_handshake x false now s = leave x (close_conn x s)
handle_handshake x true now s =
    set_phase x authenticating (track_client x (update_last_seen x now s))

unfoldable pub handle_auth : Client → AuthInput → Server → Server
unfolding authenticate_client leave set_phase
handle_auth x input s =
    let (r, t) = authenticate_client x input s in
    elim r [ err e ↦ leave x t | ok _ ↦ set_phase x choosing t ]

-- `none` is an error of `Receive`.
unfoldable pub handle_first : Client → Option Envelope → ℕ → Server → Server
unfolding leave update_last_seen handle_listener handle_connector refuse
handle_first x none now s = leave x (close x s)
handle_first x (some env) now s0 =
    let s = update_last_seen x now s0 in
    elim (get_register env) [
      | some m ↦ handle_listener x m.connection_id s
      | none ↦ elim (get_connect_request env) [
        | some m ↦ handle_connector x m.connection_id s
        | none ↦ refuse x bad_first_message s
      ]
    ]

-- One round of `relayMessages`.
unfoldable pub relay_message : Client → Option Envelope → ℕ → Server → Server
unfolding leave update_last_seen send_to
relay_message x none now s = leave x (close x s)
relay_message x (some env) now s0 =
    let s = update_last_seen x now s0 in
    elim (get_heartbeat env) [
      | some _ ↦ s
      | none ↦ elim (get_peer x s.router) [
        | none ↦ leave x (close x s)
        | some peer ↦ elim ((send_to peer env s).0) [
          | ok _ ↦ (send_to peer env s).1
          | err e ↦ leave x (close x (send_to peer env s).1)
        ]
      ]
    ]

-- A tick of `StartHeartbeat`, whose goroutine runs from the welcome until `done`.
unfoldable pub heartbeat_tick : Client → ℕ → Server → Server
unfolding notify
heartbeat_tick x now s =
    if (s.heap x).done
    then s
    else (if ltb heartbeat_timeout (now - (s.heap x).last_seen)
        then close x s
        else notify x (carrying heartbeat) s)

close_all : List Client → Server → Server
close_all [] s = s
close_all (x ∷ xs) s = close_all xs (close x s)

-- `Stop`, up to the wait for the handlers.
unfoldable pub stop : Server → Server
unfolding close_all
stop s = close_all s.clients (record s { closing = true })

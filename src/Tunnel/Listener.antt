-- ===== src/Tunnel/Listener.antt =====
-- The listener's end: pkg/tunnel/listener.go. Its goroutines are workers, and each function is what
-- one of them does from one wait to the next; what it waits for is an argument.
pub mod Events
pub mod Pipe
pub mod Writes
pub mod Dials
pub mod Drains
pub mod Pumps
pub mod Delivery
pub mod Starts
mod Tests
use go_connect.Base.{
  ℕ, ◌+◌, [], ◌∷◌, ◌++◌, List, Bool, true, false, Option, none, some, ◌==◌, if◌then◌else◌, Dict,
  Key, nat_key, lookup, insert, delete, Result, ok, err, M, and_then,
}
use Prim.Native.String.{String}
use go_connect.Bytes.{Bytes}
use go_connect.Pb.{
  Envelope, carrying, open_stream_ack, stream_data, close_stream as close_stream_msg, heartbeat,
  disconnect, get_open_stream, get_stream_data, get_close_stream, get_heartbeat, get_disconnect,
  StreamData, register, get_register_ack,
}
use go_connect.Tunnel.Net.{
  Net, LocalConn, ReadResult, add_conn, close_conn, can_write, write_conn, take_from, can_send,
  send, close_broker, read_conn, new_net,
}
use go_connect.Tunnel.Login.{Script, StartError, fail, wrong_answer, rejected, log_in}

pub record StreamState : Type 0 where
  pub conn : Option ℕ
  pub buf : List Bytes
  pub ready : Bool

abbrev pub pending_stream : StreamState
pending_stream = record { conn = none; buf = []; ready = false }

-- `handleOpenStream` while it dials and while it writes what was buffered, and the pump after it.
pub data Worker : Type 0 where
  idle : Worker
  dialing : ℕ → Worker
  draining : ℕ → ℕ → List Bytes → Worker
  pumping : ℕ → ℕ → Worker

-- `receiving`: `handleMessages` has not returned.
pub record Listener : Type 0 where
  pub net : Net
  pub streams : Dict ℕ StreamState
  pub closed : Bool
  pub receiving : Bool
  pub workers : ℕ → Worker
  pub next_worker : ℕ

abbrev pub set_worker : ℕ → Worker → Listener → Listener
set_worker t w l = record l { workers = λ x. if x == t then w else l.workers x }

abbrev pub with_net : Net → Listener → Listener
with_net n l = record l { net = n }

abbrev pub with_streams : Dict ℕ StreamState → Listener → Listener
with_streams d l = record l { streams = d }

abbrev pub opened_ack : ℕ → Envelope
opened_ack id =
    carrying
      (open_stream_ack (record { stream_id = id; success = true; message = "stream opened" }))

-- The message ends in the text of the error.
abbrev pub refused_ack : ℕ → Envelope
refused_ack id = carrying (
    open_stream_ack
      (record { stream_id = id; success = false; message = "failed to connect to local port: " }))

abbrev pub data_msg : ℕ → Bytes → Envelope
data_msg id xs = carrying (stream_data (record { stream_id = id; payload = xs }))

abbrev pub closed_msg : ℕ → Envelope
closed_msg id = carrying (close_stream_msg (record { stream_id = id }))

-- `conn.Close()` where there is a connection.
close_if : Option ℕ → Net → Net
close_if none n = n
close_if (some c) n = close_conn c n

unfoldable pub remove_stream : ℕ → Listener → Listener
remove_stream id l = with_streams (delete id l.streams) l

unfoldable pub close_stream : ℕ → Listener → Listener
unfolding close_if
close_stream id l = elim (lookup id l.streams) [
  | none ↦ l
  | some state ↦ with_streams (delete id l.streams) (with_net (close_if state.conn l.net) l)
]

-- The loop of `Close` over the streams.
close_states : Dict ℕ StreamState → Net → Net
unfolding close_if
close_states [] n = n
close_states ((id, state) ∷ d) n = close_states d (close_if state.conn n)

abbrev pub shutting_down : Envelope
shutting_down = carrying (disconnect (record { reason = "listener shutting down" }))

unfoldable pub close : Listener → Listener
unfolding close_states close_broker send
close l = if l.closed then l else record l {
  closed = true;
  net = close_states l.streams (close_broker (send shutting_down l.net));
  streams = [];
}

-- The payload is buffered while the stream has no connection, and else written.
unfoldable pub deliver : StreamData → StreamState → Option ℕ → Listener → Listener
unfolding close_stream write_conn can_write
deliver m state none l =
    with_streams
      (insert m.stream_id (record state { buf = state.buf ++ (m.payload ∷ []) }) l.streams) l
deliver m state (some c) l =
    let t = with_net (write_conn c m.payload l.net) l in
    if can_write c m.payload l.net then t else close_stream m.stream_id t

unfoldable pub handle_data : StreamData → Listener → Listener
unfolding deliver
handle_data m l = elim (lookup m.stream_id l.streams) [
  | none ↦ l
  | some state ↦ deliver m state state.conn l
]

-- The stream is registered, and a goroutine dials.
unfoldable pub open_stream : ℕ → Listener → Listener
open_stream id l = record (set_worker l.next_worker (dialing id) l) {
  streams = insert id pending_stream l.streams;
  next_worker = l.next_worker + 1;
}

-- The deferred `Close` of `handleMessages`.
stop_receiving : Listener → Listener
unfolding close
stop_receiving l = record (close l) { receiving = false }

-- The `switch` of `handleMessages`.
unfoldable pub dispatch : Envelope → Listener → Listener
unfolding stop_receiving open_stream handle_data close_stream send
dispatch env l = elim (get_open_stream env) [
  | some m ↦ open_stream m.stream_id l
  | none ↦ elim (get_stream_data env) [
    | some m ↦ handle_data m l
    | none ↦ elim (get_close_stream env) [
      | some m ↦ close_stream m.stream_id l
      | none ↦ elim (get_heartbeat env) [
        | some _ ↦ with_net (send (carrying heartbeat) l.net) l
        | none ↦ elim (get_disconnect env) [ some _ ↦ stop_receiving l | none ↦ l ]
      ]
    ]
  ]
]

-- One round of `handleMessages`, from the `Receive` it waits in to the test of `closeCh` before the
-- next one; `none` is an error of `Receive`.
unfoldable pub handle_message : Option Envelope → Listener → Listener
unfolding stop_receiving dispatch
handle_message none l = stop_receiving l
handle_message (some env) l =
    let after = dispatch env l in if after.closed then stop_receiving after else after

-- `handleOpenStream` once its dial has failed, or has given a connection with room for so much.
unfoldable pub handle_open_stream : ℕ → ℕ → Option ℕ → Listener → Listener
unfolding remove_stream send add_conn close_conn
handle_open_stream t id none l =
    let removed = remove_stream id l in
    set_worker t idle (with_net (send (refused_ack id) removed.net) removed)
handle_open_stream t id (some room) l =
    let c = l.net.next_conn in
    let n = add_conn room l.net in
    elim (lookup id l.streams) [
      | none ↦ set_worker t idle (with_net (close_conn c n) l)
      | some state ↦ set_worker t (draining id c state.buf) (
          with_streams (insert id (record { conn = some c; buf = []; ready = true }) l.streams)
            (with_net n l))
    ]

-- A write of a buffered payload, and what comes after the last.
unfoldable pub drain : ℕ → ℕ → ℕ → List Bytes → Listener → Listener
unfolding close_stream write_conn can_write send
drain t id c [] l = set_worker t (pumping id c) (with_net (send (opened_ack id) l.net) l)
drain t id c (xs ∷ buffered) l =
    let written = with_net (write_conn c xs l.net) l in
    if can_write c xs l.net
    then set_worker t (draining id c buffered) written
    else set_worker t idle (close_stream id written)

-- The end of a round of the pump: what an error of the read comes to, and the test of `closeCh`
-- before the next read.
unfoldable pub pump_end : ℕ → ℕ → ℕ → Bool → Listener → Listener
unfolding remove_stream send
pump_end t id c false l = if l.closed then set_worker t idle l else set_worker t (pumping id c) l
pump_end t id c true l =
    set_worker t idle (remove_stream id (with_net (send (closed_msg id) l.net) l))

-- The round of the pump after its read.
unfoldable pub pump_bytes : ℕ → ℕ → ℕ → ReadResult → Listener → Listener
unfolding close_stream pump_end take_from send can_send
pump_bytes t id c r l = elim (r.bytes) [
  | [] ↦ pump_end t id c r.ended l
  | (x ∷ xs) ↦
      let taken = with_net (take_from c (x ∷ xs) l.net) l in
      let sent = with_net (send (data_msg id (x ∷ xs)) taken.net) taken in
      if can_send taken.net
      then pump_end t id c r.ended sent
      else set_worker t idle (close_stream id sent)
]

-- One round of `pumpLocalToRemote`, whose read gives `result` unless the connection is closed. A
-- pump that starts after `Close` may still make one round.
unfoldable pub pump_local_to_remote : ℕ → ℕ → ℕ → ReadResult → Listener → Listener
unfolding pump_bytes read_conn
pump_local_to_remote t id c result l = pump_bytes t id c (read_conn c result l.net) l

-- `NewListener`
unfoldable pub new_listener : Listener
new_listener = record {
  net = new_net;
  streams = [];
  closed = false;
  receiving = false;
  workers = λ _. idle;
  next_worker = 0;
}

check_ack : Envelope → M Net StartError (Unit {0})
unfolding close_broker
check_ack env n = elim (get_register_ack env) [
  | none ↦ fail wrong_answer n
  | some ack ↦ if ack.success then (ok tt, n) else fail (rejected ack.message) n
]

-- `Start`, with SHA-256 as a parameter.
unfoldable pub start : (Bytes → Bytes) → Bytes → String → Script → M Listener StartError (Unit {0})
unfolding check_ack log_in
start sha256 passphrase connection_id script l =
    let request = carrying (register (record { connection_id = connection_id })) in
    let (r, n) = and_then (log_in (sha256 passphrase) request script l.net) check_ack in
    elim r [
      | err e ↦ (err e, with_net n l)
      | ok _ ↦ (ok tt, record l { net = n; receiving = true })
    ]

-- ===== src/Tunnel/Connector.antt =====
-- The connector's end: pkg/tunnel/connector.go. Its goroutines are workers, and each function is what
-- one of them does from one wait to the next; what it waits for is an argument.
pub mod Events
pub mod Workers
pub mod Opening
pub mod Patience
pub mod Acks
pub mod Streams
pub mod Starts
pub mod Closing
pub mod Silence
pub mod Chunks
mod Tests
use go_connect.Base.{
  ℕ, ◌+◌, ◌%◌, ◌^◌, [], ◌∷◌, List, Bool, true, false, Option, none, some, ◌==◌, if◌then◌else◌, Dict,
  Key, nat_key, lookup, insert, delete, Result, ok, err, M, and_then,
}
use Prim.Native.String.{String}
use go_connect.Bytes.{Bytes}
use go_connect.Pb.{
  Envelope, carrying, open_stream, stream_data, close_stream as close_stream_msg, heartbeat,
  disconnect, get_open_stream_ack, get_stream_data, get_close_stream, get_heartbeat, get_disconnect,
  StreamData, OpenStreamAck, connect_request, get_connect_ack,
}
use go_connect.Tunnel.Net.{
  Net, LocalConn, ReadResult, add_conn, close_conn, can_write, write_conn, take_from, can_send,
  send, close_broker, read_conn, new_net,
}
use go_connect.Tunnel.Login.{
  Script, StartError, fail, wrong_answer, rejected, listen_failed, log_in,
}

-- `handleLocalConnection` while it waits, with what is in its channel, and the pump after it.
pub data Worker : Type 0 where
  idle : Worker
  waiting : ℕ → ℕ → Option Bool → Worker
  pumping : ℕ → ℕ → Worker

-- `pending` has for a stream the worker whose channel it is.
pub record Connector : Type 0 where
  pub net : Net
  pub next_stream_id : ℕ
  pub streams : Dict ℕ ℕ
  pub pending : Dict ℕ ℕ
  pub closed : Bool
  pub receiving : Bool
  pub workers : ℕ → Worker
  pub next_worker : ℕ

abbrev pub set_worker : ℕ → Worker → Connector → Connector
set_worker t w s = record s { workers = λ x. if x == t then w else s.workers x }

abbrev pub with_net : Net → Connector → Connector
with_net n s = record s { net = n }

abbrev pub open_msg : ℕ → Envelope
open_msg id = carrying (open_stream (record { stream_id = id }))

abbrev pub data_msg : ℕ → Bytes → Envelope
data_msg id xs = carrying (stream_data (record { stream_id = id; payload = xs }))

abbrev pub closed_msg : ℕ → Envelope
closed_msg id = carrying (close_stream_msg (record { stream_id = id }))

unfoldable pub remove_stream : ℕ → Connector → Connector
remove_stream id s = record s { streams = delete id s.streams }

unfoldable pub remove_pending : ℕ → Connector → Connector
remove_pending id s = record s { pending = delete id s.pending }

unfoldable pub close_stream : ℕ → Connector → Connector
unfolding close_conn
close_stream id s = elim (lookup id s.streams) [
  | none ↦ s
  | some c ↦ record s { streams = delete id s.streams; net = close_conn c s.net }
]

-- The loop of `Close` over the streams.
pub close_conns : Dict ℕ ℕ → Net → Net
unfolding close_conn
close_conns [] n = n
close_conns ((id, c) ∷ d) n = close_conns d (close_conn c n)

abbrev pub shutting_down : Envelope
shutting_down = carrying (disconnect (record { reason = "connector shutting down" }))

unfoldable pub close : Connector → Connector
unfolding close_conns close_broker send
close s = if s.closed then s else record s {
  closed = true;
  net = close_conns s.streams (close_broker (send shutting_down s.net));
  streams = [];
}

-- The ways out of `handleLocalConnection`: `localConn.Close()` and the removals.
unfoldable pub give_up : ℕ → ℕ → ℕ → Connector → Connector
unfolding remove_stream remove_pending close_conn
give_up t id c s =
    set_worker t idle (remove_pending id (remove_stream id (with_net (close_conn c s.net) s)))

-- `handleLocalConnection` up to its wait, on a connection with room for so much. The counter is a
-- uint32 and wraps.
unfoldable pub handle_local_connection : ℕ → Connector → Connector
unfolding give_up send can_send add_conn
handle_local_connection room s0 =
    let id = (s0.next_stream_id + 1) % 2 ^ 32 in
    let c = s0.net.next_conn in
    let t = s0.next_worker in
    let s = record s0 {
      next_stream_id = id;
      net = add_conn room s0.net;
      pending = insert id t s0.pending;
      streams = insert id c s0.streams;
      next_worker = t + 1;
    } in
    let sent = with_net (send (open_msg id) s.net) s in
    if can_send s.net then set_worker t (waiting id c none) sent else give_up t id c sent

-- What the wait for the acknowledgement ends with: the channel, the timeout, or `closeCh`.
pub data Wait : Type 0 where
  answered timed_out closing : Wait

unfoldable pub wait_for_ack : ℕ → ℕ → ℕ → Option Bool → Wait → Connector → Connector
unfolding give_up remove_stream close_conn
wait_for_ack t id c none answered s = s
wait_for_ack t id c (some true) answered s = set_worker t (pumping id c) s
wait_for_ack t id c (some false) answered s =
    set_worker t idle (remove_stream id (with_net (close_conn c s.net) s))
wait_for_ack t id c ack timed_out s = give_up t id c s
wait_for_ack t id c ack closing s = if s.closed then give_up t id c s else s

-- `ch <- success`, into the channel of a worker.
fill : Worker → Bool → Worker
fill (waiting id c ack) success = waiting id c (some success)
fill w success = w

unfoldable pub handle_ack : OpenStreamAck → Connector → Connector
unfolding remove_pending fill
handle_ack m s = elim (lookup m.stream_id s.pending) [
  | none ↦ s
  | some t ↦ set_worker t (fill (s.workers t) m.success) (remove_pending m.stream_id s)
]

unfoldable pub handle_data : StreamData → Connector → Connector
unfolding close_stream write_conn can_write
handle_data m s = elim (lookup m.stream_id s.streams) [
  | none ↦ s
  | some c ↦
      let written = with_net (write_conn c m.payload s.net) s in
      if can_write c m.payload s.net then written else close_stream m.stream_id written
]

-- The deferred `Close` of `handleMessages`.
stop_receiving : Connector → Connector
unfolding close
stop_receiving s = record (close s) { receiving = false }

-- The `switch` of `handleMessages`.
unfoldable pub dispatch : Envelope → Connector → Connector
unfolding stop_receiving handle_ack handle_data close_stream send
dispatch env s = elim (get_open_stream_ack env) [
  | some m ↦ handle_ack m s
  | none ↦ elim (get_stream_data env) [
    | some m ↦ handle_data m s
    | none ↦ elim (get_close_stream env) [
      | some m ↦ close_stream m.stream_id s
      | none ↦ elim (get_heartbeat env) [
        | some _ ↦ with_net (send (carrying heartbeat) s.net) s
        | none ↦ elim (get_disconnect env) [ some _ ↦ stop_receiving s | none ↦ s ]
      ]
    ]
  ]
]

-- One round of `handleMessages`, from the `Receive` it waits in to the test of `closeCh` before the
-- next one; `none` is an error of `Receive`.
unfoldable pub handle_message : Option Envelope → Connector → Connector
unfolding stop_receiving dispatch
handle_message none s = stop_receiving s
handle_message (some env) s =
    let after = dispatch env s in if after.closed then stop_receiving after else after

-- The end of a round of the pump: what an error of the read comes to, and the test of `closeCh`
-- before the next read.
unfoldable pub pump_end : ℕ → ℕ → ℕ → Bool → Connector → Connector
unfolding remove_stream send
pump_end t id c false s = if s.closed then set_worker t idle s else set_worker t (pumping id c) s
pump_end t id c true s =
    set_worker t idle (remove_stream id (with_net (send (closed_msg id) s.net) s))

-- The round of the pump after its read.
unfoldable pub pump_bytes : ℕ → ℕ → ℕ → ReadResult → Connector → Connector
unfolding close_stream pump_end take_from send can_send
pump_bytes t id c r s = elim (r.bytes) [
  | [] ↦ pump_end t id c r.ended s
  | (x ∷ xs) ↦
      let taken = with_net (take_from c (x ∷ xs) s.net) s in
      let sent = with_net (send (data_msg id (x ∷ xs)) taken.net) taken in
      if can_send taken.net
      then pump_end t id c r.ended sent
      else set_worker t idle (close_stream id sent)
]

-- One round of `pumpLocalToRemote`, whose read gives `result` unless the connection is closed. A
-- pump that starts after `Close` may still make one round.
unfoldable pub pump_local_to_remote : ℕ → ℕ → ℕ → ReadResult → Connector → Connector
unfolding pump_bytes read_conn
pump_local_to_remote t id c result s = pump_bytes t id c (read_conn c result s.net) s

-- `NewConnector`
unfoldable pub new_connector : Connector
new_connector = record {
  net = new_net;
  next_stream_id = 0;
  streams = [];
  pending = [];
  closed = false;
  receiving = false;
  workers = λ _. idle;
  next_worker = 0;
}

check_ack : Script → Envelope → M Net StartError (Unit {0})
unfolding close_broker
check_ack script env n = elim (get_connect_ack env) [
  | none ↦ fail wrong_answer n
  | some ack ↦
      if ack.success
      then (if script.port_free then (ok tt, n) else fail listen_failed n)
      else fail (rejected ack.message) n
]

-- `Start`, with SHA-256 as a parameter.
unfoldable pub start : (Bytes → Bytes) → Bytes → String → Script → M Connector StartError (Unit {0})
unfolding check_ack log_in
start sha256 passphrase connection_id script s =
    let request = carrying (connect_request (record { connection_id = connection_id })) in
    let (r, n) = and_then (log_in (sha256 passphrase) request script s.net) (check_ack script) in
    elim r [
      | err e ↦ (err e, with_net n s)
      | ok _ ↦ (ok tt, record s { net = n; receiving = true })
    ]

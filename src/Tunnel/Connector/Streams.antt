-- ===== src/Tunnel/Connector/Streams.antt =====
-- What the connector promises of its streams, whatever happens around it.
use Prim.Native.String.{String}
use go_connect.Base.{
  ℕ, ◌+◌, ◌^◌, ◌%◌, ◌<◌, ◌≡◌, sym, ap, subst, lookup, nat_key, [], List, true, false, Option, none,
  some, arith,
}
use go_connect.Bytes.{Bytes}
use go_connect.Pb.{get_stream_data, get_open_stream}
use go_connect.Tunnel.Net.{can_send, send, close_broker}
use go_connect.Tunnel.Login.{Script, log_in}
use go_connect.Tunnel.Connector.{
  Connector, Worker, idle, waiting, pumping, new_connector, start, check_ack,
}
use go_connect.Tunnel.Connector.Events.{Event, run}
use go_connect.Tunnel.Connector.Workers.{Inv, WorkerOk, sends_data}
use go_connect.Tunnel.Payloads.{take_in, collect, payloads}
use go_connect.Tunnel.Connector.Acks.{acked, run-Inv}

-- The stream of a worker that waits or pumps.
abbrev pub stream_of : Worker → Option ℕ
stream_of idle = none
stream_of (waiting id c ack) = some id
stream_of (pumping id c) = some id

module _ (sha256 : Bytes → Bytes) (passphrase : Bytes) (connection_id : String)
    (script : Script) where
  unfoldable pub started : Connector
  started = (start sha256 passphrase connection_id script new_connector).1

  start-Inv : Inv (λ id. ⊥) started
  unfolding started start new_connector log_in check_ack send can_send close_broker sends_data
      collect take_in get_open_stream get_stream_data lookup
  start-Inv = record {
    conn_count = ground arith;
    id_count = ground arith;
    worker = λ t.
        let none_yet : started.workers t ≡ idle = ground arith in
        subst (WorkerOk (λ id. ⊥) started.next_worker t) (sym none_yet) tt;
    pends = λ id t e.
        let none_yet : started.pending ≡ [] = ground arith in
        absurd (ground (arith, ap (lookup id) none_yet));
    sent = λ id e. absurd (ground arith);
    up = λ few can t. ground arith;
  }

  -- No Data message is sent on a stream before an acknowledgement for that stream, which says
  -- success, has arrived from the broker.
  pub sends_data-acked :
      (es : List Event) (id : ℕ)
      → sends_data id (run es started).net.outbox ≡ true
      → acked id es ≡ true
  sends_data-acked es id e = (run-Inv es started start-Inv).sent id e

  -- While fewer than 2^32 local connections came and the broker can be reached, what was sent on a
  -- stream since it was opened is what was read from its local connection, byte for byte, in order.
  pub payloads-taken :
      (es : List Event) (t : ℕ)
      → (run es started).next_worker < 2 ^ 32
      → can_send (run es started).net ≡ true
      → t < (run es started).next_worker
      → payloads (t + 1) (run es started).net.outbox ≡ ((run es started).net.conns t).taken
  payloads-taken es t few can lt = ground (arith, (run-Inv es started start-Inv).up few can t)

  worker_stream :
      (es : List Event) (t id : ℕ)
      → stream_of ((run es started).workers t) ≡ some id
      → (id ≡ (t + 1) % 2 ^ 32) × (t < (run es started).next_worker)
  worker_stream es t id e =
      by_worker ((run es started).workers t) ((run-Inv es started start-Inv).worker t) e
    where
      by_worker :
          (w : Worker)
          → WorkerOk (λ i. acked i es ≡ true) (run es started).next_worker t w
          → stream_of w ≡ some id
          → (id ≡ (t + 1) % 2 ^ 32) × (t < (run es started).next_worker)
      by_worker idle good e = absurd (ground arith)
      by_worker (waiting i c none) good e = ground arith
      by_worker (waiting i c (some true)) good e = ground arith
      by_worker (waiting i c (some false)) good e = ground arith
      by_worker (pumping i c) good e = ground arith

  -- While fewer than 2^32 local connections came, no two of the goroutines that wait for an
  -- acknowledgement or pump have the same stream.
  pub streams_differ :
      (es : List Event) (t u id : ℕ)
      → (run es started).next_worker < 2 ^ 32
      → stream_of ((run es started).workers t) ≡ some id
      → stream_of ((run es started).workers u) ≡ some id
      → t ≡ u
  streams_differ es t u id few e f = omega (arith, worker_stream es t id e, worker_stream es u id f)

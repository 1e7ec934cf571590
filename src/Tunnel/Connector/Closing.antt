-- ===== src/Tunnel/Connector/Closing.antt =====
-- What is left of the connector after `Close`: nothing is registered, and nothing is sent.
use go_connect.Base.{
  ℕ, ◌≡◌, ◌∙◌, refl, sym, [], ◌∷◌, Bool, true, false, Option, none, some, arith, ◌⊎◌, inr, if_cases,
  nat_key, lookup, lookup-delete,
}
use go_connect.Bytes.{Bytes}
use go_connect.Pb.{Envelope, OpenStreamAck, StreamData}
use go_connect.Tunnel.Net.{close_conn, write_conn, take_from, can_send, send, read_conn}
use go_connect.Tunnel.Connector.{
  Connector, Worker, idle, waiting, pumping, Wait, answered, timed_out, closing, set_worker,
  with_net, data_msg, closed_msg, remove_stream, remove_pending, close_stream, give_up,
  wait_for_ack, handle_ack, handle_data, pump_end, pump_bytes, pump_local_to_remote,
}
use go_connect.Tunnel.Connector.Events.{
  Event, accepts, receives, waits, reads, closes, breaks, work,
}

-- Nothing that a closed connector must not do happens between `s` and `t`.
pub record Quiet (s t : Connector) : Type 0 where
  pub still : t.closed ≡ s.closed
  pub broker : t.net.broker_open ≡ s.net.broker_open
  pub sent : s.net.broker_open ≡ false → t.net.outbox ≡ s.net.outbox
  pub streams :
      (id : ℕ) → (lookup id t.streams ≡ none) ⊎ (lookup id t.streams ≡ lookup id s.streams)

-- A connector that is closed has no session and no streams.
abbrev pub IsShut : Connector → Type 0
IsShut s = s.closed ≡ true → (s.net.broker_open ≡ false) × ((id : ℕ) → lookup id s.streams ≡ none)

pub Quiet-IsShut : (s t : Connector) → Quiet s t → IsShut s → IsShut t
Quiet-IsShut s t q v c =
    let w = v (sym q.still ∙ c) in (q.broker ∙ w.0, λ id. ground (arith, q.streams id, w.1 id))

pub Quiet-refl : (s : Connector) → Quiet s s
Quiet-refl s = record { still = refl; broker = refl; sent = λ b. refl; streams = λ id. inr refl }

Quiet-trans : (s t u : Connector) → Quiet s t → Quiet t u → Quiet s u
Quiet-trans s t u p q = record {
  still = q.still ∙ p.still;
  broker = q.broker ∙ p.broker;
  sent = λ b. q.sent (p.broker ∙ b) ∙ p.sent b;
  streams = λ id. ground (arith, p.streams id, q.streams id);
}

pub send-Quiet : (env : Envelope) (s : Connector) → Quiet s (with_net (send env s.net) s)
unfolding send can_send
send-Quiet env s = record {
  still = refl;
  broker = ground arith;
  sent = λ b. ground arith;
  streams = λ id. inr refl;
}

take_from-Quiet : (c : ℕ) (xs : Bytes) (s : Connector) → Quiet s (with_net (take_from c xs s.net) s)
unfolding take_from
take_from-Quiet c xs s = record {
  still = refl;
  broker = refl;
  sent = λ b. refl;
  streams = λ id. inr refl;
}

set_worker-Quiet : (t : ℕ) (w : Worker) (s : Connector) → Quiet s (set_worker t w s)
set_worker-Quiet t w s = record {
  still = refl;
  broker = refl;
  sent = λ b. refl;
  streams = λ id. inr refl;
}

remove_stream-Quiet : (i : ℕ) (s : Connector) → Quiet s (remove_stream i s)
unfolding remove_stream
remove_stream-Quiet i s = record {
  still = refl;
  broker = refl;
  sent = λ b. refl;
  streams = λ id. ground (arith, lookup-delete i id s.streams);
}

pub close_stream-Quiet : (i : ℕ) (s : Connector) → Quiet s (close_stream i s)
unfolding close_stream close_conn
close_stream-Quiet i s = record {
  still = ground arith;
  broker = ground arith;
  sent = λ b. ground arith;
  streams = λ id. ground (arith, lookup-delete i id s.streams);
}

give_up-Quiet : (t i c : ℕ) (s : Connector) → Quiet s (give_up t i c s)
unfolding give_up remove_stream remove_pending close_conn
give_up-Quiet t i c s = record {
  still = refl;
  broker = refl;
  sent = λ b. refl;
  streams = λ id. ground (arith, lookup-delete i id s.streams);
}

pub handle_ack-Quiet : (m : OpenStreamAck) (s : Connector) → Quiet s (handle_ack m s)
unfolding handle_ack remove_pending
handle_ack-Quiet m s = record {
  still = ground arith;
  broker = ground arith;
  sent = λ b. ground arith;
  streams = λ id. inr (ground arith);
}

pub handle_data-Quiet : (m : StreamData) (s : Connector) → Quiet s (handle_data m s)
unfolding handle_data close_stream close_conn write_conn
handle_data-Quiet m s = record {
  still = ground arith;
  broker = ground arith;
  sent = λ b. ground arith;
  streams = λ id. ground (arith, lookup-delete m.stream_id id s.streams);
}

wait_for_ack-Quiet :
    (t i c : ℕ) (ack : Option Bool) (wait : Wait) (s : Connector)
    → Quiet s (wait_for_ack t i c ack wait s)
unfolding wait_for_ack remove_stream close_conn
wait_for_ack-Quiet t i c none answered s = Quiet-refl s
wait_for_ack-Quiet t i c (some true) answered s = set_worker-Quiet t (pumping i c) s
wait_for_ack-Quiet t i c (some false) answered s = record {
  still = refl;
  broker = refl;
  sent = λ b. refl;
  streams = λ id. ground (arith, lookup-delete i id s.streams);
}
wait_for_ack-Quiet t i c ack timed_out s = give_up-Quiet t i c s
wait_for_ack-Quiet t i c ack closing s =
    if_cases (Quiet s) s.closed _ _ (λ _. give_up-Quiet t i c s) (λ _. Quiet-refl s)

pump_end-Quiet : (t i c : ℕ) (ended : Bool) (s : Connector) → Quiet s (pump_end t i c ended s)
unfolding pump_end
pump_end-Quiet t i c false s =
    if_cases (Quiet s) s.closed _ _ (λ _. set_worker-Quiet t idle s)
      (λ _. set_worker-Quiet t (pumping i c) s)
pump_end-Quiet t i c true s =
    let told = with_net (send (closed_msg i) s.net) s in
    Quiet-trans s told _ (send-Quiet (closed_msg i) s) (
      Quiet-trans told (remove_stream i told) _ (remove_stream-Quiet i told)
        (set_worker-Quiet t idle (remove_stream i told)))

pump_bytes-Quiet :
    (t i c : ℕ) (bytes : Bytes) (ended : Bool) (s : Connector)
    → Quiet s (pump_bytes t i c (record { bytes = bytes; ended = ended }) s)
unfolding pump_bytes
pump_bytes-Quiet t i c [] ended s = pump_end-Quiet t i c ended s
pump_bytes-Quiet t i c (x ∷ xs) ended s =
    let taken = with_net (take_from c (x ∷ xs) s.net) s in
    let sent = with_net (send (data_msg i (x ∷ xs)) taken.net) taken in
    let q =
      Quiet-trans s taken sent (take_from-Quiet c (x ∷ xs) s)
        (send-Quiet (data_msg i (x ∷ xs)) taken) in
    if_cases (Quiet s) (can_send taken.net) _ _
      (λ _. Quiet-trans s sent _ q (pump_end-Quiet t i c ended sent))
      (λ _. Quiet-trans s sent _ q (
        Quiet-trans sent (close_stream i sent) _ (close_stream-Quiet i sent)
          (set_worker-Quiet t idle (close_stream i sent))))

pub work-Quiet : (t : ℕ) (w : Worker) (e : Event) (s : Connector) → Quiet s (work t w e s)
unfolding work pump_local_to_remote
work-Quiet t (waiting i c ack) (waits u wait) s = wait_for_ack-Quiet t i c ack wait s
work-Quiet t (pumping i c) (reads u r) s =
    let got = read_conn c r s.net in pump_bytes-Quiet t i c got.bytes got.ended s
work-Quiet t idle x s = Quiet-refl s
work-Quiet t (waiting i c ack) (accepts room) s = Quiet-refl s
work-Quiet t (waiting i c ack) (receives env) s = Quiet-refl s
work-Quiet t (waiting i c ack) (reads u r) s = Quiet-refl s
work-Quiet t (waiting i c ack) closes s = Quiet-refl s
work-Quiet t (waiting i c ack) breaks s = Quiet-refl s
work-Quiet t (pumping i c) (accepts room) s = Quiet-refl s
work-Quiet t (pumping i c) (receives env) s = Quiet-refl s
work-Quiet t (pumping i c) (waits u w) s = Quiet-refl s
work-Quiet t (pumping i c) closes s = Quiet-refl s
work-Quiet t (pumping i c) breaks s = Quiet-refl s

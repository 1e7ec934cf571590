-- ===== src/Tunnel/Connector/Opening.antt =====
-- Closing the connector, and a local connection up to the end of its wait, keep the invariant.
use go_connect.Base.{
  Bool-cases, ℕ, ◌+◌, ◌%◌, ◌^◌, ◌≡◌, ◌∙◌, refl, subst, [], ◌∷◌, Bool, true, false, Option, none,
  some, ◌==◌, arith, if_cases, inl, inr, Dict, nat_key, insert, lookup-insert,
}
use go_connect.Pb.{get_open_stream, get_stream_data, heartbeat, carrying}
use go_connect.Tunnel.Payloads.{take_in, payloads_snoc}
use go_connect.Tunnel.Net.{Net, add_conn, close_conn, can_send, send, close_broker}
use go_connect.Tunnel.Connector.{
  Connector, Worker, idle, waiting, pumping, Wait, answered, timed_out, closing, with_net, open_msg,
  closed_msg, shutting_down, close_conns, close, give_up, handle_local_connection, wait_for_ack,
}
use go_connect.Tunnel.Connector.Workers.{
  sends_data, sends_data-append, WorkerOk, Inv, Same, Same-Inv, set_worker-Inv, set_worker_idle-Inv,
  send-Same, net-Same, close_conn-Same, remove_stream-Same, remove_pending-Same,
}

next_conn-close_conns : (d : Dict ℕ ℕ) (n : Net) → (close_conns d n).next_conn ≡ n.next_conn
unfolding close_conns close_conn
next_conn-close_conns [] n = refl
next_conn-close_conns ((id, c) ∷ d) n = next_conn-close_conns d (close_conn c n)

pub outbox-close_conns : (d : Dict ℕ ℕ) (n : Net) → (close_conns d n).outbox ≡ n.outbox
unfolding close_conns close_conn
outbox-close_conns [] n = refl
outbox-close_conns ((id, c) ∷ d) n = outbox-close_conns d (close_conn c n)

taken-close_conns :
    (d : Dict ℕ ℕ) (n : Net) (c : ℕ) → ((close_conns d n).conns c).taken ≡ (n.conns c).taken
unfolding close_conns close_conn
taken-close_conns [] n x = refl
taken-close_conns ((id, c) ∷ d) n x = taken-close_conns d (close_conn c n) x ∙ ground arith

can_send-close_conns : (d : Dict ℕ ℕ) (n : Net) → can_send (close_conns d n) ≡ can_send n
unfolding close_conns close_conn can_send
can_send-close_conns [] n = refl
can_send-close_conns ((id, c) ∷ d) n = can_send-close_conns d (close_conn c n)

pub no_data-heartbeat : get_stream_data (carrying heartbeat) ≡ none
unfolding get_stream_data
no_data-heartbeat = refl

pub no_open-heartbeat : get_open_stream (carrying heartbeat) ≡ none
unfolding get_open_stream
no_open-heartbeat = refl

pub no_open-closed_msg : (id : ℕ) → get_open_stream (closed_msg id) ≡ none
unfolding get_open_stream
no_open-closed_msg id = refl

pub no_data-closed_msg : (id : ℕ) → get_stream_data (closed_msg id) ≡ none
unfolding get_stream_data
no_data-closed_msg id = refl

module _ (A : ℕ → Type 0) where
  shut_net : Connector → Connector
  unfolding close_broker
  shut_net s = with_net (close_conns s.streams (close_broker s.net)) s

  shut_net-Same : (s : Connector) → Same A s (shut_net s)
  unfolding shut_net close_broker can_send
  shut_net-Same s =
      net-Same A _ s (next_conn-close_conns s.streams _) (outbox-close_conns s.streams _)
        (taken-close_conns s.streams _)
        (λ x. ground (arith, can_send-close_conns s.streams (close_broker s.net)))

  closed-Same :
      (n : Net) (s : Connector)
      → Same A (with_net n s) (record s { closed = true; net = n; streams = [] })
  closed-Same n s = record {
    conn_count = refl;
    id_count = refl;
    worker_count = refl;
    worker = refl;
    pends = λ i u g. g;
    sent = λ i g. g;
    taken = λ c. refl;
    can = λ x. x;
    up = λ x i. refl;
  }

  pub close-Inv : (s : Connector) → Inv A s → Inv A (close s)
  unfolding close shut_net get_stream_data get_open_stream
  close-Inv s v =
      if_cases (Inv A) s.closed _ _ (λ _. v)
        (λ _.
          let sent = with_net (send shutting_down s.net) s in
          Same-Inv A (shut_net sent) _ (closed-Same _ s) (
            Same-Inv A sent (shut_net sent) (shut_net-Same sent)
              (Same-Inv A s sent (send-Same A shutting_down s (ground arith) (ground arith)) v)))

  give_up-Inv : (t id c : ℕ) (s : Connector) → Inv A s → Inv A (give_up t id c s)
  unfolding give_up
  give_up-Inv t id c s v = set_worker_idle-Inv A t _ (
      Same-Inv A _ _ (remove_pending-Same A id _)
        (Same-Inv A _ _ (remove_stream-Same A id _) (Same-Inv A s _ (close_conn-Same A c s) v)))

  next_worker-le : (next t : ℕ) (w : Worker) → WorkerOk A next t w → WorkerOk A (next + 1) t w
  next_worker-le next t idle ok = tt
  next_worker-le next t (waiting id c none) ok = ground arith
  next_worker-le next t (waiting id c (some true)) ok = (ground arith, ok.1)
  next_worker-le next t (waiting id c (some false)) ok = ground arith
  next_worker-le next t (pumping id c) ok = (ground arith, ok.1)

  enrol : ℕ → Connector → Connector
  unfolding add_conn
  enrol room s0 = record s0 {
    next_stream_id = (s0.next_stream_id + 1) % 2 ^ 32;
    net = add_conn room s0.net;
    pending = insert ((s0.next_stream_id + 1) % 2 ^ 32) s0.next_worker s0.pending;
    streams = insert ((s0.next_stream_id + 1) % 2 ^ 32) s0.net.next_conn s0.streams;
    next_worker = s0.next_worker + 1;
  }

  enrol-Inv : (room : ℕ) (s : Connector) → Inv A s → Inv A (enrol room s)
  unfolding enrol add_conn can_send
  enrol-Inv room s v = record {
    conn_count = omega (arith, v.conn_count);
    id_count = omega (arith, v.id_count);
    worker = λ u. next_worker-le s.next_worker u (s.workers u) (v.worker u);
    pends = λ id u f. ground (
      arith,
      lookup-insert ((s.next_stream_id + 1) % 2 ^ 32) id s.next_worker s.pending,
      v.pends id u,
      v.id_count,
    );
    sent = v.sent;
    up = λ few can u. ground (arith, v.up (omega arith) can u, v.conn_count);
  }

  -- The stream is opened while its connection is fresh.
  send_open-Inv :
      (t : ℕ) (s : Connector)
      → s.next_worker ≡ t + 1
      → (s.net.conns t).taken ≡ []
      → Inv A s
      → Inv A (with_net (send (open_msg ((t + 1) % 2 ^ 32)) s.net) s)
  unfolding send sends_data take_in get_open_stream get_stream_data can_send
  send_open-Inv t s e f v = record {
    conn_count = ground (arith, v.conn_count);
    id_count = v.id_count;
    worker = v.worker;
    pends = v.pends;
    sent = λ i g.
        v.sent i
          (ground (arith, sends_data-append i s.net.outbox (open_msg ((t + 1) % 2 ^ 32) ∷ [])));
    up = λ few can u.
        let able : can_send s.net ≡ true = ground arith in
        let small : (t + 1) % 2 ^ 32 ≡ t + 1 = omega arith in
        elim (Bool-cases (u == t)) [
          | inl g ↦
              ground
                (arith, payloads_snoc (u + 1) s.net.outbox (open_msg ((t + 1) % 2 ^ 32)), small, f)
          | inr g ↦ ground (
            arith,
            payloads_snoc (u + 1) s.net.outbox (open_msg ((t + 1) % 2 ^ 32)),
            small,
            v.up few able u,
          )
        ];
  }

  pub handle_local_connection-Inv :
      (room : ℕ) (s : Connector) → Inv A s → Inv A (handle_local_connection room s)
  unfolding handle_local_connection enrol add_conn get_stream_data
  handle_local_connection-Inv room s v =
      let e = enrol room s in
      let id = (s.next_stream_id + 1) % 2 ^ 32 in
      let sent = with_net (send (open_msg id) e.net) e in
      let fresh : (e.net.conns s.next_worker).taken ≡ [] = ground (arith, v.conn_count) in
      let counted : (s.next_worker + 1) % 2 ^ 32 ≡ id = omega (arith, v.id_count) in
      let w =
        subst (λ i. Inv A (with_net (send (open_msg i) e.net) e)) counted
          (send_open-Inv s.next_worker e refl fresh (enrol-Inv room s v)) in
      if_cases (Inv A) (can_send e.net) _ _
        (λ _.
          set_worker-Inv A s.next_worker (waiting id s.net.next_conn none) sent
            (ground (arith, v.conn_count, v.id_count)) w)
        (λ _. give_up-Inv s.next_worker id s.net.next_conn sent w)

  pub wait_for_ack-Inv :
      (t id c : ℕ) (ack : Option Bool) (wait : Wait) (s : Connector)
      → s.workers t ≡ waiting id c ack
      → Inv A s
      → Inv A (wait_for_ack t id c ack wait s)
  unfolding wait_for_ack
  wait_for_ack-Inv t id c none answered s e v = v
  wait_for_ack-Inv t id c (some true) answered s e v =
      set_worker-Inv A t (pumping id c) s (subst (WorkerOk A s.next_worker t) e (v.worker t)) v
  wait_for_ack-Inv t id c (some false) answered s e v =
      set_worker_idle-Inv A t _
        (Same-Inv A _ _ (remove_stream-Same A id _) (Same-Inv A s _ (close_conn-Same A c s) v))
  wait_for_ack-Inv t id c ack timed_out s e v = give_up-Inv t id c s v
  wait_for_ack-Inv t id c ack closing s e v =
      if_cases (Inv A) s.closed _ _ (λ _. give_up-Inv t id c s v) (λ _. v)

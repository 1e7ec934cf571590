-- ===== src/Tunnel/Connector/Patience.antt =====
-- Messages and reads keep the invariant of the connector: data is for streams that may carry it.
use go_connect.Base.{
  ℕ, ◌+◌, ◌%◌, ◌^◌, ◌≡◌, refl, subst, [], ◌∷◌, Bool, true, false, Option, none, some, arith,
  if_cases, Option-cases, inl, inr, nat_key, lookup,
}
use go_connect.Bytes.{Bytes}
use go_connect.Pb.{
  Envelope, OpenStreamAck, StreamData, get_stream_data, get_open_stream_ack, get_close_stream,
  get_heartbeat, get_disconnect, heartbeat, carrying,
}
use go_connect.Tunnel.Net.{ReadResult, close_conn, write_conn, take_from, can_send, send, read_conn}
use go_connect.Tunnel.Connector.{
  Connector, Worker, idle, waiting, pumping, with_net, data_msg, closed_msg, remove_pending,
  close_stream, close, fill, handle_ack, handle_data, stop_receiving, dispatch, handle_message,
  pump_end, pump_bytes, pump_local_to_remote,
}
use go_connect.Tunnel.Connector.Events.{
  Event, accepts, receives, waits, reads, closes, breaks, work, step,
}
use go_connect.Tunnel.Connector.Workers.{
  WorkerOk, Inv, Same, Same-Inv, set_worker-Inv, set_worker_idle-Inv, send-Same, send_data-Inv,
  net-Same, remove_stream-Same, remove_pending-Same, close_stream-Same,
}
use go_connect.Tunnel.Connector.Opening.{
  close-Inv, handle_local_connection-Inv, wait_for_ack-Inv, no_data-heartbeat, no_open-heartbeat,
  no_open-closed_msg, no_data-closed_msg,
}

module _ (A : ℕ → Type 0) where
  fill-WorkerOk :
      (next t id : ℕ) (w : Worker) (success : Bool)
      → id ≡ (t + 1) % 2 ^ 32
      → (success ≡ true → A id)
      → WorkerOk A next t w
      → WorkerOk A next t (fill w success)
  unfolding fill
  fill-WorkerOk next t id idle b e a ok = tt
  fill-WorkerOk next t id (waiting i c none) true e a ok = (ok, subst A (ground arith) (a refl))
  fill-WorkerOk next t id (waiting i c none) false e a ok = ok
  fill-WorkerOk next t id (waiting i c (some true)) true e a ok = ok
  fill-WorkerOk next t id (waiting i c (some true)) false e a ok = ok.0
  fill-WorkerOk next t id (waiting i c (some false)) true e a ok =
      (ok, subst A (ground arith) (a refl))
  fill-WorkerOk next t id (waiting i c (some false)) false e a ok = ok
  fill-WorkerOk next t id (pumping i c) b e a ok = ok

  handle_ack-Inv :
      (m : OpenStreamAck) (s : Connector)
      → (m.success ≡ true → A m.stream_id)
      → Inv A s
      → Inv A (handle_ack m s)
  unfolding handle_ack
  handle_ack-Inv m s a v = elim (Option-cases (lookup m.stream_id s.pending)) [
    | inl e ↦ rw (e, handle_ack) v
    | inr (t, e) ↦
        rw (e, handle_ack)
          (set_worker-Inv A t (fill (s.workers t) m.success) (remove_pending m.stream_id s)
            (fill-WorkerOk s.next_worker t m.stream_id (s.workers t) m.success
              (v.pends m.stream_id t e).0 a (v.worker t))
            (Same-Inv A s _ (remove_pending-Same A m.stream_id s) v))
  ]

  handle_data-Same : (m : StreamData) (s : Connector) → Same A s (handle_data m s)
  unfolding handle_data close_stream close_conn write_conn can_send
  handle_data-Same m s = record {
    conn_count = ground arith;
    id_count = ground arith;
    worker_count = ground arith;
    worker = ground arith;
    pends = λ i u g. ground arith;
    sent = λ i g. ground arith;
    taken = λ c. ground arith;
    can = λ x. ground arith;
    up = λ x i. ground arith;
  }

  receiving-Same : (s : Connector) → Same A s (record s { receiving = false })
  receiving-Same s = record {
    conn_count = refl;
    id_count = refl;
    worker_count = refl;
    worker = refl;
    pends = λ i u g. g;
    sent = λ i g. g;
    taken = λ c. refl;
    can = λ x. x;
    up = λ x i. refl;
  }

  stop_receiving-Inv : (s : Connector) → Inv A s → Inv A (stop_receiving s)
  unfolding stop_receiving
  stop_receiving-Inv s v = Same-Inv A (close s) _ (receiving-Same (close s)) (close-Inv A s v)

  -- An acknowledgement is a success only for streams that may carry data.
  abbrev pub Allows : Envelope → Type 0
  Allows env =
      (m : OpenStreamAck) → get_open_stream_ack env ≡ some m → m.success ≡ true → A m.stream_id

  dispatch-Inv : (env : Envelope) (s : Connector) → Allows env → Inv A s → Inv A (dispatch env s)
  unfolding dispatch
  dispatch-Inv env s a v = elim (Option-cases (get_open_stream_ack env)) [
    | inr (m, e) ↦ rw (e, dispatch) (handle_ack-Inv m s (a m e) v)
    | inl e ↦ elim (Option-cases (get_stream_data env)) [
      | inr (m, f) ↦ rw (e, dispatch) (rw f (Same-Inv A s _ (handle_data-Same m s) v))
      | inl f ↦ elim (Option-cases (get_close_stream env)) [
        | inr (m, g) ↦
            rw (e, dispatch) (rw f (rw g (Same-Inv A s _ (close_stream-Same A m.stream_id s) v)))
        | inl g ↦ elim (Option-cases (get_heartbeat env)) [
          | inr (m, h) ↦
              rw (e, dispatch)
                (rw f (
                  rw g (
                    rw h (
                      Same-Inv A s _
                        (send-Same A (carrying heartbeat) s no_data-heartbeat no_open-heartbeat)
                        v))))
          | inl h ↦ elim (Option-cases (get_disconnect env)) [
            | inr (m, k) ↦ rw (e, dispatch) (rw f (rw g (rw h (rw k (stop_receiving-Inv s v)))))
            | inl k ↦ rw (e, dispatch) (rw f (rw g (rw h (rw k v))))
          ]
        ]
      ]
    ]
  ]

  handle_message-Inv :
      (env : Option Envelope) (s : Connector)
      → ((e : Envelope) → env ≡ some e → Allows e)
      → Inv A s
      → Inv A (handle_message env s)
  unfolding handle_message
  handle_message-Inv none s a v = stop_receiving-Inv s v
  handle_message-Inv (some env) s a v =
      let after = dispatch env s in
      let w = dispatch-Inv env s (a env refl) v in
      if_cases (Inv A) after.closed _ _ (λ _. stop_receiving-Inv after w) (λ _. w)

  pump_end-Inv :
      (t id c : ℕ) (ended : Bool) (s : Connector)
      → WorkerOk A s.next_worker t (pumping id c)
      → Inv A s
      → Inv A (pump_end t id c ended s)
  unfolding pump_end
  pump_end-Inv t id c false s ok v =
      if_cases (Inv A) s.closed _ _ (λ _. set_worker_idle-Inv A t s v)
        (λ _. set_worker-Inv A t (pumping id c) s ok v)
  pump_end-Inv t id c true s ok v = set_worker_idle-Inv A t _ (
      Same-Inv A _ _ (remove_stream-Same A id _) (
        Same-Inv A s _
          (send-Same A (closed_msg id) s (no_data-closed_msg id) (no_open-closed_msg id)) v))

  pump_bytes-Inv :
      (t id c : ℕ) (bytes : Bytes) (ended : Bool) (s : Connector)
      → WorkerOk A s.next_worker t (pumping id c)
      → Inv A s
      → Inv A (pump_bytes t id c (record { bytes = bytes; ended = ended }) s)
  unfolding pump_bytes
  pump_bytes-Inv t id c [] ended s ok v = pump_end-Inv t id c ended s ok v
  pump_bytes-Inv t id c (x ∷ xs) ended s ok v =
      let taken = with_net (take_from c (x ∷ xs) s.net) s in
      let sent = with_net (send (data_msg id (x ∷ xs)) taken.net) taken in
      let w = send_data-Inv A t id c (x ∷ xs) s ok.0 ok.1 v in
      if_cases (Inv A) (can_send taken.net) _ _ (λ _. pump_end-Inv t id c ended sent ok w)
        (λ _. set_worker_idle-Inv A t _ (Same-Inv A sent _ (close_stream-Same A id sent) w))

  pump_local_to_remote-Inv :
      (t id c : ℕ) (r : ReadResult) (s : Connector)
      → s.workers t ≡ pumping id c
      → Inv A s
      → Inv A (pump_local_to_remote t id c r s)
  unfolding pump_local_to_remote
  pump_local_to_remote-Inv t id c r s e v =
      let ok = subst (WorkerOk A s.next_worker t) e (v.worker t) in
      let got = read_conn c r s.net in pump_bytes-Inv t id c got.bytes got.ended s ok v

  -- What an event says about the streams that may carry data.
  abbrev pub AllowsEvent : Event → Type 0
  AllowsEvent (receives env) = (e : Envelope) → env ≡ some e → Allows e
  AllowsEvent _ = Unit {0}

  work-Inv :
      (t : ℕ) (w : Worker) (e : Event) (s : Connector)
      → s.workers t ≡ w
      → Inv A s
      → Inv A (work t w e s)
  unfolding work
  work-Inv t (waiting id c ack) (waits u wait) s e v = wait_for_ack-Inv A t id c ack wait s e v
  work-Inv t (pumping id c) (reads u r) s e v = pump_local_to_remote-Inv t id c r s e v
  work-Inv t idle x s e v = v
  work-Inv t (waiting id c ack) (accepts room) s e v = v
  work-Inv t (waiting id c ack) (receives env) s e v = v
  work-Inv t (waiting id c ack) (reads u r) s e v = v
  work-Inv t (waiting id c ack) closes s e v = v
  work-Inv t (waiting id c ack) breaks s e v = v
  work-Inv t (pumping id c) (accepts room) s e v = v
  work-Inv t (pumping id c) (receives env) s e v = v
  work-Inv t (pumping id c) (waits u w) s e v = v
  work-Inv t (pumping id c) closes s e v = v
  work-Inv t (pumping id c) breaks s e v = v

  pub step-Inv : (e : Event) (s : Connector) → AllowsEvent e → Inv A s → Inv A (step e s)
  unfolding step can_send
  step-Inv (accepts room) s a v = handle_local_connection-Inv A room s v
  step-Inv (receives env) s a v =
      if_cases (Inv A) s.receiving _ _ (λ _. handle_message-Inv env s a v) (λ _. v)
  step-Inv (waits t wait) s a v = work-Inv t (s.workers t) (waits t wait) s refl v
  step-Inv (reads t r) s a v = work-Inv t (s.workers t) (reads t r) s refl v
  step-Inv closes s a v = close-Inv A s v
  step-Inv breaks s a v =
      Same-Inv A s _ (net-Same A _ s refl refl (λ c. refl) (λ x. ground arith)) v

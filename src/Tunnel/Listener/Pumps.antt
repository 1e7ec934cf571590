-- ===== src/Tunnel/Listener/Pumps.antt =====
-- What pumping and closing make of the pipe of a stream.
use go_connect.Base.{
  ℕ, ◌≡◌, ◌∙◌, refl, ap, [], ◌∷◌, Bool, true, false, arith, ◌⊎◌, if_cases, inl, inr, Dict, nat_key,
  lookup,
}
use go_connect.Bytes.{Bytes}
use go_connect.Tunnel.Net.{
  Net, ReadResult, close_conn, take_from, can_send, send, close_broker, read_conn,
}
use go_connect.Tunnel.Listener.{
  Listener, StreamState, Worker, idle, pumping, set_worker, with_net, data_msg, closed_msg,
  shutting_down, close_if, close_stream, close_states, close, pump_end, pump_bytes,
  pump_local_to_remote,
}
use go_connect.Tunnel.Listener.Pipe.{
  Pipe, Same, Same-Pipe, quiet-Pipe, remove_stream-Same, net-Same, send-Same, close_stream-Same,
}
use go_connect.Tunnel.Listener.Drains.{workers-close_stream}

module _ (id : ℕ) where
  -- The pump goes on, or returns.
  pumped-Pipe :
      (fed : Bytes) (t i c : ℕ) (w : Worker) (l : Listener)
      → (w ≡ idle) ⊎ (w ≡ pumping i c)
      → l.workers t ≡ pumping i c
      → Pipe id fed l
      → Pipe id fed (set_worker t w l)
  pumped-Pipe fed t i c w l o e v =
      quiet-Pipe id fed t w l (ground arith) (λ f. ground arith) (λ f. ground arith)
        (λ d k f g. absurd (ground arith)) v

  pump_end-Pipe :
      (fed : Bytes) (t i c : ℕ) (ended : Bool) (l : Listener)
      → l.workers t ≡ pumping i c
      → Pipe id fed l
      → Pipe id fed (pump_end t i c ended l)
  unfolding pump_end
  pump_end-Pipe fed t i c false l e v =
      if_cases (Pipe id fed) l.closed _ _ (λ _. pumped-Pipe fed t i c idle l (inl refl) e v)
        (λ _. pumped-Pipe fed t i c (pumping i c) l (inr refl) e v)
  pump_end-Pipe fed t i c true l e v =
      let told = with_net (send (closed_msg i) l.net) l in
      pumped-Pipe fed t i c idle _ (inl refl) e (
        Same-Pipe id fed told _ (remove_stream-Same id i told)
          (Same-Pipe id fed l told (send-Same id (closed_msg i) l) v))

  take_from-Same :
      (c : ℕ) (xs : Bytes) (l : Listener) → Same id l (with_net (take_from c xs l.net) l)
  unfolding take_from
  take_from-Same c xs l = net-Same id _ l refl (λ d. ground arith)

  pump_bytes-Pipe :
      (fed : Bytes) (t i c : ℕ) (bytes : Bytes) (ended : Bool) (l : Listener)
      → l.workers t ≡ pumping i c
      → Pipe id fed l
      → Pipe id fed (pump_bytes t i c (record { bytes = bytes; ended = ended }) l)
  unfolding pump_bytes
  pump_bytes-Pipe fed t i c [] ended l e v = pump_end-Pipe fed t i c ended l e v
  pump_bytes-Pipe fed t i c (x ∷ xs) ended l e v =
      let taken = with_net (take_from c (x ∷ xs) l.net) l in
      let sent = with_net (send (data_msg i (x ∷ xs)) taken.net) taken in
      let w =
        Same-Pipe id fed taken sent (send-Same id (data_msg i (x ∷ xs)) taken)
          (Same-Pipe id fed l taken (take_from-Same c (x ∷ xs) l) v) in
      if_cases (Pipe id fed) (can_send taken.net) _ _ (λ _. pump_end-Pipe fed t i c ended sent e w)
        (λ _.
          pumped-Pipe fed t i c idle (close_stream i sent) (inl refl)
            (ap (λ z. z t) (workers-close_stream id i sent) ∙ e)
            (Same-Pipe id fed sent _ (close_stream-Same id i sent) w))

  pub pump_local_to_remote-Pipe :
      (fed : Bytes) (t i c : ℕ) (r : ReadResult) (l : Listener)
      → l.workers t ≡ pumping i c
      → Pipe id fed l
      → Pipe id fed (pump_local_to_remote t i c r l)
  unfolding pump_local_to_remote
  pump_local_to_remote-Pipe fed t i c r l e v =
      let got = read_conn c r l.net in pump_bytes-Pipe fed t i c got.bytes got.ended l e v

  written-close_states :
      (d : Dict ℕ StreamState) (n : Net) (c : ℕ)
      → ((close_states d n).conns c).written ≡ (n.conns c).written
  unfolding close_states close_if close_conn
  written-close_states [] n c = refl
  written-close_states ((i, st) ∷ d) n c =
      written-close_states d (close_if st.conn n) c ∙ ground arith

  next_conn-close_states :
      (d : Dict ℕ StreamState) (n : Net) → (close_states d n).next_conn ≡ n.next_conn
  unfolding close_states close_if close_conn
  next_conn-close_states [] n = refl
  next_conn-close_states ((i, st) ∷ d) n =
      next_conn-close_states d (close_if st.conn n) ∙ ground arith

  pub close-Same : (l : Listener) → Same id l (close l)
  unfolding close close_broker send lookup
  close-Same l =
      if_cases (Same id l) l.closed _ _
        (λ _. record {
          workers = refl;
          next_worker = refl;
          next_conn = refl;
          written = λ c. refl;
          streams = λ i. inr refl;
        })
        (λ _. record {
          workers = refl;
          next_worker = refl;
          next_conn =
              ground
                (arith, next_conn-close_states l.streams (close_broker (send shutting_down l.net)));
          written = λ c.
              ground
                (arith, written-close_states l.streams (close_broker (send shutting_down l.net)) c);
          streams = λ i. inl refl;
        })

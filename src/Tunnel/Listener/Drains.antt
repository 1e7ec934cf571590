-- ===== src/Tunnel/Listener/Drains.antt =====
-- What writing the buffered payloads makes of the pipe of a stream.
use go_connect.Base.{
  ℕ, ◌≡◌, ◌≢◌, ◌∙◌, refl, ap, [], ◌∷◌, append-nil, append_assoc, List, true, none, ◌==◌, ==_iff,
  arith, ◌⊎◌, if_cases, Bool-cases, Option-cases, inl, inr, nat_key, lookup,
}
use go_connect.Bytes.{Bytes}
use go_connect.Tunnel.Net.{can_write, write_conn, send}
use go_connect.Tunnel.Listener.{
  Listener, idle, draining, pumping, set_worker, with_net, opened_ack, close_stream, drain,
}
use go_connect.Tunnel.Listener.Pipe.{
  concat, Pipe, Same-Pipe, quiet-Pipe, send-Same, close_stream-Same, lookup-close_stream,
}
use go_connect.Tunnel.Listener.Writes.{write_other-Pipe, broken_write-Pipe}

module _ (id : ℕ) where
  -- A worker whose write succeeded goes on; the bytes of this stream are written in order.
  drain_some-Pipe :
      (fed : Bytes) (t i c : ℕ) (xs : Bytes) (b : List Bytes) (l : Listener)
      → l.workers t ≡ draining i c (xs ∷ b)
      → can_write c xs l.net ≡ true
      → Pipe id fed l
      → Pipe id fed (set_worker t (draining i c b) (with_net (write_conn c xs l.net) l))
  unfolding write_conn
  drain_some-Pipe fed t i c xs b l e can v = record {
    unused = λ u le. ground (arith, v.unused u, v.unused t);
    one_worker = λ u x f g. ground (arith, v.one_worker u x, v.one_worker t x, v.one_worker u t);
    map_fresh = λ j d f. ground (arith, v.map_fresh j d);
    drain_fresh = λ u j d k f. ground (arith, v.drain_fresh u j d k, v.drain_fresh t i c (xs ∷ b));
    apart = v.apart;
    drain_apart =
        λ u j d k f g. ground (arith, v.drain_apart u j d k, v.drain_apart t i c (xs ∷ b));
    dials = λ u f. ground (arith, v.dials u);
    buffered = v.buffered;
    drains = λ u d k st f g. ground (
      arith,
      v.drains u d k st,
      v.drains t c (xs ∷ b) st,
      v.one_worker u t,
      v.drain_apart t i c (xs ∷ b) e,
      append_assoc (l.net.conns c).written xs (concat b),
    );
    direct = λ d f g. elim (Bool-cases (i == id)) [
      | inl h ↦ elim (Option-cases (lookup id l.streams)) [
        | inl none_there ↦ absurd (ground arith)
        | inr (st, there) ↦ absurd (ground (arith, v.drains t c (xs ∷ b) st, g t b))
      ]
      | inr h ↦
          ground
            (arith, v.drain_apart t i c (xs ∷ b) e, v.direct d f (λ u k y. ground (arith, g u k)))
    ];
  }

  stop_draining-Pipe :
      (fed : Bytes) (t i c : ℕ) (b : List Bytes) (l : Listener)
      → l.workers t ≡ draining i c b
      → (lookup id l.streams ≡ none) ⊎ (i ≢ id)
      → Pipe id fed l
      → Pipe id fed (set_worker t idle l)
  stop_draining-Pipe fed t i c b l e o v =
      quiet-Pipe id fed t idle l refl (λ f. ground arith) (λ f. ground arith)
        (λ d k f g. absurd (ground arith)) v

  pub workers-close_stream : (i : ℕ) (l : Listener) → (close_stream i l).workers ≡ l.workers
  workers-close_stream i l = (close_stream-Same id i l).workers

  pub drain-Pipe :
      (fed : Bytes) (t i c : ℕ) (b : List Bytes) (l : Listener)
      → l.workers t ≡ draining i c b
      → Pipe id fed l
      → Pipe id fed (drain t i c b l)
  unfolding drain
  drain-Pipe fed t i c [] l e v =
      let told = with_net (send (opened_ack i) l.net) l in
      let w = Same-Pipe id fed l told (send-Same id (opened_ack i) l) v in
      quiet-Pipe id fed t (pumping i c) told refl (λ f. ground arith) (λ f. ground arith)
        (λ d k f g. elim (Option-cases (lookup id l.streams)) [
          | inl none_there ↦ absurd (ground arith)
          | inr (st, there) ↦
              ground (arith, w.drains t d k st f there, append-nil (told.net.conns d).written)
        ])
        w
  drain-Pipe fed t i c (xs ∷ b) l e v =
      let written = with_net (write_conn c xs l.net) l in
      if_cases (Pipe id fed) (can_write c xs l.net) _ _
        (λ can. drain_some-Pipe fed t i c xs b l e can v)
        (λ _. elim (Bool-cases (i == id)) [
          | inl h ↦
              let same = (==_iff i id).0 h in
              rw same (
                stop_draining-Pipe fed t i c (xs ∷ b) (close_stream id written)
                  (ap (λ w. w t) (workers-close_stream id written) ∙ e)
                  (inl (lookup-close_stream id id written)) (broken_write-Pipe id fed fed c xs l v))
          | inr h ↦
              let w =
                write_other-Pipe id fed c xs l
                  (λ g. ground (arith, v.drain_apart t i c (xs ∷ b) e g)) v in
              stop_draining-Pipe fed t i c (xs ∷ b) (close_stream i written)
                (ap (λ w. w t) (workers-close_stream i written) ∙ e) (inr (λ g. ground arith))
                (Same-Pipe id fed written _ (close_stream-Same id i written) w)
        ])

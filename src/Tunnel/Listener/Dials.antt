-- ===== src/Tunnel/Listener/Dials.antt =====
-- What opening a stream and dialling for it make of the pipe of a stream.
use go_connect.Base.{
  ℕ, ◌≡◌, ◌≢◌, ◌∙◌, refl, sym, ap, [], List, true, Option, none, some, ◌==◌, ==_iff, arith,
  Bool-cases, Option-cases, inl, inr, nat_key, lookup, insert, lookup-insert,
}
use go_connect.Bytes.{Bytes}
use go_connect.Tunnel.Net.{add_conn, close_conn}
use go_connect.Tunnel.Listener.{
  Listener, StreamState, pending_stream, idle, dialing, draining, set_worker, with_net,
  with_streams, refused_ack, remove_stream, open_stream, handle_open_stream,
}
use go_connect.Tunnel.Listener.Pipe.{
  worker_stream, Pipe, Same, Same-Pipe, quiet-Pipe, remove_stream-Same, net-Same, send-Same,
}
use go_connect.Tunnel.Listener.Writes.{insert_other-Pipe}

module _ (id : ℕ) where
  -- No worker has the stream.
  abbrev pub IsFree : Listener → Type 0
  IsFree l = (t : ℕ) → worker_stream (l.workers t) ≢ some id

  -- A worker that dials for another stream.
  pub open_other-Pipe :
      (fed : Bytes) (i : ℕ) (l : Listener) → i ≢ id → Pipe id fed l → Pipe id fed (open_stream i l)
  unfolding open_stream
  open_other-Pipe fed i l ne v =
      let w = insert_other-Pipe id fed i pending_stream l ne (λ c e. absurd (ground arith)) v in
      record {
        unused = λ t le. ground (arith, v.unused t);
        one_worker = λ t u e f. ground (arith, v.one_worker t u);
        map_fresh = w.map_fresh;
        drain_fresh = λ t j c b e. ground (arith, v.drain_fresh t j c b);
        apart = w.apart;
        drain_apart = λ t j c b e f. ground (arith, w.drain_apart t j c b);
        dials = λ t e. ground (arith, w.dials t);
        buffered = w.buffered;
        drains = λ t c b st e f. ground (arith, w.drains t c b st);
        direct = λ c e f. w.direct c e (λ t b g. ground (arith, f t b, v.unused l.next_worker));
      }

  pub open-Pipe :
      (fed : Bytes) (l : Listener) → IsFree l → Pipe id fed l → Pipe id [] (open_stream id l)
  unfolding open_stream
  open-Pipe fed l free v = record {
    unused = λ t le. ground (arith, v.unused t);
    one_worker = λ t u e f. ground (arith, free t, free u);
    map_fresh =
        λ j c e. ground (arith, lookup-insert id j pending_stream l.streams, v.map_fresh j c);
    drain_fresh = λ t j c b e. ground (arith, v.drain_fresh t j c b);
    apart = λ j c e f. ground (arith, lookup-insert id id pending_stream l.streams);
    drain_apart = λ t j c b e f. ground (arith, lookup-insert id id pending_stream l.streams);
    dials = λ t e. ground (arith, lookup-insert id id pending_stream l.streams);
    buffered = λ st e f. ground (arith, lookup-insert id id pending_stream l.streams);
    drains = λ t c b st e f. absurd (ground (arith, free t));
    direct = λ c e f. ground (arith, lookup-insert id id pending_stream l.streams);
  }

  add_conn-Pipe :
      (fed : Bytes) (room : ℕ) (l : Listener)
      → Pipe id fed l
      → Pipe id fed (with_net (add_conn room l.net) l)
  unfolding add_conn
  add_conn-Pipe fed room l v = record {
    unused = v.unused;
    one_worker = v.one_worker;
    map_fresh = λ i c e. omega (arith, v.map_fresh i c e);
    drain_fresh = λ t i c b e. omega (arith, v.drain_fresh t i c b e);
    apart = v.apart;
    drain_apart = v.drain_apart;
    dials = v.dials;
    buffered = v.buffered;
    drains = λ t c b st e f. ground (arith, v.drains t c b st e f, v.drain_fresh t id c b e);
    direct = λ c e f. ground (arith, v.direct c e f, v.map_fresh id c e);
  }

  close_conn-Same : (c : ℕ) (l : Listener) → Same id l (with_net (close_conn c l.net) l)
  unfolding close_conn
  close_conn-Same c l = net-Same id _ l refl (λ d. ground arith)

  abbrev connected : ℕ → StreamState
  connected c = record { conn = some c; buf = []; ready = true }

  -- The dial succeeds for another stream, or for this one.
  dialled_other-Pipe :
      (fed : Bytes) (t i room : ℕ) (b : List Bytes) (l : Listener)
      → i ≢ id
      → l.workers t ≡ dialing i
      → Pipe id fed l
      → Pipe id fed (
          set_worker t (draining i l.net.next_conn b) (
            with_streams
              (insert i (connected l.net.next_conn) l.streams)
              (with_net (add_conn room l.net) l)))
  unfolding add_conn
  dialled_other-Pipe fed t i room b l ne e v =
      let st = connected l.net.next_conn in
      record {
        unused = λ u le. ground (arith, v.unused u, v.unused t);
        one_worker = λ u x f g. ground (arith, v.one_worker u x);
        map_fresh = λ j c f. ground (arith, lookup-insert i j st l.streams, v.map_fresh j c);
        drain_fresh = λ u j c d f. ground (arith, v.drain_fresh u j c d);
        apart = λ j c f g. ground (
          arith,
          lookup-insert i j st l.streams,
          lookup-insert i id st l.streams,
          v.apart j c,
          v.map_fresh id c,
        );
        drain_apart = λ u j c d f g.
            ground
              (arith, lookup-insert i id st l.streams, v.drain_apart u j c d, v.map_fresh id c);
        dials = λ u f. ground (arith, lookup-insert i id st l.streams, v.dials u);
        buffered = λ s f g. v.buffered s (ground (arith, lookup-insert i id st l.streams)) g;
        drains = λ u c d s f g.
            ground
              (arith, lookup-insert i id st l.streams, v.drains u c d s, v.drain_fresh u id c d);
        direct = λ c f g. ground (
          arith,
          lookup-insert i id st l.streams,
          v.map_fresh id c,
          v.direct c (ground (arith, lookup-insert i id st l.streams))
              (λ u d h. ground (arith, g u d)),
        );
      }

  dialled-Pipe :
      (fed : Bytes) (t room : ℕ) (old : StreamState) (l : Listener)
      → l.workers t ≡ dialing id
      → lookup id l.streams ≡ some old
      → Pipe id fed l
      → Pipe id fed (
          set_worker t (draining id l.net.next_conn old.buf) (
            with_streams
              (insert id (connected l.net.next_conn) l.streams)
              (with_net (add_conn room l.net) l)))
  unfolding add_conn
  dialled-Pipe fed t room old l e o v =
      let st = connected l.net.next_conn in
      let was_none : old.conn ≡ none = ground (arith, v.dials t) in
      record {
        unused = λ u le. ground (arith, v.unused u, v.unused t);
        one_worker =
            λ u x f g. ground (arith, v.one_worker u x, v.one_worker t x, v.one_worker u t);
        map_fresh = λ j c f. ground (arith, lookup-insert id j st l.streams, v.map_fresh j c);
        drain_fresh = λ u j c d f. ground (arith, v.drain_fresh u j c d);
        apart = λ j c f g. ground (
          arith,
          lookup-insert id j st l.streams,
          lookup-insert id id st l.streams,
          v.map_fresh j c,
        );
        drain_apart =
            λ u j c d f g. ground (arith, lookup-insert id id st l.streams, v.drain_fresh u j c d);
        dials = λ u f. ground (arith, v.one_worker u t);
        buffered = λ s f g. ground (arith, lookup-insert id id st l.streams);
        drains = λ u c d s f g.
            ground (
              arith,
              lookup-insert id id st l.streams,
              v.buffered old o was_none,
              v.one_worker u t,
            );
        direct = λ c f g. absurd (g t old.buf (ground (arith, lookup-insert id id st l.streams)));
      }

  undial-Pipe :
      (fed : Bytes) (t i : ℕ) (l : Listener)
      → l.workers t ≡ dialing i
      → Pipe id fed l
      → Pipe id fed (set_worker t idle l)
  undial-Pipe fed t i l e v =
      quiet-Pipe id fed t idle l refl (λ f. ground arith) (λ f. ground arith)
        (λ c b f g. absurd (ground arith)) v

  pub handle_open_stream-Pipe :
      (fed : Bytes) (t i : ℕ) (dial : Option ℕ) (l : Listener)
      → l.workers t ≡ dialing i
      → Pipe id fed l
      → Pipe id fed (handle_open_stream t i dial l)
  unfolding handle_open_stream
  handle_open_stream-Pipe fed t i none l e v =
      let removed = remove_stream i l in
      undial-Pipe fed t i _ e (
        Same-Pipe id fed removed _ (send-Same id (refused_ack i) removed)
          (Same-Pipe id fed l removed (remove_stream-Same id i l) v))
  handle_open_stream-Pipe fed t i (some room) l e v =
      let added = with_net (add_conn room l.net) l in
      elim (Option-cases (lookup i l.streams)) [
        | inl f ↦
            rw (f, handle_open_stream)
              (undial-Pipe fed t i _ e (
                Same-Pipe id fed added _ (close_conn-Same l.net.next_conn added)
                  (add_conn-Pipe fed room l v)))
        | inr (st, f) ↦
            rw (f, handle_open_stream)
              (elim (Bool-cases (i == id)) [
                | inl g ↦
                    let same = (==_iff i id).0 g in
                    rw same (
                      dialled-Pipe fed t room st l (e ∙ ap dialing same)
                        (ap (λ j. lookup j l.streams) (sym same) ∙ f) v)
                | inr g ↦ dialled_other-Pipe fed t i room st.buf l (λ h. ground arith) e v
              ])
      ]

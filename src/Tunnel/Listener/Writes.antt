-- ===== src/Tunnel/Listener/Writes.antt =====
-- What the steps that write to local connections make of the pipe of a stream.
use go_connect.Base.{
  ℕ, ◌≡◌, ◌≢◌, refl, [], ◌∷◌, ◌++◌, append-nil, List, true, Option, none, some, arith, if_cases,
  Option-cases, inl, inr, nat_key, lookup, insert, lookup-insert, lookup-delete,
}
use go_connect.Bytes.{Bytes}
use go_connect.Pb.{StreamData}
use go_connect.Tunnel.Net.{close_conn, can_write, write_conn}
use go_connect.Tunnel.Listener.{
  Listener, StreamState, draining, with_net, with_streams, close_if, close_stream, deliver,
  handle_data,
}
use go_connect.Tunnel.Listener.Pipe.{concat-append, conn_of, Pipe, Same-Pipe, close_stream-Same}

module _ (id : ℕ) where
  -- Nothing is claimed of a stream that is not registered.
  pub unregistered-Pipe :
      (fed other : Bytes) (l : Listener)
      → lookup id l.streams ≡ none
      → Pipe id fed l
      → Pipe id other l
  unregistered-Pipe fed other l e v = record {
    unused = v.unused;
    one_worker = v.one_worker;
    map_fresh = v.map_fresh;
    drain_fresh = v.drain_fresh;
    apart = v.apart;
    drain_apart = v.drain_apart;
    dials = v.dials;
    buffered = λ st f g. absurd (ground arith);
    drains = λ t c b st f g. absurd (ground arith);
    direct = λ c f g. absurd (ground arith);
  }

  pub write_other-Pipe :
      (fed : Bytes) (c : ℕ) (xs : Bytes) (l : Listener)
      → conn_of (lookup id l.streams) ≢ some c
      → Pipe id fed l
      → Pipe id fed (with_net (write_conn c xs l.net) l)
  unfolding write_conn
  write_other-Pipe fed c xs l ne v = record {
    unused = v.unused;
    one_worker = v.one_worker;
    map_fresh = λ i d f. ground (arith, v.map_fresh i d);
    drain_fresh = λ t i d b f. ground (arith, v.drain_fresh t i d b);
    apart = v.apart;
    drain_apart = v.drain_apart;
    dials = v.dials;
    buffered = v.buffered;
    drains = λ t d b st f g. ground (arith, v.drains t d b st f g);
    direct = λ d f g. ground (arith, v.direct d f g);
  }

  -- A stream is registered anew under another number, with the connection that it had.
  pub insert_other-Pipe :
      (fed : Bytes) (i : ℕ) (st : StreamState) (l : Listener)
      → i ≢ id
      → ((c : ℕ) → st.conn ≡ some c → conn_of (lookup i l.streams) ≡ some c)
      → Pipe id fed l
      → Pipe id fed (with_streams (insert i st l.streams) l)
  insert_other-Pipe fed i st l ne same v = record {
    unused = v.unused;
    one_worker = v.one_worker;
    map_fresh = λ j c f.
        ground (arith, lookup-insert i j st l.streams, v.map_fresh j c, v.map_fresh i c, same c);
    drain_fresh = v.drain_fresh;
    apart = λ j c f g. ground (
      arith,
      lookup-insert i j st l.streams,
      lookup-insert i id st l.streams,
      v.apart j c,
      v.apart i c,
      same c,
    );
    drain_apart =
        λ t j c b f g. ground (arith, lookup-insert i id st l.streams, v.drain_apart t j c b f);
    dials = λ t f. ground (arith, lookup-insert i id st l.streams, v.dials t f);
    buffered = λ s f g. v.buffered s (ground (arith, lookup-insert i id st l.streams)) g;
    drains = λ t c b s f g. v.drains t c b s f (ground (arith, lookup-insert i id st l.streams));
    direct = λ c f g. v.direct c (ground (arith, lookup-insert i id st l.streams)) g;
  }

  deliver_other-Pipe :
      (fed : Bytes) (m : StreamData) (st : StreamState) (o : Option ℕ) (l : Listener)
      → m.stream_id ≢ id
      → lookup m.stream_id l.streams ≡ some st
      → st.conn ≡ o
      → Pipe id fed l
      → Pipe id fed (deliver m st o l)
  unfolding deliver
  deliver_other-Pipe fed m st none l ne e f v =
      insert_other-Pipe fed m.stream_id _ l ne (λ c g. ground arith) v
  deliver_other-Pipe fed m st (some c) l ne e f v =
      let t = with_net (write_conn c m.payload l.net) l in
      let w =
        write_other-Pipe fed c m.payload l (λ g. ne (v.apart m.stream_id c (ground arith) g)) v in
      if_cases (Pipe id fed) (can_write c m.payload l.net) _ _ (λ _. w)
        (λ _. Same-Pipe id fed t _ (close_stream-Same id m.stream_id t) w)

  pub handle_other_data-Pipe :
      (fed : Bytes) (m : StreamData) (l : Listener)
      → m.stream_id ≢ id
      → Pipe id fed l
      → Pipe id fed (handle_data m l)
  unfolding handle_data
  handle_other_data-Pipe fed m l ne v = elim (Option-cases (lookup m.stream_id l.streams)) [
    | inl e ↦ rw (e, handle_data) v
    | inr (st, e) ↦ rw (e, handle_data) (deliver_other-Pipe fed m st st.conn l ne e refl v)
  ]

  -- No worker writes what was buffered for the stream.
  abbrev pub IsCalm : Listener → Type 0
  IsCalm l = (t c : ℕ) (b : List Bytes) → l.workers t ≢ draining id c b

  -- A write to the connection of the stream itself.
  write-Pipe :
      (fed : Bytes) (c : ℕ) (xs : Bytes) (l : Listener)
      → conn_of (lookup id l.streams) ≡ some c
      → can_write c xs l.net ≡ true
      → IsCalm l
      → Pipe id fed l
      → Pipe id (fed ++ xs) (with_net (write_conn c xs l.net) l)
  unfolding write_conn
  write-Pipe fed c xs l e can calm v = record {
    unused = v.unused;
    one_worker = v.one_worker;
    map_fresh = λ i d f. ground (arith, v.map_fresh i d);
    drain_fresh = λ t i d b f. ground (arith, v.drain_fresh t i d b);
    apart = v.apart;
    drain_apart = v.drain_apart;
    dials = v.dials;
    buffered = λ st f g. absurd (ground arith);
    drains = λ t d b st f g. absurd (calm t d b f);
    direct = λ d f g. ground (arith, v.direct c e (λ t b. calm t c b));
  }

  -- A write that fails ends the stream.
  pub broken_write-Pipe :
      (fed other : Bytes) (c : ℕ) (xs : Bytes) (l : Listener)
      → Pipe id fed l
      → Pipe id other (close_stream id (with_net (write_conn c xs l.net) l))
  unfolding write_conn close_stream close_if close_conn
  broken_write-Pipe fed other c xs l v = record {
    unused = λ t le. ground (arith, v.unused t);
    one_worker = λ t u f g. ground (arith, v.one_worker t u);
    map_fresh = λ j d f. ground (arith, lookup-delete id j l.streams, v.map_fresh j d);
    drain_fresh = λ t j d b f. ground (arith, v.drain_fresh t j d b);
    apart = λ j d f g. ground (arith, lookup-delete id id l.streams);
    drain_apart = λ t j d b f g. ground (arith, lookup-delete id id l.streams);
    dials = λ t f. ground (arith, lookup-delete id id l.streams);
    buffered = λ st f g. ground (arith, lookup-delete id id l.streams);
    drains = λ t d b st f g. ground (arith, lookup-delete id id l.streams);
    direct = λ d f g. ground (arith, lookup-delete id id l.streams);
  }

  buffer-Pipe :
      (fed xs : Bytes) (st : StreamState) (l : Listener)
      → lookup id l.streams ≡ some st
      → st.conn ≡ none
      → IsCalm l
      → Pipe id fed l
      → Pipe id
          (fed ++ xs)
          (with_streams (insert id (record st { buf = st.buf ++ (xs ∷ []) }) l.streams) l)
  buffer-Pipe fed xs st l e none_yet calm v =
      let st2 = record st { buf = st.buf ++ (xs ∷ []) } in
      record {
        unused = v.unused;
        one_worker = v.one_worker;
        map_fresh = λ j c f. ground (arith, lookup-insert id j st2 l.streams, v.map_fresh j c);
        drain_fresh = v.drain_fresh;
        apart = λ j c f g. ground (arith, lookup-insert id id st2 l.streams);
        drain_apart = λ t j c b f g. ground (arith, lookup-insert id id st2 l.streams);
        dials = λ t f. ground (arith, lookup-insert id id st2 l.streams);
        buffered = λ s f g. ground (
          arith,
          lookup-insert id id st2 l.streams,
          v.buffered st e none_yet,
          concat-append st.buf (xs ∷ []),
          append-nil xs,
        );
        drains = λ t c b s f g. absurd (calm t c b f);
        direct = λ c f g. ground (arith, lookup-insert id id st2 l.streams);
      }

  deliver-Pipe :
      (fed : Bytes) (m : StreamData) (st : StreamState) (o : Option ℕ) (l : Listener)
      → m.stream_id ≡ id
      → lookup m.stream_id l.streams ≡ some st
      → st.conn ≡ o
      → IsCalm l
      → Pipe id fed l
      → Pipe id (fed ++ m.payload) (deliver m st o l)
  unfolding deliver
  deliver-Pipe fed m st none l same e f calm v =
      rw same (buffer-Pipe fed m.payload st l (rw (← same) e) f calm v)
  deliver-Pipe fed m st (some c) l same e f calm v =
      let t = with_net (write_conn c m.payload l.net) l in
      if_cases (Pipe id (fed ++ m.payload)) (can_write c m.payload l.net) _ _
        (λ can. write-Pipe fed c m.payload l (ground arith) can calm v)
        (λ _. rw same (broken_write-Pipe fed (fed ++ m.payload) c m.payload l v))

  pub handle_data-Pipe :
      (fed : Bytes) (m : StreamData) (l : Listener)
      → m.stream_id ≡ id
      → IsCalm l
      → Pipe id fed l
      → Pipe id (fed ++ m.payload) (handle_data m l)
  unfolding handle_data
  handle_data-Pipe fed m l same calm v = elim (Option-cases (lookup m.stream_id l.streams)) [
    | inl e ↦ rw (e, handle_data) (unregistered-Pipe fed (fed ++ m.payload) l (ground arith) v)
    | inr (st, e) ↦ rw (e, handle_data) (deliver-Pipe fed m st st.conn l same e refl calm v)
  ]

-- ===== src/Tunnel/Listener/Pipe.antt =====
-- What the listener has written to the local connection of one stream, and what it still holds.
use go_connect.Base.{
  ℕ, ◌≤◌, ◌<◌, ◌≡◌, ◌≢◌, ◌∙◌, refl, sym, ap, subst, [], ◌∷◌, ◌++◌, append_assoc, List, Bool, true,
  false, ◌&&◌, Option, none, some, ◌==◌, ==_iff, arith, ◌⊎◌, Bool-cases, inl, inr, nat_key, lookup,
  lookup-delete,
}
use go_connect.Bytes.{Bytes}
use go_connect.Pb.{Envelope}
use go_connect.Tunnel.Net.{Net, close_conn, send}
use go_connect.Tunnel.Listener.{
  Listener, StreamState, Worker, idle, dialing, draining, pumping, set_worker, with_net, close_if,
  remove_stream, close_stream,
}

abbrev pub worker_stream : Worker → Option ℕ
worker_stream idle = none
worker_stream (dialing i) = some i
worker_stream (draining i c b) = some i
worker_stream (pumping i c) = some i

abbrev pub concat : List Bytes → Bytes
concat [] = []
concat (xs ∷ xss) = xs ++ concat xss

pub concat-append : (xss yss : List Bytes) → concat (xss ++ yss) ≡ concat xss ++ concat yss
concat-append [] yss = refl
concat-append (xs ∷ xss) yss =
    ap (λ z. xs ++ z) (concat-append xss yss) ∙ sym (append_assoc xs (concat xss) (concat yss))

-- The connection of a stream, if it is registered and has one.
abbrev pub conn_of : Option StreamState → Option ℕ
conn_of none = none
conn_of (some st) = st.conn

module _ (id : ℕ) where
  -- `fed` is what came for the stream since it was opened.
  pub record Pipe (fed : Bytes) (l : Listener) : Type 0 where
    pub unused : (t : ℕ) → l.next_worker ≤ t → l.workers t ≡ idle
    pub one_worker :
        (t u : ℕ)
        → worker_stream (l.workers t) ≡ some id
        → worker_stream (l.workers u) ≡ some id
        → t ≡ u
    pub map_fresh : (i c : ℕ) → conn_of (lookup i l.streams) ≡ some c → c < l.net.next_conn
    pub drain_fresh :
        (t i c : ℕ) (b : List Bytes) → l.workers t ≡ draining i c b → c < l.net.next_conn
    pub apart :
        (i c : ℕ)
        → conn_of (lookup i l.streams) ≡ some c
        → conn_of (lookup id l.streams) ≡ some c
        → i ≡ id
    pub drain_apart :
        (t i c : ℕ) (b : List Bytes)
        → l.workers t ≡ draining i c b
        → conn_of (lookup id l.streams) ≡ some c
        → i ≡ id
    pub dials : (t : ℕ) → l.workers t ≡ dialing id → conn_of (lookup id l.streams) ≡ none
    pub buffered :
        (st : StreamState) → lookup id l.streams ≡ some st → st.conn ≡ none → concat st.buf ≡ fed
    pub drains :
        (t c : ℕ) (b : List Bytes) (st : StreamState)
        → l.workers t ≡ draining id c b
        → lookup id l.streams ≡ some st
        → (st.conn ≡ some c) × ((l.net.conns c).written ++ concat b ≡ fed)
    pub direct :
        (c : ℕ)
        → conn_of (lookup id l.streams) ≡ some c
        → ((t : ℕ) (b : List Bytes) → l.workers t ≢ draining id c b)
        → (l.net.conns c).written ≡ fed

  -- A change that the pipe does not see.
  pub record Same (s l : Listener) : Type 0 where
    pub workers : l.workers ≡ s.workers
    pub next_worker : l.next_worker ≡ s.next_worker
    pub next_conn : l.net.next_conn ≡ s.net.next_conn
    pub written : (c : ℕ) → (l.net.conns c).written ≡ (s.net.conns c).written
    pub streams : (i : ℕ) → (lookup i l.streams ≡ none) ⊎ (lookup i l.streams ≡ lookup i s.streams)

  pub Same-Pipe : (fed : Bytes) (s l : Listener) → Same s l → Pipe fed s → Pipe fed l
  Same-Pipe fed s l e v = record {
    unused = λ t. rw (e.workers, e.next_worker) (v.unused t);
    one_worker = λ t u. rw e.workers (v.one_worker t u);
    map_fresh = λ i c f. ground (arith, e.streams i, e.next_conn, v.map_fresh i c);
    drain_fresh = λ t i c b. rw (e.workers, e.next_conn) (v.drain_fresh t i c b);
    apart = λ i c f g. ground (arith, e.streams i, e.streams id, v.apart i c);
    drain_apart = λ t i c b f g.
        v.drain_apart t i c b (sym (ap (λ w. w t) e.workers) ∙ f) (ground (arith, e.streams id));
    dials = λ t f. ground (arith, e.streams id, v.dials t (sym (ap (λ w. w t) e.workers) ∙ f));
    buffered = λ st f g. v.buffered st (ground (arith, e.streams id)) g;
    drains = λ t c b st f g.
        ground
          (arith, e.streams id, e.written c, v.drains t c b st (sym (ap (λ w. w t) e.workers) ∙ f));
    direct = λ c f g.
        e.written c ∙ v.direct c (ground (arith, e.streams id)) (λ t b. rw (← e.workers) (g t b));
  }

  abbrev pub is_quiet : Worker → Bool
  is_quiet idle = true
  is_quiet (pumping i c) = true
  is_quiet _ = false

  abbrev drains_for : ℕ → Worker → Bool
  drains_for c (draining i d b) = i == id && d == c
  drains_for c _ = false

  drains_for-false :
      (c : ℕ) (w : Worker) → drains_for c w ≡ false → (b : List Bytes) → w ≢ draining id c b
  drains_for-false c w e b f = absurd (ground arith)

  drains_for-true :
      (c : ℕ) (w : Worker) → drains_for c w ≡ true → (b : List Bytes) × (w ≡ draining id c b)
  drains_for-true c (draining i d b) e = (b, ground arith)
  drains_for-true c idle e = absurd (ground arith)
  drains_for-true c (dialing i) e = absurd (ground arith)
  drains_for-true c (pumping i d) e = absurd (ground arith)

  -- A worker that goes on to its pump, or returns. If it wrote what was buffered, it is done with it.
  pub quiet-Pipe :
      (fed : Bytes) (t : ℕ) (w : Worker) (l : Listener)
      → is_quiet w ≡ true
      → l.workers t ≢ idle
      → (worker_stream w ≡ some id → worker_stream (l.workers t) ≡ some id)
      → ((c : ℕ) (b : List Bytes)
          → l.workers t ≡ draining id c b
          → conn_of (lookup id l.streams) ≡ some c
          → (l.net.conns c).written ≡ fed)
      → Pipe fed l
      → Pipe fed (set_worker t w l)
  quiet-Pipe fed t w l q alive same done v = record {
    unused = λ u le. ground (arith, v.unused u, v.unused t);
    one_worker =
        λ u x e f. ground (arith, v.one_worker u x, v.one_worker t x, v.one_worker u t, same);
    map_fresh = v.map_fresh;
    drain_fresh = λ u i c b e. ground (arith, v.drain_fresh u i c b);
    apart = v.apart;
    drain_apart = λ u i c b e f. ground (arith, v.drain_apart u i c b);
    dials = λ u e. ground (arith, v.dials u);
    buffered = v.buffered;
    drains = λ u c b st e f. ground (arith, v.drains u c b st);
    direct = λ c e f. elim (Bool-cases (drains_for c (l.workers t))) [
      | inl d ↦ let (b, g) = drains_for-true c (l.workers t) d in done c b g e
      | inr d ↦ v.direct c e (λ u b g. elim (Bool-cases (u == t)) [
        | inl h ↦
            drains_for-false c (l.workers t) d b
              (subst (λ z. l.workers z ≡ draining id c b) ((==_iff u t).0 h) g)
        | inr h ↦ f u b (rw h g)
      ])
    ];
  }

  pub remove_stream-Same : (i : ℕ) (l : Listener) → Same l (remove_stream i l)
  unfolding remove_stream
  remove_stream-Same i l = record {
    workers = refl;
    next_worker = refl;
    next_conn = refl;
    written = λ c. refl;
    streams = λ j. ground (arith, lookup-delete i j l.streams);
  }

  pub net-Same :
      (n : Net) (l : Listener)
      → n.next_conn ≡ l.net.next_conn
      → ((c : ℕ) → (n.conns c).written ≡ (l.net.conns c).written)
      → Same l (with_net n l)
  net-Same n l e f = record {
    workers = refl;
    next_worker = refl;
    next_conn = e;
    written = f;
    streams = λ i. inr refl;
  }

  pub send-Same : (env : Envelope) (l : Listener) → Same l (with_net (send env l.net) l)
  unfolding send
  send-Same env l = net-Same _ l (ground arith) (λ c. ground arith)

  pub close_stream-Same : (i : ℕ) (l : Listener) → Same l (close_stream i l)
  unfolding close_stream close_if close_conn
  close_stream-Same i l = record {
    workers = ground arith;
    next_worker = ground arith;
    next_conn = ground arith;
    written = λ c. ground arith;
    streams = λ j. ground (arith, lookup-delete i j l.streams);
  }

  pub lookup-close_stream : (i : ℕ) (l : Listener) → lookup i (close_stream i l).streams ≡ none
  unfolding close_stream
  lookup-close_stream i l = ground (arith, lookup-delete i i l.streams)

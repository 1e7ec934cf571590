-- ===== src/Tunnel/Connector/Workers.antt =====
-- The goroutines of the connector: which stream and which connection each has, and what it waits for.
use go_connect.Base.{
  ℕ, ◌+◌, ◌%◌, ◌^◌, ◌<◌, ◌≡◌, refl, [], ◌∷◌, ◌++◌, append-nil, ap, ◌∙◌, ltb, List, Bool, true,
  false, ◌||◌, none, some, ◌==◌, ==_iff, if◌then◌else◌, arith, Bool-cases, inl, inr, nat_key,
  lookup, lookup-delete,
}
use go_connect.Bytes.{Bytes}
use go_connect.Pb.{Envelope, get_stream_data, get_open_stream}
use go_connect.Tunnel.Payloads.{take_in, payloads, payloads_snoc}
use go_connect.Tunnel.Net.{Net, close_conn, take_from, can_send, send}
use go_connect.Tunnel.Connector.{
  Connector, Worker, idle, waiting, pumping, set_worker, with_net, data_msg, remove_stream,
  remove_pending, close_stream,
}

-- Whether a Data message for the stream is among those sent.
unfoldable pub sends_data : ℕ → List Envelope → Bool
sends_data id [] = false
sends_data id (env ∷ envs) = elim (get_stream_data env) [
  | some m ↦ m.stream_id == id || sends_data id envs
  | none ↦ sends_data id envs
]

pub sends_data-append :
    (id : ℕ) (xs ys : List Envelope)
    → sends_data id (xs ++ ys) ≡ sends_data id xs || sends_data id ys
unfolding sends_data
sends_data-append id [] ys = refl
sends_data-append id (env ∷ xs) ys = ground (arith, sends_data-append id xs ys)

-- What worker `t` took from its local connection; nothing before it exists.
abbrev pub taken_by : ℕ → Connector → Bytes
taken_by t s = if ltb t s.next_worker then (s.net.conns t).taken else []

-- Worker `t` has the stream that is counted by it and the connection `t`; the streams that are
-- allowed to carry data are given by `A`.
module _ (A : ℕ → Type 0) where
  abbrev pub Owns : ℕ → ℕ → ℕ → ℕ → Type 0
  Owns next t id c = (id ≡ (t + 1) % 2 ^ 32) × (c ≡ t) × (t < next)

  abbrev pub WorkerOk : ℕ → ℕ → Worker → Type 0
  WorkerOk next t idle = Unit {0}
  WorkerOk next t (waiting id c (some true)) = Owns next t id c × A id
  WorkerOk next t (waiting id c ack) = Owns next t id c
  WorkerOk next t (pumping id c) = Owns next t id c × A id

  pub record Inv (s : Connector) : Type 0 where
    pub conn_count : s.net.next_conn ≡ s.next_worker
    pub id_count : s.next_stream_id ≡ s.next_worker % 2 ^ 32
    pub worker : (t : ℕ) → WorkerOk s.next_worker t (s.workers t)
    pub pends :
        (id t : ℕ) → lookup id s.pending ≡ some t → (id ≡ (t + 1) % 2 ^ 32) × (t < s.next_worker)
    pub sent : (id : ℕ) → sends_data id s.net.outbox ≡ true → A id
    pub up :
        s.next_worker < 2 ^ 32
        → can_send s.net ≡ true
        → (t : ℕ) → payloads (t + 1) s.net.outbox ≡ taken_by t s

  -- What the invariant does not see.
  pub record Same (s t : Connector) : Type 0 where
    pub conn_count : t.net.next_conn ≡ s.net.next_conn
    pub id_count : t.next_stream_id ≡ s.next_stream_id
    pub worker_count : t.next_worker ≡ s.next_worker
    pub worker : t.workers ≡ s.workers
    pub pends : (id u : ℕ) → lookup id t.pending ≡ some u → lookup id s.pending ≡ some u
    pub sent : (id : ℕ) → sends_data id t.net.outbox ≡ true → sends_data id s.net.outbox ≡ true
    pub taken : (c : ℕ) → (t.net.conns c).taken ≡ (s.net.conns c).taken
    pub can : can_send t.net ≡ true → can_send s.net ≡ true
    pub up : can_send t.net ≡ true → (id : ℕ) → payloads id t.net.outbox ≡ payloads id s.net.outbox

  pub Same-Inv : (s t : Connector) → Same s t → Inv s → Inv t
  Same-Inv s t e v = record {
    conn_count = ground (arith, e.conn_count, e.worker_count, v.conn_count);
    id_count = ground (arith, e.id_count, e.worker_count, v.id_count);
    worker = λ u. rw e.worker (rw e.worker_count (v.worker u));
    pends = λ id u f. rw e.worker_count (v.pends id u (e.pends id u f));
    sent = λ id f. v.sent id (e.sent id f);
    up = λ few can u.
        e.up can (u + 1)
        ∙ v.up (rw (← e.worker_count) few) (e.can can) u
        ∙ ground (arith, e.taken u, e.worker_count);
  }

  pub set_worker-Inv :
      (t : ℕ) (w : Worker) (s : Connector)
      → WorkerOk s.next_worker t w
      → Inv s
      → Inv (set_worker t w s)
  set_worker-Inv t w s ok v = record {
    conn_count = v.conn_count;
    id_count = v.id_count;
    worker = λ u. elim (Bool-cases (u == t)) [
      | inl e ↦ rw e (rw ((==_iff u t).0 e) ok)
      | inr e ↦ rw e (v.worker u)
    ];
    pends = v.pends;
    sent = v.sent;
    up = v.up;
  }

  pub set_worker_idle-Inv : (t : ℕ) (s : Connector) → Inv s → Inv (set_worker t idle s)
  set_worker_idle-Inv t s v = set_worker-Inv t idle s tt v

  -- A message that is neither Data nor OpenStream changes nothing that the invariant sees.
  pub send-Same :
      (env : Envelope) (s : Connector)
      → get_stream_data env ≡ none
      → get_open_stream env ≡ none
      → Same s (with_net (send env s.net) s)
  unfolding send sends_data take_in can_send
  send-Same env s e o = record {
    conn_count = ground arith;
    id_count = refl;
    worker_count = refl;
    worker = refl;
    pends = λ id u f. f;
    sent = λ id f. ground (arith, sends_data-append id s.net.outbox (env ∷ []));
    taken = λ c. ground arith;
    can = λ f. ground arith;
    up = λ f id. ground (arith, payloads_snoc id s.net.outbox env);
  }

  -- The pump takes bytes from its connection and sends them on its stream.
  pub send_data-Inv :
      (t id c : ℕ) (xs : Bytes) (s : Connector)
      → Owns s.next_worker t id c
      → A id
      → Inv s
      → Inv (with_net (send (data_msg id xs) (take_from c xs s.net)) s)
  unfolding send sends_data take_in get_open_stream get_stream_data take_from can_send
  send_data-Inv t id c xs s own a v = record {
    conn_count = ground (arith, v.conn_count);
    id_count = v.id_count;
    worker = v.worker;
    pends = v.pends;
    sent = λ i f. elim (Bool-cases (id == i)) [
      | inl e ↦ rw (← ((==_iff id i).0 e)) a
      | inr e ↦ v.sent i (ground (arith, sends_data-append i s.net.outbox (data_msg id xs ∷ [])))
    ];
    up = λ few can u.
        let able : can_send s.net ≡ true = ground arith in
        ground (
          arith,
          payloads_snoc (u + 1) s.net.outbox (data_msg id xs),
          v.up few able u,
          append-nil xs,
        );
  }

  pub net-Same :
      (n : Net) (s : Connector)
      → n.next_conn ≡ s.net.next_conn
      → n.outbox ≡ s.net.outbox
      → ((c : ℕ) → (n.conns c).taken ≡ (s.net.conns c).taken)
      → (can_send n ≡ true → can_send s.net ≡ true)
      → Same s (with_net n s)
  net-Same n s e f g h = record {
    conn_count = e;
    id_count = refl;
    worker_count = refl;
    worker = refl;
    pends = λ id u x. x;
    sent = λ id x. rw (← f) x;
    taken = g;
    can = h;
    up = λ x id. ap (payloads id) f;
  }

  pub close_conn-Same : (c : ℕ) (s : Connector) → Same s (with_net (close_conn c s.net) s)
  unfolding close_conn can_send
  close_conn-Same c s = net-Same _ s refl refl (λ d. ground arith) (λ x. x)

  pub remove_stream-Same : (id : ℕ) (s : Connector) → Same s (remove_stream id s)
  unfolding remove_stream
  remove_stream-Same id s = record {
    conn_count = refl;
    id_count = refl;
    worker_count = refl;
    worker = refl;
    pends = λ i u g. g;
    sent = λ i g. g;
    taken = λ c. refl;
    can = λ x. x;
    up = λ x i. refl;
  }

  pub remove_pending-Same : (id : ℕ) (s : Connector) → Same s (remove_pending id s)
  unfolding remove_pending
  remove_pending-Same id s = record {
    conn_count = refl;
    id_count = refl;
    worker_count = refl;
    worker = refl;
    pends = λ i u g. ground (arith, lookup-delete id i s.pending);
    sent = λ i g. g;
    taken = λ c. refl;
    can = λ x. x;
    up = λ x i. refl;
  }

  pub close_stream-Same : (id : ℕ) (s : Connector) → Same s (close_stream id s)
  unfolding close_stream close_conn can_send
  close_stream-Same id s = record {
    conn_count = ground arith;
    id_count = ground arith;
    worker_count = ground arith;
    worker = ground arith;
    pends = λ i u g. ground arith;
    sent = λ i g. ground arith;
    taken = λ c. ground arith;
    can = λ x. ground arith;
    up = λ x i. ground arith;
  }

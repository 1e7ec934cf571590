-- ===== src/Tunnel/Connector/Chunks.antt =====
-- The size of the Data messages of the connector, against what the session takes.
use Prim.Native.String.{String}
use go_connect.Base.{
  ℕ, zero, suc, ◌+◌, ◌%◌, ◌^◌, ◌≤◌, ◌≡◌, ◌∙◌, refl, sym, ap, ok, [], ◌∷◌, ◌++◌, List, Bool, true,
  false, ◌&&◌, Option, none, some, arith, if_cases, Option-cases, inl, inr, nat_key, leb, length,
  take,
}
use go_connect.Bytes.{Bytes}
use go_connect.Pb.{
  Envelope, OpenStreamAck, StreamData, get_open_stream_ack, get_stream_data, get_close_stream,
  get_heartbeat, get_disconnect, heartbeat, carrying,
}
use go_connect.Tunnel.Net.{
  Net, ReadResult, add_conn, close_conn, write_conn, take_from, can_send, send, close_broker,
  read_conn, chunk_size,
}
use go_connect.Tunnel.Login.{Script, log_in}
use go_connect.Tunnel.Connector.{
  Connector, Worker, idle, waiting, pumping, Wait, answered, timed_out, closing, with_net, open_msg,
  data_msg, closed_msg, shutting_down, remove_stream, remove_pending, close_stream, close, give_up,
  handle_local_connection, wait_for_ack, handle_ack, handle_data, stop_receiving, dispatch,
  handle_message, pump_end, pump_bytes, pump_local_to_remote, start, check_ack, new_connector,
}
use go_connect.Tunnel.Connector.Events.{
  Event, accepts, receives, waits, reads, closes, breaks, work, step, run,
}
use go_connect.Tunnel.Connector.Opening.{outbox-close_conns}
use go_connect.Tunnel.Connector.Streams.{started}
use go_connect.Crypto.Aead.Cipher.{Gcm}
use go_connect.Protocol.Codec.{Codec, IsCompact}
use go_connect.Protocol.Session.{Session, send as send_envelope}
use go_connect.Protocol.Session.Limits.{send_fits}

-- A Data message has something to carry, and no more than a read gives.
fits : Envelope → Bool
fits env = elim (get_stream_data env) [
  | none ↦ true
  | some m ↦ leb 1 (length m.payload) && leb (length m.payload) chunk_size
]

all_fit : List Envelope → Bool
all_fit [] = true
all_fit (env ∷ envs) = let rest = all_fit envs in fits env && rest

all_fit-append : (xs ys : List Envelope) → all_fit (xs ++ ys) ≡ all_fit xs && all_fit ys
unfolding all_fit
all_fit-append [] ys = refl
all_fit-append (env ∷ xs) ys = ground (arith, all_fit-append xs ys)

all_fit-middle :
    (xs ys : List Envelope) (env : Envelope) → all_fit (xs ++ (env ∷ ys)) ≡ true → fits env ≡ true
unfolding all_fit
all_fit-middle xs ys env e = ground (arith, all_fit-append xs (env ∷ ys))

fits_bounds :
    (env : Envelope) (m : StreamData)
    → fits env ≡ true
    → get_stream_data env ≡ some m
    → (1 ≤ length m.payload) × (length m.payload ≤ chunk_size)
unfolding fits
fits_bounds env m e it = (ground arith, ground arith)

abbrev Fit : Connector → Type 0
Fit s = all_fit s.net.outbox ≡ true

send-Fit :
    (env : Envelope) (n : Net)
    → fits env ≡ true
    → all_fit n.outbox ≡ true
    → all_fit (send env n).outbox ≡ true
unfolding send all_fit
send-Fit env n e v = ground (arith, all_fit-append n.outbox (env ∷ []))

close-Fit : (s : Connector) → Fit s → Fit (close s)
unfolding close close_broker fits get_stream_data
close-Fit s v =
    if_cases Fit s.closed _ _ (λ _. v)
      (λ _.
        ap all_fit (outbox-close_conns s.streams (close_broker (send shutting_down s.net)))
        ∙ send-Fit shutting_down s.net refl v)

stop_receiving-Fit : (s : Connector) → Fit s → Fit (stop_receiving s)
unfolding stop_receiving
stop_receiving-Fit s v = close-Fit s v

give_up-Fit : (t i c : ℕ) (s : Connector) → Fit s → Fit (give_up t i c s)
unfolding give_up remove_stream remove_pending close_conn
give_up-Fit t i c s v = v

handle_local_connection-Fit :
    (room : ℕ) (s : Connector) → Fit s → Fit (handle_local_connection room s)
unfolding handle_local_connection give_up remove_stream remove_pending add_conn close_conn fits
    get_stream_data
handle_local_connection-Fit room s v =
    let sent = send-Fit (open_msg ((s.next_stream_id + 1) % 2 ^ 32)) (add_conn room s.net) refl v in
    if_cases Fit (can_send (add_conn room s.net)) _ _ (λ _. sent) (λ _. sent)

wait_for_ack-Fit :
    (t i c : ℕ) (ack : Option Bool) (wait : Wait) (s : Connector)
    → Fit s
    → Fit (wait_for_ack t i c ack wait s)
unfolding wait_for_ack remove_stream close_conn
wait_for_ack-Fit t i c none answered s v = v
wait_for_ack-Fit t i c (some true) answered s v = v
wait_for_ack-Fit t i c (some false) answered s v = v
wait_for_ack-Fit t i c ack timed_out s v = give_up-Fit t i c s v
wait_for_ack-Fit t i c ack closing s v =
    if_cases Fit s.closed _ _ (λ _. give_up-Fit t i c s v) (λ _. v)

handle_ack-Fit : (m : OpenStreamAck) (s : Connector) → Fit s → Fit (handle_ack m s)
unfolding handle_ack remove_pending
handle_ack-Fit m s v = ground arith

handle_data-Fit : (m : StreamData) (s : Connector) → Fit s → Fit (handle_data m s)
unfolding handle_data close_stream close_conn write_conn
handle_data-Fit m s v = ground arith

close_stream-Fit : (i : ℕ) (s : Connector) → Fit s → Fit (close_stream i s)
unfolding close_stream close_conn
close_stream-Fit i s v = ground arith

dispatch-Fit : (env : Envelope) (s : Connector) → Fit s → Fit (dispatch env s)
unfolding dispatch fits get_stream_data
dispatch-Fit env s v = elim (Option-cases (get_open_stream_ack env)) [
  | inr (m, e) ↦ rw (e, dispatch) (handle_ack-Fit m s v)
  | inl e ↦ elim (Option-cases (get_stream_data env)) [
    | inr (m, f) ↦ rw (e, dispatch) (rw f (handle_data-Fit m s v))
    | inl f ↦ elim (Option-cases (get_close_stream env)) [
      | inr (m, g) ↦ rw (e, dispatch) (rw f (rw g (close_stream-Fit m.stream_id s v)))
      | inl g ↦ elim (Option-cases (get_heartbeat env)) [
        | inr (m, h) ↦
            rw (e, dispatch) (rw f (rw g (rw h (send-Fit (carrying heartbeat) s.net refl v))))
        | inl h ↦ elim (Option-cases (get_disconnect env)) [
          | inr (m, k) ↦ rw (e, dispatch) (rw f (rw g (rw h (rw k (stop_receiving-Fit s v)))))
          | inl k ↦ rw (e, dispatch) (rw f (rw g (rw h (rw k v))))
        ]
      ]
    ]
  ]
]

handle_message-Fit : (env : Option Envelope) (s : Connector) → Fit s → Fit (handle_message env s)
unfolding handle_message
handle_message-Fit none s v = stop_receiving-Fit s v
handle_message-Fit (some env) s v =
    let after = dispatch env s in
    let w = dispatch-Fit env s v in
    if_cases Fit after.closed _ _ (λ _. stop_receiving-Fit after w) (λ _. w)

pump_end-Fit : (t i c : ℕ) (ended : Bool) (s : Connector) → Fit s → Fit (pump_end t i c ended s)
unfolding pump_end remove_stream fits get_stream_data
pump_end-Fit t i c false s v = if_cases Fit s.closed _ _ (λ _. v) (λ _. v)
pump_end-Fit t i c true s v = send-Fit (closed_msg i) s.net refl v

pump_bytes-Fit :
    (t i c : ℕ) (bytes : Bytes) (ended : Bool) (s : Connector)
    → length bytes ≤ chunk_size
    → Fit s
    → Fit (pump_bytes t i c (record { bytes = bytes; ended = ended }) s)
unfolding pump_bytes take_from fits get_stream_data
pump_bytes-Fit t i c [] ended s le v = pump_end-Fit t i c ended s v
pump_bytes-Fit t i c (x ∷ xs) ended s le v =
    let taken = with_net (take_from c (x ∷ xs) s.net) s in
    let sent = with_net (send (data_msg i (x ∷ xs)) taken.net) taken in
    let w : Fit sent = send-Fit (data_msg i (x ∷ xs)) taken.net (ground arith) v in
    if_cases Fit (can_send taken.net) _ _ (λ _. pump_end-Fit t i c ended sent w)
      (λ _. close_stream-Fit i sent w)

length-take_le : (n : ℕ) (xs : Bytes) → length (take n xs) ≤ n
length-take_le zero xs = omega arith
length-take_le (suc n) [] = omega arith
length-take_le (suc n) (x ∷ xs) = omega (arith, length-take_le n xs)

read_conn-le : (c : ℕ) (r : ReadResult) (n : Net) → length (read_conn c r n).bytes ≤ chunk_size
unfolding read_conn
read_conn-le c r n =
    if_cases (λ (z : ReadResult). length z.bytes ≤ chunk_size) (n.conns c).is_open _ _
      (λ _. length-take_le chunk_size r.bytes) (λ _. omega arith)

work-Fit : (t : ℕ) (w : Worker) (e : Event) (s : Connector) → Fit s → Fit (work t w e s)
unfolding work pump_local_to_remote
work-Fit t (waiting i c ack) (waits u wait) s v = wait_for_ack-Fit t i c ack wait s v
work-Fit t (pumping i c) (reads u r) s v =
    let got = read_conn c r s.net in
    pump_bytes-Fit t i c got.bytes got.ended s (read_conn-le c r s.net) v
work-Fit t idle x s v = v
work-Fit t (waiting i c ack) (accepts room) s v = v
work-Fit t (waiting i c ack) (receives env) s v = v
work-Fit t (waiting i c ack) (reads u r) s v = v
work-Fit t (waiting i c ack) closes s v = v
work-Fit t (waiting i c ack) breaks s v = v
work-Fit t (pumping i c) (accepts room) s v = v
work-Fit t (pumping i c) (receives env) s v = v
work-Fit t (pumping i c) (waits u w) s v = v
work-Fit t (pumping i c) closes s v = v
work-Fit t (pumping i c) breaks s v = v

step-Fit : (e : Event) (s : Connector) → Fit s → Fit (step e s)
unfolding step
step-Fit (accepts room) s v = handle_local_connection-Fit room s v
step-Fit (receives env) s v =
    if_cases Fit s.receiving _ _ (λ _. handle_message-Fit env s v) (λ _. v)
step-Fit (waits t wait) s v = work-Fit t (s.workers t) (waits t wait) s v
step-Fit (reads t r) s v = work-Fit t (s.workers t) (reads t r) s v
step-Fit closes s v = close-Fit s v
step-Fit breaks s v = v

run-Fit : (es : List Event) (s : Connector) → Fit s → Fit (run es s)
unfolding run
run-Fit [] s v = v
run-Fit (e ∷ es) s v = step-Fit e (run es s) (run-Fit es s v)

module _ (sha256 : Bytes → Bytes) (passphrase : Bytes) (connection_id : String)
    (script : Script) where
  start-Fit : Fit (started sha256 passphrase connection_id script)
  unfolding started start new_connector log_in check_ack send can_send close_broker all_fit fits
      get_stream_data
  start-Fit = ground arith

  started-all_fit :
      (es : List Event)
      → all_fit (run es (started sha256 passphrase connection_id script)).net.outbox ≡ true
  started-all_fit es = run-Fit es (started sha256 passphrase connection_id script) start-Fit

  -- Every Data message that a connector sends, in any history, carries at least one byte, and is
  -- within the session's limits: if it can be marshalled, with at most 32 bytes more than its payload
  -- (as protobuf does), then `Session.Send` of it succeeds on every connection that has room for its
  -- frame.
  pub chunks_fit :
      (es : List Event) (before after : List Envelope) (env : Envelope) (m : StreamData) (g : Gcm)
      (k : Codec) (plain : Bytes) (s : Session)
      → IsCompact k
      → (run es (started sha256 passphrase connection_id script)).net.outbox
        ≡ before ++ (env ∷ after)
      → get_stream_data env ≡ some m
      → k.marshal env ≡ some plain
      → length plain + 32 ≤ s.conn.room
      → (1 ≤ length m.payload) × ((send_envelope g k env s).0 ≡ ok tt)
  chunks_fit es before after env m g k plain s compact there it wire room =
      let all : all_fit (before ++ (env ∷ after)) ≡ true =
        ap all_fit (sym there) ∙ started-all_fit es in
      let (low, high) = fits_bounds env m (all_fit-middle before after env all) it in
      let small = compact env m plain it wire (omega arith) in
      (low, ap (λ r. r.0) (send_fits g k env plain wire s (omega arith) room))

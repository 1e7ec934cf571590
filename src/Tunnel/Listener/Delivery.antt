-- ===== src/Tunnel/Listener/Delivery.antt =====
-- The bytes of a stream reach its local connection in the order in which they came.
use go_connect.Base.{
  ℕ, ◌≡◌, refl, sym, ap, subst, [], ◌∷◌, List, Bool, true, false, none, some, ◌==◌, ==_iff,
  if◌then◌else◌, arith, if_cases, Bool-cases, Option-cases, inl, inr, nat_key, lookup,
}
use go_connect.Bytes.{Bytes}
use go_connect.Pb.{Envelope, StreamData}
use go_connect.Tunnel.Payloads.{take_in, fed}
use go_connect.Tunnel.Net.{can_send, send, close_broker}
use go_connect.Tunnel.Listener.{Listener, Worker, idle, dialing, draining, pumping, stop_receiving}
use go_connect.Tunnel.Listener.Pipe.{
  conn_of, Pipe, Same, Same-Pipe, net-Same, send-Same, close_stream-Same,
}
use go_connect.Tunnel.Listener.Writes.{handle_other_data-Pipe, handle_data-Pipe, IsCalm}
use go_connect.Tunnel.Listener.Dials.{IsFree, open_other-Pipe, open-Pipe, handle_open_stream-Pipe}
use go_connect.Tunnel.Listener.Drains.{drain-Pipe}
use go_connect.Tunnel.Listener.Pumps.{pump_local_to_remote-Pipe, close-Same}
use go_connect.Tunnel.Listener.{dispatch, handle_message, new_listener, start, check_ack}
use go_connect.Tunnel.Listener.Events.{
  Event, receives, dialled, drains, reads, closes, breaks, work, run,
}
use go_connect.Tunnel.Login.{Script, log_in}
use go_connect.Pb.{
  get_open_stream, get_stream_data, get_close_stream, get_heartbeat, get_disconnect, OpenStream,
  heartbeat, carrying,
}
use Prim.Native.String.{String}

-- The messages that were handled, the latest first: those that came while `handleMessages` ran.
unfoldable pub handled : List Event → Listener → List Envelope
handled [] l = []
handled (receives (some env) ∷ es) l =
    let rest = handled es l in if (run es l).receiving then env ∷ rest else rest
handled (e ∷ es) l = handled es l

fed_none : (id : ℕ) → fed id [] ≡ []
unfolding fed
fed_none id = refl

-- The other end opens the stream only while no goroutine has it, and sends data on it only while
-- none of them writes what was buffered for it.
abbrev pub Orderly : ℕ → List Event → Listener → Type 0
Orderly id [] l = Unit {0}
Orderly id (receives (some env) ∷ es) l =
    Orderly id es l
    × ((m : OpenStream) → get_open_stream env ≡ some m → m.stream_id ≡ id → IsFree id (run es l))
    × ((m : StreamData)
        → get_open_stream env ≡ none
        → get_stream_data env ≡ some m
        → m.stream_id ≡ id
        → IsCalm id (run es l))
Orderly id (e ∷ es) l = Orderly id es l

module _ (id : ℕ) where
  stop_receiving-Same : (l : Listener) → Same id l (stop_receiving l)
  unfolding stop_receiving
  stop_receiving-Same l =
      let e = close-Same id l in
      record {
        workers = e.workers;
        next_worker = e.next_worker;
        next_conn = e.next_conn;
        written = e.written;
        streams = e.streams;
      }

  dispatch-Pipe :
      (env : Envelope) (envs : List Envelope) (l : Listener)
      → ((m : OpenStream) → get_open_stream env ≡ some m → m.stream_id ≡ id → IsFree id l)
      → ((m : StreamData)
          → get_open_stream env ≡ none
          → get_stream_data env ≡ some m
          → m.stream_id ≡ id
          → IsCalm id l)
      → Pipe id (fed id envs) l
      → Pipe id (fed id (env ∷ envs)) (dispatch env l)
  unfolding dispatch fed take_in
  dispatch-Pipe env envs l free calm v = elim (Option-cases (get_open_stream env)) [
    | inr (m, e) ↦
        rw (e, dispatch, fed, take_in)
          (elim (Bool-cases (m.stream_id == id)) [
            | inl f ↦ rw f (
                rw ((==_iff m.stream_id id).0 f)
                  (open-Pipe id (fed id envs) l (free m e ((==_iff m.stream_id id).0 f)) v))
            | inr f ↦ rw f (open_other-Pipe id (fed id envs) m.stream_id l (λ g. ground arith) v)
          ])
    | inl e ↦ elim (Option-cases (get_stream_data env)) [
      | inr (m, f) ↦
          rw (e, dispatch, fed, take_in)
            (rw f (elim (Bool-cases (m.stream_id == id)) [
              | inl g ↦
                  let same = (==_iff m.stream_id id).0 g in
                  rw g (handle_data-Pipe id (fed id envs) m l same (calm m e f same) v)
              | inr g ↦ rw g (handle_other_data-Pipe id (fed id envs) m l (λ h. ground arith) v)
            ]))
      | inl f ↦ elim (Option-cases (get_close_stream env)) [
        | inr (m, g) ↦
            rw (e, dispatch, fed, take_in)
              (rw f (rw g (Same-Pipe id (fed id envs) l _ (close_stream-Same id m.stream_id l) v)))
        | inl g ↦ elim (Option-cases (get_heartbeat env)) [
          | inr (m, h) ↦
              rw (e, dispatch, fed, take_in)
                (rw f (
                  rw g (
                    rw h (Same-Pipe id (fed id envs) l _ (send-Same id (carrying heartbeat) l) v))))
          | inl h ↦ elim (Option-cases (get_disconnect env)) [
            | inr (m, k) ↦
                rw (e, dispatch, fed, take_in)
                  (rw f
                    (rw g (rw h (rw k (Same-Pipe id (fed id envs) l _ (stop_receiving-Same l) v)))))
            | inl k ↦ rw (e, dispatch, fed, take_in) (rw f (rw g (rw h (rw k v))))
          ]
        ]
      ]
    ]
  ]

  handle_message-Pipe :
      (env : Envelope) (envs : List Envelope) (l : Listener)
      → Pipe id (fed id (env ∷ envs)) (dispatch env l)
      → Pipe id (fed id (env ∷ envs)) (handle_message (some env) l)
  unfolding handle_message
  handle_message-Pipe env envs l v =
      let after = dispatch env l in
      if_cases (Pipe id (fed id (env ∷ envs))) after.closed _ _
        (λ _. Same-Pipe id _ after _ (stop_receiving-Same after) v) (λ _. v)

  -- The test on the way of a message, at any value of the flag.
  gated-Pipe :
      (receiving : Bool) (env : Envelope) (envs : List Envelope) (l after : Listener)
      → Pipe id (fed id envs) l
      → Pipe id (fed id (env ∷ envs)) after
      → Pipe id (fed id (if receiving then env ∷ envs else envs)) (if receiving then after else l)
  gated-Pipe false env envs l after v w = v
  gated-Pipe true env envs l after v w = w

  work-Pipe :
      (sofar : Bytes) (t : ℕ) (w : Worker) (e : Event) (l : Listener)
      → l.workers t ≡ w
      → Pipe id sofar l
      → Pipe id sofar (work t w e l)
  unfolding work
  work-Pipe sofar t (dialing i) (dialled u room) l e v =
      handle_open_stream-Pipe id sofar t i room l e v
  work-Pipe sofar t (draining i c b) (drains u) l e v = drain-Pipe id sofar t i c b l e v
  work-Pipe sofar t (pumping i c) (reads u r) l e v =
      pump_local_to_remote-Pipe id sofar t i c r l e v
  work-Pipe sofar t idle x l e v = v
  work-Pipe sofar t (dialing i) (receives env) l e v = v
  work-Pipe sofar t (dialing i) (drains u) l e v = v
  work-Pipe sofar t (dialing i) (reads u r) l e v = v
  work-Pipe sofar t (dialing i) closes l e v = v
  work-Pipe sofar t (dialing i) breaks l e v = v
  work-Pipe sofar t (draining i c b) (receives env) l e v = v
  work-Pipe sofar t (draining i c b) (dialled u room) l e v = v
  work-Pipe sofar t (draining i c b) (reads u r) l e v = v
  work-Pipe sofar t (draining i c b) closes l e v = v
  work-Pipe sofar t (draining i c b) breaks l e v = v
  work-Pipe sofar t (pumping i c) (receives env) l e v = v
  work-Pipe sofar t (pumping i c) (dialled u room) l e v = v
  work-Pipe sofar t (pumping i c) (drains u) l e v = v
  work-Pipe sofar t (pumping i c) closes l e v = v
  work-Pipe sofar t (pumping i c) breaks l e v = v

  run-Pipe :
      (es : List Event) (l : Listener)
      → Orderly id es l
      → Pipe id [] l
      → Pipe id (fed id (handled es l)) (run es l)
  unfolding run handled handle_message stop_receiving
  run-Pipe [] l o v = subst (λ z. Pipe id z l) (sym (fed_none id)) v
  run-Pipe (receives (some env) ∷ es) l o v =
      let s = run es l in
      let w = run-Pipe es l o.0 v in
      gated-Pipe s.receiving env (handled es l) s (handle_message (some env) s) w
        (handle_message-Pipe env (handled es l) s (dispatch-Pipe env (handled es l) s o.1 o.2 w))
  run-Pipe (receives none ∷ es) l o v =
      let s = run es l in
      let w = run-Pipe es l o v in
      if_cases (Pipe id (fed id (handled es l))) s.receiving _ _
        (λ _. Same-Pipe id _ s _ (stop_receiving-Same s) w) (λ _. w)
  run-Pipe (dialled t room ∷ es) l o v =
      let s = run es l in work-Pipe _ t (s.workers t) (dialled t room) s refl (run-Pipe es l o v)
  run-Pipe (drains t ∷ es) l o v =
      let s = run es l in work-Pipe _ t (s.workers t) (drains t) s refl (run-Pipe es l o v)
  run-Pipe (reads t r ∷ es) l o v =
      let s = run es l in work-Pipe _ t (s.workers t) (reads t r) s refl (run-Pipe es l o v)
  run-Pipe (closes ∷ es) l o v = Same-Pipe id _ _ _ (close-Same id (run es l)) (run-Pipe es l o v)
  run-Pipe (breaks ∷ es) l o v =
      Same-Pipe id _ (run es l) _ (net-Same id _ (run es l) refl (λ c. refl)) (run-Pipe es l o v)

module _ (sha256 : Bytes → Bytes) (passphrase : Bytes) (connection_id : String)
    (script : Script) where
  unfoldable pub started : Listener
  started = (start sha256 passphrase connection_id script new_listener).1

  start-Pipe : (id : ℕ) → Pipe id [] started
  unfolding started start new_listener log_in check_ack send can_send close_broker lookup
  start-Pipe id =
      let idle_yet : (t : ℕ) → started.workers t ≡ idle = λ t. ground arith in
      let none_yet : started.streams ≡ [] = ground arith in
      record {
        unused = λ t le. idle_yet t;
        one_worker = λ t u e f. absurd (ground (arith, idle_yet t));
        map_fresh = λ i c e. absurd (ground (arith, ap (lookup i) none_yet));
        drain_fresh = λ t i c b e. absurd (ground (arith, idle_yet t));
        apart = λ i c e f. absurd (ground (arith, ap (lookup i) none_yet));
        drain_apart = λ t i c b e f. absurd (ground (arith, idle_yet t));
        dials = λ t e. absurd (ground (arith, idle_yet t));
        buffered = λ st e f. absurd (ground (arith, ap (lookup id) none_yet));
        drains = λ t c b st e f. absurd (ground (arith, idle_yet t));
        direct = λ c e f. absurd (ground (arith, ap (lookup id) none_yet));
      }

  -- A stream that has its local connection: when the other end opened it only while no goroutine of
  -- the stream ran and sent no data while the buffer was being written, and none is at the end, then
  -- the connection got exactly the payloads that came since the stream was last opened, in order.
  pub written-fed :
      (es : List Event) (id c : ℕ)
      → Orderly id es started
      → IsCalm id (run es started)
      → conn_of (lookup id (run es started).streams) ≡ some c
      → ((run es started).net.conns c).written ≡ fed id (handled es started)
  written-fed es id c o calm e =
      (run-Pipe id es started o (start-Pipe id)).direct c e (λ t b. calm t c b)

-- ===== src/Broker/Server/Isolation.antt =====
-- Who is touched by a message: the relay loop and the registration of pkg/broker/server.go.
use Prim.Native.String.{String}
use go_connect.Base.{ℕ, ◌≡◌, ◌≢◌, Option, none, some, arith, Option-cases, inl, inr}
use go_connect.Pb.{Envelope, get_heartbeat}
use go_connect.Broker.Router.{Client, get_peer, find_listener}
use go_connect.Broker.Router.Laws.{find_listener-remove, register_listener_taken}
use go_connect.Broker.Router.Invariant.{IsValid}
use go_connect.Broker.State.{
  Server, send_to, update_last_seen, set_connection_id, notify, log_invalid_connection_id,
}
use go_connect.Broker.Close.{close, shut}
use go_connect.Broker.Close.Ends.{close_others, close-cases}
use go_connect.Broker.Server.{relay_message, leave, handle_listener, refuse, registration_failed}

-- The way out touches the client and its peer alone.
leave-close_others :
    (x y : Client) (s : Server)
    → y ≢ x
    → get_peer x s.router ≢ some y
    → (leave x (close x s)).heap y ≡ s.heap y
unfolding leave
leave-close_others x y s ne np = ground (arith, close_others x y s ne np)

-- Whatever is read from a client, no client but it and its peer changes: nothing is sent to others,
-- and none of them is closed.
pub relay_message_others :
    (x y : Client) (env : Option Envelope) (now : ℕ) (s : Server)
    → y ≢ x
    → get_peer x s.router ≢ some y
    → (relay_message x env now s).heap y ≡ s.heap y
unfolding relay_message update_last_seen send_to
relay_message_others x y none now s ne np = leave-close_others x y s ne np
relay_message_others x y (some env) now s0 ne np =
    let s = update_last_seen x now s0 in
    elim (Option-cases (get_heartbeat env)) [
      | inr (m, f) ↦ ground (arith, f)
      | inl f ↦ elim (Option-cases (get_peer x s0.router)) [
        | inl g ↦ ground (arith, f, g, leave-close_others x y s ne np)
        | inr (peer, g) ↦ ground (arith, f, g, leave-close_others x y s ne np)
      ]
    ]

close_keeps_listener :
    (x other : Client) (id : String) (s : Server)
    → IsValid s.router
    → find_listener id s.router ≡ some other
    → other ≢ x
    → get_peer x s.router ≡ none
    → (find_listener id (close x s).router ≡ some other) × ((close x s).heap other ≡ s.heap other)
unfolding shut
close_keeps_listener x other id s v e ne alone = (
  ground (arith, close-cases x s, find_listener-remove x id s.router v.distinct v.single),
  close_others x other s ne (λ f. ground arith),
)

refuse_keeps :
    (x other : Client) (id : String) (answer : Envelope) (s : Server)
    → IsValid s.router
    → find_listener id s.router ≡ some other
    → other ≢ x
    → get_peer x s.router ≡ none
    → (find_listener id (refuse x answer s).router ≡ some other)
      × ((refuse x answer s).heap other ≡ s.heap other)
unfolding refuse leave notify
refuse_keeps x other id answer s v e ne alone =
    let t = notify x answer s in
    let same : t.router ≡ s.router = ground arith in
    let kept = close_keeps_listener x other id t (rw same v) (rw same e) ne (rw same alone) in
    (ground (arith, kept.0), ground (arith, kept.1))

-- A client that is not in the router cannot take over an ID that another has registered: after its
-- registration, which is refused, the ID still leads to the other, whom it leaves as it was.
pub handle_listener_taken :
    (x other : Client) (id : String) (s : Server)
    → IsValid s.router
    → find_listener id s.router ≡ some other
    → other ≢ x
    → get_peer x s.router ≡ none
    → (find_listener id (handle_listener x id s).router ≡ some other)
      × ((handle_listener x id s).heap other ≡ s.heap other)
unfolding handle_listener set_connection_id log_invalid_connection_id
handle_listener_taken x other id s v e ne alone =
    let taken = register_listener_taken id other x s.router e in
    let t = log_invalid_connection_id x id (set_connection_id x id s) in
    let kept =
      refuse_keeps x other id registration_failed t (ground arith) (ground arith) ne
        (ground arith) in
    (ground (arith, taken, kept.0), ground (arith, taken, kept.1))

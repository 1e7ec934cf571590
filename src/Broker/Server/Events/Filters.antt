-- ===== src/Broker/Server/Events/Filters.antt =====
-- The filters of a server never change.
use Prim.Native.String.{String}
use go_connect.Base.{
  ℕ, ◌≡◌, ◌∙◌, refl, Bool, true, false, List, [], ◌∷◌, Option, none, some, arith, Option-cases, inl,
  inr, Result-cases,
}
use go_connect.Pb.{Envelope, heartbeat, carrying, get_register, get_connect_request, get_heartbeat}
use go_connect.Broker.Router.{Client, get_peer, register_listener, link_connector}
use go_connect.Broker.State.{
  Server, send_to, notify, close_conn, set_connection_id, update_last_seen, set_phase, warn,
  LogEntry, invalid_connection_id, log_invalid_auth_payload, log_passphrase_mismatch,
  log_invalid_connection_id,
}
use go_connect.Broker.Close.{close}
use go_connect.Broker.Close.Kept.{filters, close-filters}
use go_connect.Broker.Server.{
  AuthInput, admit, accept, leave, untrack_client, track_client, authenticate_client, refuse,
  welcome, handle_listener, handle_connector, handle_handshake, handle_auth, handle_first,
  relay_message, heartbeat_tick, with_router, registered, registration_failed, connected,
  connection_failed, bad_first_message,
}
use go_connect.Broker.Server.Events.{
  Event, arrives, shakes, authenticates, begins, relays, ticks, breaks, step, run,
}

leave-filters : (x : Client) (s : Server) → filters (leave x s) ≡ filters s
unfolding leave untrack_client set_phase
leave-filters x s = refl

send_to-filters :
    (x : Client) (env : Envelope) (s : Server) → filters (send_to x env s).1 ≡ filters s
unfolding send_to
send_to-filters x env s = ground arith

leave-close-filters : (x : Client) (s : Server) → filters (leave x (close x s)) ≡ filters s
leave-close-filters x s = leave-filters x (close x s) ∙ close-filters x s

refuse-filters : (x : Client) (env : Envelope) (s : Server) → filters (refuse x env s) ≡ filters s
unfolding refuse notify
refuse-filters x env s = leave-close-filters x (notify x env s) ∙ send_to-filters x env s

welcome-filters : (x : Client) (env : Envelope) (s : Server) → filters (welcome x env s) ≡ filters s
unfolding welcome notify set_phase
welcome-filters x env s = send_to-filters x env s

warn-filters : (entry : LogEntry) (s : Server) → filters (warn entry s) ≡ filters s
unfolding warn
warn-filters entry s = ground arith

accept-filters :
    (remote : String) (host : Option String) (s : Server)
    → filters (accept remote host s) ≡ filters s
unfolding accept admit warn
accept-filters remote host s = ground arith

authenticate_client-filters :
    (x : Client) (input : AuthInput) (s : Server)
    → filters (authenticate_client x input s).1 ≡ filters s
unfolding authenticate_client close_conn log_invalid_auth_payload log_passphrase_mismatch warn
authenticate_client-filters x input s = ground arith

handle_auth-filters :
    (x : Client) (input : AuthInput) (s : Server) → filters (handle_auth x input s) ≡ filters s
unfolding handle_auth leave untrack_client set_phase
handle_auth-filters x input s = ground (arith, authenticate_client-filters x input s)

handle_handshake-filters :
    (x : Client) (good : Bool) (now : ℕ) (s : Server)
    → filters (handle_handshake x good now s) ≡ filters s
unfolding handle_handshake close_conn track_client set_phase update_last_seen leave untrack_client
handle_handshake-filters x false now s = refl
handle_handshake-filters x true now s = refl

handle_listener-filters :
    (x : Client) (id : String) (s : Server) → filters (handle_listener x id s) ≡ filters s
unfolding handle_listener set_connection_id log_invalid_connection_id
handle_listener-filters x id s0 =
    let s = set_connection_id x id s0 in
    let u = with_router (register_listener id x s.router) s in
    let entry = invalid_connection_id id (u.heap x).remote in
    elim (Result-cases (register_listener id x s.router).0) [
      | inl (a, e) ↦ rw (e, handle_listener) (welcome-filters x registered u)
      | inr (a, e) ↦
          rw (e, handle_listener)
            (refuse-filters x registration_failed (warn entry u) ∙ warn-filters entry u)
    ]

handle_connector-filters :
    (x : Client) (id : String) (s : Server) → filters (handle_connector x id s) ≡ filters s
unfolding handle_connector set_connection_id log_invalid_connection_id
handle_connector-filters x id s0 =
    let s = set_connection_id x id s0 in
    let u = with_router (link_connector id x s.router) s in
    let entry = invalid_connection_id id (u.heap x).remote in
    elim (Result-cases (link_connector id x s.router).0) [
      | inl (a, e) ↦ rw (e, handle_connector) (welcome-filters x connected u)
      | inr (a, e) ↦
          rw (e, handle_connector)
            (refuse-filters x connection_failed (warn entry u) ∙ warn-filters entry u)
    ]

handle_first-filters :
    (x : Client) (env : Option Envelope) (now : ℕ) (s : Server)
    → filters (handle_first x env now s) ≡ filters s
unfolding handle_first update_last_seen
handle_first-filters x none now s = leave-close-filters x s
handle_first-filters x (some env) now s0 =
    let s = update_last_seen x now s0 in
    elim (Option-cases (get_register env)) [
      | inr (m, e) ↦ rw (e, handle_first) (handle_listener-filters x m.connection_id s)
      | inl e ↦ elim (Option-cases (get_connect_request env)) [
        | inr (m, f) ↦ rw (e, handle_first) (rw f (handle_connector-filters x m.connection_id s))
        | inl f ↦ rw (e, handle_first) (rw f (refuse-filters x bad_first_message s))
      ]
    ]

relay_message-filters :
    (x : Client) (env : Option Envelope) (now : ℕ) (s : Server)
    → filters (relay_message x env now s) ≡ filters s
unfolding relay_message update_last_seen
relay_message-filters x none now s = leave-close-filters x s
relay_message-filters x (some env) now s0 =
    let s = update_last_seen x now s0 in
    elim (Option-cases (get_heartbeat env)) [
      | inr (m, e) ↦ rw (e, relay_message) refl
      | inl e ↦ elim (Option-cases (get_peer x s.router)) [
        | inl f ↦ rw (e, relay_message) (rw f (leave-close-filters x s))
        | inr (peer, f) ↦ elim (Result-cases (send_to peer env s).0) [
          | inl (a, g) ↦ rw (e, relay_message) (rw f (rw g (send_to-filters peer env s)))
          | inr (a, g) ↦
              rw (e, relay_message)
                (rw f (
                  rw g (leave-close-filters x (send_to peer env s).1 ∙ send_to-filters peer env s)))
        ]
      ]
    ]

heartbeat_tick-filters :
    (x : Client) (now : ℕ) (s : Server) → filters (heartbeat_tick x now s) ≡ filters s
unfolding heartbeat_tick notify
heartbeat_tick-filters x now s =
    ground (arith, close-filters x s, send_to-filters x (carrying heartbeat) s)

step-filters : (e : Event) (s : Server) → filters (step e s) ≡ filters s
unfolding step
step-filters (arrives remote host) s = accept-filters remote host s
step-filters (shakes x good now) s = ground (arith, handle_handshake-filters x good now s)
step-filters (authenticates x input) s = ground (arith, handle_auth-filters x input s)
step-filters (begins x env now) s = ground (arith, handle_first-filters x env now s)
step-filters (relays x env now) s = ground (arith, relay_message-filters x env now s)
step-filters (ticks x now) s = ground (arith, heartbeat_tick-filters x now s)
step-filters (breaks x) s = refl

pub run-filters : (es : List Event) (s : Server) → filters (run es s) ≡ filters s
unfolding run
run-filters [] s = refl
run-filters (e ∷ es) s = step-filters e (run es s) ∙ run-filters es s

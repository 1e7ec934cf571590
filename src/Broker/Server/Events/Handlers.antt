-- ===== src/Broker/Server/Events/Handlers.antt =====
-- The handshake, the authentication and the answers to a first message keep the invariant.
use Prim.Native.String.{String}
use go_connect.Base.{
  ℕ, ◌≡◌, ◌≢◌, refl, sym, ◌∙◌, Bool, true, false, none, string_key, nat_key, arith, Bool-cases,
  Option-cases, inl, inr, Result-cases,
}
use go_connect.Bytes.{bytes_eq}
use go_connect.Pb.{Envelope, get_authenticate}
use go_connect.Broker.Router.{Client, Router, get_peer, register_listener, link_connector}
use go_connect.Broker.Router.Laws.{
  register_listener_only, get_peer-register_listener, find_listener-link_connector,
  link_connector_only, register_refused, link_refused,
}
use go_connect.Broker.Router.Invariant.{register_listener-IsValid, link_connector-IsValid}
use go_connect.Broker.State.{
  Server, shaking, authenticating, choosing, relaying, gone, notify, set_phase, close_conn,
  invalid_connection_id, set_connection_id, update_last_seen, log_invalid_auth_payload,
  log_passphrase_mismatch, log_invalid_connection_id,
}
use go_connect.Broker.Server.{
  handle_handshake, track_client, AuthInput, set_deadline_failed, receive_failed,
  clear_deadline_failed, received, authenticate_client, handle_auth, handle_listener,
  handle_connector, refuse, welcome,
}
use go_connect.Broker.Server.Events.Core.{
  Same, Same-trans, Same-Inv, notify-Same, Inv, leave-close-Inv, leave_early-Inv,
}
use go_connect.Broker.Server.Events.{run}
use go_connect.Broker.Server.Events.Steps.{adjust-Same, warn-Same, advance-Inv, enter-Inv}

pub handle_handshake-Inv :
    (x : Client) (good : Bool) (now : ℕ) (s : Server)
    → Inv s
    → (s.heap x).phase ≡ shaking
    → Inv (handle_handshake x good now s)
unfolding handle_handshake close_conn update_last_seen track_client
handle_handshake-Inv x false now s v e =
    leave_early-Inv x (close_conn x s) (Same-Inv s _ (adjust-Same x _ s refl refl) v) (ground arith)
handle_handshake-Inv x true now s v e =
    let t = track_client x (update_last_seen x now s) in
    let same : Same s t = record {
      router = refl;
      phase = λ y. ground arith;
      done = λ y. ground arith;
      next = refl;
      slots = refl;
    } in
    advance-Inv x authenticating t (Same-Inv s t same v) (ground arith) refl

Same-refl : (s : Server) → Same s s
Same-refl s = record {
  router = refl;
  phase = λ y. refl;
  done = λ y. refl;
  next = refl;
  slots = refl;
}

close_conn-Same : (x : Client) (s : Server) → Same s (close_conn x s)
unfolding close_conn
close_conn-Same x s = adjust-Same x _ s refl refl

-- A failed authentication changes the connection and the log alone, a good one nothing.
pub authenticate_client-Same :
    (x : Client) (input : AuthInput) (s : Server) → Same s (authenticate_client x input s).1
unfolding authenticate_client log_invalid_auth_payload log_passphrase_mismatch
authenticate_client-Same x set_deadline_failed s = close_conn-Same x s
authenticate_client-Same x (receive_failed raw) s =
    Same-trans s _ _ (warn-Same _ s) (close_conn-Same x _)
authenticate_client-Same x clear_deadline_failed s = close_conn-Same x s
authenticate_client-Same x (received raw env) s = elim (Option-cases (get_authenticate env)) [
  | inl e ↦ rw (e, authenticate_client) (Same-trans s _ _ (warn-Same _ s) (close_conn-Same x _))
  | inr (auth, e) ↦ elim (Bool-cases (bytes_eq auth.passphrase_hash s.passphrase_hash)) [
    | inl f ↦ rw (e, authenticate_client) (rw f (Same-refl s))
    | inr f ↦
        rw (e, authenticate_client) (rw f (Same-trans s _ _ (warn-Same _ s) (close_conn-Same x _)))
  ]
]

pub handle_auth-Inv :
    (x : Client) (input : AuthInput) (s : Server)
    → Inv s
    → (s.heap x).phase ≡ authenticating
    → Inv (handle_auth x input s)
unfolding handle_auth
handle_auth-Inv x input s v e =
    let same = authenticate_client-Same x input s in
    let w = Same-Inv s _ same v in
    elim (Result-cases (authenticate_client x input s).0) [
      | inl (u, f) ↦
          rw (f, handle_auth) (advance-Inv x choosing _ w (rw (same.phase x) (rw e refl)) refl)
      | inr (r, f) ↦ rw (f, handle_auth) (leave_early-Inv x _ w (rw (same.phase x) (rw e refl)))
    ]

pub refuse-Inv :
    (x : Client) (answer : Envelope) (s : Server)
    → Inv s
    → (s.heap x).phase ≢ gone
    → Inv (refuse x answer s)
unfolding refuse
refuse-Inv x answer s v run =
    leave-close-Inv x _ (Same-Inv s _ (notify-Same x answer s) v)
      (rw ((notify-Same x answer s).phase x) run)

-- What a handler does to its client before the router is asked.
set_connection_id-Same : (x : Client) (id : String) (s : Server) → Same s (set_connection_id x id s)
unfolding set_connection_id
set_connection_id-Same x id s = adjust-Same x _ s refl refl

welcome-Inv :
    (x : Client) (answer : Envelope) (r : Router) (s : Server)
    → Inv (set_phase x relaying (record s { router = r }))
    → Inv (welcome x answer (record s { router = r }))
unfolding welcome set_phase notify
welcome-Inv x answer r s v =
    Same-Inv _ _
      (record {
        router = ground arith;
        phase = λ y. ground arith;
        done = λ y. ground arith;
        next = ground arith;
        slots = ground arith;
      })
      v

unlinked :
    (x : Client) (s : Server) → Inv s → (s.heap x).phase ≡ choosing → get_peer x s.router ≡ none
unlinked x s v e = elim (Option-cases (get_peer x s.router)) [
  | inl f ↦ f
  | inr (b, f) ↦ absurd (ground (arith, v.core.linked x b f))
]

register-Inv :
    (x : Client) (id : String) (s : Server)
    → Inv s
    → (s.heap x).phase ≡ choosing
    → Inv (set_phase x relaying (record s { router = (register_listener id x s.router).1 }))
register-Inv x id s v e =
    enter-Inv x (register_listener id x s.router).1 s v (rw e refl)
      (register_listener-IsValid id x s.router v.core.valid
        (λ i f. ground (arith, v.core.listening i x f)))
      (λ i c f ne. v.core.listening i c (register_listener_only id i x c s.router f ne))
      (λ a b f ne. v.core.linked a b (sym (get_peer-register_listener id x a s.router) ∙ f))

link-Inv :
    (x : Client) (id : String) (s : Server)
    → Inv s
    → (s.heap x).phase ≡ choosing
    → Inv (set_phase x relaying (record s { router = (link_connector id x s.router).1 }))
link-Inv x id s v e =
    enter-Inv x (link_connector id x s.router).1 s v (rw e refl)
      (link_connector-IsValid id x s.router v.core.valid (unlinked x s v e))
      (λ i c f ne. v.core.listening i c (sym (find_listener-link_connector id i x s.router) ∙ f))
      (λ a b f ne. elim (link_connector_only id x a b s.router f ne) [
        | inl g ↦ v.core.listening id a g
        | inr g ↦ v.core.linked a b g
      ])

-- A refusal leaves the router as it was, logs, answers and closes.
turn_away-Inv :
    (x : Client) (id : String) (answer : Envelope) (r : Router) (s : Server)
    → Inv s
    → (s.heap x).phase ≡ choosing
    → r ≡ s.router
    → Inv (refuse x answer (log_invalid_connection_id x id (record s { router = r })))
unfolding log_invalid_connection_id
turn_away-Inv x id answer r s v e same = rw same (
    let logged = log_invalid_connection_id x id s in
    let w = warn-Same (invalid_connection_id id (s.heap x).remote) s in
    refuse-Inv x answer logged (Same-Inv s _ w v) (λ g. ground (arith, w.phase x)))

pub handle_listener-Inv :
    (x : Client) (id : String) (s : Server)
    → Inv s
    → (s.heap x).phase ≡ choosing
    → Inv (handle_listener x id s)
unfolding handle_listener
handle_listener-Inv x id s0 v0 e0 =
    let s = set_connection_id x id s0 in
    let same = set_connection_id-Same x id s0 in
    let v = Same-Inv s0 s same v0 in
    let e : (s.heap x).phase ≡ choosing = same.phase x ∙ e0 in
    elim (Result-cases (register_listener id x s.router).0) [
      | inl (u, f) ↦ rw (f, handle_listener) (welcome-Inv x _ _ s (register-Inv x id s v e))
      | inr (r, f) ↦
          rw (f, handle_listener)
            (turn_away-Inv x id _ _ s v e (register_refused id x s.router r f))
    ]

pub handle_connector-Inv :
    (x : Client) (id : String) (s : Server)
    → Inv s
    → (s.heap x).phase ≡ choosing
    → Inv (handle_connector x id s)
unfolding handle_connector
handle_connector-Inv x id s0 v0 e0 =
    let s = set_connection_id x id s0 in
    let same = set_connection_id-Same x id s0 in
    let v = Same-Inv s0 s same v0 in
    let e : (s.heap x).phase ≡ choosing = same.phase x ∙ e0 in
    elim (Result-cases (link_connector id x s.router).0) [
      | inl (u, f) ↦ rw (f, handle_connector) (welcome-Inv x _ _ s (link-Inv x id s v e))
      | inr (r, f) ↦
          rw (f, handle_connector) (turn_away-Inv x id _ _ s v e (link_refused id x s.router r f))
    ]

-- ===== src/Broker/Server/Events/Runs.antt =====
-- Every event keeps the invariant, so that it holds in whatever order the handlers run.
use Prim.Native.String.{String}
use go_connect.Base.{
  ℕ, ◌-◌, ◌≡◌, refl, sym, ◌∙◌, Bool, true, Option, none, some, if◌then◌else◌, string_key, nat_key,
  arith, Bool-cases, Option-cases, inl, inr, List, [], ◌∷◌, Result-cases, ltb,
}
use go_connect.Bytes.{Bytes}
use go_connect.Pb.{Envelope, get_register, get_connect_request, get_heartbeat}
use go_connect.Broker.Router.{Client, get_peer}
use go_connect.Broker.Router.Laws.{find_listener-new_router, get_peer-new_router}
use go_connect.Broker.Router.Invariant.{new_router-IsValid}
use go_connect.Broker.State.{
  Server, Phase, shaking, authenticating, choosing, relaying, gone, notify, send_to,
  update_last_seen,
}
use go_connect.Broker.Server.{
  handle_first, relay_message, heartbeat_tick, heartbeat_timeout, new_server,
}
use go_connect.Broker.Server.Events.Core.{
  Core, Same, Same-Inv, notify-Same, close-Core, phase-close, close-EarlyBut, active_zero, Inv,
  leave-close-Inv,
}
use go_connect.Broker.Server.Events.{
  same_phase, is_at, Event, arrives, shakes, authenticates, begins, relays, ticks, breaks, step,
  run,
}
use go_connect.Broker.Server.Events.Steps.{adjust-Same, accept-Inv}
use go_connect.Broker.Server.Events.Handlers.{
  handle_handshake-Inv, handle_auth-Inv, refuse-Inv, handle_listener-Inv, handle_connector-Inv,
}

update_last_seen-Same : (x : Client) (now : ℕ) (s : Server) → Same s (update_last_seen x now s)
unfolding update_last_seen
update_last_seen-Same x now s = adjust-Same x _ s refl refl

send_to-Same : (x : Client) (env : Envelope) (s : Server) → Same s (send_to x env s).1
unfolding notify
send_to-Same x env s = notify-Same x env s

handle_first-Inv :
    (x : Client) (env : Option Envelope) (now : ℕ) (s : Server)
    → Inv s
    → (s.heap x).phase ≡ choosing
    → Inv (handle_first x env now s)
unfolding handle_first
handle_first-Inv x none now s v e = leave-close-Inv x s v (λ g. ground arith)
handle_first-Inv x (some env) now s0 v0 e0 =
    let s = update_last_seen x now s0 in
    let same = update_last_seen-Same x now s0 in
    let v = Same-Inv s0 s same v0 in
    let e : (s.heap x).phase ≡ choosing = same.phase x ∙ e0 in
    elim (Option-cases (get_register env)) [
      | inr (m, f) ↦ rw (f, handle_first) (handle_listener-Inv x m.connection_id s v e)
      | inl f ↦ elim (Option-cases (get_connect_request env)) [
        | inr (m, g) ↦ rw (f, handle_first) (rw g (handle_connector-Inv x m.connection_id s v e))
        | inl g ↦ rw (f, handle_first) (rw g (refuse-Inv x _ s v (λ h. ground arith)))
      ]
    ]

relay_message-Inv :
    (x : Client) (env : Option Envelope) (now : ℕ) (s : Server)
    → Inv s
    → (s.heap x).phase ≡ relaying
    → Inv (relay_message x env now s)
unfolding relay_message
relay_message-Inv x none now s v e = leave-close-Inv x s v (λ g. ground arith)
relay_message-Inv x (some env) now s0 v0 e0 =
    let s = update_last_seen x now s0 in
    let same = update_last_seen-Same x now s0 in
    let v = Same-Inv s0 s same v0 in
    let e : (s.heap x).phase ≡ relaying = same.phase x ∙ e0 in
    elim (Option-cases (get_heartbeat env)) [
      | inr (m, f) ↦ rw (f, relay_message) v
      | inl f ↦ elim (Option-cases (get_peer x s.router)) [
        | inl g ↦ rw (f, relay_message) (rw g (leave-close-Inv x s v (λ h. ground arith)))
        | inr (peer, g) ↦
            let sent = send_to-Same peer env s in
            let w = Same-Inv s _ sent v in
            elim (Result-cases (send_to peer env s).0) [
              | inl (u, h) ↦ rw (f, relay_message) (rw g (rw h w))
              | inr (r, h) ↦
                  rw (f, relay_message)
                    (rw g (rw h (leave-close-Inv x _ w (λ k. ground (arith, sent.phase x)))))
            ]
      ]
    ]

heartbeat_tick-Inv :
    (x : Client) (now : ℕ) (s : Server)
    → Inv s
    → (s.heap x).phase ≡ relaying
    → Inv (heartbeat_tick x now s)
unfolding heartbeat_tick
heartbeat_tick-Inv x now s v e = elim (Bool-cases (s.heap x).done) [
  | inl d ↦ rw (d, heartbeat_tick) v
  | inr d ↦ elim (Bool-cases (ltb heartbeat_timeout (now - (s.heap x).last_seen))) [
    | inl l ↦
        rw (d, heartbeat_tick)
          (rw l (record {
            core = close-Core x s v.core;
            early = λ y p.
                ground (arith, phase-close x y s, close-EarlyBut x s v.core (λ z _. v.early z) y);
          }))
    | inr l ↦ rw (d, heartbeat_tick) (rw l (Same-Inv s _ (notify-Same x _ s) v))
  ]
]

same_phase-eq : (p q : Phase) → same_phase p q ≡ true → p ≡ q
same_phase-eq shaking shaking e = refl
same_phase-eq authenticating authenticating e = refl
same_phase-eq choosing choosing e = refl
same_phase-eq relaying relaying e = refl
same_phase-eq gone gone e = refl
same_phase-eq _ _ e = absurd (ground arith)

at-Inv :
    (p : Phase) (x : Client) (s t : Server)
    → Inv s
    → ((s.heap x).phase ≡ p → Inv t)
    → Inv (if is_at p x s then t else s)
at-Inv p x s t v h = elim (Bool-cases (is_at p x s)) [
  | inl e ↦ rw e (h (sym (same_phase-eq p (s.heap x).phase e)))
  | inr e ↦ rw e v
]

-- Every event keeps the invariant.
step-Inv : (e : Event) (s : Server) → Inv s → Inv (step e s)
unfolding step
step-Inv (arrives remote host) s v = accept-Inv remote host s v
step-Inv (shakes x good now) s v = at-Inv shaking x s _ v (handle_handshake-Inv x good now s v)
step-Inv (authenticates x input) s v = at-Inv authenticating x s _ v (handle_auth-Inv x input s v)
step-Inv (begins x env now) s v = at-Inv choosing x s _ v (handle_first-Inv x env now s v)
step-Inv (relays x env now) s v = at-Inv relaying x s _ v (relay_message-Inv x env now s v)
step-Inv (ticks x now) s v = at-Inv relaying x s _ v (heartbeat_tick-Inv x now s v)
step-Inv (breaks x) s v = Same-Inv s _ (adjust-Same x _ s refl refl) v

pub run-Inv : (es : List Event) (s : Server) → Inv s → Inv (run es s)
unfolding run
run-Inv [] s v = v
run-Inv (e ∷ es) s v = step-Inv e (run es s) (run-Inv es s v)

pub new_server-Inv :
    (sha256 : Bytes → Bytes) (passphrase : Option Bytes) (logger : Bool)
    (ip : Option (String → Option ℕ)) (geo : Option (String → Option String))
    → Inv (new_server sha256 passphrase logger ip geo)
unfolding new_server
new_server-Inv sha256 passphrase logger ip geo = record {
  core = record {
    valid = new_router-IsValid;
    listening = λ i c f. absurd (cc (f, find_listener-new_router i));
    linked = λ a b f. absurd (cc (f, get_peer-new_router a));
    fresh = λ x l. refl;
    counted = sym (active_zero _);
    bounded = omega arith;
  };
  early = λ y p. absurd (ground arith);
}

-- Whatever a server has been through since it was new, its links go both ways, no client is listed
-- under two IDs and no ID twice, who is listed or linked is in its relay loop and not closed, numbers
-- not yet given out have no handler, and the slots taken are as many as the handlers that run, at
-- most `default_max_connections`.
pub run-Core :
    (es : List Event) (sha256 : Bytes → Bytes) (passphrase : Option Bytes) (logger : Bool)
    (ip : Option (String → Option ℕ)) (geo : Option (String → Option String))
    → Core (run es (new_server sha256 passphrase logger ip geo))
run-Core es sha256 passphrase logger ip geo =
    (run-Inv es _ (new_server-Inv sha256 passphrase logger ip geo)).core

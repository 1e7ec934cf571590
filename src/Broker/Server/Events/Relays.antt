-- ===== src/Broker/Server/Events/Relays.antt =====
-- A conversation of two linked clients through `relayMessages` of pkg/broker/server.go, in any
-- order of turns.
use go_connect.Base.{
  ℕ, ◌≡◌, ◌≢◌, ◌∙◌, sym, ap, subst, refl, Bool, true, false, List, [], ◌∷◌, ◌++◌, map, Option, none,
  some, arith, if◌then◌else◌, Option-cases, inl, inr, append-nil, append_assoc,
}
use go_connect.Pb.{Envelope, get_heartbeat}
use go_connect.Broker.Router.{Client, get_peer}
use go_connect.Broker.State.{Server, relaying, send_to, update_last_seen}
use go_connect.Broker.Server.{relay_message}
use go_connect.Broker.Server.Events.{Event, relays, same_phase, step, run}

-- What one of the two sends, and when.
pub data Turn : Type 0 where
  by_first by_second : Envelope → ℕ → Turn

unfoldable pub event_of : Client → Client → Turn → Event
event_of x y (by_first env now) = relays x (some env) now
event_of x y (by_second env now) = relays y (some env) now

-- Heartbeats are for the broker.
unfoldable pub passed_on : Envelope → List Envelope
passed_on env = elim (get_heartbeat env) [ some _ ↦ [] | none ↦ env ∷ [] ]

-- What one of the two has sent that is for the other, the oldest first; the turns are the latest
-- first.
unfoldable pub said : Bool → List Turn → List Envelope
said first [] = []
said true (by_first env now ∷ ts) = said true ts ++ passed_on env
said false (by_first env now ∷ ts) = said false ts
said true (by_second env now ∷ ts) = said true ts
said false (by_second env now ∷ ts) = said false ts ++ passed_on env

-- The handler of `x` is in its loop, and what is sent to `x` gets there.
abbrev pub IsReady : Client → Server → Type 0
IsReady x s =
    ((s.heap x).phase ≡ relaying) × ((s.heap x).conn_open ≡ true) × ((s.heap x).broken ≡ false)

abbrev Goes : Client → Client → Envelope → ℕ → Server → Server → Type 0
Goes x y env now s t =
    (t.router ≡ s.router)
    × (t.heap x ≡ record (s.heap x) { last_seen = now })
    × (t.heap y ≡ record (s.heap y) { outbox = (s.heap y).outbox ++ passed_on env })

relay_message-Goes :
    (x y : Client) (env : Envelope) (now : ℕ) (s : Server)
    → x ≢ y
    → get_peer x s.router ≡ some y
    → IsReady y s
    → Goes x y env now s (relay_message x (some env) now s)
unfolding relay_message update_last_seen send_to passed_on
relay_message-Goes x y env now s ne linked ready = elim (Option-cases (get_heartbeat env)) [
  | inr (m, e) ↦ (ground arith, ground arith, ground (arith, append-nil (s.heap y).outbox))
  | inl e ↦ (ground arith, ground arith, ground arith)
]

-- Each is the other's peer, and both are ready.
abbrev pub IsLinked : Client → Client → Server → Type 0
IsLinked x y s =
    (get_peer x s.router ≡ some y) × (get_peer y s.router ≡ some x) × IsReady x s × IsReady y s

step_relays :
    (x : Client) (env : Option Envelope) (now : ℕ) (s : Server)
    → (s.heap x).phase ≡ relaying
    → step (relays x env now) s ≡ relay_message x env now s
unfolding step
step_relays x env now s e =
    ap (λ p. if same_phase relaying p then relay_message x env now s else s) e

-- A turn of `x`.
step-Goes :
    (x y : Client) (env : Envelope) (now : ℕ) (s : Server)
    → x ≢ y
    → IsLinked x y s
    → Goes x y env now s (step (relays x (some env) now) s)
step-Goes x y env now s ne (linked, _, ready, there) =
    subst (Goes x y env now s) (sym (step_relays x (some env) now s ready.0))
      (relay_message-Goes x y env now s ne linked there)

Goes-IsLinked :
    (x y : Client) (env : Envelope) (now : ℕ) (s t : Server)
    → Goes x y env now s t
    → IsLinked x y s
    → IsLinked x y t × ((t.heap x).outbox ≡ (s.heap x).outbox)
Goes-IsLinked x y env now s t (r, a, b) (p, q, (f, g, h), (f', g', h')) = (
  (
    ap (get_peer x) r ∙ p,
    ap (get_peer y) r ∙ q,
    (ap (λ c. c.phase) a ∙ f, ap (λ c. c.conn_open) a ∙ g, ap (λ c. c.broken) a ∙ h),
    (ap (λ c. c.phase) b ∙ f', ap (λ c. c.conn_open) b ∙ g', ap (λ c. c.broken) b ∙ h'),
  ),
  ap (λ c. c.outbox) a,
)

IsLinked-swap : (x y : Client) (s : Server) → IsLinked x y s → IsLinked y x s
IsLinked-swap x y s (p, q, ready, there) = (q, p, there, ready)

-- After any number of turns of two linked clients that are ready, in any order, each has been sent
-- exactly what the other had to say, in its order and unchanged, heartbeats left out, after what was
-- sent to it before; the two are still linked and ready, and the router is as it was.
pub run-said :
    (x y : Client) (ts : List Turn) (s : Server)
    → x ≢ y
    → IsLinked x y s
    → IsLinked x y (run (map (event_of x y) ts) s)
      × ((run (map (event_of x y) ts) s).router ≡ s.router)
      × (((run (map (event_of x y) ts) s).heap y).outbox ≡ (s.heap y).outbox ++ said true ts)
      × (((run (map (event_of x y) ts) s).heap x).outbox ≡ (s.heap x).outbox ++ said false ts)
unfolding run said event_of
run-said x y [] s ne l =
    (l, refl, sym (append-nil (s.heap y).outbox), sym (append-nil (s.heap x).outbox))
run-said x y (by_first env now ∷ ts) s ne l =
    let t = run (map (event_of x y) ts) s in
    let (l', r, a, b) = run-said x y ts s ne l in
    let goes = step-Goes x y env now t ne l' in
    let (l'', same) = Goes-IsLinked x y env now t (step (relays x (some env) now) t) goes l' in
    (
      l'',
      goes.0 ∙ r,
      ap (λ c. c.outbox) goes.2
          ∙ ap (λ o. o ++ passed_on env) a
          ∙ append_assoc (s.heap y).outbox (said true ts) (passed_on env),
      same ∙ b,
    )
run-said x y (by_second env now ∷ ts) s ne l =
    let t = run (map (event_of x y) ts) s in
    let (l', r, a, b) = run-said x y ts s ne l in
    let k = IsLinked-swap x y t l' in
    let goes = step-Goes y x env now t (λ e. ne (sym e)) k in
    let (l'', same) = Goes-IsLinked y x env now t (step (relays y (some env) now) t) goes k in
    (
      IsLinked-swap y x (step (relays y (some env) now) t) l'',
      goes.0 ∙ r,
      same ∙ a,
      ap (λ c. c.outbox) goes.2
          ∙ ap (λ o. o ++ passed_on env) b
          ∙ append_assoc (s.heap x).outbox (said false ts) (passed_on env),
    )

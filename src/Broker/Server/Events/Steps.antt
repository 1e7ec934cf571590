-- ===== src/Broker/Server/Events/Steps.antt =====
-- What the handlers are made of keeps the invariant: arrivals, moves to the next read, and changes
-- that it does not see.
use Prim.Native.String.{String}
use go_connect.Base.{
  ◌<◌, ◌≡◌, ◌≢◌, refl, true, false, Option, some, arith, Bool-cases, Option-cases, inl, inr, ltb,
  ◌⊎◌,
}
use go_connect.Broker.Router.{Client, Router, find_listener, get_peer}
use go_connect.Broker.Router.Invariant.{IsValid}
use go_connect.Broker.State.{
  Server, ClientConn, LogEntry, Phase, shaking, authenticating, choosing, relaying, gone,
  set_client, set_phase, warn, blocked_ip, geo_blocked_ip,
}
use go_connect.Broker.Server.{accept, admit, ask, default_max_connections}
use go_connect.Broker.Server.Events.Core.{
  busy, active-update, active-update_above, active_next, Same, Same-Inv, Inv, is_early,
}

-- A new state for one client, of the same phase and as little done.
pub adjust-Same :
    (x : Client) (c : ClientConn) (s : Server)
    → c.phase ≡ (s.heap x).phase
    → c.done ≡ (s.heap x).done
    → Same s (set_client x c s)
adjust-Same x c s p d = record {
  router = refl;
  phase = λ y. ground arith;
  done = λ y. ground arith;
  next = refl;
  slots = refl;
}

pub warn-Same : (entry : LogEntry) (s : Server) → Same s (warn entry s)
unfolding warn
warn-Same entry s = record {
  router = ground arith;
  phase = λ y. ground arith;
  done = λ y. ground arith;
  next = ground arith;
  slots = ground arith;
}

admit-Inv :
    (remote : String) (s : Server)
    → Inv s
    → s.slots < default_max_connections
    → Inv (admit remote s)
unfolding admit
admit-Inv remote s v room = record {
  core = record {
    valid = v.core.valid;
    listening = λ i c f. ground (arith, v.core.listening i c f, v.core.fresh c);
    linked = λ a b f. ground (arith, v.core.linked a b f, v.core.fresh a);
    fresh = λ x l. ground (arith, v.core.fresh x);
    counted = ground (
      arith,
      v.core.counted,
      active_next s.next (admit remote s).heap,
      active-update_above s.next s.next s.heap ((admit remote s).heap s.next),
    );
    bounded = omega arith;
  };
  early = λ y p. ground (arith, v.early y);
}

accept-cases :
    (remote : String) (host : Option String) (s : Server)
    → (accept remote host s ≡ s)
      ⊎ (((entry : LogEntry) × (accept remote host s ≡ warn entry s))
          ⊎ ((s.slots < default_max_connections) × (accept remote host s ≡ admit remote s)))
unfolding accept
accept-cases remote host s = elim (Bool-cases s.closing) [
  | inl e ↦ inl (ground (arith, e))
  | inr e ↦ elim (Option-cases (ask s.ip_filter host)) [
    | inr (count, f) ↦ inr (inl (blocked_ip remote count, ground (arith, e, f)))
    | inl f ↦ elim (Option-cases (ask s.geo_filter host)) [
      | inr (country, g) ↦ inr (inl (geo_blocked_ip remote country, ground (arith, e, f, g)))
      | inl g ↦ elim (Bool-cases (ltb s.slots default_max_connections)) [
        | inl h ↦ inr (inr (ground (arith, h), ground (arith, e, f, g, h)))
        | inr h ↦ inl (ground (arith, e, f, g, h))
      ]
    ]
  ]
]

pub accept-Inv :
    (remote : String) (host : Option String) (s : Server) → Inv s → Inv (accept remote host s)
accept-Inv remote host s v = elim (accept-cases remote host s) [
  | inl e ↦ rw e v
  | inr (inl (entry, e)) ↦ rw e (Same-Inv s _ (warn-Same entry s) v)
  | inr (inr (room, e)) ↦ rw e (admit-Inv remote s v room)
]

pub busy_early : (p : Phase) → is_early p ≡ true → busy p ≡ 1
busy_early gone e = absurd (ground arith)
busy_early relaying e = refl
busy_early shaking e = refl
busy_early authenticating e = refl
busy_early choosing e = refl

abbrev pub IsLive : Client → Server → Type 0
IsLive c s = ((s.heap c).phase ≡ relaying) × ((s.heap c).done ≡ false)

-- A client goes on to its next read before the relay loop.
pub advance-Inv :
    (x : Client) (p : Phase) (s : Server)
    → Inv s
    → is_early (s.heap x).phase ≡ true
    → is_early p ≡ true
    → Inv (set_phase x p s)
unfolding set_phase
advance-Inv x p s v e f = record {
  core = record {
    valid = v.core.valid;
    listening = λ i c g. ground (arith, v.core.listening i c g);
    linked = λ a b g. ground (arith, v.core.linked a b g);
    fresh = λ y l. ground (arith, v.core.fresh y l);
    counted =
        let below : x < s.next = ground (arith, v.core.fresh x) in
        omega (
          arith,
          active-update s.next x s.heap (record (s.heap x) { phase = p }) below,
          busy_early (s.heap x).phase e,
          busy_early p f,
          v.core.counted,
        );
    bounded = v.core.bounded;
  };
  early = λ y q. ground (arith, v.early y);
}

-- A client enters its relay loop with a router that knows it.
pub enter-Inv :
    (x : Client) (r : Router) (s : Server)
    → Inv s
    → is_early (s.heap x).phase ≡ true
    → IsValid r
    → ((i : String) (c : Client) → find_listener i r ≡ some c → c ≢ x → IsLive c s)
    → ((a b : Client) → get_peer a r ≡ some b → a ≢ x → IsLive a s)
    → Inv (set_phase x relaying (record s { router = r }))
unfolding set_phase
enter-Inv x r s v e valid listening linked = record {
  core = record {
    valid = valid;
    listening = λ i c g. ground (arith, listening i c g, v.early x e);
    linked = λ a b g. ground (arith, linked a b g, v.early x e);
    fresh = λ y l. ground (arith, v.core.fresh y l);
    counted =
        let below : x < s.next = ground (arith, v.core.fresh x) in
        omega (
          arith,
          active-update s.next x s.heap (record (s.heap x) { phase = relaying }) below,
          busy_early (s.heap x).phase e,
          v.core.counted,
        );
    bounded = v.core.bounded;
  };
  early = λ y q. ground (arith, v.early y);
}

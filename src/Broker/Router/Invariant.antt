-- ===== src/Broker/Router/Invariant.antt =====
-- What holds of the router between calls, and that every operation keeps it.
use Prim.Native.String.{String}
use go_connect.Base.{
  ◌≡◌, ◌≢◌, none, some, ◌==◌, if◌then◌else◌, arith, nat_key, string_key, lookup, insert,
  lookup-insert, Distinct, insert-Distinct, Option-cases, inl, inr,
}
use go_connect.Broker.Router.{
  Client, Router, new_router, find_listener, get_peer, register_listener, link_connector, remove,
}
use go_connect.Broker.Router.Laws.{get_peer-remove, find_listener-remove, remove-Distinct, without}

pub record IsValid (r : Router) : Type 0 where
  pub distinct : Distinct r.listeners
  pub symmetric : (a b : Client) → get_peer a r ≡ some b → get_peer b r ≡ some a
  pub single :
      (i j : String) (c : Client) → find_listener i r ≡ some c → find_listener j r ≡ some c → i ≡ j

pub new_router-IsValid : IsValid new_router
unfolding new_router get_peer find_listener lookup
new_router-IsValid = record { distinct = tt; symmetric = λ a b e. cc; single = λ i j c e f. cc }

registered :
    (id : String) (client : Client) (r : Router)
    → IsValid r
    → ((i : String) → find_listener i r ≢ some client)
    → IsValid (record r { listeners = insert id client r.listeners })
unfolding find_listener get_peer
registered id client r v fresh = record {
  distinct = insert-Distinct id client r.listeners v.distinct;
  symmetric = v.symmetric;
  single = λ i j c p q. ground (
    arith,
    lookup-insert id i client r.listeners,
    lookup-insert id j client r.listeners,
    string_key.same_iff id i,
    string_key.same_iff id j,
    fresh i,
    fresh j,
    v.single i j c,
  );
}

-- Registering, or its refusal, keeps a valid router valid, where the client is registered under no ID
-- before.
pub register_listener-IsValid :
    (id : String) (client : Client) (r : Router)
    → IsValid r
    → ((i : String) → find_listener i r ≢ some client)
    → IsValid (register_listener id client r).1
unfolding register_listener
register_listener-IsValid id client r v fresh = elim (Option-cases (lookup id r.listeners)) [
  | inr (other, e) ↦ rw (e, register_listener) v
  | inl e ↦ rw (e, register_listener) (registered id client r v fresh)
]

linked :
    (connector listener : Client) (r : Router)
    → IsValid r
    → get_peer connector r ≡ none
    → get_peer listener r ≡ none
    → IsValid (record r { peers = insert connector listener (insert listener connector r.peers) })
unfolding find_listener get_peer
linked connector listener r v alone free = record {
  distinct = v.distinct;
  symmetric = λ a b e. ground (
    arith,
    lookup-insert connector a listener (insert listener connector r.peers),
    lookup-insert listener a connector r.peers,
    lookup-insert connector b listener (insert listener connector r.peers),
    lookup-insert listener b connector r.peers,
    v.symmetric a b,
  );
  single = v.single;
}

-- Linking, or its refusal, keeps a valid router valid, where the connector has no peer before.
pub link_connector-IsValid :
    (id : String) (connector : Client) (r : Router)
    → IsValid r
    → get_peer connector r ≡ none
    → IsValid (link_connector id connector r).1
unfolding get_peer link_connector
link_connector-IsValid id connector r v alone = elim (Option-cases (lookup id r.listeners)) [
  | inl e ↦ rw (e, link_connector) v
  | inr (listener, e) ↦ elim (Option-cases (lookup listener r.peers)) [
    | inl f ↦
        rw (e, link_connector) (rw (f, link_connector) (linked connector listener r v alone f))
    | inr (other, f) ↦ rw (e, link_connector) (rw (f, link_connector) v)
  ]
]

pub remove-IsValid : (client : Client) (r : Router) → IsValid r → IsValid (remove client r)
remove-IsValid client r v = record {
  distinct = remove-Distinct client r v.distinct;
  symmetric = λ a b e. ground (
    arith,
    get_peer-remove client a r,
    get_peer-remove client b r,
    v.symmetric a b,
    v.symmetric client a,
    v.symmetric client b,
  );
  single = λ i j c e f. ground (
    arith,
    find_listener-remove client i r v.distinct v.single,
    find_listener-remove client j r v.distinct v.single,
    v.single i j c,
  );
}

-- Removing a client from a valid router takes out exactly the IDs and the links that name it, at
-- either end, and leaves all others as they were.
pub remove_exactly :
    (client x : Client) (i : String) (r : Router)
    → IsValid r
    → (find_listener i (remove client r) ≡ without client (find_listener i r))
      × (get_peer x (remove client r)
          ≡ (if x == client then none else without client (get_peer x r)))
remove_exactly client x i r v = (
  find_listener-remove client i r v.distinct v.single,
  ground (arith, get_peer-remove client x r, v.symmetric x client, v.symmetric client x),
)

-- ===== src/Broker/Router/Laws.antt =====
-- What each operation makes of the two maps, read through `find_listener` and `get_peer`.
use Prim.Native.String.{String}
use go_connect.Base.{
  ◌≡◌, ◌≢◌, refl, Option, none, some, err, ◌==◌, if◌then◌else◌, arith, nat_key, string_key, lookup,
  insert, delete, key_of, lookup-insert, lookup-delete, key_of-lookup, key_of-none, Distinct,
  delete-Distinct, Option-cases, Bool-cases, ◌⊎◌, inl, inr,
}
use go_connect.Broker.Router.{
  Client, Router, RouterError, already_registered, new_router, find_listener, get_peer,
  register_listener, link_connector, remove_listener, remove,
}

pub find_listener-new_router : (i : String) → find_listener i new_router ≡ none
unfolding find_listener new_router lookup
find_listener-new_router i = refl

pub get_peer-new_router : (x : Client) → get_peer x new_router ≡ none
unfolding get_peer new_router lookup
get_peer-new_router x = refl

pub get_peer-link_connector :
    (id : String) (connector listener x : Client) (r : Router)
    → find_listener id r ≡ some listener
    → get_peer listener r ≡ none
    → get_peer x (link_connector id connector r).1 ≡ (
        if connector == x
        then some listener
        else (if listener == x then some connector else get_peer x r))
unfolding get_peer find_listener link_connector
get_peer-link_connector id connector listener x r f n = ground (
  arith,
  lookup-insert connector x listener (insert listener connector r.peers),
  lookup-insert listener x connector r.peers,
)

pub find_listener-register_listener :
    (id other : String) (client : Client) (r : Router)
    → find_listener id r ≡ none
    → find_listener other (register_listener id client r).1
      ≡ (if string_key.same id other then some client else find_listener other r)
unfolding find_listener register_listener
find_listener-register_listener id other client r n =
    ground (arith, lookup-insert id other client r.listeners)

pub get_peer-remove :
    (client x : Client) (r : Router)
    → get_peer x (remove client r) ≡ elim (get_peer client r) [
      | none ↦ get_peer x r
      | some peer ↦ if client == x then none else (if peer == x then none else get_peer x r)
    ]
unfolding get_peer remove
get_peer-remove client x r = elim (Option-cases (lookup client r.peers)) [
  | inl e ↦ ground (arith, e)
  | inr (peer, e) ↦
      ground (arith, e, lookup-delete client x (delete peer r.peers), lookup-delete peer x r.peers)
]

-- No two IDs belong to one client.
abbrev pub IsSingle : Router → Type 0
IsSingle r =
    (i j : String) (c : Client) → find_listener i r ≡ some c → find_listener j r ≡ some c → i ≡ j

abbrev pub without : Client → Option Client → Option Client
without client none = none
without client (some c) = if c == client then none else some c

pub find_listener-remove :
    (client : Client) (i : String) (r : Router)
    → Distinct r.listeners
    → IsSingle r
    → find_listener i (remove client r) ≡ without client (find_listener i r)
unfolding find_listener remove
find_listener-remove client i r d single = elim (Option-cases (key_of client r.listeners)) [
  | inl e ↦ ground (arith, e, key_of-none client i r.listeners)
  | inr (a, e) ↦ ground (
    arith,
    e,
    key_of-lookup client a r.listeners d,
    lookup-delete a i r.listeners,
    string_key.same_iff a i,
    single a i client,
  )
]

pub remove-Distinct :
    (client : Client) (r : Router) → Distinct r.listeners → Distinct (remove client r).listeners
unfolding remove
remove-Distinct client r d = elim (Option-cases (key_of client r.listeners)) [
  | inl e ↦ rw (e, remove_listener) d
  | inr (a, e) ↦ rw (e, remove_listener) (delete-Distinct a r.listeners d)
]

-- Registering lists the new client alone.
pub register_listener_only :
    (id i : String) (client c : Client) (r : Router)
    → find_listener i (register_listener id client r).1 ≡ some c
    → c ≢ client
    → find_listener i r ≡ some c
unfolding find_listener register_listener
register_listener_only id i client c r f ne = elim (Option-cases (lookup id r.listeners)) [
  | inl e ↦ ground (arith, e, lookup-insert id i client r.listeners)
  | inr (other, e) ↦ ground (arith, e)
]

pub get_peer-register_listener :
    (id : String) (client a : Client) (r : Router)
    → get_peer a (register_listener id client r).1 ≡ get_peer a r
unfolding get_peer register_listener
get_peer-register_listener id client a r = elim (Option-cases (lookup id r.listeners)) [
  | inl e ↦ ground (arith, e)
  | inr (other, e) ↦ ground (arith, e)
]

pub find_listener-link_connector :
    (id i : String) (connector : Client) (r : Router)
    → find_listener i (link_connector id connector r).1 ≡ find_listener i r
unfolding find_listener link_connector
find_listener-link_connector id i connector r = elim (Option-cases (lookup id r.listeners)) [
  | inl e ↦ ground (arith, e)
  | inr (listener, e) ↦ elim (Option-cases (lookup listener r.peers)) [
    | inl f ↦ ground (arith, e, f)
    | inr (other, f) ↦ ground (arith, e, f)
  ]
]

-- Who has a peer after linking is the connector, the listener, or had one before.
pub link_connector_only :
    (id : String) (connector a b : Client) (r : Router)
    → get_peer a (link_connector id connector r).1 ≡ some b
    → a ≢ connector
    → (find_listener id r ≡ some a) ⊎ (get_peer a r ≡ some b)
unfolding find_listener get_peer link_connector
link_connector_only id connector a b r g ne = elim (Option-cases (lookup id r.listeners)) [
  | inl e ↦ inr (ground (arith, e))
  | inr (listener, e) ↦ elim (Option-cases (lookup listener r.peers)) [
    | inr (other, f) ↦ inr (ground (arith, e, f))
    | inl f ↦
        let law = get_peer-link_connector id connector listener a r e f in
        elim (Bool-cases (listener == a)) [
          | inl h ↦ inl (ground arith)
          | inr h ↦ inr (ground arith)
        ]
  ]
]

-- What is refused changes nothing.
pub register_refused :
    (id : String) (x : Client) (r : Router) (e : RouterError)
    → (register_listener id x r).0 ≡ err e
    → (register_listener id x r).1 ≡ r
unfolding register_listener
register_refused id x r e f = elim (Option-cases (lookup id r.listeners)) [
  | inl g ↦ ground (arith, g)
  | inr (other, g) ↦ ground (arith, g)
]

pub link_refused :
    (id : String) (x : Client) (r : Router) (e : RouterError)
    → (link_connector id x r).0 ≡ err e
    → (link_connector id x r).1 ≡ r
unfolding link_connector
link_refused id x r e f = elim (Option-cases (lookup id r.listeners)) [
  | inl g ↦ ground (arith, g)
  | inr (listener, g) ↦ elim (Option-cases (lookup listener r.peers)) [
    | inl h ↦ ground (arith, g, h)
    | inr (other, h) ↦ ground (arith, g, h)
  ]
]

pub register_listener_taken :
    (id : String) (other client : Client) (r : Router)
    → find_listener id r ≡ some other
    → register_listener id client r ≡ (err already_registered, r)
unfolding find_listener register_listener
register_listener_taken id other client r e = ground (arith, e)

-- ===== src/Broker/Router.antt =====
-- Registrations and peers: pkg/broker/router.go. A `*ClientConn` is a number.
pub mod Laws
pub mod Invariant
mod Tests
use Prim.Native.String.{String}
use go_connect.Base.{
  ℕ, [], Option, none, some, Result, ok, err, M, Dict, Key, nat_key, string_key, lookup, insert,
  delete, key_of,
}

abbrev pub Client : Type 0
Client = ℕ

pub record Router : Type 0 where
  pub listeners : Dict String Client
  pub peers : Dict Client Client

pub data RouterError : Type 0 where
  already_registered no_listener already_linked : RouterError

unfoldable pub new_router : Router
new_router = record { listeners = []; peers = [] }

unfoldable pub find_listener : String → Router → Option Client
find_listener connection_id r = lookup connection_id r.listeners

unfoldable pub get_peer : Client → Router → Option Client
get_peer client r = lookup client r.peers

unfoldable pub register_listener : String → Client → M Router RouterError (Unit {0})
unfolding find_listener
register_listener connection_id client r = elim (lookup connection_id r.listeners) [
  | some other ↦ (err already_registered, r)
  | none ↦ (ok tt, record r { listeners = insert connection_id client r.listeners })
]

unfoldable pub link_connector : String → Client → M Router RouterError (Unit {0})
unfolding get_peer
link_connector connection_id connector r = elim (lookup connection_id r.listeners) [
  | none ↦ (err no_listener, r)
  | some listener ↦ elim (lookup listener r.peers) [
    | some other ↦ (err already_linked, r)
    | none ↦
        (ok tt, record r { peers = insert connector listener (insert listener connector r.peers) })
  ]
]

-- The `range` over the listeners stops at the first one found; in which order it runs is left open
-- by Go, and here it is that of the list.
remove_listener : Client → Dict String Client → Dict String Client
remove_listener client d = elim (key_of client d) [
  | none ↦ d
  | some connection_id ↦ delete connection_id d
]

remove_peers : Client → Dict Client Client → Dict Client Client
remove_peers client d = elim (lookup client d) [
  | none ↦ d
  | some peer ↦ delete client (delete peer d)
]

pub remove : Client → Router → Router
unfolding remove_listener remove_peers
remove client r = record {
  listeners = remove_listener client r.listeners;
  peers = remove_peers client r.peers;
}

-- ===== src/Broker/Close.antt =====
-- `ClientConn.Close` of pkg/broker/client_conn.go, which closes the peer too.
pub mod Ends
pub mod Kept
mod Tests
use go_connect.Base.{ℕ, zero, suc, Bool, true, false, Option, none, some, if◌then◌else◌}
use go_connect.Pb.{Envelope, disconnect, carrying}
use go_connect.Broker.Router.{Client, get_peer, remove}
use go_connect.Broker.State.{Server, ClientConn, set_client, notify}

abbrev pub peer_disconnected : Envelope
peer_disconnected = carrying (disconnect (record { reason = "peer disconnected" }))

-- The body under `closeOnce`: what the first call does before it turns to the peer.
unfoldable pub shut : Client → Server → Server
shut x s = record (set_client x (record (s.heap x) { done = true; conn_open = false }) s) {
  router = remove x s.router;
}

-- A call within calls, `depth` at most.
pub close_within : ℕ → Client → Server → Server
unfolding shut
close_within zero x s = s
close_within (suc depth) x s = elim ((s.heap x).done) [
  | true ↦ s
  | false ↦ elim (get_peer x s.router) [
    | none ↦ shut x s
    | some peer ↦ close_within depth peer (notify peer peer_disconnected (shut x s))
  ]
]

-- A call and the one that it makes for the peer.
pub close : Client → Server → Server
unfolding close_within
close x s = close_within 2 x s

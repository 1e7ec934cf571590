-- ===== src/Broker/Close/Kept.antt =====
-- Closing a client leaves the filters of the server as they are.
use Prim.Native.String.{String}
use go_connect.Base.{
  ℕ, zero, suc, ◌≡◌, ◌∙◌, refl, Option, arith, Bool-cases, Option-cases, inl, inr,
}
use go_connect.Broker.Router.{Client, get_peer}
use go_connect.Broker.State.{Server, notify, send_to}
use go_connect.Broker.Close.{close, close_within, shut, peer_disconnected}

abbrev pub filters : Server → Option (String → Option ℕ) × Option (String → Option String)
filters s = (s.ip_filter, s.geo_filter)

close_within-filters : (n : ℕ) (x : Client) (s : Server) → filters (close_within n x s) ≡ filters s
unfolding close_within shut notify send_to
close_within-filters zero x s = refl
close_within-filters (suc n) x s = elim (Bool-cases ((s.heap x).done)) [
  | inl e ↦ rw (e, close_within) refl
  | inr e ↦ elim (Option-cases (get_peer x s.router)) [
    | inl f ↦ rw (e, close_within) (rw f refl)
    | inr (peer, f) ↦
        let told = notify peer peer_disconnected (shut x s) in
        let kept : filters told ≡ filters s = ground arith in
        rw (e, close_within) (rw f (close_within-filters n peer told ∙ kept))
  ]
]

pub close-filters : (x : Client) (s : Server) → filters (close x s) ≡ filters s
unfolding close
close-filters x s = close_within-filters 2 x s

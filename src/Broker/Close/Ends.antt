-- ===== src/Broker/Close/Ends.antt =====
-- `Close` ends, and what it leaves behind.
use go_connect.Base.{
  ℕ, zero, suc, ◌≡◌, ◌≢◌, refl, true, false, Option, none, some, if◌then◌else◌, arith, Bool-cases,
  Option-cases, inl, inr, ◌++◌, [], ◌∷◌,
}
use go_connect.Broker.Router.{Client, get_peer, remove}
use go_connect.Broker.Router.Laws.{get_peer-remove}
use go_connect.Broker.Router.Invariant.{IsValid, remove-IsValid}
use go_connect.Broker.State.{Server, notify, send_to}
use go_connect.Broker.Close.{peer_disconnected, shut, close_within, close}

router-notify : (x : Client) (s : Server) → (notify x peer_disconnected s).router ≡ s.router
unfolding notify
router-notify x s = ground arith

done-notify :
    (x y : Client) (s : Server) → ((notify x peer_disconnected s).heap y).done ≡ (s.heap y).done
unfolding notify
done-notify x y s = ground arith

-- The peer of a client that was shut has no peer.
get_peer-shut :
    (x peer : Client) (s : Server)
    → get_peer x s.router ≡ some peer
    → get_peer peer (notify peer peer_disconnected (shut x s)).router ≡ none
unfolding shut
get_peer-shut x peer s e =
    ground (arith, router-notify peer (shut x s), get_peer-remove x peer s.router)

-- The last call of a chain: at a client without a peer any depth serves.
close_alone :
    (depth : ℕ) (x : Client) (s : Server)
    → get_peer x s.router ≡ none
    → close_within (suc depth) x s ≡ (if (s.heap x).done then s else shut x s)
unfolding close_within
close_alone depth x s e = ground arith

close_linked :
    (depth : ℕ) (x peer : Client) (s : Server)
    → get_peer x s.router ≡ some peer
    → close_within (suc depth) x s ≡ (
        if (s.heap x).done
        then s
        else close_within depth peer (notify peer peer_disconnected (shut x s)))
unfolding close_within
close_linked depth x peer s e = ground (arith, e)

-- `Close` calls itself once at most, for the peer: no depth of calls beyond two is ever reached,
-- though links go both ways.
pub close_within-close :
    (more : ℕ) (x : Client) (s : Server) → close_within (suc (suc more)) x s ≡ close x s
unfolding close
close_within-close more x s = elim (Option-cases (get_peer x s.router)) [
  | inl e ↦ ground (arith, close_alone (suc more) x s e, close_alone 1 x s e)
  | inr (peer, e) ↦
      let t = notify peer peer_disconnected (shut x s) in
      let free = get_peer-shut x peer s e in
      ground (
        arith,
        close_linked (suc more) x peer s e,
        close_linked 1 x peer s e,
        close_alone more peer t free,
        close_alone 0 peer t free,
      )
]

-- What `Close` comes to: nothing at a client that is done; else the client is shut, and a peer is
-- sent a Disconnect and, unless it is done, shut too.
abbrev pub close_peer : Client → Option Client → Server → Server
close_peer x none s = shut x s
close_peer x (some peer) s =
    let t = notify peer peer_disconnected (shut x s) in
    if (t.heap peer).done then t else shut peer t

pub close-cases :
    (x : Client) (s : Server)
    → close x s ≡ (if (s.heap x).done then s else close_peer x (get_peer x s.router) s)
unfolding close
close-cases x s = elim (Option-cases (get_peer x s.router)) [
  | inl e ↦ ground (arith, e, close_alone 1 x s e)
  | inr (peer, e) ↦
      let t = notify peer peer_disconnected (shut x s) in
      ground (arith, e, close_linked 1 x peer s e, close_alone 0 peer t (get_peer-shut x peer s e))
]

-- What `shut` and the Disconnect keep, `Close` keeps.
module _ {ℓ} (P : Server → Type ℓ) (keep_shut : (x : Client) (s : Server) → P s → P (shut x s))
    (keep_notify : (x : Client) (s : Server) → P s → P (notify x peer_disconnected s)) where
  close_within_keeps : (depth : ℕ) (x : Client) (s : Server) → P s → P (close_within depth x s)
  unfolding close_within
  close_within_keeps zero x s p = p
  close_within_keeps (suc depth) x s p = elim (Bool-cases (s.heap x).done) [
    | inl d ↦ rw (d, close_within) p
    | inr d ↦ elim (Option-cases (get_peer x s.router)) [
      | inl e ↦ rw (d, close_within) (rw (e, close_within) (keep_shut x s p))
      | inr (peer, e) ↦
          rw (d, close_within)
            (rw (e, close_within)
              (close_within_keeps depth peer _ (keep_notify peer _ (keep_shut x s p))))
    ]
  ]

  pub close_keeps : (x : Client) (s : Server) → P s → P (close x s)
  unfolding close
  close_keeps x s p = close_within_keeps 2 x s p

-- Closing a client keeps a valid router valid.
close-IsValid : (x : Client) (s : Server) → IsValid s.router → IsValid (close x s).router
unfolding shut
close-IsValid =
    close_keeps (λ s. IsValid s.router) (λ x s v. remove-IsValid x s.router v)
      (λ x s v. rw (router-notify x s) v)

pub done-close : (x : Client) (s : Server) → ((close x s).heap x).done ≡ true
unfolding shut notify
done-close x s = elim (Option-cases (get_peer x s.router)) [
  | inl e ↦ ground (arith, close-cases x s)
  | inr (peer, e) ↦ ground (arith, close-cases x s)
]

-- A second `Close` of the same client does nothing.
close_twice : (x : Client) (s : Server) → close x (close x s) ≡ close x s
close_twice x s = rw (close-cases x (close x s)) (rw (done-close x s) refl)

-- Closing a client leaves every other client but its peer as it was.
pub close_others :
    (x y : Client) (s : Server)
    → y ≢ x
    → get_peer x s.router ≢ some y
    → (close x s).heap y ≡ s.heap y
unfolding shut notify
close_others x y s ne np = elim (Option-cases (get_peer x s.router)) [
  | inl e ↦ ground (arith, close-cases x s)
  | inr (peer, e) ↦ ground (arith, close-cases x s)
]

-- Closing a client tells its peer and closes it too: where `x` and its peer are not done and the
-- peer can be written to, a Disconnect is the last that the peer is sent, both are done with their
-- connections closed, and neither has a peer any more.
pub close_both :
    (x peer : Client) (s : Server)
    → IsValid s.router
    → peer ≢ x
    → get_peer x s.router ≡ some peer
    → (s.heap x).done ≡ false
    → (s.heap peer).done ≡ false
    → (s.heap peer).conn_open ≡ true
    → (s.heap peer).broken ≡ false
    → (close x s).heap x ≡ record (s.heap x) { done = true; conn_open = false }
      × (close x s).heap peer ≡ record (s.heap peer) {
        done = true;
        conn_open = false;
        outbox = (s.heap peer).outbox ++ (peer_disconnected ∷ []);
      }
      × get_peer x (close x s).router ≡ none
      × get_peer peer (close x s).router ≡ none
unfolding shut notify send_to
close_both x peer s v ne e d p o b = (
  ground (arith, close-cases x s),
  ground (arith, close-cases x s),
  ground (
    arith,
    close-cases x s,
    get_peer-remove x x s.router,
    get_peer-remove peer x (remove x s.router),
    get_peer-remove x peer s.router,
    v.symmetric x peer,
  ),
  ground (
    arith,
    close-cases x s,
    get_peer-remove x peer s.router,
    get_peer-remove peer peer (remove x s.router),
    v.symmetric x peer,
  ),
)

-- ===== src/Broker/Close/Tests.antt =====
-- `Close` of a client that is linked.
use go_connect.Base.{
  arith, suc, ◌≡◌, ◌≢◌, refl, none, some, true, false, [], ◌∷◌, ◌++◌, nat_key, string_key, lookup,
  insert,
}
use go_connect.Broker.Router.{get_peer, register_listener, link_connector, new_router}
use go_connect.Broker.Samples.{served, linked, linked-IsValid}
use go_connect.Broker.Close.{peer_disconnected, close, close_within}
use go_connect.Broker.Close.Ends.{close_within-close, close_both}

not_its_peer : get_peer 1 linked ≢ some 3
unfolding get_peer register_listener link_connector new_router lookup insert
not_its_peer e = absurd (ground arith)

close_within-close_example : close_within (suc (suc 5)) 1 served ≡ close 1 served
close_within-close_example = close_within-close 5 1 served

linked_one : get_peer 1 linked ≡ some 2
unfolding get_peer register_listener link_connector new_router lookup insert
linked_one = refl

close_both_example :
    (close 1 served).heap 1 ≡ record (served.heap 1) { done = true; conn_open = false }
    × (close 1 served).heap 2 ≡ record (served.heap 2) {
      done = true;
      conn_open = false;
      outbox = (served.heap 2).outbox ++ (peer_disconnected ∷ []);
    }
    × get_peer 1 (close 1 served).router ≡ none
    × get_peer 2 (close 1 served).router ≡ none
close_both_example =
    close_both 1 2 served linked-IsValid (λ e. absurd (ground arith)) linked_one refl refl refl refl

-- ===== src/Broker/Router/Tests.antt =====
-- The router with one listener, and one that is linked, with the theorems at these.
use go_connect.Base.{
  ◌≡◌, refl, none, some, if◌then◌else◌, ◌==◌, nat_key, string_key, lookup, insert, err,
}
use go_connect.Broker.Router.{
  already_linked, already_registered, new_router, find_listener, get_peer, register_listener,
  link_connector, remove,
}
use go_connect.Broker.Router.Laws.{without}
use go_connect.Broker.Samples.{linked, linked-IsValid}
use go_connect.Broker.Router.Invariant.{remove_exactly}

second_listener : register_listener "room" 3 linked ≡ (err already_registered, linked)
unfolding register_listener link_connector new_router lookup insert
second_listener = refl

second_connector : link_connector "room" 3 linked ≡ (err already_linked, linked)
unfolding register_listener link_connector new_router lookup insert
second_connector = refl

link_goes_both_ways : (get_peer 1 linked ≡ some 2) × (get_peer 2 linked ≡ some 1)
unfolding register_listener link_connector new_router get_peer lookup insert
link_goes_both_ways = (refl, refl)

remove_exactly_example :
    (find_listener "room" (remove 1 linked) ≡ without 1 (find_listener "room" linked))
    × (get_peer 2 (remove 1 linked) ≡ (if 2 == 1 then none else without 1 (get_peer 2 linked)))
remove_exactly_example = remove_exactly 1 2 "room" linked linked-IsValid

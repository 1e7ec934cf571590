-- ===== src/Broker/Server/Tests.antt =====
-- The broker at work.
use go_connect.Base.{
  false, if◌then◌else◌, ◌==◌, ◌≡◌, refl, arith, none, some, true, nat_key, string_key, lookup,
  insert, [], ◌∷◌, ◌++◌, List, map,
}
use go_connect.Pb.{get_heartbeat, heartbeat, carrying}
use go_connect.Broker.Router.{
  find_listener, get_peer, register_listener, link_connector, new_router,
}
use go_connect.Broker.Samples.{passphrase, served, linked, linked-IsValid, greeting}
use go_connect.Broker.Server.{handle_auth, received, relay_message, handle_listener, stop, accept}
use go_connect.Broker.State.{choosing, gone}
use go_connect.Broker.Server.Authentication.{proves, handle_auth-proves}
use go_connect.Broker.Server.Stopping.{is_tracked, stop_closes}
use go_connect.Broker.Server.Events.{run}
use go_connect.Broker.Server.Events.Relays.{
  Turn, by_first, by_second, event_of, passed_on, said, IsLinked, run-said,
}
use go_connect.Broker.Server.Isolation.{relay_message_others, handle_listener_taken}

peer_of_two : get_peer 2 linked ≡ some 1
unfolding get_peer register_listener link_connector new_router lookup insert
peer_of_two = refl

peer_of_three : get_peer 3 linked ≡ none
unfolding get_peer register_listener link_connector new_router lookup insert
peer_of_three = refl

room_taken : find_listener "room" linked ≡ some 1
unfolding find_listener register_listener link_connector new_router lookup insert
room_taken = refl

relay_message_others_example : (relay_message 2 (some greeting) 9 served).heap 3 ≡ served.heap 3
relay_message_others_example =
    relay_message_others 2 3 (some greeting) 9 served (λ e. absurd (ground arith))
      (λ e. absurd (ground (arith, peer_of_two)))

peer_of_one : get_peer 1 linked ≡ some 2
unfolding get_peer register_listener link_connector new_router lookup insert
peer_of_one = refl

-- Each greets the other, and one of them sends a heartbeat.
abbrev turns : List Turn
turns = by_second greeting 8 ∷ by_first (carrying heartbeat) 7 ∷ by_first greeting 6 ∷ []

run-said_example :
    IsLinked 2 1 (run (map (event_of 2 1) turns) served)
    × ((run (map (event_of 2 1) turns) served).router ≡ served.router)
    × (((run (map (event_of 2 1) turns) served).heap 1).outbox
        ≡ (served.heap 1).outbox ++ said true turns)
    × (((run (map (event_of 2 1) turns) served).heap 2).outbox
        ≡ (served.heap 2).outbox ++ said false turns)
run-said_example =
    run-said 2 1 turns served (λ e. absurd (ground arith))
      (peer_of_two, peer_of_one, (refl, refl, refl), (refl, refl, refl))

said_once : said true turns ≡ greeting ∷ []
unfolding said passed_on get_heartbeat
said_once = refl

handle_listener_taken_example :
    (find_listener "room" (handle_listener 3 "room" served).router ≡ some 1)
    × ((handle_listener 3 "room" served).heap 1 ≡ served.heap 1)
handle_listener_taken_example =
    handle_listener_taken 3 1 "room" served linked-IsValid room_taken (λ e. absurd (ground arith))
      peer_of_three

stop_closes_example :
    (((stop served).heap 2).done ≡ true)
    × (accept "192.0.2.9:4009" (some "192.0.2.9") (stop served) ≡ stop served)
unfolding is_tracked
stop_closes_example = stop_closes 2 "192.0.2.9:4009" (some "192.0.2.9") served refl

-- The passphrase of another server.
handle_auth-proves_example :
    ((handle_auth 3 (received [] passphrase) served).heap 3 ≡ (
      if 3 == 3
      then (if proves (7 ∷ []) (received [] passphrase)
          then record (served.heap 3) { phase = choosing }
          else record (served.heap 3) { phase = gone; conn_open = false })
      else served.heap 3))
    × ((handle_auth 3 (received [] passphrase) served).router ≡ served.router)
handle_auth-proves_example = handle_auth-proves 3 3 (received [] passphrase) served

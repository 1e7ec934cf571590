-- ===== src/Broker/Server/Events/Tests.antt =====
-- Two clients come, are let in, linked, and one sends a message.
use go_connect.Base.{
  ◌≡◌, refl, none, some, true, nat_key, string_key, lookup, insert, delete, [], ◌∷◌,
}
use go_connect.Bytes.{bytes_eq}
use go_connect.Pb.{get_heartbeat, get_register, get_connect_request, get_authenticate}
use go_connect.Broker.Router.{get_peer, register_listener, link_connector, new_router}
use go_connect.Broker.State.{send_to, notify, set_connection_id, update_last_seen, set_phase}
use go_connect.Broker.Samples.{greeting, evening, toy_hash}
use go_connect.Broker.Server.{
  new_server, or_empty, accept, admit, ask, track_client, handle_handshake, authenticate_client,
  handle_auth, handle_first, handle_listener, handle_connector, welcome, relay_message, registered,
}
use go_connect.Broker.Server.Events.{run, step}
use go_connect.Broker.Server.Events.Core.{Core}
use go_connect.Broker.Server.Events.Runs.{run-Core}

run-Core_example : Core (run evening (new_server toy_hash (some (3 ∷ [])) true none none))
run-Core_example = run-Core evening toy_hash (some (3 ∷ [])) true none none

evening_goes_well :
    ((run evening (new_server toy_hash (some (3 ∷ [])) true none none)).heap 0).outbox
    ≡ registered ∷ greeting ∷ []
unfolding run step new_server or_empty accept admit ask track_client handle_handshake
    authenticate_client handle_auth handle_first handle_listener handle_connector welcome
    relay_message send_to notify set_connection_id update_last_seen set_phase get_heartbeat
    get_register get_connect_request get_authenticate bytes_eq register_listener link_connector
    get_peer new_router lookup insert delete
evening_goes_well = refl

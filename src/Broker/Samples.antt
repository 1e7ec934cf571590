-- ===== src/Broker/Samples.antt =====
-- A broker with clients at work, for the tests.
use Prim.Native.String.{String}
use go_connect.Base.{true, false, List, [], ◌∷◌, none, some, if◌then◌else◌, ◌==◌, ◌≡◌, ◌≢◌}
use go_connect.Bytes.{Bytes}
use go_connect.Pb.{Envelope, authenticate, register, connect_request, stream_data, carrying}
use go_connect.Broker.Router.{
  Router, new_router, register_listener, link_connector, find_listener, get_peer,
}
use go_connect.Broker.Router.Laws.{
  find_listener-new_router, get_peer-new_router, get_peer-register_listener,
}
use go_connect.Broker.Router.Invariant.{
  IsValid, new_router-IsValid, register_listener-IsValid, link_connector-IsValid,
}
use go_connect.Broker.State.{Server, ClientConn, Phase, relaying, choosing, gone}
use go_connect.Broker.Server.{received}
use go_connect.Broker.Server.Events.{Event, arrives, shakes, authenticates, begins, relays}

abbrev pub listening : Router
listening = (register_listener "room" 1 new_router).1

abbrev pub linked : Router
linked = (link_connector "room" 2 listening).1

abbrev client_in : Phase → ClientConn
client_in phase = record {
  phase = phase;
  done = false;
  conn_open = true;
  broken = false;
  connection_id = "room";
  last_seen = 5;
  remote = "192.0.2.1:4000";
  outbox = [];
}

-- Client 1 listens, client 2 is linked to it, client 3 has authenticated.
abbrev pub served : Server
served = record {
  router = linked;
  heap = λ x.
      client_in (
        if x == 1
        then relaying
        else if x == 2
        then relaying
        else if x == 3
        then choosing
        else gone);
  next = 4;
  clients = 3 ∷ 2 ∷ 1 ∷ [];
  slots = 3;
  closing = false;
  passphrase_hash = 7 ∷ [];
  logger = true;
  log = [];
  ip_filter = none;
  geo_filter = none;
}

-- Not a hash, but it tells passphrases apart.
abbrev pub toy_hash : Bytes → Bytes
toy_hash xs = 7 ∷ xs

abbrev pub greeting : Envelope
greeting = carrying (stream_data (record { stream_id = 1; payload = 104 ∷ 105 ∷ [] }))

abbrev pub passphrase : Envelope
passphrase = carrying (authenticate (record { passphrase_hash = toy_hash (3 ∷ []) }))

abbrev registration : Envelope
registration = carrying (register (record { connection_id = "room" }))

abbrev request : Envelope
request = carrying (connect_request (record { connection_id = "room" }))

-- Two clients come, and the second sends a greeting to the first; the latest event stands first.
abbrev pub evening : List Event
evening =
    relays 1 (some greeting) 9
    ∷ begins 1 (some request) 8
    ∷ authenticates 1 (received [] passphrase)
    ∷ begins 0 (some registration) 7
    ∷ authenticates 0 (received [] passphrase)
    ∷ shakes 1 true 6
    ∷ shakes 0 true 5
    ∷ arrives "192.0.2.2:4001" (some "192.0.2.2")
    ∷ arrives "192.0.2.1:4000" (some "192.0.2.1")
    ∷ []

pub not_listening : (i : String) → find_listener i new_router ≢ some 1
not_listening i e = absurd (cc (e, find_listener-new_router i))

pub alone : get_peer 2 listening ≡ none
alone = rw (get_peer-register_listener "room" 1 2 new_router) (get_peer-new_router 2)

pub listening-IsValid : IsValid listening
listening-IsValid = register_listener-IsValid "room" 1 new_router new_router-IsValid not_listening

pub linked-IsValid : IsValid linked
linked-IsValid = link_connector-IsValid "room" 2 listening listening-IsValid alone

-- ===== src/Tunnel/Connector/Tests.antt =====
-- A connector that opens one stream, waits for its acknowledgement and sends what it reads.
use go_connect.Base.{
  ◌++◌, none, nat_key, ok, err, ◌⊎◌, ℕ, insert, ◌+◌, ◌≤◌, ◌≡◌, refl, lookup, [], ◌∷◌, take, List,
  true, false, some, arith,
}
use go_connect.Bytes.{Bytes}
use go_connect.Pb.{
  authenticate, connect_request, carrying, connect_ack, open_stream_ack, authenticate,
  connect_request, get_connect_ack, get_open_stream_ack, get_stream_data,
}
use go_connect.Tunnel.Net.{close_conn, read_conn, can_send, send}
use go_connect.Tunnel.Login.{Script, log_in}
use go_connect.Tunnel.Connector.{
  close, close_conns, remove_stream, Connector, answered, start, new_connector,
  handle_local_connection, wait_for_ack, handle_ack, dispatch, handle_message, pump_bytes, pump_end,
  pump_local_to_remote, open_msg, data_msg,
}
use go_connect.Tunnel.Login.{StartError}
use go_connect.Tunnel.Connector.Silence.{closed_for_good}
use go_connect.Tunnel.Connector.Chunks.{chunks_fit}
use go_connect.Protocol.Session.{Session, send as send_envelope}
use go_connect.Samples.{plain_gcm, tagged_codec, tagged_codec-IsCompact, zeros}
use go_connect.Tunnel.Connector.Starts.{goes_well, start_linked}
use go_connect.Tunnel.Connector.Events.{
  Event, accepts, receives, waits, reads, closes, run, step, work,
}
use go_connect.Tunnel.Connector.Workers.{sends_data}
use go_connect.Tunnel.Payloads.{payloads}
use go_connect.Tunnel.Connector.Acks.{acked}
use go_connect.Tunnel.Connector.Streams.{
  started, sends_data-acked, payloads-taken, streams_differ, stream_of,
}

abbrev digest : Bytes → Bytes
digest xs = take 4 xs

abbrev secret : Bytes
secret = 112 ∷ 119 ∷ []

-- Everything goes well.
abbrev good_script : Script
good_script = record {
  dials = true;
  shakes_hands = true;
  breaks_first = false;
  breaks_second = false;
  answer = some (carrying (connect_ack (record { success = true; message = "ok" })));
  port_free = true;
}

abbrev accepted : List Event
accepted =
    receives
      (some (carrying (open_stream_ack (record { stream_id = 1; success = true; message = "" }))))
    ∷ accepts 100
    ∷ []

-- A second connection comes while the first one sends.
abbrev history : List Event
history =
    accepts 7
    ∷ reads 0 (record { bytes = 104 ∷ 105 ∷ []; ended = false })
    ∷ waits 0 answered
    ∷ accepted

abbrev up : Connector
up = started digest secret "office" good_script

sent_messages : (run history up).net.outbox ≡ (
    carrying (authenticate (record { passphrase_hash = secret }))
    ∷ carrying (connect_request (record { connection_id = "office" }))
    ∷ open_msg 1
    ∷ data_msg 1 (104 ∷ 105 ∷ [])
    ∷ open_msg 2
    ∷ [])
unfolding run step work started start new_connector log_in send can_send handle_local_connection
    wait_for_ack handle_ack dispatch handle_message pump_bytes pump_end pump_local_to_remote
    get_connect_ack get_open_stream_ack lookup insert
sent_messages = refl

workers_there :
    ((run history up).next_worker ≡ 2)
    × (stream_of ((run history up).workers 1) ≡ some 2)
    × (can_send (run history up).net ≡ true)
unfolding run step work started start new_connector log_in send can_send handle_local_connection
    wait_for_ack handle_ack dispatch handle_message pump_bytes pump_end pump_local_to_remote
    get_connect_ack get_open_stream_ack lookup insert
workers_there = (refl, refl, refl)

sends_data-acked_example : acked 1 history ≡ true
unfolding run step work started start new_connector log_in send can_send handle_local_connection
    wait_for_ack handle_ack dispatch handle_message pump_bytes pump_end pump_local_to_remote
    get_connect_ack get_open_stream_ack lookup insert sends_data get_stream_data
sends_data-acked_example = sends_data-acked digest secret "office" good_script history 1 refl

payloads-taken_example :
    payloads (0 + 1) (run history up).net.outbox ≡ ((run history up).net.conns 0).taken
payloads-taken_example =
    payloads-taken digest secret "office" good_script history 0 (omega (arith, workers_there.0))
      workers_there.2 (omega (arith, workers_there.0))

streams_differ_example : ◌≡◌ {A = ℕ} 1 1
streams_differ_example =
    streams_differ digest secret "office" good_script history 1 1 2 (omega (arith, workers_there.0))
      workers_there.1 workers_there.1

start_linked_example :
    let (r, s) = start digest secret "office" good_script new_connector in
    ((goes_well good_script ≡ true)
      × (r ≡ ok tt)
      × (s.receiving ≡ true)
      × (can_send s.net ≡ true)
      × (s.net.outbox
          ≡ carrying (authenticate (record { passphrase_hash = digest secret }))
            ∷ carrying (connect_request (record { connection_id = "office" }))
            ∷ []))
    ⊎ ((goes_well good_script ≡ false)
        × ((e : StartError) × (r ≡ err e))
        × (s.receiving ≡ false)
        × (s.net.broker_open ≡ false)
        × (s.streams ≡ []))
start_linked_example = start_linked digest secret "office" good_script

-- After `Close` another connection comes, and a message that was on its way.
abbrev stragglers : List Event
stragglers = accepts 3 ∷ receives (some (data_msg 1 (33 ∷ []))) ∷ []

closed_at_last : (run (closes ∷ history) up).closed ≡ true
unfolding run step work started start new_connector log_in send can_send handle_local_connection
    wait_for_ack handle_ack dispatch handle_message pump_bytes pump_end pump_local_to_remote
    get_connect_ack get_open_stream_ack lookup insert close
closed_at_last = refl

closed_for_good_example :
    let before = run (closes ∷ history) up in
    let after = run (stragglers ++ (closes ∷ history)) up in
    (after.closed ≡ true)
    × (after.net.outbox ≡ before.net.outbox)
    × (after.net.broker_open ≡ false)
    × ((id : ℕ) → lookup id after.streams ≡ none)
closed_for_good_example =
    closed_for_good digest secret "office" good_script stragglers (closes ∷ history) closed_at_last

-- A pump whose read ends drops its connection and leaves it open, and `Close` does not find it.
left_open :
    ((run (closes ∷ reads 0 (record { bytes = []; ended = true }) ∷ history) up).net.conns
      0).is_open
    ≡ true
unfolding run step work started start new_connector log_in send can_send handle_local_connection
    wait_for_ack handle_ack dispatch handle_message pump_bytes pump_end pump_local_to_remote
    get_connect_ack get_open_stream_ack lookup insert close close_conns close_conn remove_stream
    read_conn
left_open = refl

abbrev link : Session
link = record {
  conn = record { incoming = []; outgoing = []; room = 100 };
  send_enc = record { key = zeros 32; counter = 0 };
  recv_enc = record { key = zeros 32; counter = 0 };
}

data_there :
    get_stream_data (data_msg 1 (104 ∷ 105 ∷ []))
    ≡ some (record { stream_id = 1; payload = 104 ∷ 105 ∷ [] })
unfolding get_stream_data
data_there = refl

chunks_fit_example :
    (1 ≤ 2) × ((send_envelope plain_gcm tagged_codec (data_msg 1 (104 ∷ 105 ∷ [])) link).0 ≡ ok tt)
chunks_fit_example =
    chunks_fit digest secret "office" good_script history
      (carrying (authenticate (record { passphrase_hash = secret }))
        ∷ carrying (connect_request (record { connection_id = "office" }))
        ∷ open_msg 1
        ∷ [])
      (open_msg 2 ∷ []) (data_msg 1 (104 ∷ 105 ∷ []))
      (record { stream_id = 1; payload = 104 ∷ 105 ∷ [] }) plain_gcm tagged_codec
      (8 ∷ 1 ∷ 104 ∷ 105 ∷ []) link tagged_codec-IsCompact sent_messages data_there refl
      (omega arith)

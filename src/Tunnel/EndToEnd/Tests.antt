-- ===== src/Tunnel/EndToEnd/Tests.antt =====
-- Two reads at the connector, and the same bytes at the listener.
use go_connect.Base.{
  nat_key, sym, ◌∙◌, insert, lookup, ◌≡◌, refl, [], ◌∷◌, take, List, true, false, some, arith,
  reverse,
}
use go_connect.Bytes.{Bytes}
use go_connect.Pb.{
  Envelope, carrying, register_ack, connect_ack, open_stream_ack, heartbeat, get_register_ack,
  get_connect_ack, get_open_stream, get_open_stream_ack, get_stream_data, get_close_stream,
  get_heartbeat,
}
use go_connect.Tunnel.Payloads.{about, concerns}
use go_connect.Tunnel.Net.{can_send, send, add_conn, write_conn, can_write}
use go_connect.Tunnel.Login.{Script, log_in}
use go_connect.Tunnel.Listener.{
  Listener, start, new_listener, dispatch, handle_message, open_stream, handle_data, deliver,
  handle_open_stream, drain,
}
use go_connect.Tunnel.Listener.Events.{Event, receives, dialled, drains, run, step, work}
use go_connect.Tunnel.Listener.Pipe.{conn_of}
use go_connect.Tunnel.Listener.Writes.{IsCalm}
use go_connect.Tunnel.Listener.Delivery.{started, handled, Orderly}
use go_connect.Tunnel.Connector.{
  Connector, answered, open_msg, data_msg, start as start_connector, new_connector,
  handle_local_connection, wait_for_ack, handle_ack, dispatch as dispatch_connector,
  handle_message as handle_message_connector, pump_bytes, pump_end, pump_local_to_remote,
}
use go_connect.Tunnel.Connector.Events.{
  Event as ConnectorEvent, accepts, receives as receives_connector, waits, reads,
  run as run_connector, step as step_connector, work as work_connector,
}
use go_connect.Tunnel.Connector.Streams.{started as started_connector}
use go_connect.Tunnel.EndToEnd.{AllArrived, written-taken}

abbrev digest : Bytes → Bytes
digest xs = take 4 xs

abbrev secret : Bytes
secret = 112 ∷ 119 ∷ []

abbrev good_script : Envelope → Script
good_script answer = record {
  dials = true;
  shakes_hands = true;
  breaks_first = false;
  breaks_second = false;
  answer = some answer;
  port_free = true;
}

abbrev listener_script : Script
listener_script = good_script (carrying (register_ack (record { success = true; message = "" })))

abbrev connector_script : Script
connector_script = good_script (carrying (connect_ack (record { success = true; message = "" })))

abbrev listening : Listener
listening = started digest secret "office" listener_script

abbrev connecting : Connector
connecting = started_connector digest secret "office" connector_script

abbrev near_history : List ConnectorEvent
near_history =
    reads 0 (record { bytes = 33 ∷ []; ended = false })
    ∷ reads 0 (record { bytes = 104 ∷ 105 ∷ []; ended = false })
    ∷ waits 0 answered
    ∷ receives_connector
        (some (carrying (open_stream_ack (record { stream_id = 1; success = true; message = "" }))))
    ∷ accepts 100
    ∷ []

-- A heartbeat of the broker comes between.
abbrev far_history : List Event
far_history =
    receives (some (data_msg 1 (33 ∷ [])))
    ∷ receives (some (carrying heartbeat))
    ∷ receives (some (data_msg 1 (104 ∷ 105 ∷ [])))
    ∷ drains 0
    ∷ dialled 0 (some 100)
    ∷ receives (some (open_msg 1))
    ∷ []

near_end :
    ((run_connector near_history connecting).next_worker ≡ 1)
    × (can_send (run_connector near_history connecting).net ≡ true)
    × (about 1 (run_connector near_history connecting).net.outbox
        ≡ open_msg 1 ∷ data_msg 1 (104 ∷ 105 ∷ []) ∷ data_msg 1 (33 ∷ []) ∷ [])
unfolding run_connector step_connector work_connector started_connector start_connector
    new_connector log_in send can_send handle_local_connection wait_for_ack handle_ack
    dispatch_connector handle_message_connector pump_bytes pump_end pump_local_to_remote
    get_connect_ack get_open_stream_ack get_open_stream get_stream_data lookup insert about concerns
near_end = (refl, refl, refl)

far_end :
    (conn_of (lookup 1 (run far_history listening).streams) ≡ some 0)
    × (reverse (about 1 (handled far_history listening))
        ≡ open_msg 1 ∷ data_msg 1 (104 ∷ 105 ∷ []) ∷ data_msg 1 (33 ∷ []) ∷ [])
unfolding run step work started start new_listener log_in send can_send handle_message dispatch
    open_stream handle_data deliver handle_open_stream drain write_conn can_write add_conn
    get_register_ack get_open_stream get_stream_data get_close_stream get_heartbeat lookup insert
    handled about concerns
far_end = (refl, refl)

all_arrived :
    AllArrived digest secret "office" listener_script connector_script 1 near_history far_history
all_arrived = near_end.2 ∙ sym far_end.1

far_history-Orderly : Orderly 1 far_history listening
unfolding run step work started start new_listener log_in send can_send handle_message dispatch
    open_stream handle_data deliver handle_open_stream drain write_conn can_write add_conn
    get_register_ack get_open_stream get_stream_data get_close_stream get_heartbeat lookup insert
far_history-Orderly = (
  (
    (
      (tt, (λ m e f t g. absurd (ground arith)), (λ m e f g. absurd (ground arith))),
      (λ m e f. absurd (ground arith)),
      (λ m e f g t c b h. absurd (ground arith)),
    ),
    (λ m e f. absurd (ground arith)),
    (λ m e f g. absurd (ground arith)),
  ),
  (λ m e f. absurd (ground arith)),
  (λ m e f g t c b h. absurd (ground arith)),
)

far_history-IsCalm : IsCalm 1 (run far_history listening)
unfolding run step work started start new_listener log_in send can_send handle_message dispatch
    open_stream handle_data deliver handle_open_stream drain write_conn can_write add_conn
    get_register_ack get_open_stream get_stream_data get_close_stream get_heartbeat lookup insert
far_history-IsCalm t c b e = absurd (ground arith)

written-taken_example :
    ((run far_history listening).net.conns 0).written
    ≡ ((run_connector near_history connecting).net.conns 0).taken
written-taken_example =
    written-taken digest secret "office" listener_script connector_script near_history far_history 0
      0 (omega (arith, near_end.0)) (near_end.1) (omega (arith, near_end.0)) all_arrived
      far_history-Orderly far_history-IsCalm far_end.0

-- ===== src/Tunnel/Listener/Tests.antt =====
-- A listener that buffers what comes while it dials, writes it, and then writes what comes after.
use go_connect.Base.{insert, lookup, ◌≡◌, refl, [], ◌∷◌, take, List, true, false, some, arith}
use go_connect.Bytes.{Bytes}
use go_connect.Pb.{
  Envelope, carrying, register_ack, open_stream as open_stream_msg, get_register_ack,
  get_open_stream, get_stream_data,
}
use go_connect.Tunnel.Payloads.{take_in, fed}
use go_connect.Tunnel.Net.{can_send, send, add_conn, write_conn, can_write}
use go_connect.Tunnel.Login.{Script, log_in}
use go_connect.Tunnel.Listener.{
  Listener, start, new_listener, dispatch, handle_message, open_stream, handle_data, deliver,
  handle_open_stream, drain, data_msg,
}
use go_connect.Tunnel.Listener.Events.{Event, receives, dialled, drains, run, step, work}
use go_connect.Tunnel.Listener.Writes.{IsCalm}
use go_connect.Tunnel.Listener.Delivery.{started, handled, Orderly, written-fed}

abbrev digest : Bytes → Bytes
digest xs = take 4 xs

abbrev secret : Bytes
secret = 112 ∷ 119 ∷ []

-- Everything goes well.
abbrev good_script : Script
good_script = record {
  dials = true;
  shakes_hands = true;
  breaks_first = false;
  breaks_second = false;
  answer = some (carrying (register_ack (record { success = true; message = "ok" })));
  port_free = true;
}

abbrev open_one : Envelope
open_one = carrying (open_stream_msg (record { stream_id = 1 }))

-- The dial takes long enough for a payload to come before it ends.
abbrev history : List Event
history =
    receives (some (data_msg 1 (33 ∷ [])))
    ∷ drains 0
    ∷ drains 0
    ∷ dialled 0 (some 100)
    ∷ receives (some (data_msg 1 (104 ∷ 105 ∷ [])))
    ∷ receives (some open_one)
    ∷ []

abbrev up : Listener
up = started digest secret "office" good_script

local_connection :
    (((run history up).net.conns 0).written ≡ 104 ∷ 105 ∷ 33 ∷ [])
    × (fed 1 (handled history up) ≡ 104 ∷ 105 ∷ 33 ∷ [])
unfolding run step work started start new_listener log_in send can_send handle_message dispatch
    open_stream handle_data deliver handle_open_stream drain write_conn can_write add_conn
    get_register_ack get_open_stream get_stream_data lookup insert handled fed take_in
local_connection = (refl, refl)

history-Orderly : Orderly 1 history up
unfolding run step work started start new_listener log_in send can_send handle_message dispatch
    open_stream handle_data deliver handle_open_stream drain write_conn can_write add_conn
    get_register_ack get_open_stream get_stream_data lookup insert
history-Orderly = (
  (
    (tt, (λ m e f t g. absurd (ground arith)), (λ m e f g. absurd (ground arith))),
    (λ m e f. absurd (ground arith)),
    (λ m e f g t c b h. absurd (ground arith)),
  ),
  (λ m e f. absurd (ground arith)),
  (λ m e f g t c b h. absurd (ground arith)),
)

history-IsCalm : IsCalm 1 (run history up)
unfolding run step work started start new_listener log_in send can_send handle_message dispatch
    open_stream handle_data deliver handle_open_stream drain write_conn can_write add_conn
    get_register_ack get_open_stream get_stream_data lookup insert
history-IsCalm t c b e = absurd (ground arith)

written-fed_example : ((run history up).net.conns 0).written ≡ fed 1 (handled history up)
unfolding run step work started start new_listener log_in send can_send handle_message dispatch
    open_stream handle_data deliver handle_open_stream drain write_conn can_write add_conn
    get_register_ack get_open_stream get_stream_data lookup insert
written-fed_example =
    written-fed digest secret "office" good_script history 1 0 history-Orderly history-IsCalm refl

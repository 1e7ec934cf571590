-- ===== src/Pb.antt =====
-- The messages of proto/messages.proto as pb/messages.pb.go declares them. A message is present
-- where its pointer is not nil; fields that the schema does not name are left out.
use Prim.Native.String.{String}
use go_connect.Base.{ℕ, Bool, Option, none, some}
use go_connect.Bytes.{Bytes}

pub record Handshake : Type 0 where
  pub public_key : Bytes

pub record Register : Type 0 where
  pub connection_id : String

pub record RegisterAck : Type 0 where
  pub success : Bool
  pub message : String

pub record ConnectRequest : Type 0 where
  pub connection_id : String

pub record ConnectAck : Type 0 where
  pub success : Bool
  pub message : String

pub record OpenStream : Type 0 where
  pub stream_id : ℕ

pub record OpenStreamAck : Type 0 where
  pub stream_id : ℕ
  pub success : Bool
  pub message : String

pub record StreamData : Type 0 where
  pub stream_id : ℕ
  pub payload : Bytes

pub record CloseStream : Type 0 where
  pub stream_id : ℕ

pub record Disconnect : Type 0 where
  pub reason : String

pub record ErrorMsg : Type 0 where
  pub message : String

pub record Authenticate : Type 0 where
  pub passphrase_hash : Bytes

-- The oneof of an envelope.
pub data Payload : Type 0 where
  handshake : Handshake → Payload
  register : Register → Payload
  register_ack : RegisterAck → Payload
  connect_request : ConnectRequest → Payload
  connect_ack : ConnectAck → Payload
  open_stream : OpenStream → Payload
  open_stream_ack : OpenStreamAck → Payload
  stream_data : StreamData → Payload
  close_stream : CloseStream → Payload
  heartbeat : Payload
  disconnect : Disconnect → Payload
  error_msg : ErrorMsg → Payload
  authenticate : Authenticate → Payload

pub record Envelope : Type 0 where
  pub payload : Option Payload

abbrev pub carrying : Payload → Envelope
carrying p = record { payload = some p }

as_handshake : Option Payload → Option Handshake
as_handshake (some (handshake m)) = some m
as_handshake _ = none

unfoldable pub get_handshake : Envelope → Option Handshake
unfolding as_handshake
get_handshake env = as_handshake env.payload

as_register : Option Payload → Option Register
as_register (some (register m)) = some m
as_register _ = none

unfoldable pub get_register : Envelope → Option Register
unfolding as_register
get_register env = as_register env.payload

as_register_ack : Option Payload → Option RegisterAck
as_register_ack (some (register_ack m)) = some m
as_register_ack _ = none

unfoldable pub get_register_ack : Envelope → Option RegisterAck
unfolding as_register_ack
get_register_ack env = as_register_ack env.payload

as_connect_request : Option Payload → Option ConnectRequest
as_connect_request (some (connect_request m)) = some m
as_connect_request _ = none

unfoldable pub get_connect_request : Envelope → Option ConnectRequest
unfolding as_connect_request
get_connect_request env = as_connect_request env.payload

as_connect_ack : Option Payload → Option ConnectAck
as_connect_ack (some (connect_ack m)) = some m
as_connect_ack _ = none

unfoldable pub get_connect_ack : Envelope → Option ConnectAck
unfolding as_connect_ack
get_connect_ack env = as_connect_ack env.payload

as_open_stream : Option Payload → Option OpenStream
as_open_stream (some (open_stream m)) = some m
as_open_stream _ = none

unfoldable pub get_open_stream : Envelope → Option OpenStream
unfolding as_open_stream
get_open_stream env = as_open_stream env.payload

as_open_stream_ack : Option Payload → Option OpenStreamAck
as_open_stream_ack (some (open_stream_ack m)) = some m
as_open_stream_ack _ = none

unfoldable pub get_open_stream_ack : Envelope → Option OpenStreamAck
unfolding as_open_stream_ack
get_open_stream_ack env = as_open_stream_ack env.payload

as_stream_data : Option Payload → Option StreamData
as_stream_data (some (stream_data m)) = some m
as_stream_data _ = none

unfoldable pub get_stream_data : Envelope → Option StreamData
unfolding as_stream_data
get_stream_data env = as_stream_data env.payload

as_close_stream : Option Payload → Option CloseStream
as_close_stream (some (close_stream m)) = some m
as_close_stream _ = none

unfoldable pub get_close_stream : Envelope → Option CloseStream
unfolding as_close_stream
get_close_stream env = as_close_stream env.payload

as_heartbeat : Option Payload → Option (Unit {0})
as_heartbeat (some heartbeat) = some tt
as_heartbeat _ = none

unfoldable pub get_heartbeat : Envelope → Option (Unit {0})
unfolding as_heartbeat
get_heartbeat env = as_heartbeat env.payload

as_disconnect : Option Payload → Option Disconnect
as_disconnect (some (disconnect m)) = some m
as_disconnect _ = none

unfoldable pub get_disconnect : Envelope → Option Disconnect
unfolding as_disconnect
get_disconnect env = as_disconnect env.payload

as_error_msg : Option Payload → Option ErrorMsg
as_error_msg (some (error_msg m)) = some m
as_error_msg _ = none

unfoldable pub get_error_msg : Envelope → Option ErrorMsg
unfolding as_error_msg
get_error_msg env = as_error_msg env.payload

as_authenticate : Option Payload → Option Authenticate
as_authenticate (some (authenticate m)) = some m
as_authenticate _ = none

unfoldable pub get_authenticate : Envelope → Option Authenticate
unfolding as_authenticate
get_authenticate env = as_authenticate env.payload

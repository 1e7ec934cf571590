-- ===== src/Protocol/Framing.antt =====
-- Length-prefixed frames: pkg/protocol/framing.go.
pub mod RoundTrip
mod Tests
use go_connect.Base.{
  ℕ, ◌%◌, ◌^◌, [], ◌++◌, ltb, if◌then◌else◌, length, M, ◌>>=◌, ◌>>◌, pure, fail_if,
}
use go_connect.Bytes.{Bytes, put_u32, get_u32}
use go_connect.Protocol.Wire.{Conn, read_full, write}

abbrev pub max_frame_size : ℕ
max_frame_size = 2 ^ 20

abbrev pub frame_length_size : ℕ
frame_length_size = 4

pub data FrameError : Type 0 where
  payload_too_large write_failed header_failed frame_too_large payload_failed : FrameError

-- The single buffer that `WriteFrame` fills: the uint32 length and the payload.
pub frame : Bytes → Bytes
frame payload = put_u32 (length payload % 2 ^ 32) ++ payload

pub write_frame : Bytes → M Conn FrameError (Unit {0})
write_frame payload = do
  fail_if (ltb max_frame_size (length payload)) payload_too_large
  write (frame payload) write_failed

pub read_frame : M Conn FrameError Bytes
read_frame = do
  header ← read_full frame_length_size header_failed
  let size = get_u32 header
  fail_if (ltb max_frame_size size) frame_too_large
  if ltb 0 size then read_full size payload_failed else pure []

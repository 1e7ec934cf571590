-- ===== src/Protocol/Codec.antt =====
-- google.golang.org/protobuf, which is not part of the repository, as the program relies on it.
use go_connect.Base.{◌+◌, ◌^◌, ◌<◌, ◌≤◌, ◌≡◌, Option, some, length}
use go_connect.Bytes.{Bytes}
use go_connect.Pb.{Envelope, StreamData, get_stream_data}

-- `Marshal` fails on a string that is not UTF-8. `Unmarshal` reads back what `Marshal` wrote.
pub record Codec : Type 0 where
  pub marshal : Envelope → Option Bytes
  pub unmarshal : Bytes → Option Envelope
  pub unmarshal-marshal :
      (env : Envelope) (wire : Bytes) → marshal env ≡ some wire → unmarshal wire ≡ some env

-- What protobuf adds to the payload of a Data message: two length prefixes and a `uint32` of at most
-- five bytes each, and keys of at most two.
abbrev pub IsCompact : Codec → Type 0
IsCompact k =
    (env : Envelope) (m : StreamData) (wire : Bytes)
    → get_stream_data env ≡ some m
    → k.marshal env ≡ some wire
    → length m.payload < 2 ^ 31
    → length wire ≤ length m.payload + 32

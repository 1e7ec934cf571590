-- ===== src/Protocol/Handshake.antt =====
-- The key exchange on a connection: pkg/protocol/handshake.go.
pub mod Agreement
mod Tests
use go_connect.Base.{
  ◌==◌, Option, none, some, length, Result, ok, err, M, ◌>>=◌, ◌>>◌, fail_if, wrap_err, attempt,
  give, map_err, ok_or,
}
use go_connect.Bytes.{Bytes}
use go_connect.Pb.{Envelope, Handshake, handshake, carrying, get_handshake}
use go_connect.Crypto.Aead.{AeadError}
use go_connect.Crypto.Keys.Curve.{Primitives}
use go_connect.Crypto.Keys.{KeyPair, KeyError, generate_key_pair, derive_directional_keys}
use go_connect.Protocol.Wire.{Conn}
use go_connect.Protocol.Codec.{Codec}
use go_connect.Protocol.Framing.{FrameError, write_frame, read_frame}
use go_connect.Protocol.Session.{Session, new_session}

pub data HandshakeError : Type 0 where
  key_failed derive_failed : KeyError → HandshakeError
  marshal_failed unmarshal_failed not_a_handshake empty_key : HandshakeError
  read_failed send_failed : FrameError → HandshakeError
  session_failed : AeadError → HandshakeError

-- The cleartext message that announces a public key.
abbrev pub hello : KeyPair → Envelope
hello pair = carrying (handshake (record { public_key = pair.public_key }))

-- A call that leaves the connection alone.
abbrev call : {E A : Type 0} → (E → HandshakeError) → Result E A → M Conn HandshakeError A
call f r = give (map_err f r)

module _ (p : Primitives) (k : Codec) where
  -- The frame is written by a goroutine of its own, whose error is looked at once the other end's
  -- frame is read. The two halves of a connection are independent, so that writing comes first here.
  pub perform_handshake : Option Bytes → M Conn HandshakeError Session
  perform_handshake random = do
    pair ← call key_failed (generate_key_pair p random)
    local_data ← give (ok_or (k.marshal (hello pair)) marshal_failed)
    sent ← attempt (write_frame local_data)
    remote_frame ← λ c. wrap_err read_failed (read_frame c)
    _ ← call send_failed sent
    remote_envelope ← give (ok_or (k.unmarshal remote_frame) unmarshal_failed)
    remote_handshake ← give (ok_or (get_handshake remote_envelope) not_a_handshake)
    fail_if (length (remote_handshake.public_key) == 0) empty_key
    keys ← call derive_failed (derive_directional_keys p pair (remote_handshake.public_key))
    λ c. call session_failed (new_session c (keys.send_key) (keys.recv_key)) c

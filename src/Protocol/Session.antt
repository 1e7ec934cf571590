-- ===== src/Protocol/Session.antt =====
-- The encrypted session on a connection: pkg/protocol/session.go. A call under its mutex is one
-- change of the session.
pub mod Delivery
pub mod Limits
mod Tests
use go_connect.Base.{◌≡◌, Option, none, some, Result, ok, err, M, ◌>>=◌, pure, wrap_err, []}
use go_connect.Bytes.{Bytes}
use go_connect.Pb.{Envelope}
use go_connect.Crypto.Aead.Cipher.{Gcm}
use go_connect.Crypto.Aead.{Aead, AeadError, new_aead, encrypt, decrypt}
use go_connect.Protocol.Wire.{Conn}
use go_connect.Protocol.Codec.{Codec}
use go_connect.Protocol.Framing.{FrameError, write_frame, read_frame}

pub record Session : Type 0 where
  pub conn : Conn
  pub send_enc : Aead
  pub recv_enc : Aead

pub data SessionError : Type 0 where
  marshal_failed : SessionError
  encrypt_failed : AeadError → SessionError
  write_failed : FrameError → SessionError

-- The error of `ReceiveRaw`, with the bytes that it returns beside it.
pub data ReceiveError : Type 0 where
  read_failed : FrameError → ReceiveError
  decrypt_failed : Bytes → AeadError → ReceiveError
  unmarshal_failed : Bytes → ReceiveError

-- The first result of `ReceiveRaw` in case of an error.
pub raw_bytes : ReceiveError → Bytes
raw_bytes (read_failed e) = []
raw_bytes (decrypt_failed frame e) = frame
raw_bytes (unmarshal_failed plaintext) = plaintext

unfoldable pub new_session : Conn → Bytes → Bytes → Result AeadError Session
unfolding new_aead
new_session conn send_key recv_key = elim (new_aead send_key) [
  | err e ↦ err e
  | ok send_enc ↦ elim (new_aead recv_key) [
    | err e ↦ err e
    | ok recv_enc ↦ ok (record { conn = conn; send_enc = send_enc; recv_enc = recv_enc })
  ]
]

-- A call on a part of the session.
abbrev on_conn : {E F A : Type 0} → (E → F) → M Conn E A → M Session F A
on_conn f m s = let (r, c) = wrap_err f (m s.conn) in (r, record s { conn = c })

abbrev on_send : {E F A : Type 0} → (E → F) → M Aead E A → M Session F A
on_send f m s = let (r, a) = wrap_err f (m s.send_enc) in (r, record s { send_enc = a })

abbrev on_recv : {E F A : Type 0} → (E → F) → M Aead E A → M Session F A
on_recv f m s = let (r, a) = wrap_err f (m s.recv_enc) in (r, record s { recv_enc = a })

abbrev or_fail : {E A : Type 0} → Option A → E → M Session E A
or_fail (some a) e s = (ok a, s)
or_fail none e s = (err e, s)

module _ (g : Gcm) (k : Codec) where
  pub send : Envelope → M Session SessionError (Unit {0})
  send env = do
    plain ← or_fail (k.marshal env) marshal_failed
    encrypted ← on_send encrypt_failed (encrypt g plain)
    on_conn write_failed (write_frame encrypted)

  pub receive_raw : M Session ReceiveError (Bytes × Envelope)
  receive_raw = do
    frame ← on_conn read_failed read_frame
    plaintext ← on_recv (decrypt_failed frame) (decrypt g frame)
    env ← or_fail (k.unmarshal plaintext) (unmarshal_failed plaintext)
    pure (plaintext, env)

  pub receive : M Session ReceiveError Envelope
  unfolding receive_raw
  receive = do got ← receive_raw; pure (got.1)

module _ (k : Codec) where
  pub send_cleartext : Envelope → M Session SessionError (Unit {0})
  send_cleartext env = do
    plain ← or_fail (k.marshal env) marshal_failed
    on_conn write_failed (write_frame plain)

  pub receive_cleartext : M Session ReceiveError Envelope
  receive_cleartext = do
    frame ← on_conn read_failed read_frame
    or_fail (k.unmarshal frame) (unmarshal_failed frame)

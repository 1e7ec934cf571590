-- ===== src/Protocol/Session/Limits.antt =====
-- How large an envelope may be, and what becomes of a session that is given a larger one.
use go_connect.Base.{
  ℕ, ◌+◌, ◌-◌, ◌^◌, ◌≤◌, ◌<◌, ◌≡◌, ◌≢◌, [], ◌++◌, some, ok, err, arith, length, length-append,
  append-nil,
}
use go_connect.Bytes.{Bytes}
use go_connect.Pb.{Envelope}
use go_connect.Crypto.Aead.Cipher.{Gcm}
use go_connect.Crypto.Aead.{nonce_of, nonce_mismatch}
use go_connect.Crypto.Aead.Nonces.{advance, encrypt_cases, length-nonce_of}
use go_connect.Crypto.Aead.Channel.{sealed_at, decrypt-sealed_at_other}
use go_connect.Protocol.Codec.{Codec}
use go_connect.Protocol.Framing.{frame, max_frame_size, payload_too_large}
use go_connect.Protocol.Framing.RoundTrip.{
  read_frame-frame, write_frame-frame, write_frame_too_large,
}
use go_connect.Protocol.Session.{Session, write_failed, decrypt_failed, send, receive}
use go_connect.Protocol.Session.Delivery.{InStep, frame_of, send-Sent}

module _ (g : Gcm) (k : Codec) (env : Envelope) (plain : Bytes)
    (m : k.marshal env ≡ some plain) where
  -- Nonce and tag add 28 bytes.
  length-frame_of : (s : Session) → length (frame_of g k s plain) ≡ length plain + 28
  length-frame_of s = omega (
    arith,
    length-append (nonce_of s.send_enc.counter)
        (g.seal s.send_enc.key (nonce_of s.send_enc.counter) plain),
    length-nonce_of s.send_enc.counter,
    g.length-seal s.send_enc.key (nonce_of s.send_enc.counter) plain,
  )

  -- An envelope that marshals to at most 1 MiB less 28 bytes is sent, if the connection has room for
  -- 32 bytes more than that: one frame is written, and one message counted.
  pub send_fits :
      (s : Session)
      → length plain + 28 ≤ max_frame_size
      → length plain + 32 ≤ s.conn.room
      → send g k env s ≡ (
        ok tt,
        record s {
          conn = record (s.conn) {
            outgoing = s.conn.outgoing ++ frame (frame_of g k s plain);
            room = s.conn.room - (length plain + 32);
          };
          send_enc = advance s.send_enc;
        },
      )
  unfolding send
  send_fits s small room = ground (
    arith,
    m,
    encrypt_cases g plain s.send_enc,
    length-frame_of s,
    write_frame-frame (frame_of g k s plain) s.conn,
  )

  -- One that is larger, but still at most 1 MiB, passes the check of `Encrypt` and fails at that of
  -- `WriteFrame`: nothing is written, and the sender has counted a message.
  pub send_oversize :
      (s : Session)
      → length plain ≤ max_frame_size
      → max_frame_size < length plain + 28
      → send g k env s
        ≡ (err (write_failed payload_too_large), record s { send_enc = advance s.send_enc })
  unfolding send
  send_oversize s small large = ground (
    arith,
    m,
    encrypt_cases g plain s.send_enc,
    length-frame_of s,
    write_frame_too_large (frame_of g k s plain) s.conn,
  )

module _ (g : Gcm) (k : Codec) where
  -- A frame that was made at another value of the counter is rejected.
  pub receive-sealed_at_other :
      (key plain rest : Bytes) (n : ℕ) (r : Session)
      → n < 2 ^ 64
      → r.recv_enc.counter < 2 ^ 64
      → n ≢ r.recv_enc.counter
      → length (sealed_at g key n plain) ≤ max_frame_size
      → r.conn.incoming ≡ frame (sealed_at g key n plain) ++ rest
      → (receive g k r).0 ≡ err (decrypt_failed (sealed_at g key n plain) nonce_mismatch)
  unfolding receive
  receive-sealed_at_other key plain rest n r hn hr ne small e = ground (
    arith,
    read_frame-frame (sealed_at g key n plain) rest r.conn small e,
    decrypt-sealed_at_other g key plain n r.recv_enc hn hr ne,
  )

  -- An envelope that marshals to at most 1 MiB, but to more than 1 MiB less 28 bytes, and that `Send`
  -- refuses for its size puts the ends of a session that was in step out of step: the frame of the
  -- next envelope, which is sent without an error, is rejected by the receiver for its nonce, though
  -- no byte was lost or changed.
  pub oversize_breaks :
      (env next : Envelope) (large : Bytes) (s s1 s2 r : Session)
      → k.marshal env ≡ some large
      → length large ≤ max_frame_size
      → max_frame_size < length large + 28
      → s.conn.outgoing ≡ []
      → InStep s r
      → r.recv_enc.counter < 2 ^ 64
      → send g k env s ≡ (err (write_failed payload_too_large), s1)
      → send g k next s1 ≡ (ok tt, s2)
      → r.conn.incoming ≡ s2.conn.outgoing
      → (x : Bytes) × ((receive g k r).0 ≡ err (decrypt_failed x nonce_mismatch))
  oversize_breaks env next large s s1 s2 r m small over fresh i bound e f w =
      let (plain, _, sent) = send-Sent g k next s1 s2 f in
      let after = send_oversize g k env large m s small over in
      (
        frame_of g k s1 plain,
        receive-sealed_at_other s1.send_enc.key plain [] s1.send_enc.counter r
            (ground (arith, after)) bound (ground (arith, after)) sent.fits
            (ground (arith, after, sent.written, append-nil (frame (frame_of g k s1 plain)))),
      )

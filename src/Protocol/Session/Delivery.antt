-- ===== src/Protocol/Session/Delivery.antt =====
-- One direction of a session: what one end sends, the other end receives.
use go_connect.Base.{
  ℕ, ◌≤◌, ◌≡◌, refl, ap, ◌∙◌, List, [], ◌∷◌, ◌++◌, some, ok, M, and_then-eq_ok, pure, ◌>>=◌, ◌>>◌,
  arith, length, append_assoc, append-nil, zero, suc, Option-cases, inl, inr,
}
use go_connect.Bytes.{Bytes}
use go_connect.Pb.{Envelope}
use go_connect.Crypto.Aead.Cipher.{Gcm}
use go_connect.Crypto.Aead.Nonces.{advance, encrypt_cases}
use go_connect.Crypto.Aead.Channel.{sealed_at, decrypt-sealed_at}
use go_connect.Protocol.Codec.{Codec}
use go_connect.Protocol.Framing.{frame, max_frame_size}
use go_connect.Protocol.Framing.RoundTrip.{read_frame-frame, write_frame-eq_ok}
use go_connect.Protocol.Session.{
  Session, SessionError, ReceiveError, send, receive, send_cleartext, receive_cleartext,
}

-- The receiving half of `r` is where the sending half of `s` is.
abbrev pub InStep : Session → Session → Type 0
InStep s r = (s.send_enc.key ≡ r.recv_enc.key) × (s.send_enc.counter ≡ r.recv_enc.counter)

-- Calls of `Send` and of `Receive` one after the other, as the message loops make them.
unfoldable pub send_all : Gcm → Codec → List Envelope → M Session SessionError (Unit {0})
send_all g k [] = pure tt
send_all g k (env ∷ envs) = do send g k env; send_all g k envs

unfoldable pub receive_all : Gcm → Codec → ℕ → M Session ReceiveError (List Envelope)
receive_all g k zero = pure []
receive_all g k (suc n) = do env ← receive g k; envs ← receive_all g k n; pure (env ∷ envs)

module _ (g : Gcm) (k : Codec) where
  -- The frame that `Send` writes for an envelope which marshals to `plain`.
  abbrev pub frame_of : Session → Bytes → Bytes
  frame_of s plain = sealed_at g s.send_enc.key s.send_enc.counter plain

  pub record Sent (plain : Bytes) (s s' : Session) : Type 0 where
    pub fits : length (frame_of s plain) ≤ max_frame_size
    pub written : s'.conn.outgoing ≡ s.conn.outgoing ++ frame (frame_of s plain)
    pub counted : s'.send_enc ≡ advance s.send_enc

  -- A `Send` that succeeds has written one frame, and counted once.
  pub send-Sent :
      (env : Envelope) (s s' : Session)
      → send g k env s ≡ (ok tt, s')
      → (plain : Bytes) × (k.marshal env ≡ some plain) × Sent plain s s'
  unfolding send
  send-Sent env s s' e = elim (Option-cases (k.marshal env)) [
    | inl m ↦ ground (arith, m)
    | inr (plain, m) ↦ (
      plain,
      m,
      ground (
        arith,
        m,
        encrypt_cases g plain s.send_enc,
        write_frame-eq_ok (frame_of s plain) s.conn s'.conn,
      ),
    )
  ]

  -- A frame made at the receiver's counter is received as the envelope that it carries.
  pub receive-sealed_at :
      (env : Envelope) (plain rest : Bytes) (r : Session)
      → k.marshal env ≡ some plain
      → length (sealed_at g r.recv_enc.key r.recv_enc.counter plain) ≤ max_frame_size
      → r.conn.incoming ≡ frame (sealed_at g r.recv_enc.key r.recv_enc.counter plain) ++ rest
      → receive g k r ≡ (
        ok env,
        record r { conn = record (r.conn) { incoming = rest }; recv_enc = advance r.recv_enc },
      )
  unfolding receive
  receive-sealed_at env plain rest r m small e = ground (
    arith,
    read_frame-frame (sealed_at g r.recv_enc.key r.recv_enc.counter plain) rest r.conn small e,
    decrypt-sealed_at g plain r.recv_enc,
    k.unmarshal-marshal env plain m,
  )

  pub receive-frame_of :
      (env : Envelope) (plain rest : Bytes) (s r : Session)
      → k.marshal env ≡ some plain
      → InStep s r
      → length (frame_of s plain) ≤ max_frame_size
      → r.conn.incoming ≡ frame (frame_of s plain) ++ rest
      → receive g k r ≡ (
        ok env,
        record r { conn = record (r.conn) { incoming = rest }; recv_enc = advance r.recv_enc },
      )
  receive-frame_of env plain rest s r m i small e =
      ground (arith, receive-sealed_at env plain rest r m)

  receive_all_step :
      (n : ℕ) (r r1 r2 : Session) (env : Envelope) (envs : List Envelope)
      → receive g k r ≡ (ok env, r1)
      → receive_all g k n r1 ≡ (ok envs, r2)
      → receive_all g k (suc n) r ≡ (ok (env ∷ envs), r2)
  unfolding receive_all
  receive_all_step n r r1 r2 env envs h t = rw (h, t)

  -- Where the receiver stands behind the messages of `s` that brought it to `s'`.
  abbrev pub received : Session → Session → Bytes → Session
  received r s' rest = record r {
    conn = record (r.conn) { incoming = rest };
    recv_enc = record (r.recv_enc) { counter = s'.send_enc.counter };
  }

  send_all_wire :
      (envs : List Envelope) (s s' : Session)
      → send_all g k envs s ≡ (ok tt, s')
      → (wire : Bytes) × (s'.conn.outgoing ≡ s.conn.outgoing ++ wire)
        × ((r : Session) (rest : Bytes)
            → InStep s r
            → r.conn.incoming ≡ wire ++ rest
            → receive_all g k (length envs) r ≡ (ok envs, received r s' rest))
  unfolding send_all
  send_all_wire [] s s' e = (
    [],
    ground (arith, append-nil s.conn.outgoing),
    λ r rest i w. unfold receive_all in ground arith,
  )
  send_all_wire (env ∷ envs) s s' e =
      let (_, t, sent, later) = and_then-eq_ok (send g k env s) _ e in
      let (plain, m, first) = send-Sent env s t sent in
      let (wire, out, back) = send_all_wire envs t s' later in
      (
        frame (frame_of s plain) ++ wire,
        out
            ∙ ap (λ (o : Bytes). o ++ wire) first.written
            ∙ append_assoc s.conn.outgoing (frame (frame_of s plain)) wire,
        λ r rest i w.
            let next = record r {
              conn = record (r.conn) { incoming = wire ++ rest };
              recv_enc = advance r.recv_enc;
            } in
            let head =
              receive-frame_of env plain (wire ++ rest) s r m i first.fits
                (w ∙ append_assoc (frame (frame_of s plain)) wire rest) in
            receive_all_step (length envs) r next (received r s' rest) env envs head
              (back next rest (ground (arith, first.counted)) refl),
      )

  -- Whatever an end that has written nothing before sends without an error, an other end in step with
  -- it receives, if those bytes are the first of its input: each envelope once and in order. What
  -- follows stays in the input, and the ends are in step again.
  pub receive_all-send_all :
      (envs : List Envelope) (s s' r : Session) (rest : Bytes)
      → s.conn.outgoing ≡ []
      → InStep s r
      → send_all g k envs s ≡ (ok tt, s')
      → r.conn.incoming ≡ s'.conn.outgoing ++ rest
      → receive_all g k (length envs) r ≡ (ok envs, received r s' rest)
  receive_all-send_all envs s s' r rest fresh i e w =
      let (wire, out, back) = send_all_wire envs s s' e in back r rest i (ground (arith, out, w))

module _ (k : Codec) where
  -- A message in clear that an end which has written nothing before sends without an error is
  -- received by an end whose input begins with those bytes, and what follows stays.
  pub receive_cleartext-send_cleartext :
      (env : Envelope) (s s' r : Session) (rest : Bytes)
      → s.conn.outgoing ≡ []
      → send_cleartext k env s ≡ (ok tt, s')
      → r.conn.incoming ≡ s'.conn.outgoing ++ rest
      → receive_cleartext k r ≡ (ok env, record r { conn = record (r.conn) { incoming = rest } })
  unfolding send_cleartext receive_cleartext
  receive_cleartext-send_cleartext env s s' r rest fresh e w = elim (Option-cases (k.marshal env)) [
    | inl m ↦ ground (arith, m)
    | inr (plain, m) ↦
        let (small, out, _) = write_frame-eq_ok plain s.conn s'.conn (ground (arith, m)) in
        ground (
          arith,
          m,
          k.unmarshal-marshal env plain m,
          read_frame-frame plain rest r.conn small (ground (arith, out, w)),
        )
  ]

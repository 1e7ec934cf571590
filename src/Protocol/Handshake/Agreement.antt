-- ===== src/Protocol/Handshake/Agreement.antt =====
-- Both ends of a handshake come out with sessions that fit each other.
use go_connect.Base.{
  ◌+◌, ◌-◌, ◌≤◌, ◌≡◌, ◌≢◌, refl, ap, ◌∙◌, [], ◌∷◌, ◌++◌, none, some, Result, ok, err, map_ok, arith,
  length,
}
use go_connect.Bytes.{Bytes}
use go_connect.Pb.{get_handshake}
use go_connect.Crypto.Keys.Curve.{Primitives}
use go_connect.Crypto.Keys.{DirectionalKeys, KeyPair, generate_key_pair, derive_directional_keys}
use go_connect.Crypto.Keys.Agreement.{crossed, derive_directional_keys-crossed, derived_lengths}
use go_connect.Protocol.Wire.{Conn}
use go_connect.Protocol.Codec.{Codec}
use go_connect.Protocol.Framing.{frame, max_frame_size}
use go_connect.Protocol.Framing.RoundTrip.{read_frame-frame, write_frame-frame}
use go_connect.Protocol.Session.{Session, new_session}
use go_connect.Protocol.Session.Delivery.{InStep}
use go_connect.Protocol.Handshake.{
  HandshakeError, hello, perform_handshake, unmarshal_failed, not_a_handshake, empty_key,
}

module _ (p : Primitives) (k : Codec) where
  abbrev pub pair_of : Bytes → KeyPair
  pair_of key = record { private_key = key; public_key = p.public_of key }

  -- The connection behind the handshake, and the session on it.
  abbrev after : Conn → Bytes → Bytes → Conn
  after c wire rest = record c {
    incoming = rest;
    outgoing = c.outgoing ++ frame wire;
    room = c.room - (length wire + 4);
  }

  abbrev session_on : Conn → DirectionalKeys → Session
  session_on c keys = record {
    conn = c;
    send_enc = record { key = keys.send_key; counter = 0 };
    recv_enc = record { key = keys.recv_key; counter = 0 };
  }

  -- One end, which is sent the public key of `there`.
  one_end :
      (here there wire remote rest : Bytes) (keys : DirectionalKeys) (c : Conn)
      → k.marshal (hello (pair_of here)) ≡ some wire
      → k.marshal (hello (pair_of there)) ≡ some remote
      → length wire ≤ max_frame_size
      → length remote ≤ max_frame_size
      → length wire + 4 ≤ c.room
      → c.incoming ≡ frame remote ++ rest
      → derive_directional_keys p (pair_of here) (p.public_of there) ≡ ok keys
      → perform_handshake p k (some here) c
        ≡ (ok (session_on (after c wire rest) keys), after c wire rest)
  unfolding perform_handshake generate_key_pair new_session get_handshake
  one_end here there wire remote rest keys c m m' small small' room e d = ground (
    arith,
    m,
    write_frame-frame wire c small room,
    read_frame-frame remote rest
        (record c { outgoing = c.outgoing ++ frame wire; room = c.room - (length wire + 4) }) small'
        e,
    k.unmarshal-marshal (hello (pair_of there)) remote m',
    p.length-public_of there,
    d,
    derived_lengths p (pair_of here) (p.public_of there) keys d,
  )

  -- Two ends with different public keys, each with the other's hello (of at most 1 MiB) at the head of
  -- its input and room to write its own, come out of the handshake with sessions of which each sends
  -- under the key and the counter that the other receives under, if the keys can be derived at one
  -- end. What follows the hello stays in the input, and nothing but the hello is written.
  pub handshake_agreement :
      (a b wire_a wire_b rest_a rest_b : Bytes) (keys : DirectionalKeys) (ca cb : Conn)
      → k.marshal (hello (pair_of a)) ≡ some wire_a
      → k.marshal (hello (pair_of b)) ≡ some wire_b
      → length wire_a ≤ max_frame_size
      → length wire_b ≤ max_frame_size
      → length wire_a + 4 ≤ ca.room
      → length wire_b + 4 ≤ cb.room
      → ca.incoming ≡ frame wire_b ++ rest_a
      → cb.incoming ≡ frame wire_a ++ rest_b
      → p.public_of a ≢ p.public_of b
      → derive_directional_keys p (pair_of a) (p.public_of b) ≡ ok keys
      → (sa : Session) × (sb : Session) × (perform_handshake p k (some a) ca ≡ (ok sa, sa.conn))
        × (perform_handshake p k (some b) cb ≡ (ok sb, sb.conn))
        × InStep sa sb
        × InStep sb sa
        × (sa.conn.incoming ≡ rest_a)
        × (sb.conn.incoming ≡ rest_b)
        × (sa.conn.outgoing ≡ ca.outgoing ++ frame wire_a)
        × (sb.conn.outgoing ≡ cb.outgoing ++ frame wire_b)
  handshake_agreement a b wire_a wire_b rest_a rest_b keys ca cb ma mb la lb ra rb ia ib ne d =
      let d' =
        derive_directional_keys-crossed p (pair_of a) (pair_of b) refl refl ne
        ∙ ap (map_ok crossed) d in
      (
        session_on (after ca wire_a rest_a) keys,
        session_on (after cb wire_b rest_b) (crossed keys),
        one_end a b wire_a wire_b rest_a keys ca ma mb la lb ra ia d,
        one_end b a wire_b wire_a rest_b (crossed keys) cb mb ma lb la rb ib d',
        (refl, refl),
        (refl, refl),
        refl,
        refl,
        refl,
        refl,
      )

  -- What the other end's first frame has to be.
  unfoldable pub remote_key : Bytes → Result HandshakeError Bytes
  remote_key remote = elim (k.unmarshal remote) [
    | none ↦ err unmarshal_failed
    | some env ↦ elim (get_handshake env) [
      | none ↦ err not_a_handshake
      | some h ↦ elim (h.public_key) [ [] ↦ err empty_key | x ∷ xs ↦ ok (x ∷ xs) ]
    ]
  ]

  -- Where this end can write its hello, a first frame of the other end that does not decode, or
  -- carries no Handshake, or an empty key, ends the handshake with the error for it.
  pub handshake_rejects :
      (here wire remote rest : Bytes) (c : Conn) (e : HandshakeError)
      → k.marshal (hello (pair_of here)) ≡ some wire
      → length wire ≤ max_frame_size
      → length remote ≤ max_frame_size
      → length wire + 4 ≤ c.room
      → c.incoming ≡ frame remote ++ rest
      → remote_key remote ≡ err e
      → (perform_handshake p k (some here) c).0 ≡ err e
  unfolding perform_handshake generate_key_pair remote_key
  handshake_rejects here wire remote rest c e m small small' room w bad = ground (
    arith,
    m,
    write_frame-frame wire c small room,
    read_frame-frame remote rest
        (record c { outgoing = c.outgoing ++ frame wire; room = c.room - (length wire + 4) }) small'
        w,
  )

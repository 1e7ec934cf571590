-- ===== src/Protocol/Handshake/Tests.antt =====
-- A handshake between two ends, with the sample primitives.
use go_connect.Base.{ℕ, ◌≡◌, refl, [], ◌∷◌, ◌++◌, ok, err, some, arith}
use go_connect.Bytes.{Bytes, less_bytes}
use go_connect.Pb.{get_handshake}
use go_connect.Crypto.Keys.{DirectionalKeys, assign_keys, derive_directional_keys}
use go_connect.Protocol.Wire.{Conn}
use go_connect.Protocol.Framing.{frame}
use go_connect.Protocol.Session.{Session}
use go_connect.Protocol.Session.Delivery.{InStep}
use go_connect.Protocol.Handshake.{perform_handshake, not_a_handshake}
use go_connect.Protocol.Handshake.Agreement.{
  pair_of, handshake_agreement, handshake_rejects, remote_key,
}
use go_connect.Samples.{open_primitives, tagged_codec, zeros}

abbrev hello_of : ℕ → Bytes
hello_of n = 1 ∷ n ∷ zeros 31

abbrev facing : Bytes → Conn
facing xs = record { incoming = xs; outgoing = []; room = 100 }

abbrev both_zero : DirectionalKeys
both_zero = record { send_key = zeros 32; recv_key = zeros 32 }

derived :
    derive_directional_keys open_primitives
      (pair_of open_primitives tagged_codec (3 ∷ []))
      (open_primitives.public_of (4 ∷ []))
    ≡ ok both_zero
unfolding derive_directional_keys assign_keys less_bytes
derived = refl

handshake_agreement_example :
    let ca = facing (frame (hello_of 4) ++ (5 ∷ [])) in
    let cb = facing (frame (hello_of 3) ++ []) in
    (sa : Session) × (sb : Session) × (perform_handshake open_primitives tagged_codec
        (some (3 ∷ []))
        ca
      ≡ (ok sa, sa.conn))
    × (perform_handshake open_primitives tagged_codec (some (4 ∷ [])) cb ≡ (ok sb, sb.conn))
    × InStep sa sb
    × InStep sb sa
    × (sa.conn.incoming ≡ 5 ∷ [])
    × (sb.conn.incoming ≡ [])
    × (sa.conn.outgoing ≡ frame (hello_of 3))
    × (sb.conn.outgoing ≡ frame (hello_of 4))
handshake_agreement_example =
    handshake_agreement open_primitives tagged_codec (3 ∷ []) (4 ∷ []) (hello_of 3) (hello_of 4)
      (5 ∷ []) [] both_zero (facing (frame (hello_of 4) ++ (5 ∷ [])))
      (facing (frame (hello_of 3) ++ [])) refl refl (omega arith) (omega arith) (omega arith)
      (omega arith) refl refl (λ e. cc) derived

-- The peer sends a Heartbeat in place of its key.
handshake_rejects_example :
    (perform_handshake open_primitives tagged_codec
      (some (3 ∷ []))
      (facing (frame (10 ∷ []) ++ []))).0
    ≡ err not_a_handshake
unfolding remote_key get_handshake
handshake_rejects_example =
    handshake_rejects open_primitives tagged_codec (3 ∷ []) (hello_of 3) (10 ∷ []) []
      (facing (frame (10 ∷ []) ++ [])) not_a_handshake refl (omega arith) (omega arith)
      (omega arith) refl refl

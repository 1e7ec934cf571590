-- ===== src/Protocol/Framing/Tests.antt =====
-- Frames at concrete inputs.
use go_connect.Base.{◌≤◌, ◌≡◌, refl, [], ◌∷◌, ◌++◌, ok, err, arith}
use go_connect.Bytes.{Bytes, put_u32, get_u32}
use go_connect.Protocol.Wire.{Conn, read_full, write}
use go_connect.Protocol.Framing.{frame, write_frame, read_frame, max_frame_size, header_failed}
use go_connect.Protocol.Framing.RoundTrip.{read_frame-frame, read_frame-eq_ok}

abbrev reading : Bytes → Conn
reading xs = record { incoming = xs; outgoing = []; room = 100 }

frame_of_two : frame (7 ∷ 9 ∷ []) ≡ 0 ∷ 0 ∷ 0 ∷ 2 ∷ 7 ∷ 9 ∷ []
unfolding frame put_u32
frame_of_two = refl

write_two : (write_frame (7 ∷ 9 ∷ []) (reading [])).1.outgoing ≡ 0 ∷ 0 ∷ 0 ∷ 2 ∷ 7 ∷ 9 ∷ []
unfolding write_frame write frame put_u32
write_two = refl

read_empty : read_frame (reading (0 ∷ 0 ∷ 0 ∷ 0 ∷ 5 ∷ [])) ≡ (ok [], reading (5 ∷ []))
unfolding read_frame read_full get_u32
read_empty = refl

read_two :
    read_frame (reading (0 ∷ 0 ∷ 0 ∷ 2 ∷ 7 ∷ 9 ∷ 5 ∷ [])) ≡ (ok (7 ∷ 9 ∷ []), reading (5 ∷ []))
unfolding read_frame read_full get_u32
read_two = refl

read_half_a_header : read_frame (reading (0 ∷ 0 ∷ [])) ≡ (err header_failed, reading [])
unfolding read_frame read_full
read_half_a_header = refl

read_frame-frame_example :
    read_frame (reading (frame (7 ∷ 9 ∷ []) ++ (5 ∷ []))) ≡ (ok (7 ∷ 9 ∷ []), reading (5 ∷ []))
read_frame-frame_example =
    read_frame-frame (7 ∷ 9 ∷ []) (5 ∷ []) (reading (frame (7 ∷ 9 ∷ []) ++ (5 ∷ []))) (omega arith)
      refl

read_frame-eq_ok_example :
    ((0 ∷ 0 ∷ 0 ∷ 2 ∷ 7 ∷ 9 ∷ 5 ∷ []) ≡ frame (7 ∷ 9 ∷ []) ++ (5 ∷ []))
    × (2 ≤ max_frame_size)
    × (reading (5 ∷ []) ≡ reading (5 ∷ []))
read_frame-eq_ok_example =
    read_frame-eq_ok (reading (0 ∷ 0 ∷ 0 ∷ 2 ∷ 7 ∷ 9 ∷ 5 ∷ [])) (reading (5 ∷ [])) (7 ∷ 9 ∷ [])
      (omega arith) read_two

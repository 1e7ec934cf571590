-- ===== src/Protocol/Framing/RoundTrip.antt =====
-- What one end frames, the other end reads back.
use go_connect.Base.{
  ℕ, ◌+◌, ◌-◌, ◌%◌, ◌^◌, ◌≤◌, ◌<◌, ◌≡◌, subst, ◌∙◌, [], ◌∷◌, ◌++◌, length, ok, err, arith, All,
  All-append_left, and_then-eq_ok, and_then, fail_if, pure, ltb, if◌then◌else◌, M, append_assoc,
  length-append,
}
use go_connect.Bytes.{
  Bytes, IsByte, put_u32, get_u32, get-put_u32_self, length-put_u32, put_u32-mod, put-get_u32,
}
use go_connect.Protocol.Wire.{
  Conn, read_full, write, read_full-append, read_full_short, read_full-eq_ok, write_fits,
}
use go_connect.Protocol.Framing.{
  frame, write_frame, read_frame, max_frame_size, frame_length_size, FrameError, payload_too_large,
  write_failed, header_failed, frame_too_large, payload_failed,
}

pub length-frame : (payload : Bytes) → length (frame payload) ≡ length payload + 4
unfolding frame
length-frame payload = ground (
  arith,
  length-append (put_u32 (length payload % 2 ^ 32)) payload,
  length-put_u32 (length payload % 2 ^ 32),
)

read_header :
    (payload rest : Bytes) (c : Conn)
    → c.incoming ≡ frame payload ++ rest
    → read_full frame_length_size header_failed c
      ≡ (ok (put_u32 (length payload % 2 ^ 32)), record c { incoming = payload ++ rest })
unfolding frame
read_header payload rest c e =
    read_full-append 4 header_failed _ (payload ++ rest) c (length-put_u32 _)
      (e ∙ append_assoc (put_u32 (length payload % 2 ^ 32)) payload rest)

-- The frame of a payload of at most 1 MiB at the head of the input is read back as that payload,
-- and what follows it stays.
pub read_frame-frame :
    (payload rest : Bytes) (c : Conn)
    → length payload ≤ max_frame_size
    → c.incoming ≡ frame payload ++ rest
    → read_frame c ≡ (ok payload, record c { incoming = rest })
unfolding read_frame
read_frame-frame [] rest c h e = ground (arith, read_header [] rest c e, get-put_u32_self 0)
read_frame-frame (b ∷ bs) rest c h e =
    let payload = b ∷ bs in
    ground (
      arith,
      read_header payload rest c e,
      get-put_u32_self (length payload % 2 ^ 32),
      read_full-append (length payload) payload_failed payload rest
          (record c { incoming = payload ++ rest }),
    )

-- `WriteFrame` on a payload of at most 1 MiB and a connection with room for it writes the frame and nothing else.
pub write_frame-frame :
    (payload : Bytes) (c : Conn)
    → length payload ≤ max_frame_size
    → length payload + 4 ≤ c.room
    → write_frame payload c ≡ (
      ok tt,
      record c { outgoing = c.outgoing ++ frame payload; room = c.room - (length payload + 4) },
    )
unfolding write_frame
write_frame-frame payload c h r =
    ground (arith, length-frame payload, write_fits (frame payload) write_failed c)

-- A payload above 1 MiB is refused and nothing is written.
pub write_frame_too_large :
    (payload : Bytes) (c : Conn)
    → max_frame_size < length payload
    → write_frame payload c ≡ (err payload_too_large, c)
unfolding write_frame
write_frame_too_large payload c h = ground arith

-- A header that announces more than 1 MiB is refused, with only the header consumed.
read_frame_too_large :
    (size : ℕ) (rest : Bytes) (c : Conn)
    → max_frame_size < size
    → size < 2 ^ 32
    → c.incoming ≡ put_u32 size ++ rest
    → read_frame c ≡ (err frame_too_large, record c { incoming = rest })
unfolding read_frame
read_frame_too_large size rest c h k e = ground (
  arith,
  read_full-append 4 header_failed (put_u32 size) rest c (length-put_u32 size) e,
  get-put_u32_self size,
)

pub read_frame_no_header :
    (c : Conn)
    → length c.incoming < 4
    → read_frame c ≡ (err header_failed, record c { incoming = [] })
unfolding read_frame
read_frame_no_header c h = ground (arith, read_full_short 4 header_failed c h)

-- An input that ends inside the payload that its header announces, of at most 1 MiB, is an error,
-- and all of it is consumed.
pub read_frame_no_payload :
    (payload part : Bytes) (c : Conn)
    → length payload ≤ max_frame_size
    → length part < length payload
    → c.incoming ≡ put_u32 (length payload) ++ part
    → read_frame c ≡ (err payload_failed, record c { incoming = [] })
unfolding read_frame
read_frame_no_payload payload part c h k e = ground (
  arith,
  read_full-append 4 header_failed (put_u32 (length payload)) part c
      (length-put_u32 (length payload)) e,
  get-put_u32_self (length payload),
  read_full_short (length payload) payload_failed (record c { incoming = part }),
)

-- The part of `ReadFrame` behind the header.
read_sized : ℕ → M Conn FrameError Bytes
read_sized size c =
    and_then (fail_if (ltb max_frame_size size) frame_too_large c)
      (λ _. if ltb 0 size then read_full size payload_failed else pure [])

read_sized-eq_ok :
    (size : ℕ) (c c' : Conn) (payload : Bytes)
    → read_sized size c ≡ (ok payload, c')
    → (c.incoming ≡ payload ++ c'.incoming)
      × (length payload ≡ size)
      × (size ≤ max_frame_size)
      × (c' ≡ record c { incoming = c'.incoming })
unfolding read_sized
read_sized-eq_ok size c c' payload e =
    ground (arith, read_full-eq_ok size payload_failed c c' payload)

-- Where the input is bytes, what `ReadFrame` returns stood framed at the head of the input, is at most 1 MiB, and nothing but
-- that frame was consumed.
pub read_frame-eq_ok :
    (c c' : Conn) (payload : Bytes)
    → All IsByte c.incoming
    → read_frame c ≡ (ok payload, c')
    → (c.incoming ≡ frame payload ++ c'.incoming)
      × (length payload ≤ max_frame_size)
      × (c' ≡ record c { incoming = c'.incoming })
unfolding read_frame frame read_sized
read_frame-eq_ok c c' payload b e =
    let (header, d, h, k) = and_then-eq_ok (read_full frame_length_size header_failed c) _ e in
    let (split, four, kept) = read_full-eq_ok 4 header_failed c d header h in
    let (rest, size, small, same) = read_sized-eq_ok (get_u32 header) d c' payload k in
    let bytes = All-append_left IsByte header d.incoming (subst (All IsByte) split b) in
    ground (
      arith,
      put_u32-mod (length payload),
      put-get_u32 header,
      append_assoc header payload c'.incoming,
    )

-- Both halves of what a successful `WriteFrame` says.
pub write_frame-eq_ok :
    (payload : Bytes) (c c' : Conn)
    → write_frame payload c ≡ (ok tt, c')
    → (length payload ≤ max_frame_size)
      × (c'.outgoing ≡ c.outgoing ++ frame payload)
      × (c'.incoming ≡ c.incoming)
unfolding write_frame write
write_frame-eq_ok payload c c' e = ground arith

-- ===== src/Protocol/Session/Tests.antt =====
-- Sessions at concrete inputs, with the sample cipher and codec.
use go_connect.Base.{◌≡◌, refl, [], ◌∷◌, ◌++◌, ok, err, length, arith}
use go_connect.Bytes.{Bytes}
use go_connect.Pb.{Envelope, carrying, stream_data, heartbeat}
use go_connect.Crypto.Aead.{nonce_mismatch}
use go_connect.Protocol.Framing.{frame, payload_too_large}
use go_connect.Protocol.Session.{
  Session, send, receive, write_failed, decrypt_failed, send_cleartext, receive_cleartext,
}
use go_connect.Protocol.Session.Delivery.{
  send_all, receive_all, received, receive_all-send_all, frame_of, receive_cleartext-send_cleartext,
}
use go_connect.Protocol.Session.Limits.{send_fits, send_oversize, oversize_breaks}
use go_connect.Samples.{plain_gcm, tagged_codec, zeros, blank, length-blank}
use go_connect.Protocol.Framing.RoundTrip.{write_frame-frame}

abbrev beat : Envelope
beat = carrying heartbeat

abbrev some_data : Envelope
some_data = carrying (stream_data (record { stream_id = 3; payload = 7 ∷ 9 ∷ [] }))

-- The two ends of a connection, of which the second finds `xs` to read.
abbrev here : Session
here = record {
  conn = record { incoming = []; outgoing = []; room = 2000 };
  send_enc = record { key = zeros 32; counter = 0 };
  recv_enc = record { key = zeros 32; counter = 0 };
}

abbrev there : Bytes → Session
there xs = record here { conn = record { incoming = xs; outgoing = []; room = 2000 } }

-- Two messages, as `send_fits` says that they are written.
abbrev one_sent : Session
one_sent = record here {
  conn = record {
    incoming = [];
    outgoing = frame (frame_of plain_gcm tagged_codec here (8 ∷ 3 ∷ 7 ∷ 9 ∷ []));
    room = 1964;
  };
  send_enc = record { key = zeros 32; counter = 1 };
}

send_fits_example : send plain_gcm tagged_codec some_data here ≡ (ok tt, one_sent)
send_fits_example =
    send_fits plain_gcm tagged_codec some_data (8 ∷ 3 ∷ 7 ∷ 9 ∷ []) refl here (omega arith)
      (omega arith)

sent_alone : send_all plain_gcm tagged_codec (some_data ∷ []) here ≡ (ok tt, one_sent)
unfolding send_all
sent_alone = ground (arith, send_fits_example)

receive_all-send_all_example :
    receive_all plain_gcm tagged_codec 1 (there (one_sent.conn.outgoing ++ (1 ∷ []))) ≡ (
      ok (some_data ∷ []),
      received plain_gcm tagged_codec
          (there (one_sent.conn.outgoing ++ (1 ∷ [])))
          one_sent
          (1 ∷ []),
    )
receive_all-send_all_example =
    receive_all-send_all plain_gcm tagged_codec (some_data ∷ []) here one_sent
      (there (one_sent.conn.outgoing ++ (1 ∷ []))) (1 ∷ []) refl (refl, refl) sent_alone refl

hello_sent : send_cleartext tagged_codec beat here ≡ (
  ok tt,
  record here { conn = record { incoming = []; outgoing = frame (10 ∷ []); room = 1995 } },
)
unfolding send_cleartext
hello_sent = ground (arith, write_frame-frame (10 ∷ []) here.conn)

receive_cleartext-send_cleartext_example :
    receive_cleartext tagged_codec (there (frame (10 ∷ []) ++ [])) ≡ (ok beat, there [])
receive_cleartext-send_cleartext_example =
    receive_cleartext-send_cleartext tagged_codec beat here
      (record here { conn = record { incoming = []; outgoing = frame (10 ∷ []); room = 1995 } })
      (there (frame (10 ∷ []) ++ [])) [] refl hello_sent refl

-- A message of exactly 1 MiB.
abbrev whole : Bytes
whole = 8 ∷ 3 ∷ blank 1048574

abbrev whole_data : Envelope
whole_data = carrying (stream_data (record { stream_id = 3; payload = blank 1048574 }))

length-whole : length whole ≡ 1048576
length-whole = omega (arith, length-blank 1048574)

abbrev out_of_step : Session
out_of_step = record here { send_enc = record { key = zeros 32; counter = 1 } }

whole_refused :
    send plain_gcm tagged_codec whole_data here
    ≡ (err (write_failed payload_too_large), out_of_step)
whole_refused =
    send_oversize plain_gcm tagged_codec whole_data whole refl here (omega (arith, length-whole))
      (omega (arith, length-whole))

abbrev beat_sent : Session
beat_sent = record here {
  conn = record {
    incoming = [];
    outgoing = frame (frame_of plain_gcm tagged_codec out_of_step (10 ∷ []));
    room = 1967;
  };
  send_enc = record { key = zeros 32; counter = 2 };
}

beat_goes_out : send plain_gcm tagged_codec beat out_of_step ≡ (ok tt, beat_sent)
beat_goes_out =
    send_fits plain_gcm tagged_codec beat (10 ∷ []) refl out_of_step (omega arith) (omega arith)

oversize_breaks_example :
    (x : Bytes) × ((receive plain_gcm tagged_codec (there beat_sent.conn.outgoing)).0
      ≡ err (decrypt_failed x nonce_mismatch))
oversize_breaks_example =
    oversize_breaks plain_gcm tagged_codec whole_data beat whole here out_of_step beat_sent
      (there beat_sent.conn.outgoing) refl (omega (arith, length-whole))
      (omega (arith, length-whole)) refl (refl, refl) (omega arith) whole_refused beat_goes_out refl

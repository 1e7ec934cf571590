-- ===== src/Tunnel/Login.antt =====
-- The part of `Start` that pkg/tunnel/listener.go and connector.go have in common: dialling the
-- broker, the handshake, the Authenticate message, the request and its answer.
use Prim.Native.String.{String}
use go_connect.Base.{Bool, true, ◌||◌, Option, none, some, ok, err, M, if◌then◌else◌}
use go_connect.Bytes.{Bytes}
use go_connect.Pb.{Envelope, carrying, authenticate}
use go_connect.Tunnel.Net.{Net, send, can_send, close_broker}

-- What happens around `Start`: whether the dial and the handshake succeed, whether the connection
-- breaks before each of the two messages, what `Receive` gives, and whether the local port is free.
pub record Script : Type 0 where
  pub dials : Bool
  pub shakes_hands : Bool
  pub breaks_first : Bool
  pub breaks_second : Bool
  pub answer : Option Envelope
  pub port_free : Bool

pub data StartError : Type 0 where
  dial_failed handshake_failed auth_failed request_failed no_answer wrong_answer : StartError
  rejected : String → StartError
  listen_failed : StartError

-- `conn.Close()` and the error.
abbrev pub fail : {A : Type 0} → StartError → M Net StartError A
fail e n = (err e, close_broker n)

may_break : Bool → Net → Net
may_break now n = record n { broker_broken = n.broker_broken || now }

-- The session is there once the handshake is done.
log_in_shaken : Bytes → Envelope → Script → M Net StartError Envelope
unfolding may_break send can_send close_broker
log_in_shaken hash request script n0 =
    let n1 = may_break script.breaks_first n0 in
    let auth = carrying (authenticate (record { passphrase_hash = hash })) in
    let n2 = may_break script.breaks_second (send auth n1) in
    let n3 = send request n2 in
    if can_send n1
    then (if can_send n2
        then elim (script.answer) [ none ↦ fail no_answer n3 | some env ↦ (ok env, n3) ]
        else fail request_failed n3)
    else fail auth_failed (send auth n1)

unfoldable pub log_in : Bytes → Envelope → Script → M Net StartError Envelope
unfolding log_in_shaken close_broker
log_in hash request script n =
    if script.dials
    then (if script.shakes_hands
        then log_in_shaken hash request script (record n { broker_open = true })
        else fail handshake_failed n)
    else (err dial_failed, n)

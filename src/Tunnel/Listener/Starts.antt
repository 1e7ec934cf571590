-- ===== src/Tunnel/Listener/Starts.antt =====
-- What `Start` of the listener leaves behind, whatever happens around it.
use Prim.Native.String.{String}
use go_connect.Base.{
  ◌⊎◌, ◌≡◌, [], ◌∷◌, Bool, true, false, not, ◌&&◌, Option, none, some, ok, err, arith,
}
use go_connect.Bytes.{Bytes}
use go_connect.Pb.{Envelope, carrying, authenticate, register, get_register_ack}
use go_connect.Tunnel.Net.{can_send, send, close_broker}
use go_connect.Tunnel.Login.{Script, StartError, log_in}
use go_connect.Tunnel.Listener.{start, check_ack, new_listener}

-- Whether the broker's answer is a RegisterAck that says success.
unfoldable pub welcomes : Option Envelope → Bool
welcomes none = false
welcomes (some env) = elim (get_register_ack env) [ some ack ↦ ack.success | none ↦ false ]

-- Whether everything around `Start` goes well.
unfoldable pub goes_well : Script → Bool
unfolding welcomes
goes_well script =
    script.dials
    && script.shakes_hands
    && not script.breaks_first
    && not script.breaks_second
    && welcomes script.answer

-- Where the broker is reached, the handshake is done, the connection does not break before either
-- message and the answer is a RegisterAck that says success, `Start` of a new listener succeeds: the
-- message loop runs on an open broker connection, on which Authenticate with the hash and then
-- Register were sent, and nothing else. In every other case it is an error, with the broker
-- connection closed, no loop running and no stream.
pub start_registered :
    (sha256 : Bytes → Bytes) (passphrase : Bytes) (connection_id : String) (script : Script)
    → let (r, s) = start sha256 passphrase connection_id script new_listener in
      ((goes_well script ≡ true)
        × (r ≡ ok tt)
        × (s.receiving ≡ true)
        × (can_send s.net ≡ true)
        × (s.net.outbox
            ≡ carrying (authenticate (record { passphrase_hash = sha256 passphrase }))
              ∷ carrying (register (record { connection_id = connection_id }))
              ∷ []))
      ⊎ ((goes_well script ≡ false)
          × ((e : StartError) × (r ≡ err e))
          × (s.receiving ≡ false)
          × (s.net.broker_open ≡ false)
          × (s.streams ≡ []))
unfolding start new_listener log_in check_ack send can_send close_broker goes_well
start_registered sha256 passphrase connection_id script = ground arith

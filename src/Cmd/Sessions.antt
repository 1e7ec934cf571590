-- ===== src/Cmd/Sessions.antt =====
-- The commands `listen` and `connect`, cmd/listen.go and cmd/connect.go: the functions they give to
-- `RunWithReconnect`, and what they say of an error. The two differ in a few messages; `Command`
-- says which one it is. Numbers and durations as text are parameters, and an error is its text.
pub mod Closed
pub mod Quiet
mod Tests
use Prim.Native.String.{String, ◌++◌ as join_text}
use go_connect.Base.{
  ℕ, zero, ◌+◌, Bool, true, false, ◌||◌, List, [], ◌∷◌, ◌++◌, Option, none, some, if◌then◌else◌, ℤ,
  pos, negsuc, ◌==◌,
}
use go_connect.Ui.{Ui}
use go_connect.Ui.Modes.{Message, successful, failed, warned, informed, hinted, bare, blank}
use go_connect.Tunnel.Reconnect.{
  ReconnectEvent, Action, connecting, cleaning, calling, Outcome, returned_nil, returned_err,
  returned_ctx_err, exhausted, still_running, Error, connect_failed, connection_lost,
}

pub data Command : Type 0 where
  listen connect : Command

-- The local port, the broker's address and the connection ID are texts.
pub record Session : Type 0 where
  pub command : Command
  pub local_port : String
  pub broker_addr : String
  pub connection_id : String

pub record Formats : Type 0 where
  pub decimal : ℤ → String
  pub milliseconds : ℕ → String
  pub quoted : String → String
  pub contains : String → String → Bool

-- The variable `listener` or `connector`: the number of the object it holds, the number of objects
-- made so far, and the ones that were closed.
pub record Holder : Type 0 where
  pub held : Option ℕ
  pub made : ℕ
  pub closed : List ℕ

abbrev pub no_holder : Holder
no_holder = record { held = none; made = 0; closed = [] }

-- `connect` puts a new object into the variable before it is started.
unfoldable pub replace : Holder → Holder
replace h = record { held = some h.made; made = h.made + 1; closed = h.closed }

-- `cleanup`
unfoldable pub clean_up : Holder → Holder
clean_up h = elim h.held [
  | none ↦ h
  | some x ↦ record { held = none; made = h.made; closed = x ∷ h.closed }
]

unfoldable pub act : Action → Holder → Holder
unfolding replace clean_up
act connecting h = replace h
act cleaning h = clean_up h
act (calling ev) h = h

unfoldable pub act_all : List Action → Holder → Holder
unfolding act
act_all [] h = h
act_all (a ∷ actions) h = act_all actions (act a h)

again : Session → Message
again s = elim s.command [
  | listen ↦
      successful
        (join_text "Re-registered as listener (Connection ID: " (join_text s.connection_id ")"))
  | connect ↦ successful (join_text "Re-linked to listener " s.connection_id)
]

abbrev retry_label : Formats → ℤ → String
retry_label fmt (negsuc zero) = "∞"
retry_label fmt n = fmt.decimal n

-- The callback.
unfoldable pub report : Formats → Session → ReconnectEvent → List Message
unfolding again
report fmt s ev =
    if ev.is_connected
    then successful "Re-established connection to broker"
      ∷ successful "Encryption re-negotiated"
      ∷ again s
      ∷ []
    else (if ev.attempt == 1
        then warned "Connection to broker lost" ∷ blank ∷ informed "Reconnecting..." ∷ []
        else [])
      ++ (informed (
            join_text "  Attempt " (
              join_text (fmt.decimal (pos ev.attempt)) (
                join_text "/" (
                  join_text (retry_label fmt ev.max_retries) (
                    join_text " ... failed (waiting "
                      (join_text (fmt.milliseconds ev.delay) ")"))))))
          ∷ [])

-- What `connect` says where it succeeds, the first time only.
unfoldable pub greet : Ui → Session → Bool → List Message
greet u s false = []
greet u s true =
    successful (join_text "Connected to broker at " s.broker_addr)
    ∷ successful "Encryption established (X25519 + AES-256-GCM)"
    ∷ elim s.command [
      | listen ↦
          blank
          ∷ (if u.is_quiet
              then bare s.connection_id ∷ []
              else informed (join_text "Connection ID: " s.connection_id)
                ∷ blank
                ∷ informed "Share this ID with the connecting client."
                ∷ informed (
                    join_text "Listening for connections on local port "
                      (join_text s.local_port "..."))
                ∷ [])
      | connect ↦
          successful (join_text "Linked to listener " s.connection_id)
          ∷ blank
          ∷ informed (join_text "Local service available on 127.0.0.1:" s.local_port)
          ∷ []
    ]

unreached : Session → List Message
unreached s =
    failed (join_text "Cannot reach broker at " s.broker_addr)
    ∷ hinted (
        join_text "Is the broker running? Start it with: go-connect broker --bind-to="
          s.broker_addr)
    ∷ []

unknown : Formats → Session → String → List Message
unknown fmt s err_msg =
    if fmt.contains err_msg "passphrase mismatch" || fmt.contains err_msg "EOF"
    then failed "Authentication failed"
      ∷ hinted "The passphrase does not match. Check --passphrase or GO_CONNECT_PASSPHRASE."
      ∷ []
    else failed (join_text "Failed to connect: " err_msg) ∷ []

-- What is said of an error.
unfoldable pub explain : Formats → Session → String → List Message
unfolding unreached unknown
explain fmt s err_msg = elim s.command [
  | listen ↦
      if fmt.contains err_msg "connection refused"
      then unreached s
      else if fmt.contains err_msg "registration rejected"
      then failed "Registration rejected by broker"
        ∷ hinted "The connection ID may already be in use. Try a different --id."
        ∷ []
      else unknown fmt s err_msg
  | connect ↦
      if fmt.contains err_msg "no listener registered"
      then failed (join_text "No listener found for ID " (fmt.quoted s.connection_id))
        ∷ hinted
            "The listener may not have started yet, the ID may be incorrect, or the listener disconnected."
        ∷ hinted (
            join_text "Run \"go-connect listen -p <port> -b "
              (join_text s.broker_addr "\" on the remote machine first."))
        ∷ []
      else if fmt.contains err_msg "connection refused"
      then unreached s
      else unknown fmt s err_msg
]

error_text : (ℕ → String) → Error → String
error_text texts (connect_failed e) = texts e
error_text texts connection_lost = "connection lost"

-- The error that `RunWithReconnect` returns, as text. `texts` are those of the errors of `connect`.
outcome_text : Formats → (ℕ → String) → Outcome → Option String
unfolding error_text
outcome_text fmt texts returned_nil = none
outcome_text fmt texts (returned_err e) = some (error_text texts e)
outcome_text fmt texts returned_ctx_err = some "context canceled"
outcome_text fmt texts (exhausted n e) = some (
    join_text "reconnect: max retries ("
      (join_text (fmt.decimal n) (join_text ") exhausted: " (error_text texts e))))
outcome_text fmt texts still_running = none

-- How the command ends: what it says, and whether it returns an error. `cancelled` is whether the
-- user has interrupted it.
unfoldable pub finish : Formats → Session → (ℕ → String) → Bool → Outcome → List Message × Bool
unfolding outcome_text explain
finish fmt s texts cancelled outcome = elim (outcome_text fmt texts outcome) [
  | none ↦ ([], false)
  | some err_msg ↦ if cancelled then ([], false) else (explain fmt s err_msg, true)
]

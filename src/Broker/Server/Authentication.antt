-- ===== src/Broker/Server/Authentication.antt =====
-- Who passes `authenticateClient` of pkg/broker/server.go.
use go_connect.Base.{
  ◌≡◌, Bool, false, none, some, if◌then◌else◌, ◌==◌, arith, Bool-cases, Option-cases, inl, inr,
}
use go_connect.Bytes.{Bytes, bytes_eq}
use go_connect.Pb.{get_authenticate}
use go_connect.Broker.Router.{Client}
use go_connect.Broker.State.{
  Server, choosing, gone, close_conn, warn, set_phase, log_invalid_auth_payload,
  log_passphrase_mismatch,
}
use go_connect.Broker.Server.{
  AuthInput, set_deadline_failed, receive_failed, clear_deadline_failed, received,
  authenticate_client, handle_auth, leave,
}

-- Whether what was read is an Authenticate message with this hash.
unfoldable pub proves : Bytes → AuthInput → Bool
proves hash (received raw env) = elim (get_authenticate env) [
  | none ↦ false
  | some auth ↦ bytes_eq auth.passphrase_hash hash
]
proves hash _ = false

-- A client goes on to its first message where it sent an Authenticate message with the hash of the
-- server's passphrase; in every other case its connection is closed and its handler returns. Nothing
-- is sent to it either way, and the router and all other clients stay as they were.
pub handle_auth-proves :
    (x other : Client) (input : AuthInput) (s : Server)
    → ((handle_auth x input s).heap other ≡ (
        if other == x
        then (if proves s.passphrase_hash input
            then record (s.heap x) { phase = choosing }
            else record (s.heap x) { phase = gone; conn_open = false })
        else s.heap other))
      × ((handle_auth x input s).router ≡ s.router)
unfolding handle_auth authenticate_client proves leave close_conn set_phase warn
    log_invalid_auth_payload log_passphrase_mismatch
handle_auth-proves x other set_deadline_failed s = (ground arith, ground arith)
handle_auth-proves x other (receive_failed raw) s = (ground arith, ground arith)
handle_auth-proves x other clear_deadline_failed s = (ground arith, ground arith)
handle_auth-proves x other (received raw env) s = elim (Option-cases (get_authenticate env)) [
  | inl e ↦ (ground (arith, e), ground (arith, e))
  | inr (auth, e) ↦ elim (Bool-cases (bytes_eq auth.passphrase_hash s.passphrase_hash)) [
    | inl f ↦ (ground (arith, e, f), ground (arith, e, f))
    | inr f ↦ (ground (arith, e, f), ground (arith, e, f))
  ]
]

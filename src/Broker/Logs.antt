-- ===== src/Broker/Logs.antt =====
-- The texts that pkg/broker/server.go gives to its logger. `%q`, `%d` and base64 are parameters.
pub mod Lines
mod Tests
use Prim.Native.String.{String}
use go_connect.Base.{ℕ, ◌++◌, List, []}
use go_connect.Bytes.{Bytes}
use go_connect.Logging.{codes}
use go_connect.Broker.State.{
  LogEntry, invalid_auth_payload, passphrase_mismatch, invalid_connection_id, blocked_ip,
  geo_blocked_ip,
}

pub record Formats : Type 0 where
  pub quoted : String → Bytes
  pub decimal : ℕ → Bytes
  pub base64 : Bytes → Bytes

unfoldable pub log_tag : LogEntry → String
log_tag (invalid_auth_payload remote raw) = "AUTH"
log_tag (passphrase_mismatch remote) = "AUTH"
log_tag (invalid_connection_id id remote) = "ROUTING"
log_tag (blocked_ip remote count) = "IPBLOCK"
log_tag (geo_blocked_ip remote country) = "GEOBLOCK"

unfoldable pub log_message : Formats → LogEntry → Bytes
unfolding codes
log_message fmt (invalid_auth_payload remote raw) =
    codes "invalid auth payload from " ++ (codes remote ++ (codes ": " ++ fmt.base64 raw))
log_message fmt (passphrase_mismatch remote) = codes "passphrase mismatch from " ++ codes remote
log_message fmt (invalid_connection_id id remote) =
    codes "invalid connection ID " ++ (fmt.quoted id ++ (codes " from " ++ codes remote))
log_message fmt (blocked_ip remote count) =
    codes "blocked connection from "
    ++ (codes remote ++ (codes " (ipsum count=" ++ (fmt.decimal count ++ codes ")")))
log_message fmt (geo_blocked_ip remote country) =
    codes "blocked connection from "
    ++ (codes remote ++ (codes " (country=" ++ (codes country ++ codes ")")))

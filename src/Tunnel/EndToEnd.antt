-- ===== src/Tunnel/EndToEnd.antt =====
-- A connector and a listener with a broker between them.
mod Tests
use Prim.Native.String.{String}
use go_connect.Base.{ℕ, ◌+◌, ◌^◌, ◌<◌, ◌≡◌, sym, ◌∙◌, true, some, List, reverse, nat_key, lookup}
use go_connect.Bytes.{Bytes}
use go_connect.Tunnel.Payloads.{payloads, about, fed, payloads-fed}
use go_connect.Tunnel.Net.{can_send}
use go_connect.Tunnel.Login.{Script}
use go_connect.Tunnel.Listener.{Listener}
use go_connect.Tunnel.Connector.{Connector}
use go_connect.Tunnel.Listener.Pipe.{conn_of}
use go_connect.Tunnel.Listener.Writes.{IsCalm}
use go_connect.Tunnel.Listener.Delivery.{started, handled, Orderly, written-fed}
use go_connect.Tunnel.Listener.Events.{Event, run}
use go_connect.Tunnel.Connector.Events.{Event as ConnectorEvent, run as run_connector}
use go_connect.Tunnel.Connector.Streams.{started as started_connector, payloads-taken}

module _ (sha256 : Bytes → Bytes) (passphrase : Bytes) (connection_id : String)
    (script script_connector : Script) where
  abbrev listening : Listener
  listening = started sha256 passphrase connection_id script

  abbrev far : List Event → Listener
  far fs = run fs listening

  abbrev near : List ConnectorEvent → Connector
  near es = run_connector es (started_connector sha256 passphrase connection_id script_connector)

  -- The messages of a stream reach the listener in the order in which the connector sent them, and
  -- all of them have.
  abbrev pub AllArrived : ℕ → List ConnectorEvent → List Event → Type 0
  AllArrived id es fs = about id (near es).net.outbox ≡ reverse (about id (handled fs listening))

  -- When every OpenStream and Data message of a stream of the connector has reached the listener in
  -- order, the listener has written to its local connection of that stream exactly the bytes that
  -- the connector read from its own. The connector had fewer than 2^32 connections and can reach the
  -- broker; at the listener the stream was opened only while no goroutine had it, its data came only
  -- while none wrote what was buffered, none does at the end, and it has a connection.
  pub written-taken :
      (es : List ConnectorEvent) (fs : List Event) (t c : ℕ)
      → (near es).next_worker < 2 ^ 32
      → can_send (near es).net ≡ true
      → t < (near es).next_worker
      → AllArrived (t + 1) es fs
      → Orderly (t + 1) fs listening
      → IsCalm (t + 1) (far fs)
      → conn_of (lookup (t + 1) (far fs).streams) ≡ some c
      → ((far fs).net.conns c).written ≡ ((near es).net.conns t).taken
  written-taken es fs t c few can lt arrived o calm e =
      written-fed sha256 passphrase connection_id script fs (t + 1) c o calm e
      ∙ sym (payloads-fed (t + 1) _ _ arrived)
      ∙ payloads-taken sha256 passphrase connection_id script_connector es t few can lt

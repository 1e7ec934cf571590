-- ===== src/Broker/Server/Events.antt =====
-- The server as its handlers interleave: each event is one of them going on from its blocking read.
pub mod Core
pub mod Steps
pub mod Handlers
pub mod Filters
pub mod Relays
pub mod Runs
mod Tests
use Prim.Native.String.{String}
use go_connect.Base.{ℕ, Bool, true, false, if◌then◌else◌, List, [], ◌∷◌, Option}
use go_connect.Pb.{Envelope}
use go_connect.Broker.Router.{Client}
use go_connect.Broker.State.{
  Server, Phase, shaking, authenticating, choosing, relaying, gone, set_client,
}
use go_connect.Broker.Server.{
  AuthInput, accept, handle_handshake, handle_auth, handle_first, relay_message, heartbeat_tick,
}

-- `breaks` is the other end going away without a word. `Stop` is no event here: it ends the run.
pub data Event : Type 0 where
  arrives : String → Option String → Event
  shakes : Client → Bool → ℕ → Event
  authenticates : Client → AuthInput → Event
  begins : Client → Option Envelope → ℕ → Event
  relays : Client → Option Envelope → ℕ → Event
  ticks : Client → ℕ → Event
  breaks : Client → Event

abbrev pub same_phase : Phase → Phase → Bool
same_phase shaking shaking = true
same_phase authenticating authenticating = true
same_phase choosing choosing = true
same_phase relaying relaying = true
same_phase gone gone = true
same_phase _ _ = false

-- Whether the handler of `x` waits there.
abbrev pub is_at : Phase → Client → Server → Bool
is_at p x s = same_phase p (s.heap x).phase

-- An event is for a handler that waits for it; one that does not is left where it is.
pub step : Event → Server → Server
step (arrives remote host) s = accept remote host s
step (shakes x good now) s = if is_at shaking x s then handle_handshake x good now s else s
step (authenticates x input) s = if is_at authenticating x s then handle_auth x input s else s
step (begins x env now) s = if is_at choosing x s then handle_first x env now s else s
step (relays x env now) s = if is_at relaying x s then relay_message x env now s else s
step (ticks x now) s = if is_at relaying x s then heartbeat_tick x now s else s
step (breaks x) s = set_client x (record (s.heap x) { broken = true }) s

-- A history, the latest event first.
pub run : List Event → Server → Server
run [] s = s
run (e ∷ es) s = step e (run es s)

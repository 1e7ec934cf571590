-- ===== src/Tunnel/Connector/Events.antt =====
-- The connector as its goroutines interleave.
use go_connect.Base.{ℕ, List, [], ◌∷◌, true, Option, if◌then◌else◌}
use go_connect.Pb.{Envelope}
use go_connect.Tunnel.Net.{ReadResult}
use go_connect.Tunnel.Connector.{
  Connector, Worker, waiting, pumping, Wait, handle_message, handle_local_connection, wait_for_ack,
  pump_local_to_remote, close, with_net,
}

-- A local connection, also one that was accepted just before `Close`; a message from the broker; the
-- end of a wait for an acknowledgement; a read that ends; `Close`,
-- and the broker connection that breaks without a word.
pub data Event : Type 0 where
  accepts : ℕ → Event
  receives : Option Envelope → Event
  waits : ℕ → Wait → Event
  reads : ℕ → ReadResult → Event
  closes : Event
  breaks : Event

unfoldable pub work : ℕ → Worker → Event → Connector → Connector
work t (waiting id c ack) (waits u wait) s = wait_for_ack t id c ack wait s
work t (pumping id c) (reads u result) s = pump_local_to_remote t id c result s
work t w e s = s

-- An event is for a worker that waits for it; one that does not is left where it is.
unfoldable pub step : Event → Connector → Connector
unfolding work
step (accepts room) s = handle_local_connection room s
step (receives env) s = if s.receiving then handle_message env s else s
step (waits t wait) s = work t (s.workers t) (waits t wait) s
step (reads t result) s = work t (s.workers t) (reads t result) s
step closes s = close s
step breaks s = with_net (record (s.net) { broker_broken = true }) s

-- A history, the latest event first.
unfoldable pub run : List Event → Connector → Connector
unfolding step
run [] s = s
run (e ∷ es) s = step e (run es s)

-- ===== src/Tunnel/Listener/Events.antt =====
-- The listener as its goroutines interleave.
use go_connect.Base.{ℕ, List, [], ◌∷◌, true, Option, if◌then◌else◌}
use go_connect.Pb.{Envelope}
use go_connect.Tunnel.Net.{ReadResult}
use go_connect.Tunnel.Listener.{
  Listener, Worker, dialing, draining, pumping, handle_message, handle_open_stream, drain,
  pump_local_to_remote, close, with_net,
}

-- A message from the broker, a dial that ends, a buffered payload that is written, a read that
-- ends, `Close`,
-- and the broker connection that breaks without a word.
pub data Event : Type 0 where
  receives : Option Envelope → Event
  dialled : ℕ → Option ℕ → Event
  drains : ℕ → Event
  reads : ℕ → ReadResult → Event
  closes : Event
  breaks : Event

unfoldable pub work : ℕ → Worker → Event → Listener → Listener
work t (dialing id) (dialled u room) l = handle_open_stream t id room l
work t (draining id c buffered) (drains u) l = drain t id c buffered l
work t (pumping id c) (reads u result) l = pump_local_to_remote t id c result l
work t w e l = l

-- An event is for a worker that waits for it; one that does not is left where it is.
unfoldable pub step : Event → Listener → Listener
unfolding work
step (receives env) l = if l.receiving then handle_message env l else l
step (dialled t room) l = work t (l.workers t) (dialled t room) l
step (drains t) l = work t (l.workers t) (drains t) l
step (reads t result) l = work t (l.workers t) (reads t result) l
step closes l = close l
step breaks l = with_net (record (l.net) { broker_broken = true }) l

-- A history, the latest event first.
unfoldable pub run : List Event → Listener → Listener
unfolding step
run [] l = l
run (e ∷ es) l = step e (run es l)

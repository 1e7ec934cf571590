-- ===== src/Tunnel/Connector/Acks.antt =====
-- The streams that may carry data are those with an acknowledgement in the history.
use go_connect.Base.{
  ℕ, ◌≡◌, [], ◌∷◌, List, Bool, true, false, ◌||◌, ◌&&◌, none, some, ◌==◌, arith, nat_key,
}
use go_connect.Pb.{get_open_stream_ack}
use go_connect.Tunnel.Connector.{Connector, Worker, idle, waiting, pumping}
use go_connect.Tunnel.Connector.Events.{Event, accepts, receives, waits, reads, closes, breaks, run}
use go_connect.Tunnel.Connector.Workers.{WorkerOk, Inv}
use go_connect.Tunnel.Connector.Patience.{AllowsEvent, step-Inv}

-- Whether the event is the arrival of an acknowledgement for the stream that says success.
unfoldable pub acks : ℕ → Event → Bool
acks id (receives (some env)) = elim (get_open_stream_ack env) [
  | none ↦ false
  | some m ↦ m.success && m.stream_id == id
]
acks id _ = false

unfoldable pub acked : ℕ → List Event → Bool
unfolding acks
acked id [] = false
acked id (e ∷ es) = acks id e || acked id es

Inv-mono : (A B : ℕ → Type 0) (s : Connector) → ((id : ℕ) → A id → B id) → Inv A s → Inv B s
Inv-mono A B s h v = record {
  conn_count = v.conn_count;
  id_count = v.id_count;
  worker = λ t. WorkerOk-mono s.next_worker t (s.workers t) (v.worker t);
  pends = v.pends;
  sent = λ id e. h id (v.sent id e);
  up = v.up;
}
  where
    WorkerOk-mono : (next t : ℕ) (w : Worker) → WorkerOk A next t w → WorkerOk B next t w
    WorkerOk-mono next t idle ok = tt
    WorkerOk-mono next t (waiting id c none) ok = ok
    WorkerOk-mono next t (waiting id c (some true)) ok = (ok.0, h id ok.1)
    WorkerOk-mono next t (waiting id c (some false)) ok = ok
    WorkerOk-mono next t (pumping id c) ok = (ok.0, h id ok.1)

acked-AllowsEvent : (e : Event) (es : List Event) → AllowsEvent (λ id. acked id (e ∷ es) ≡ true) e
unfolding acked
acked-AllowsEvent (receives env) es = λ f p m q r. ground (arith, p, q, r)
acked-AllowsEvent (accepts room) es = tt
acked-AllowsEvent (waits t w) es = tt
acked-AllowsEvent (reads t r) es = tt
acked-AllowsEvent closes es = tt
acked-AllowsEvent breaks es = tt

pub run-Inv :
    (es : List Event) (s : Connector) → Inv (λ id. ⊥) s → Inv (λ id. acked id es ≡ true) (run es s)
unfolding run acked
run-Inv [] s v = Inv-mono (λ id. ⊥) (λ id. acked id [] ≡ true) s (λ id x. absurd x) v
run-Inv (e ∷ es) s v =
    step-Inv (λ id. acked id (e ∷ es) ≡ true) e (run es s) (acked-AllowsEvent e es)
      (Inv-mono (λ id. acked id es ≡ true) (λ id. acked id (e ∷ es) ≡ true) (run es s)
        (λ id x. ground (arith, x)) (run-Inv es s v))

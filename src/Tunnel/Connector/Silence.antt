-- ===== src/Tunnel/Connector/Silence.antt =====
-- Nothing is sent after `Close`, by any of the connector's goroutines.
use Prim.Native.String.{String}
use go_connect.Base.{
  ℕ, ◌+◌, ◌%◌, ◌^◌, ◌≡◌, ◌∙◌, refl, ap, [], ◌∷◌, ◌++◌, List, true, false, Option, none, some, arith,
  inl, inr, if_cases, Option-cases, Dict, nat_key, lookup, insert, lookup-insert, lookup-delete,
}
use go_connect.Bytes.{Bytes}
use go_connect.Pb.{
  Envelope, get_open_stream_ack, get_stream_data, get_close_stream, get_heartbeat, get_disconnect,
  heartbeat, carrying,
}
use go_connect.Tunnel.Net.{Net, add_conn, close_conn, can_send, send, close_broker}
use go_connect.Tunnel.Login.{Script}
use go_connect.Tunnel.Connector.{
  Connector, shutting_down, remove_stream, remove_pending, close_conns, close, start, new_connector,
  give_up, handle_local_connection, stop_receiving, dispatch, handle_message,
}
use go_connect.Tunnel.Connector.Events.{
  Event, accepts, receives, waits, reads, closes, breaks, step, run,
}
use go_connect.Tunnel.Connector.Streams.{started}
use go_connect.Tunnel.Connector.Closing.{
  Quiet, IsShut, Quiet-IsShut, Quiet-refl, send-Quiet, handle_ack-Quiet, handle_data-Quiet,
  close_stream-Quiet, work-Quiet,
}

-- A change after which a closed connector is still closed and has sent nothing.
record Silent (s t : Connector) : Type 0 where
  shut : IsShut s → IsShut t
  silent : IsShut s → s.closed ≡ true → (t.closed ≡ true) × (t.net.outbox ≡ s.net.outbox)

Quiet-Silent : (s t : Connector) → Quiet s t → Silent s t
Quiet-Silent s t q = record {
  shut = Quiet-IsShut s t q;
  silent = λ v c. (q.still ∙ c, q.sent (v c).0);
}

Silent-trans : (s t u : Connector) → Silent s t → Silent t u → Silent s u
Silent-trans s t u p q = record {
  shut = λ v. q.shut (p.shut v);
  silent = λ v c. let w = p.silent v c in let x = q.silent (p.shut v) w.0 in (x.0, x.1 ∙ w.1);
}

broker_open-close_conns : (d : Dict ℕ ℕ) (n : Net) → (close_conns d n).broker_open ≡ n.broker_open
unfolding close_conns close_conn
broker_open-close_conns [] n = refl
broker_open-close_conns ((id, c) ∷ d) n = broker_open-close_conns d (close_conn c n)

close-Silent : (s : Connector) → Silent s (close s)
unfolding close close_broker lookup
close-Silent s =
    if_cases (Silent s) s.closed _ _ (λ _. Quiet-Silent s s (Quiet-refl s))
      (λ e. record {
        shut = λ v c. (
          broker_open-close_conns s.streams (close_broker (send shutting_down s.net)),
          λ id. refl,
        );
        silent = λ v c. absurd (ground (arith, c, e));
      })

stop_receiving-Silent : (s : Connector) → Silent s (stop_receiving s)
unfolding stop_receiving
stop_receiving-Silent s = let q = close-Silent s in record { shut = q.shut; silent = q.silent }

-- A connection that comes too late is registered and given up.
handle_local_connection-Silent :
    (room : ℕ) (s : Connector) → Silent s (handle_local_connection room s)
unfolding handle_local_connection give_up remove_stream remove_pending send can_send add_conn
    close_conn
handle_local_connection-Silent room s =
    let id = (s.next_stream_id + 1) % 2 ^ 32 in
    record {
      shut = λ v c.
          let was : s.closed ≡ true = ground arith in
          let w = v was in
          (
            ground (arith, w.0),
            λ i. ground (
              arith,
              w.0,
              w.1 i,
              lookup-insert id i s.net.next_conn s.streams,
              lookup-delete id i (insert id s.net.next_conn s.streams),
            ),
          );
      silent = λ v c. (ground arith, ground (arith, (v c).0));
    }

dispatch-Silent : (env : Envelope) (s : Connector) → Silent s (dispatch env s)
unfolding dispatch
dispatch-Silent env s = elim (Option-cases (get_open_stream_ack env)) [
  | inr (m, e) ↦ rw (e, dispatch) (Quiet-Silent s _ (handle_ack-Quiet m s))
  | inl e ↦ elim (Option-cases (get_stream_data env)) [
    | inr (m, f) ↦ rw (e, dispatch) (rw f (Quiet-Silent s _ (handle_data-Quiet m s)))
    | inl f ↦ elim (Option-cases (get_close_stream env)) [
      | inr (m, g) ↦
          rw (e, dispatch) (rw f (rw g (Quiet-Silent s _ (close_stream-Quiet m.stream_id s))))
      | inl g ↦ elim (Option-cases (get_heartbeat env)) [
        | inr (m, h) ↦
            rw (e, dispatch)
              (rw f (rw g (rw h (Quiet-Silent s _ (send-Quiet (carrying heartbeat) s)))))
        | inl h ↦ elim (Option-cases (get_disconnect env)) [
          | inr (m, k) ↦ rw (e, dispatch) (rw f (rw g (rw h (rw k (stop_receiving-Silent s)))))
          | inl k ↦ rw (e, dispatch) (rw f (rw g (rw h (rw k (Quiet-Silent s s (Quiet-refl s))))))
        ]
      ]
    ]
  ]
]

handle_message-Silent : (env : Option Envelope) (s : Connector) → Silent s (handle_message env s)
unfolding handle_message
handle_message-Silent none s = stop_receiving-Silent s
handle_message-Silent (some env) s =
    let after = dispatch env s in
    if_cases (Silent s) after.closed _ _
      (λ _. Silent-trans s after _ (dispatch-Silent env s) (stop_receiving-Silent after))
      (λ _. dispatch-Silent env s)

step-Silent : (e : Event) (s : Connector) → Silent s (step e s)
unfolding step
step-Silent (accepts room) s = handle_local_connection-Silent room s
step-Silent (receives env) s =
    if_cases (Silent s) s.receiving _ _ (λ _. handle_message-Silent env s)
      (λ _. Quiet-Silent s s (Quiet-refl s))
step-Silent (waits t wait) s = Quiet-Silent s _ (work-Quiet t (s.workers t) (waits t wait) s)
step-Silent (reads t r) s = Quiet-Silent s _ (work-Quiet t (s.workers t) (reads t r) s)
step-Silent closes s = close-Silent s
step-Silent breaks s = record { shut = λ v. v; silent = λ v c. (c, refl) }

run-Silent : (es : List Event) (s : Connector) → Silent s (run es s)
unfolding run
run-Silent [] s = Quiet-Silent s s (Quiet-refl s)
run-Silent (e ∷ es) s = Silent-trans s (run es s) _ (run-Silent es s) (step-Silent e (run es s))

run-append : (es fs : List Event) (s : Connector) → run (es ++ fs) s ≡ run es (run fs s)
unfolding run
run-append [] fs s = refl
run-append (e ∷ es) fs s = ap (step e) (run-append es fs s)

module _ (sha256 : Bytes → Bytes) (passphrase : Bytes) (connection_id : String)
    (script : Script) where
  open_yet : (started sha256 passphrase connection_id script).closed ≡ false
  unfolding started start new_connector
  open_yet = ground arith

  started-IsShut : IsShut (started sha256 passphrase connection_id script)
  started-IsShut c = absurd (ground (arith, open_yet))

  -- Once a connector is closed, by a call of Close or by its message loop, then whatever happens
  -- later, local connections that still come and messages that still arrive included, it stays
  -- closed, sends nothing more, has no broker connection and no stream.
  pub closed_for_good :
      (later es : List Event)
      → let before = run es (started sha256 passphrase connection_id script) in
        let after = run (later ++ es) (started sha256 passphrase connection_id script) in
        before.closed ≡ true
        → (after.closed ≡ true)
          × (after.net.outbox ≡ before.net.outbox)
          × (after.net.broker_open ≡ false)
          × ((id : ℕ) → lookup id after.streams ≡ none)
  closed_for_good later es c =
      let begin = started sha256 passphrase connection_id script in
      let v = (run-Silent es begin).shut started-IsShut in
      let w = (run-Silent later (run es begin)).silent v c in
      let x = (run-Silent later (run es begin)).shut v w.0 in
      rw (run-append later es begin) (w.0, w.1, x.0, x.1)

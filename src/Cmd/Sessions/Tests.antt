-- ===== src/Cmd/Sessions/Tests.antt =====
-- A listener that reconnects once, in quiet mode.
use Prim.Native.String.{◌++◌ as join_text}
use go_connect.Base.{◌≡◌, refl, true, false, List, [], ◌∷◌, ◌++◌, some, pos}
use go_connect.Ui.{Ui}
use go_connect.Ui.Modes.{show_all}
use go_connect.Tunnel.Reconnect.{
  ReconnectConfig, Round, round, refused, established, passed, Action, connecting, cleaning,
  run_with_reconnect, retry, exhausted, connection_lost, out_of_retries,
}
use go_connect.Cmd.Sessions.{
  Session, Formats, listen, no_holder, act, act_all, replace, clean_up, greet, finish,
}
use go_connect.Cmd.Sessions.Closed.{IsClosed, run_with_reconnect-IsClosed}
use go_connect.Cmd.Sessions.Quiet.{show_all-greet_quiet}

abbrev once : ReconnectConfig
once = record { max_retries = pos 1; backoff = λ n. n; callback = false }

abbrev rounds : List Round
rounds = round passed passed (established passed) ∷ round passed passed (refused 4) ∷ []

abbrev done : List Action
done = connecting ∷ cleaning ∷ connecting ∷ []

actions_done :
    (run_with_reconnect once (established passed) rounds).1 ≡ done ++ (cleaning ∷ connecting ∷ [])
unfolding run_with_reconnect retry out_of_retries
actions_done = refl

two_made : act_all done no_holder ≡ record { held = some 1; made = 2; closed = 0 ∷ [] }
unfolding act_all act replace clean_up
two_made = refl

run_with_reconnect-IsClosed_example : IsClosed (act_all done no_holder)
run_with_reconnect-IsClosed_example =
    run_with_reconnect-IsClosed once (established passed) rounds done (cleaning ∷ connecting ∷ [])
      actions_done

abbrev quiet_ui : Ui
quiet_ui = record { color = false; is_verbose = false; is_quiet = true }

abbrev session : Session
session = record {
  command = listen;
  local_port = "5900";
  broker_addr = "127.0.0.1:1781";
  connection_id = "7";
}

abbrev formats : Formats
formats = record {
  decimal = λ n. "1";
  milliseconds = λ n. "1ms";
  quoted = λ s. s;
  contains = λ s part. false;
}

ends_badly :
    (finish formats session (λ n. "EOF") false (exhausted (pos 1) connection_lost)).1 ≡ true
unfolding finish
ends_badly = refl

ends_well :
    finish formats session (λ n. "EOF") true (exhausted (pos 1) connection_lost) ≡ ([], false)
unfolding finish
ends_well = refl

show_all-greet_quiet_example :
    show_all quiet_ui (greet quiet_ui session true) ≡ join_text "\n" (join_text "7" "\n")
show_all-greet_quiet_example = show_all-greet_quiet quiet_ui session refl

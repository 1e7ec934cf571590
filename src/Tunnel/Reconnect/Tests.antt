-- ===== src/Tunnel/Reconnect/Tests.antt =====
-- Three failures under two retries, and a connection that is ended while it waits.
use go_connect.Base.{◌+◌, ◌≡◌, refl, List, [], ◌∷◌, ◌++◌, map, true, pos, if◌then◌else◌, ◌==◌}
use go_connect.Tunnel.Reconnect.{
  refused, established, passed, cancelled, Round, round, connect_failed, returned_err,
  returned_ctx_err, exhausted, ReconnectConfig, run_with_reconnect, retry, out_of_retries,
}
use go_connect.Tunnel.Reconnect.Retries.{
  connects, failing_round, last_error, run_with_reconnect_failing,
}

abbrev twice : ReconnectConfig
twice = record { max_retries = pos 2; backoff = λ n. n; callback = true }

-- After two failed retries a third round, in which the call would succeed.
abbrev rounds : List Round
rounds = map failing_round (6 ∷ 7 ∷ []) ++ (round passed passed (established passed) ∷ [])

run_with_reconnect_failing_example :
    ((run_with_reconnect twice (refused 5) rounds).0 ≡ (
      if 2 == 0
      then returned_err (connect_failed 5)
      else exhausted (pos 2) (last_error (connect_failed 5) (6 ∷ 7 ∷ []))))
    × (connects (run_with_reconnect twice (refused 5) rounds).1 ≡ 2 + 1)
run_with_reconnect_failing_example =
    run_with_reconnect_failing twice 2 5 (6 ∷ 7 ∷ [])
      (round passed passed (established passed) ∷ []) refl refl

-- One success, then the context ends in the wait for the next delay.
abbrev stopped : List Round
stopped = round passed passed (established passed) ∷ round passed cancelled (refused 6) ∷ []

stopped_early : (run_with_reconnect twice (refused 5) stopped).0 ≡ returned_ctx_err
unfolding run_with_reconnect retry out_of_retries
stopped_early = refl

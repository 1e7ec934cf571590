-- ===== src/Tunnel/Reconnect.antt =====
-- `RunWithReconnect` of pkg/tunnel/reconnect.go. What happens around it is a script: the answers of
-- `connect`, and what each wait ends with. The backoff delays are an argument.
pub mod Retries
mod Tests
use go_connect.Base.{
  ℕ, zero, suc, ◌+◌, List, [], ◌∷◌, ◌++◌, Bool, true, false, Option, none, some, ℤ, pos, negsuc,
  at_least, leb, if◌then◌else◌,
}

-- What a wait for `ctx.Done()` or another channel ends with: the context, or the other.
pub data Wait : Type 0 where
  cancelled passed : Wait

-- A call of `connect`, and where it succeeds the wait for the connection to be lost.
pub data Attempt : Type 0 where
  refused : ℕ → Attempt
  established : Wait → Attempt

-- A round of the loop: the check of the context, the wait for the delay, and the call.
pub data Round : Type 0 where
  round : Wait → Wait → Attempt → Round

-- Errors of `connect` are numbers.
pub data Error : Type 0 where
  connect_failed : ℕ → Error
  connection_lost : Error

pub record ReconnectEvent : Type 0 where
  pub attempt : ℕ
  pub max_retries : ℤ
  pub delay : ℕ
  pub last_err : Option Error
  pub is_connected : Bool

-- What the function does, in order.
pub data Action : Type 0 where
  connecting cleaning : Action
  calling : ReconnectEvent → Action

-- How it returns. `still_running`: the script is at its end and the function is not.
pub data Outcome : Type 0 where
  returned_nil : Outcome
  returned_err : Error → Outcome
  returned_ctx_err : Outcome
  exhausted : ℤ → Error → Outcome
  still_running : Outcome

-- The configuration, and whether there is a callback.
pub record ReconnectConfig : Type 0 where
  pub max_retries : ℤ
  pub backoff : ℕ → ℕ
  pub callback : Bool

-- `cfg.MaxRetries >= 0 && attempt >= cfg.MaxRetries`
unfoldable pub out_of_retries : ℤ → ℕ → Bool
out_of_retries (pos n) attempt = leb n attempt
out_of_retries (negsuc n) attempt = false

abbrev pub no_retries : ℤ → Bool
no_retries (pos zero) = true
no_retries _ = false

unfoldable pub callback_action : ReconnectConfig → ReconnectEvent → List Action
callback_action cfg ev = if cfg.callback then calling ev ∷ [] else []

-- What a round does up to the wait for the delay.
unfoldable pub prepare : ReconnectConfig → ℕ → Error → List Action
unfolding callback_action
prepare cfg attempt last_err =
    cleaning
    ∷ callback_action cfg (record {
      attempt = attempt + 1;
      max_retries = cfg.max_retries;
      delay = cfg.backoff attempt;
      last_err = some last_err;
      is_connected = false;
    })

unfoldable pub announce : ReconnectConfig → ℕ → List Action
unfolding callback_action
announce cfg attempt = callback_action cfg (record {
  attempt = attempt + 1;
  max_retries = cfg.max_retries;
  delay = 0;
  last_err = none;
  is_connected = true;
})

abbrev pub after : List Action → Outcome × List Action → Outcome × List Action
after actions r = (r.0, actions ++ r.1)

-- The loop, on the rounds that are left. After a success the attempts count from the start again.
unfoldable pub retry : ReconnectConfig → ℕ → Error → List Round → Outcome × List Action
unfolding out_of_retries prepare announce
retry cfg attempt last_err [] =
    if out_of_retries cfg.max_retries attempt
    then (exhausted cfg.max_retries last_err, [])
    else (still_running, [])
retry cfg attempt last_err (round cancelled delay_wait outcome ∷ rounds) =
    if out_of_retries cfg.max_retries attempt
    then (exhausted cfg.max_retries last_err, [])
    else (returned_ctx_err, cleaning ∷ [])
retry cfg attempt last_err (round passed cancelled outcome ∷ rounds) =
    if out_of_retries cfg.max_retries attempt
    then (exhausted cfg.max_retries last_err, [])
    else (returned_ctx_err, prepare cfg attempt last_err ++ (cleaning ∷ []))
retry cfg attempt last_err (round passed passed (refused e) ∷ rounds) =
    let rest = retry cfg (attempt + 1) (connect_failed e) rounds in
    if out_of_retries cfg.max_retries attempt
    then (exhausted cfg.max_retries last_err, [])
    else after (prepare cfg attempt last_err) (after (connecting ∷ []) rest)
retry cfg attempt last_err (round passed passed (established cancelled) ∷ rounds) =
    if out_of_retries cfg.max_retries attempt
    then (exhausted cfg.max_retries last_err, [])
    else after (prepare cfg attempt last_err)
        (returned_ctx_err, connecting ∷ (announce cfg attempt ++ (cleaning ∷ [])))
retry cfg attempt last_err (round passed passed (established passed) ∷ rounds) =
    let rest = retry cfg 0 connection_lost rounds in
    if out_of_retries cfg.max_retries attempt
    then (exhausted cfg.max_retries last_err, [])
    else after (prepare cfg attempt last_err)
        (after (connecting ∷ []) (after (announce cfg attempt) rest))

-- `RunWithReconnect`: the first call, and then the loop.
unfoldable pub run_with_reconnect : ReconnectConfig → Attempt → List Round → Outcome × List Action
unfolding retry
run_with_reconnect cfg (refused e) rounds =
    if no_retries cfg.max_retries
    then (returned_err (connect_failed e), connecting ∷ [])
    else after (connecting ∷ []) (retry cfg 0 (connect_failed e) rounds)
run_with_reconnect cfg (established cancelled) rounds =
    (returned_ctx_err, connecting ∷ cleaning ∷ [])
run_with_reconnect cfg (established passed) rounds =
    if no_retries cfg.max_retries
    then (returned_nil, connecting ∷ [])
    else after (connecting ∷ []) (retry cfg 0 connection_lost rounds)

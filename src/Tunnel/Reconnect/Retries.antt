-- ===== src/Tunnel/Reconnect/Retries.antt =====
-- How often the loop tries, when it gives up, and that it leaves nothing open when it is told to end.
use go_connect.Base.{
  ℕ, zero, suc, ◌+◌, ◌≡◌, refl, List, [], ◌∷◌, ◌++◌, map, length, Bool, true, false, ℤ, pos, leb,
  if◌then◌else◌, arith, Bool-cases, inl, inr, ◌==◌,
}
use go_connect.Tunnel.Reconnect.{
  cancelled, passed, Attempt, refused, established, Round, round, Error, connect_failed,
  connection_lost, Action, connecting, cleaning, calling, Outcome, returned_err, returned_ctx_err,
  exhausted, ReconnectConfig, out_of_retries, no_retries, callback_action, prepare, announce, after,
  retry, run_with_reconnect,
}

unfoldable pub connects : List Action → ℕ
connects [] = 0
connects (connecting ∷ xs) = suc (connects xs)
connects (cleaning ∷ xs) = connects xs
connects (calling ev ∷ xs) = connects xs

connects-append : (xs ys : List Action) → connects (xs ++ ys) ≡ connects xs + connects ys
unfolding connects
connects-append [] ys = omega arith
connects-append (connecting ∷ xs) ys = omega (arith, connects-append xs ys)
connects-append (cleaning ∷ xs) ys = connects-append xs ys
connects-append (calling ev ∷ xs) ys = connects-append xs ys

connects-prepare :
    (cfg : ReconnectConfig) (attempt : ℕ) (e : Error) → connects (prepare cfg attempt e) ≡ 0
unfolding connects prepare callback_action
connects-prepare cfg attempt e = ground arith

-- A round in which the context goes on and `connect` fails with `e`.
abbrev pub failing_round : ℕ → Round
failing_round e = round passed passed (refused e)

unfoldable pub last_error : Error → List ℕ → Error
last_error e [] = e
last_error e (f ∷ es) = last_error (connect_failed f) es

-- Once the retries are used up, no round is looked at.
retry_exhausted :
    (cfg : ReconnectConfig) (attempt : ℕ) (e : Error) (rounds : List Round)
    → out_of_retries cfg.max_retries attempt ≡ true
    → retry cfg attempt e rounds ≡ (exhausted cfg.max_retries e, [])
unfolding retry
retry_exhausted cfg attempt e [] o = ground arith
retry_exhausted cfg attempt e (round cancelled d outcome ∷ rounds) o = ground arith
retry_exhausted cfg attempt e (round passed cancelled outcome ∷ rounds) o = ground arith
retry_exhausted cfg attempt e (round passed passed (refused f) ∷ rounds) o = ground arith
retry_exhausted cfg attempt e (round passed passed (established cancelled) ∷ rounds) o =
    ground arith
retry_exhausted cfg attempt e (round passed passed (established passed) ∷ rounds) o = ground arith

retry_failing :
    (cfg : ReconnectConfig) (n attempt : ℕ) (e : Error) (es : List ℕ) (more : List Round)
    → cfg.max_retries ≡ pos n
    → attempt + length es ≡ n
    → ((retry cfg attempt e (map failing_round es ++ more)).0 ≡ exhausted (pos n) (last_error e es))
      × (connects (retry cfg attempt e (map failing_round es ++ more)).1 ≡ length es)
unfolding retry out_of_retries last_error connects
retry_failing cfg n attempt e [] more m l =
    let none_left : out_of_retries cfg.max_retries attempt ≡ true = ground arith in
    let gone = retry_exhausted cfg attempt e more none_left in
    (ground (arith, gone), ground (arith, gone))
retry_failing cfg n attempt e (f ∷ es) more m l =
    let rest = retry_failing cfg n (attempt + 1) (connect_failed f) es more m (omega arith) in
    let left : leb n attempt ≡ false = ground arith in
    (
      ground (arith, rest.0),
      ground
          (arith, rest.1, connects-append (prepare cfg attempt e), connects-prepare cfg attempt e),
    )

-- Where `MaxRetries` is a number from 0 on, the context is not cancelled, and the first call of
-- `connect` and the `MaxRetries` after it fail, `connect` is called no further, whatever would come
-- next, and the last of its errors is returned: as it is where `MaxRetries` is 0, else as that of
-- the retries.
pub run_with_reconnect_failing :
    (cfg : ReconnectConfig) (n e : ℕ) (es : List ℕ) (more : List Round)
    → cfg.max_retries ≡ pos n
    → length es ≡ n
    → ((run_with_reconnect cfg (refused e) (map failing_round es ++ more)).0 ≡ (
        if n == 0
        then returned_err (connect_failed e)
        else exhausted (pos n) (last_error (connect_failed e) es)))
      × (connects (run_with_reconnect cfg (refused e) (map failing_round es ++ more)).1 ≡ n + 1)
unfolding run_with_reconnect connects
run_with_reconnect_failing cfg zero e es more m l = (ground arith, ground arith)
run_with_reconnect_failing cfg (suc n) e es more m l =
    let rest = retry_failing cfg (suc n) 0 (connect_failed e) es more m (omega arith) in
    (ground (arith, rest.0), ground (arith, rest.1))

-- The last action is a cleanup.
unfoldable pub ends_clean : List Action → Bool
ends_clean [] = false
ends_clean (cleaning ∷ []) = true
ends_clean (a ∷ xs) = ends_clean xs

ends_clean-append : (xs ys : List Action) → ends_clean ys ≡ true → ends_clean (xs ++ ys) ≡ true
unfolding ends_clean
ends_clean-append [] ys e = e
ends_clean-append (connecting ∷ xs) ys e = ends_clean-append xs ys e
ends_clean-append (calling ev ∷ xs) ys e = ends_clean-append xs ys e
ends_clean-append (cleaning ∷ []) [] e = absurd (ground arith)
ends_clean-append (cleaning ∷ []) (y ∷ ys) e = e
ends_clean-append (cleaning ∷ x ∷ xs) ys e = ends_clean-append (x ∷ xs) ys e

abbrev EndsClean : Outcome × List Action → Type 0
EndsClean r = r.0 ≡ returned_ctx_err → ends_clean r.1 ≡ true

after-EndsClean :
    (xs : List Action) (r : Outcome × List Action) → EndsClean r → EndsClean (after xs r)
after-EndsClean xs r h e = ends_clean-append xs r.1 (h e)

exhausted-EndsClean :
    (b : Bool) (m : ℤ) (e : Error) (r : Outcome × List Action)
    → EndsClean r
    → EndsClean (if b then (exhausted m e, []) else r)
exhausted-EndsClean true m e r h f = absurd (ground arith)
exhausted-EndsClean false m e r h f = h f

retry-EndsClean :
    (cfg : ReconnectConfig) (attempt : ℕ) (e : Error) (rounds : List Round)
    → EndsClean (retry cfg attempt e rounds)
unfolding retry ends_clean
retry-EndsClean cfg attempt e [] =
    exhausted-EndsClean (out_of_retries cfg.max_retries attempt) _ _ _ (λ f. absurd (ground arith))
retry-EndsClean cfg attempt e (round cancelled d o ∷ rounds) =
    exhausted-EndsClean (out_of_retries cfg.max_retries attempt) _ _ _ (λ f. refl)
retry-EndsClean cfg attempt e (round passed cancelled o ∷ rounds) =
    exhausted-EndsClean (out_of_retries cfg.max_retries attempt) _ _ _
      (after-EndsClean (prepare cfg attempt e) (returned_ctx_err, cleaning ∷ []) (λ f. refl))
retry-EndsClean cfg attempt e (round passed passed (refused g) ∷ rounds) =
    exhausted-EndsClean (out_of_retries cfg.max_retries attempt) _ _ _ (
      after-EndsClean (prepare cfg attempt e) _ (
        after-EndsClean (connecting ∷ []) (retry cfg (attempt + 1) (connect_failed g) rounds)
          (retry-EndsClean cfg (attempt + 1) (connect_failed g) rounds)))
retry-EndsClean cfg attempt e (round passed passed (established cancelled) ∷ rounds) =
    exhausted-EndsClean (out_of_retries cfg.max_retries attempt) _ _ _ (
      after-EndsClean (prepare cfg attempt e) _ (
        after-EndsClean (connecting ∷ [])
          (after (announce cfg attempt) (returned_ctx_err, cleaning ∷ []))
          (after-EndsClean (announce cfg attempt) (returned_ctx_err, cleaning ∷ []) (λ f. refl))))
retry-EndsClean cfg attempt e (round passed passed (established passed) ∷ rounds) =
    exhausted-EndsClean (out_of_retries cfg.max_retries attempt) _ _ _ (
      after-EndsClean (prepare cfg attempt e) _ (
        after-EndsClean (connecting ∷ [])
          (after (announce cfg attempt) (retry cfg 0 connection_lost rounds))
          (after-EndsClean (announce cfg attempt) (retry cfg 0 connection_lost rounds)
            (retry-EndsClean cfg 0 connection_lost rounds))))

-- Whenever the function returns because its context ended, the last that it did was a cleanup.
run_with_reconnect_cleans :
    (cfg : ReconnectConfig) (first : Attempt) (rounds : List Round)
    → (run_with_reconnect cfg first rounds).0 ≡ returned_ctx_err
    → ends_clean (run_with_reconnect cfg first rounds).1 ≡ true
unfolding run_with_reconnect ends_clean
run_with_reconnect_cleans cfg (established cancelled) rounds r = refl
run_with_reconnect_cleans cfg (refused e) rounds r =
    elim (Bool-cases (no_retries cfg.max_retries)) [
      | inl o ↦ absurd (ground arith)
      | inr o ↦ ground (
        arith,
        after-EndsClean (connecting ∷ []) (retry cfg 0 (connect_failed e) rounds)
            (retry-EndsClean cfg 0 (connect_failed e) rounds),
      )
    ]
run_with_reconnect_cleans cfg (established passed) rounds r =
    elim (Bool-cases (no_retries cfg.max_retries)) [
      | inl o ↦ absurd (ground arith)
      | inr o ↦ ground (
        arith,
        after-EndsClean (connecting ∷ []) (retry cfg 0 connection_lost rounds)
            (retry-EndsClean cfg 0 connection_lost rounds),
      )
    ]

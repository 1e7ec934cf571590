-- ===== src/Cmd/Sessions/Closed.antt =====
-- Every listener or connector that a command makes is closed before the next one is made.
use go_connect.Base.{
  ℕ, zero, suc, ◌+◌, ◌≡◌, ◌∙◌, refl, sym, ap, Bool, true, false, not, ◌&&◌, List, [], ◌∷◌, ◌++◌,
  none, some, arith, inl, inr, ◌⊎◌,
}
use go_connect.Tunnel.Reconnect.{
  ReconnectConfig, Round, Attempt, Error, round, cancelled, passed, refused, established,
  connect_failed, connection_lost, Action, connecting, cleaning, calling, retry, prepare, announce,
  callback_action, run_with_reconnect,
}
use go_connect.Cmd.Sessions.{Holder, no_holder, replace, clean_up, act, act_all}

-- No object is made while the variable holds one. `taken` is whether it does.
tidy : Bool → List Action → Bool
tidy taken [] = true
tidy taken (connecting ∷ actions) = let rest = tidy true actions in not taken && rest
tidy taken (cleaning ∷ actions) = tidy false actions
tidy taken (calling ev ∷ actions) = tidy taken actions

-- A list that cleans first is as tidy as what comes after, whatever the variable holds.
tidy-retry :
    (cfg : ReconnectConfig) (attempt : ℕ) (last_err : Error) (rounds : List Round) (taken : Bool)
    → tidy taken (retry cfg attempt last_err rounds).1 ≡ true
unfolding tidy retry prepare announce callback_action
tidy-retry cfg attempt last_err [] taken = ground arith
tidy-retry cfg attempt last_err (round cancelled w o ∷ rounds) taken = ground arith
tidy-retry cfg attempt last_err (round passed cancelled o ∷ rounds) taken = ground arith
tidy-retry cfg attempt last_err (round passed passed (refused e) ∷ rounds) taken =
    ground (arith, tidy-retry cfg (attempt + 1) (connect_failed e) rounds true)
tidy-retry cfg attempt last_err (round passed passed (established cancelled) ∷ rounds) taken =
    ground arith
tidy-retry cfg attempt last_err (round passed passed (established passed) ∷ rounds) taken =
    ground (arith, tidy-retry cfg 0 connection_lost rounds true)

tidy-run_with_reconnect :
    (cfg : ReconnectConfig) (first : Attempt) (rounds : List Round)
    → tidy false (run_with_reconnect cfg first rounds).1 ≡ true
unfolding tidy run_with_reconnect
tidy-run_with_reconnect cfg (refused e) rounds =
    ground (arith, tidy-retry cfg 0 (connect_failed e) rounds true)
tidy-run_with_reconnect cfg (established cancelled) rounds = refl
tidy-run_with_reconnect cfg (established passed) rounds =
    ground (arith, tidy-retry cfg 0 connection_lost rounds true)

-- The numbers under `n`, downwards.
unfoldable pub below : ℕ → List ℕ
below zero = []
below (suc n) = n ∷ below n

-- All objects so far were closed, once each and in order, but the one that the variable holds.
abbrev pub IsClosed : Holder → Type 0
IsClosed h =
    ((h.held ≡ none) × (h.closed ≡ below h.made))
    ⊎ ((n : ℕ) × (h.held ≡ some n) × (h.made ≡ suc n) × (h.closed ≡ below n))

taken : Holder → Bool
taken h = elim h.held [ none ↦ false | some _ ↦ true ]

clean_up-none : (h : Holder) → h.held ≡ none → clean_up h ≡ h
unfolding clean_up
clean_up-none h e = ground arith

taken-none : (h : Holder) → h.held ≡ none → taken h ≡ false
unfolding taken
taken-none h e = ground arith

clean_up-some :
    (h : Holder) (n : ℕ)
    → h.held ≡ some n
    → clean_up h ≡ record { held = none; made = h.made; closed = n ∷ h.closed }
unfolding clean_up
clean_up-some h n e = rw (e, clean_up) refl

act-IsClosed :
    (a : Action) (actions : List Action) (h : Holder)
    → IsClosed h
    → tidy (taken h) (a ∷ actions) ≡ true
    → IsClosed (act a h) × (tidy (taken (act a h)) actions ≡ true)
unfolding tidy taken act replace below
act-IsClosed connecting actions h (inl (e, f)) t =
    (inr (h.made, refl, omega arith, f), ground arith)
act-IsClosed connecting actions h (inr (n, e, f, g)) t = absurd (ground arith)
act-IsClosed cleaning actions h (inl (e, f)) t =
    rw (clean_up-none h e) (inl (e, f), ap (λ b. tidy b actions) (taken-none h e) ∙ t)
act-IsClosed cleaning actions h (inr (n, e, f, g)) t =
    rw (clean_up-some h n e) (inl (refl, ap (λ l. n ∷ l) g ∙ sym (ap below f)), t)
act-IsClosed (calling ev) actions h w t = (w, t)

act_all-IsClosed :
    (pre post : List Action) (h : Holder)
    → IsClosed h
    → tidy (taken h) (pre ++ post) ≡ true
    → IsClosed (act_all pre h)
unfolding act_all
act_all-IsClosed [] post h w t = w
act_all-IsClosed (a ∷ pre) post h w t =
    let (w', t') = act-IsClosed a (pre ++ post) h w t in act_all-IsClosed pre post (act a h) w' t'

-- Whenever `RunWithReconnect` has done some of what it does, every listener or connector that the
-- command has made was closed, once each and in order, but the last one where the variable still
-- holds it: no reconnect loses an open connection.
pub run_with_reconnect-IsClosed :
    (cfg : ReconnectConfig) (first : Attempt) (rounds : List Round) (pre post : List Action)
    → (run_with_reconnect cfg first rounds).1 ≡ pre ++ post
    → IsClosed (act_all pre no_holder)
unfolding taken below
run_with_reconnect-IsClosed cfg first rounds pre post e =
    act_all-IsClosed pre post no_holder (inl (refl, refl))
      (ap (tidy false) (sym e) ∙ tidy-run_with_reconnect cfg first rounds)

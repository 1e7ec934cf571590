-- ===== src/Broker/Server/Events/Core.antt =====
-- What the router, the clients and the slots have to do with one another between events.
use Prim.Native.String.{String}
use go_connect.Base.{
  ℕ, zero, suc, ◌+◌, ◌≤◌, ◌<◌, ◌≡◌, ◌≢◌, refl, ◌∙◌, Bool, true, false, some, ◌==◌, arith,
  Bool-cases, inl, inr,
}
use native.Mathlib.Numerals.{add-one}
use go_connect.Pb.{Envelope}
use go_connect.Broker.Router.{Client, find_listener, get_peer}
use go_connect.Broker.Router.Laws.{get_peer-remove, find_listener-remove}
use go_connect.Broker.Router.Invariant.{IsValid, remove-IsValid}
use go_connect.Broker.State.{Server, ClientConn, Phase, relaying, gone, update, notify}
use go_connect.Broker.Close.{peer_disconnected, shut, close}
use go_connect.Broker.Close.Ends.{close_keeps, done-close, close_others}
use go_connect.Broker.Server.{leave, default_max_connections}

abbrev pub busy : Phase → ℕ
busy gone = 0
busy _ = 1

-- The handlers among the first `n` clients.
pub active : ℕ → (Client → ClientConn) → ℕ
active zero h = 0
active (suc n) h = active n h + busy (h n).phase

active_same :
    (n : ℕ) (h k : Client → ClientConn)
    → ((y : Client) → (h y).phase ≡ (k y).phase)
    → active n h ≡ active n k
unfolding active
active_same zero h k e = refl
active_same (suc n) h k e = ground (arith, active_same n h k e, e n)

pub active-update_above :
    (n x : ℕ) (h : Client → ClientConn) (c : ClientConn)
    → n ≤ x
    → active n (update h x c) ≡ active n h
unfolding active
active-update_above zero x h c l = refl
active-update_above (suc n) x h c l = ground (arith, active-update_above n x h c)

pub active-update :
    (n x : ℕ) (h : Client → ClientConn) (c : ClientConn)
    → x < n
    → active n (update h x c) + busy (h x).phase ≡ active n h + busy c.phase
unfolding active
active-update zero x h c l = absurd (omega arith)
active-update (suc n) x h c l = elim (Bool-cases (x == n)) [
  | inl e ↦ ground (arith, active-update_above n x h c)
  | inr e ↦ ground (arith, active-update n x h c)
]

pub active_zero : (h : Client → ClientConn) → active 0 h ≡ 0
unfolding active
active_zero h = refl

pub active_next :
    (n : ℕ) (h : Client → ClientConn) → active (n + 1) h ≡ active n h + busy (h n).phase
unfolding active
active_next n h = rw (add-one n) refl

-- The router knows only clients in their relay loop that are not done; the slots taken are those of
-- the handlers that run.
pub record Core (s : Server) : Type 0 where
  pub valid : IsValid s.router
  pub listening :
      (i : String) (c : Client)
      → find_listener i s.router ≡ some c
      → ((s.heap c).phase ≡ relaying) × ((s.heap c).done ≡ false)
  pub linked :
      (a b : Client)
      → get_peer a s.router ≡ some b
      → ((s.heap a).phase ≡ relaying) × ((s.heap a).done ≡ false)
  pub fresh : (x : Client) → s.next ≤ x → (s.heap x).phase ≡ gone
  pub counted : s.slots ≡ active s.next s.heap
  pub bounded : s.slots ≤ default_max_connections

-- A change of the server that `Core` does not see.
pub record Same (s t : Server) : Type 0 where
  pub router : t.router ≡ s.router
  pub phase : (y : Client) → (t.heap y).phase ≡ (s.heap y).phase
  pub done : (y : Client) → (t.heap y).done ≡ (s.heap y).done
  pub next : t.next ≡ s.next
  pub slots : t.slots ≡ s.slots

pub Same-Core : (s t : Server) → Same s t → Core s → Core t
Same-Core s t e c = record {
  valid = rw e.router c.valid;
  listening = λ i x f. ground (arith, e.router, c.listening i x, e.phase x, e.done x);
  linked = λ a b f. ground (arith, e.router, c.linked a b, e.phase a, e.done a);
  fresh = λ x l. ground (arith, e.next, c.fresh x, e.phase x);
  counted = ground (arith, e.slots, e.next, c.counted, active_same s.next t.heap s.heap e.phase);
  bounded = omega (arith, e.slots, c.bounded);
}

pub Same-trans : (s t u : Server) → Same s t → Same t u → Same s u
Same-trans s t u e f = record {
  router = f.router ∙ e.router;
  phase = λ y. f.phase y ∙ e.phase y;
  done = λ y. f.done y ∙ e.done y;
  next = f.next ∙ e.next;
  slots = f.slots ∙ e.slots;
}

shut-Core : (x : Client) (s : Server) → Core s → Core (shut x s)
unfolding shut
shut-Core x s c = record {
  valid = remove-IsValid x s.router c.valid;
  listening = λ i y f.
      ground
        (arith, find_listener-remove x i s.router c.valid.distinct c.valid.single, c.listening i y);
  linked =
      λ a b f. ground (arith, get_peer-remove x a s.router, c.linked a b, c.valid.symmetric a b);
  fresh = λ y l. ground (arith, c.fresh y);
  counted = c.counted ∙ active_same s.next s.heap (update s.heap x _) (λ y. ground arith);
  bounded = c.bounded;
}

-- A message sent changes nothing that `Core` sees.
pub notify-Same : (x : Client) (env : Envelope) (s : Server) → Same s (notify x env s)
unfolding notify
notify-Same x env s = record {
  router = ground arith;
  phase = λ y. ground arith;
  done = λ y. ground arith;
  next = ground arith;
  slots = ground arith;
}

pub close-Core : (x : Client) (s : Server) → Core s → Core (close x s)
close-Core =
    close_keeps Core shut-Core
      (λ x s c. Same-Core s (notify x peer_disconnected s) (notify-Same x peer_disconnected s) c)

-- `Close` leaves the phases alone.
pub phase-close : (x y : Client) (s : Server) → ((close x s).heap y).phase ≡ (s.heap y).phase
unfolding shut notify
phase-close x y s =
    close_keeps (λ t. (t.heap y).phase ≡ (s.heap y).phase) (λ z t e. ground arith)
      (λ z t e. ground arith) x s refl

pub next-close : (x : Client) (s : Server) → (close x s).next ≡ s.next
unfolding shut notify
next-close x s =
    close_keeps (λ t. t.next ≡ s.next) (λ z t e. ground arith) (λ z t e. ground arith) x s refl

busy_pos : (p : Phase) → p ≢ gone → busy p ≡ 1
busy_pos gone h = absurd (h refl)
busy_pos _ h = refl

-- A handler may return if its client is not in the relay loop, or is done.
pub leave-Core :
    (x : Client) (s : Server)
    → Core s
    → (s.heap x).phase ≢ gone
    → ((s.heap x).phase ≡ relaying → (s.heap x).done ≡ true)
    → Core (leave x s)
unfolding leave
leave-Core x s c run ended = record {
  valid = c.valid;
  listening = λ i y f. ground (arith, c.listening i y f);
  linked = λ a b f. ground (arith, c.linked a b f);
  fresh = λ y l. ground (arith, c.fresh y);
  counted =
      let below : x < s.next = ground (arith, c.fresh x) in
      omega (
        arith,
        active-update s.next x s.heap (record (s.heap x) { phase = gone }) below,
        busy_pos (s.heap x).phase run,
        c.counted,
      );
  bounded = omega (arith, c.bounded);
}

-- Before its relay loop a client is not done; `EarlyBut x` leaves `x` out.
abbrev pub is_early : Phase → Bool
is_early relaying = false
is_early gone = false
is_early _ = true

abbrev pub EarlyBut : Client → Server → Type 0
EarlyBut x s = (y : Client) → y ≢ x → is_early (s.heap y).phase ≡ true → (s.heap y).done ≡ false

abbrev pub Early : Server → Type 0
Early s = (y : Client) → is_early (s.heap y).phase ≡ true → (s.heap y).done ≡ false

pub Same-Early : (s t : Server) → Same s t → Early s → Early t
Same-Early s t e h = λ y p. ground (arith, e.phase y, e.done y, h y)

pub close-EarlyBut : (x : Client) (s : Server) → Core s → EarlyBut x s → EarlyBut x (close x s)
close-EarlyBut x s c h = λ y ne p.
    ground
      (arith, phase-close x y s, close_others x y s ne, c.linked y x, c.valid.symmetric x y, h y ne)

pub leave-Early : (x : Client) (s : Server) → EarlyBut x s → Early (leave x s)
unfolding leave
leave-Early x s h = λ y p. ground (arith, h y)

pub record Inv (s : Server) : Type 0 where
  pub core : Core s
  pub early : Early s

pub Same-Inv : (s t : Server) → Same s t → Inv s → Inv t
Same-Inv s t e v = record { core = Same-Core s t e v.core; early = Same-Early s t e v.early }

-- The way out of every handler: `Close`, then return.
pub leave-close-Inv :
    (x : Client) (s : Server) → Inv s → (s.heap x).phase ≢ gone → Inv (leave x (close x s))
leave-close-Inv x s v run = record {
  core =
      leave-Core x (close x s) (close-Core x s v.core) (rw (phase-close x x s) run)
        (λ _. done-close x s);
  early = leave-Early x (close x s) (close-EarlyBut x s v.core (λ y _. v.early y));
}

-- The way out before the relay loop, without `Close`.
pub leave_early-Inv :
    (x : Client) (s : Server) → Inv s → is_early (s.heap x).phase ≡ true → Inv (leave x s)
leave_early-Inv x s v e = record {
  core = leave-Core x s v.core (λ g. ground arith) (λ r. ground arith);
  early = leave-Early x s (λ y _. v.early y);
}

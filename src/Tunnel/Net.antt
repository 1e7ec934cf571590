-- ===== src/Tunnel/Net.antt =====
-- What both ends of a tunnel hold on to: local TCP connections, which are numbers, and the session
-- with the broker (pkg/tunnel/listener.go and connector.go).
use go_connect.Base.{
  ℕ, ◌+◌, ◌-◌, ◌*◌, [], ◌∷◌, ◌++◌, List, Bool, true, false, not, ◌&&◌, ◌==◌, if◌then◌else◌, leb,
  length, take,
}
use go_connect.Bytes.{Bytes}
use go_connect.Pb.{Envelope}

abbrev pub chunk_size : ℕ
chunk_size = 32 * 1024

-- `is_open`: not closed at this end. `room` is how many more bytes the other end takes before the
-- connection breaks. `written` and `taken` are what was written to it and read from it.
pub record LocalConn : Type 0 where
  pub is_open : Bool
  pub room : ℕ
  pub written : Bytes
  pub taken : Bytes

-- `broker_open`: the broker connection is not closed at this end; `broker_broken`: it fails. The
-- outbox is what was sent to the broker, the oldest first.
pub record Net : Type 0 where
  pub conns : ℕ → LocalConn
  pub next_conn : ℕ
  pub broker_open : Bool
  pub broker_broken : Bool
  pub outbox : List Envelope

abbrev pub set_conn : ℕ → LocalConn → Net → Net
set_conn c k n = record n { conns = λ x. if x == c then k else n.conns x }

-- A connection that was just made.
abbrev pub fresh_conn : ℕ → LocalConn
fresh_conn room = record { is_open = true; room = room; written = []; taken = [] }

unfoldable pub add_conn : ℕ → Net → Net
add_conn room n = record (set_conn n.next_conn (fresh_conn room) n) { next_conn = n.next_conn + 1 }

-- `conn.Close()`
unfoldable pub close_conn : ℕ → Net → Net
close_conn c n = set_conn c (record (n.conns c) { is_open = false }) n

-- `conn.Write(xs)`: whether it succeeds. A connection that breaks has taken a part.
unfoldable pub can_write : ℕ → Bytes → Net → Bool
can_write c xs n = (n.conns c).is_open && leb (length xs) (n.conns c).room

unfoldable pub write_conn : ℕ → Bytes → Net → Net
unfolding can_write
write_conn c xs n =
    let k = n.conns c in
    if can_write c xs n
    then set_conn c (record k { written = k.written ++ xs; room = k.room - length xs }) n
    else if k.is_open
    then set_conn c (record k { written = k.written ++ take k.room xs; room = 0 }) n
    else n

-- `conn.Read`, which gave `xs`.
unfoldable pub take_from : ℕ → Bytes → Net → Net
take_from c xs n = let k = n.conns c in set_conn c (record k { taken = k.taken ++ xs }) n

-- `session.Send`: whether it succeeds, and what it does.
unfoldable pub can_send : Net → Bool
can_send n = n.broker_open && not n.broker_broken

unfoldable pub send : Envelope → Net → Net
unfolding can_send
send env n = if can_send n then record n { outbox = n.outbox ++ (env ∷ []) } else n

unfoldable pub close_broker : Net → Net
close_broker n = record n { broker_open = false }

-- What `localConn.Read` gives: some bytes, which may be none, and whether an error (or the end)
-- comes with them. A connection that is closed gives an error alone.
pub record ReadResult : Type 0 where
  pub bytes : Bytes
  pub ended : Bool

unfoldable pub read_conn : ℕ → ReadResult → Net → ReadResult
read_conn c r n =
    if (n.conns c).is_open
    then record { bytes = take chunk_size r.bytes; ended = r.ended }
    else record { bytes = []; ended = true }

-- Before `Start`.
abbrev pub new_net : Net
new_net = record {
  conns = λ _. record { is_open = false; room = 0; written = []; taken = [] };
  next_conn = 0;
  broker_open = false;
  broker_broken = false;
  outbox = [];
}

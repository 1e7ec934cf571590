-- ===== src/Protocol/Wire.antt =====
-- An io.ReadWriter as seen from one end, with io.ReadFull and Write.
use go_connect.Base.{
  ℕ, ◌-◌, ◌≤◌, ◌<◌, ◌≡◌, ◌++◌, arith, leb, if◌then◌else◌, length, take, drop, take-append,
  drop-append, length-append, take-append-drop, length-take_of_le, ok, err, M, [],
}
use go_connect.Bytes.{Bytes}

-- `incoming` is what the other end has written and this end has not read. `outgoing` is what this
-- end has written so far, and `room` how many more bytes it can write before the connection breaks.
pub record Conn : Type 0 where
  pub incoming : Bytes
  pub outgoing : Bytes
  pub room : ℕ

module _ {E : Type 0} where
  -- io.ReadFull for `n` bytes: all of them, or the error `e` with whatever was there consumed.
  unfoldable pub read_full : ℕ → E → M Conn E Bytes
  read_full n e c =
      if leb n (length c.incoming)
      then (ok (take n c.incoming), record c { incoming = drop n c.incoming })
      else (err e, record c { incoming = [] })

  -- `w.Write(xs)`. A connection that breaks has taken a part.
  unfoldable pub write : Bytes → E → M Conn E (Unit {0})
  write xs e c =
      if leb (length xs) c.room
      then (ok tt, record c { outgoing = c.outgoing ++ xs; room = c.room - length xs })
      else (err e, record c { outgoing = c.outgoing ++ take c.room xs; room = 0 })

  pub read_full-append :
      (n : ℕ) (e : E) (xs rest : Bytes) (c : Conn)
      → length xs ≡ n
      → c.incoming ≡ xs ++ rest
      → read_full n e c ≡ (ok xs, record c { incoming = rest })
  unfolding read_full
  read_full-append n e xs rest c h q =
      ground (arith, length-append xs rest, take-append xs rest, drop-append xs rest)

  pub read_full_short :
      (n : ℕ) (e : E) (c : Conn)
      → length c.incoming < n
      → read_full n e c ≡ (err e, record c { incoming = [] })
  unfolding read_full
  read_full_short n e c h = ground arith

  -- What was read is what stood first.
  pub read_full-eq_ok :
      (n : ℕ) (e : E) (c c' : Conn) (xs : Bytes)
      → read_full n e c ≡ (ok xs, c')
      → (c.incoming ≡ xs ++ c'.incoming)
        × (length xs ≡ n)
        × (c' ≡ record c { incoming = c'.incoming })
  unfolding read_full
  read_full-eq_ok n e c c' xs h =
      ground (arith, take-append-drop n c.incoming, length-take_of_le n c.incoming)

  pub write_fits :
      (xs : Bytes) (e : E) (c : Conn)
      → length xs ≤ c.room
      → write xs e c ≡ (ok tt, record c { outgoing = c.outgoing ++ xs; room = c.room - length xs })
  unfolding write
  write_fits xs e c h = ground arith

  pub write_broken :
      (xs : Bytes) (e : E) (c : Conn)
      → c.room < length xs
      → write xs e c ≡ (err e, record c { outgoing = c.outgoing ++ take c.room xs; room = 0 })
  unfolding write
  write_broken xs e c h = ground arith

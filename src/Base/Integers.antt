-- ===== src/Base/Integers.antt =====
-- Go's `int`, where it may be negative.
use Prim.Native.Nat.{ℕ}
use mathlib.Core.Bool.{Bool, false}
use go_connect.Base.Tests.{leb}

pub data ℤ : Type 0 where
  pos : ℕ → ℤ
  negsuc : ℕ → ℤ

-- `i >= n` for a natural number `n`.
abbrev pub at_least : ℕ → ℤ → Bool
at_least n (pos i) = leb n i
at_least n (negsuc i) = false

-- ===== src/Bytes/Order.antt =====
-- bytes.Compare: the lexicographic order of byte slices.
use Prim.Native.Nat.{compare, Ordering}
use go_connect.Base.{◌≡◌, ◌≢◌, refl, Bool, true, false, not, [], ◌∷◌, arith}
use go_connect.Bytes.Laws.{Bytes}

-- `bytes.Compare(a, b)`: -1, 0 and 1 are `lt`, `eq` and `gt`.
unfoldable pub compare_bytes : Bytes → Bytes → Ordering
compare_bytes [] [] = Ordering.eq
compare_bytes [] (y ∷ ys) = Ordering.lt
compare_bytes (x ∷ xs) [] = Ordering.gt
compare_bytes (x ∷ xs) (y ∷ ys) = elim (compare x y) [
  | Ordering.lt ↦ Ordering.lt
  | Ordering.eq ↦ compare_bytes xs ys
  | Ordering.gt ↦ Ordering.gt
]

-- The test `bytes.Compare(a, b) < 0`.
unfoldable pub less_bytes : Bytes → Bytes → Bool
unfolding compare_bytes
less_bytes a b = elim (compare_bytes a b) [ Ordering.lt ↦ true | _ ↦ false ]

-- Of two different slices exactly one is less than the other.
pub less_bytes_swap : (a b : Bytes) → a ≢ b → less_bytes b a ≡ not (less_bytes a b)
unfolding less_bytes
less_bytes_swap [] [] h = absurd (h refl)
less_bytes_swap [] (y ∷ ys) h = refl
less_bytes_swap (x ∷ xs) [] h = refl
less_bytes_swap (x ∷ xs) (y ∷ ys) h = ground (arith, λ (k : xs ≢ ys). less_bytes_swap xs ys k)

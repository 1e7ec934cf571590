-- ===== src/Base/Maps.antt =====
-- Go's maps as association lists. A key that stands twice has the first value, and `delete` takes
-- out all of its entries, so that the laws need no invariant.
use Prim.Native.Nat.{ℕ}
use Prim.Native.String.{String}
use mathlib.Core.Path.{◌≡◌, refl}
use mathlib.Core.Logic.{◌↔◌, ◌≢◌}
use mathlib.Core.Bool.{Bool, true}
use mathlib.Core.List.{List, [], ◌∷◌}
use mathlib.Core.Option.{Option, none, some}
use native.Mathlib.Omega.{arith}
use text.Mathlib.Text.{◌==◌ as str_eq}
use text.Mathlib.TextEquality.{eq_iff}
use go_connect.Base.Tests.{◌==◌ as nat_beq, ==_iff, if◌then◌else◌}

-- Keys that can be compared.
pub record Key (K : Type 0) : Type 0 where
  pub same : K → K → Bool
  pub same_iff : (a b : K) → (same a b ≡ true) ↔ (a ≡ b)

instance abbrev pub nat_key : Key ℕ
nat_key = record { same = nat_beq; same_iff = ==_iff }

instance abbrev pub string_key : Key String
string_key = record { same = str_eq; same_iff = eq_iff }

abbrev pub Dict : Type 0 → Type 0 → Type 0
Dict K V = List (K × V)

module _ {K : Type 0} ⦃k : Key K⦄ {V : Type 0} where
  unfoldable pub lookup : K → Dict K V → Option V
  lookup a [] = none
  lookup a ((b, v) ∷ d) = if k.same b a then some v else lookup a d

  unfoldable pub delete : K → Dict K V → Dict K V
  delete a [] = []
  delete a ((b, v) ∷ d) = let rest = delete a d in if k.same b a then rest else (b, v) ∷ rest

  unfoldable pub insert : K → V → Dict K V → Dict K V
  unfolding delete
  insert a v d = (a, v) ∷ delete a d

  pub lookup-delete :
      (a b : K) (d : Dict K V) → lookup b (delete a d) ≡ (if k.same a b then none else lookup b d)
  unfolding lookup delete
  lookup-delete a b [] = ground arith
  lookup-delete a b ((c, v) ∷ d) =
      ground (arith, lookup-delete a b d, k.same_iff c a, k.same_iff a b, k.same_iff c b)

  pub lookup-insert :
      (a b : K) (v : V) (d : Dict K V)
      → lookup b (insert a v d) ≡ (if k.same a b then some v else lookup b d)
  unfolding lookup insert
  lookup-insert a b v d = ground (arith, lookup-delete a b d)

  -- No key stands twice, as in every map of Go.
  abbrev pub Distinct : Dict K V → Type 0
  Distinct [] = Unit
  Distinct ((a, v) ∷ d) = (lookup a d ≡ none) × Distinct d

  pub delete-Distinct : (a : K) (d : Dict K V) → Distinct d → Distinct (delete a d)
  unfolding delete
  delete-Distinct a [] h = tt
  delete-Distinct a ((b, v) ∷ d) h = ground (arith, delete-Distinct a d h.1, lookup-delete a b d)

  pub insert-Distinct : (a : K) (v : V) (d : Dict K V) → Distinct d → Distinct (insert a v d)
  unfolding insert
  insert-Distinct a v d h = (rw lookup-delete (rw ((k.same_iff a a).1 refl)), delete-Distinct a d h)

-- The first key that a `range` over the map finds with the value `v`.
module _ {K : Type 0} ⦃k : Key K⦄ where
  unfoldable pub key_of : ℕ → Dict K ℕ → Option K
  key_of v [] = none
  key_of v ((a, w) ∷ d) = if nat_beq w v then some a else key_of v d

  pub key_of-lookup :
      (v : ℕ) (a : K) (d : Dict K ℕ) → Distinct d → key_of v d ≡ some a → lookup a d ≡ some v
  unfolding key_of lookup
  key_of-lookup v a [] h e = cc
  key_of-lookup v a ((b, w) ∷ d) h e = ground (arith, key_of-lookup v a d h.1, k.same_iff b a)

  pub key_of-none : (v : ℕ) (a : K) (d : Dict K ℕ) → key_of v d ≡ none → lookup a d ≢ some v
  unfolding key_of lookup
  key_of-none v a [] h e = cc
  key_of-none v a ((b, w) ∷ d) h e = ground (arith, key_of-none v a d)

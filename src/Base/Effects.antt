-- ===== src/Base/Effects.antt =====
-- Go's pair of a value and an error, and code that also changes a state.
use mathlib.Core.Bool.{Bool, true, false}
use mathlib.Core.Option.{Option, none, some}
use mathlib.Core.Path.{◌≡◌, refl}
use mathlib.Core.Logic.{◌⊎◌, inl, inr}

pub data Result {ℓ} (E : Type 0) (A : Type ℓ) : Type ℓ where
  ok : A → Result E A
  err : E → Result E A

-- A call that changes a state of type `S`, also when it fails.
abbrev pub M : Type 0 → Type 0 → Type 0 → Type 0
M S E A = S → Result E A × S

abbrev pub and_then : {S E A B : Type 0} → Result E A × S → (A → M S E B) → Result E B × S
and_then (ok a, s) f = f a s
and_then (err e, s) f = (err e, s)

infixl 5 ◌>>=◌ ◌>>◌
abbrev pub ◌>>=◌ : {S E A B : Type 0} → M S E A → (A → M S E B) → M S E B
◌>>=◌ m f s = and_then (m s) f

abbrev pub ◌>>◌ : {S E B : Type 0} → M S E (Unit {0}) → M S E B → M S E B
◌>>◌ m k s = and_then (m s) (λ _. k)

abbrev pub pure : {S E A : Type 0} → A → M S E A
pure a s = (ok a, s)

-- `if bad { return err }`
abbrev pub fail_if : {S E : Type 0} → Bool → E → M S E (Unit {0})
fail_if true e s = (err e, s)
fail_if false e s = (ok tt, s)

-- Go wraps the error of a call into one of its own.
abbrev pub wrap_err : {S E F A : Type 0} → (E → F) → Result E A × S → Result F A × S
wrap_err f (ok a, s) = (ok a, s)
wrap_err f (err e, s) = (err (f e), s)

-- The result of a call as a value: its error is looked at later.
abbrev pub attempt : {S E F A : Type 0} → M S E A → M S F (Result E A)
attempt m s = let (r, s') = m s in (ok r, s')

abbrev pub give : {S E A : Type 0} → Result E A → M S E A
give r s = (r, s)

-- Calls that change no state.
abbrev pub try_ok : {E A B : Type 0} → Result E A → (A → Result E B) → Result E B
try_ok (ok a) f = f a
try_ok (err e) f = err e

abbrev pub map_ok : {E A B : Type 0} → (A → B) → Result E A → Result E B
map_ok f (ok a) = ok (f a)
map_ok f (err e) = err e

abbrev pub map_err : {E F A : Type 0} → (E → F) → Result E A → Result F A
map_err f (ok a) = ok a
map_err f (err e) = err (f e)

abbrev pub ok_or : {E A : Type 0} → Option A → E → Result E A
ok_or (some a) e = ok a
ok_or none e = err e

-- A success was a success of each part.
pub and_then-eq_ok :
    {S E A B : Type 0} (r : Result E A × S) (f : A → M S E B) {b : B} {s' : S}
    → and_then r f ≡ (ok b, s')
    → (a : A) × (s : S) × (r ≡ (ok a, s)) × (f a s ≡ (ok b, s'))
and_then-eq_ok (ok a, s) f h = (a, s, refl, h)
and_then-eq_ok (err e, s) f h = cc

pub Result-cases {ℓ} :
    {A : Type ℓ} {E : Type 0} (r : Result E A) → ((a : A) × (r ≡ ok a)) ⊎ ((e : E) × (r ≡ err e))
Result-cases (ok a) = inl (a, refl)
Result-cases (err e) = inr (e, refl)

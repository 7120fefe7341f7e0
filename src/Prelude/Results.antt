-- ===== src/Prelude/Results.antt =====
-- Fallible code: a value, or one of the errors `E` of a component.
use mathlib.Core.Path.{◌≡◌, refl}
use mathlib.Core.Logic.{◌⊎◌, inl, inr}
use mathlib.Core.Bool.{Bool, true, false}
use mathlib.Core.Option.{Option, none, some}

pub data Result (E A : Type 0) : Type 0 where
  ok : A → Result E A
  err : E → Result E A

-- A lookup that must find something.
abbrev pub or_err : {E A : Type 0} → Option A → E → Result E A
or_err (some found) missing = ok found
or_err none missing = err missing

-- The state after a call: that of a success, or the one before, since a transaction that returns
-- an error is rolled back.
abbrev pub after : {E S : Type 0} → S → Result E S → S
after before (err e) = before
after before (ok committed) = committed

abbrev pub first {ℓ} : {A B : Type ℓ} → A × B → A
first p = p.0

abbrev pub map_ok : {E A B : Type 0} → (A → B) → Result E A → Result E B
map_ok g (err e) = err e
map_ok g (ok value) = ok (g value)

-- `if err != nil { return err }` between two calls.
infixl 5 ◌>>=◌
abbrev pub ◌>>=◌ : {E A B : Type 0} (call : Result E A) (next : A → Result E B) → Result E B
(err e) >>= next = err e
(ok value) >>= next = next value

-- Goes on if the condition holds.
abbrev pub guard : {E : Type 0} (holds : Bool) (otherwise : E) → Result E (Unit {0})
guard false otherwise = err otherwise
guard true otherwise = ok tt

infixl 5 ◌>>◌
abbrev pub ◌>>◌ : {E B : Type 0} (call : Result E (Unit {0})) (next : Result E B) → Result E B
call >> next = call >>= λ unit. next

-- How a call came out.
pub Result-cases :
    {E A : Type 0} (call : Result E A)
    → ((value : A) × (call ≡ ok value)) ⊎ ((e : E) × (call ≡ err e))
Result-cases (err e) = inr (e, refl)
Result-cases (ok value) = inl (value, refl)

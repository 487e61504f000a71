-- ===== src/Base/Result.antt =====
-- Go's `(value, error)` results: a value, or an error that ends the function.
use mathlib.Core.Path.{◌≡◌, refl}
use native.Mathlib.Omega.{arith}

pub data Result (E A : Type 0) : Type 0 where
  ok : A → Result E A
  err : E → Result E A

infixl 5 ◌>>=◌
abbrev pub ◌>>=◌ : {E A B : Type 0} → Result E A → (A → Result E B) → Result E B
err failure >>= next = err failure
ok value >>= next = next value

-- If both steps of a chain succeed, this is the value that the first one hands to the second.
pub >>=-eq-ok :
    {E A B : Type 0} (step : Result E A) (next : A → Result E B) {value : B}
    → (step >>= next) ≡ ok value
    → (handed : A) × (step ≡ ok handed) × (next handed ≡ ok value)
>>=-eq-ok (err failure) next both = absurd (ground arith)
>>=-eq-ok (ok handed) next both = (handed, refl, both)

-- ===== src/Prelude/Result.antt =====
-- A call that may raise: `err` carries the cause, one constructor for each `raise` of the source.
use mathlib.Core.Path.{◌≡◌, refl}
use mathlib.Core.Bool.{Bool, true, false}
use native.Mathlib.Omega.{arith}

infixl 5 ◌>>=◌ ◌>>◌
pub data Result {ℓ} (Cause Value : Type ℓ) : Type ℓ where
  err : Cause → Result Cause Value
  ok : Value → Result Cause Value

-- `if test: raise cause`
abbrev pub refuse_if : {Cause : Type 0} → Bool → Cause → Result Cause Unit
refuse_if true cause = err cause
refuse_if false cause = ok tt

abbrev pub ◌>>=◌ {ℓ} : {Cause A B : Type ℓ} → Result Cause A → (A → Result Cause B) → Result Cause B
err cause >>= next = err cause
ok value >>= next = next value

abbrev pub ◌>>◌ : {Cause B : Type 0} → Result Cause Unit → Result Cause B → Result Cause B
step >> rest = step >>= λ _. rest

pub ok-injective : {Cause A : Type 0} {a b : A} → ◌≡◌ {A = Result Cause A} (ok a) (ok b) → a ≡ b
ok-injective h = cc

-- A call that returned: its steps returned.
pub >>-eq-ok :
    {Cause B : Type 0} (step : Result Cause Unit) (rest : Result Cause B) {b : B}
    → (step >> rest) ≡ ok b
    → (step ≡ ok tt) × (rest ≡ ok b)
>>-eq-ok (ok tt) rest h = (refl, h)
>>-eq-ok (err cause) rest h = ground arith

pub >>=-eq-ok :
    {Cause A B : Type 0} (step : Result Cause A) (next : A → Result Cause B) {b : B}
    → (step >>= next) ≡ ok b
    → (a : A) × (step ≡ ok a) × (next a ≡ ok b)
>>=-eq-ok (ok a) next h = (a, refl, h)
>>=-eq-ok (err cause) next h = ground arith

-- ===== src/Prelude/Results.antt =====
-- Python's exceptions as values: a fallible function returns a result.
use mathlib.Core.Path.{◌≡◌, refl, ap}
use mathlib.Core.Bool.{Bool, true, false}
use mathlib.Core.Option.{Option, none, some}

-- The exception classes that the modelled code raises, itself or through Python's own operators.
pub data Error : Type 0 where
  zero_division index_error key_error value_error runtime_error assertion_error interrupted_error
        os_error truncated_tensor unsupported_dtype attribute_error :
      Error

pub data Result {ℓ} (A : Type ℓ) : Type ℓ where
  ok : A → Result A
  err : Error → Result A

-- A lookup that raises where there is nothing to return.
abbrev pub or_raise {ℓ} : {A : Type ℓ} → Option A → Error → Result A
or_raise none error = err error
or_raise (some found) error = ok found

infixl 5 ◌>>=◌ ◌>>◌
-- The next statement runs only if this one has not raised.
abbrev pub ◌>>=◌ {ι κ} : {X : Type ι} {Y : Type κ} → Result X → (X → Result Y) → Result Y
err error >>= next = err error
ok x >>= next = next x

-- `if not test: raise error`
abbrev pub guard : Bool → Error → Result (Unit {0})
guard false error = err error
guard true error = ok tt

abbrev pub ◌>>◌ {κ} : {Y : Type κ} → Result (Unit {0}) → Result Y → Result Y
first >> next = first >>= λ _. next

pub ok-injective {ℓ} : {A : Type ℓ} {a b : A} → ok a ≡ ok b → a ≡ b
ok-injective {A} {a} h = ap (λ r. value_or r a) h
  where
    value_or : Result A → A → A
    value_or (ok x) d = x
    value_or (err e) d = d

-- What a passed guard leaves: its test, and the rest of the block.
pub guard-eq-ok {ℓ} :
    {A : Type ℓ} (test : Bool) (error : Error) (rest : Result A) {a : A}
    → (guard test error >> rest) ≡ ok a
    → (test ≡ true) × (rest ≡ ok a)
guard-eq-ok false error rest returned = cc
guard-eq-ok true error rest returned = (refl, returned)

-- A block that returned: what its first statement gave, and what the rest made of it.
pub >>=-eq-ok {ι κ} :
    {X : Type ι} {Y : Type κ} (first : Result X) (next : X → Result Y) {y : Y}
    → (first >>= next) ≡ ok y
    → (x : X) × (first ≡ ok x) × (next x ≡ ok y)
>>=-eq-ok (err error) next returned = cc
>>=-eq-ok (ok x) next returned = (x, refl, returned)

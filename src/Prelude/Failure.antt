-- ===== src/Prelude/Failure.antt =====
-- Python's exceptions as values. A constructor stands for an exception class of the program, and
-- carries what the code reads from the exception: its message, or its code and message.
use Prim.Native.String.{String}
use Prim.Native.Nat.{ℕ}
use mathlib.Core.Path.{◌≡◌, refl}
use mathlib.Core.Bool.{Bool, true, false}

pub data Error : Type 0 where
  value_error type_error permission_error runtime_error key_error index_error : String → Error
  trace_integrity visibility_violation artifact_error operator_input : String → Error
  -- `TransportError(code, message)`
  transport_error : String → String → Error
  -- `BudgetExhaustedError(resource, approved, consumed, requested)`
  budget_exhausted : String → ℕ → ℕ → ℕ → Error

-- A call that returns a value, or raises.
pub data Result {ℓ} (A : Type ℓ) : Type ℓ where
  err : Error → Result A
  ok : A → Result A

-- `if test: raise error`
abbrev pub raise_if : Bool → Error → Result (Unit {0})
raise_if false error = ok tt
raise_if true error = err error

infixl 5 ◌>>=◌ ◌>>◌
-- The next statement runs on the value, if there is one.
abbrev pub ◌>>=◌ {ℓ κ} : {A : Type ℓ} {B : Type κ} → Result A → (A → Result B) → Result B
err error >>= next = err error
ok value >>= next = next value

abbrev pub ◌>>◌ {ℓ} : {B : Type ℓ} → Result (Unit {0}) → Result B → Result B
check >> rest = check >>= λ done. rest

-- If two statements in a row return, the first one did.
pub >>=-eq-ok {ℓ κ} :
    {A : Type ℓ} {B : Type κ} (first : Result A) (next : A → Result B) {b : B}
    → (first >>= next) ≡ ok b
    → (value : A) × (first ≡ ok value) × (next value ≡ ok b)
>>=-eq-ok (err error) next returned = cc
>>=-eq-ok (ok value) next returned = (value, refl, returned)

-- A check that passed, with the rest of the function's body.
pub raise_if-passes {ℓ} :
    {B : Type ℓ} (test : Bool) (error : Error) (rest : Result B) {b : B}
    → (raise_if test error >> rest) ≡ ok b
    → (test ≡ false) × (rest ≡ ok b)
raise_if-passes false error rest returned = (refl, returned)
raise_if-passes true error rest returned = cc

-- Whatever the first computation returns, the second one returns too.
abbrev pub Refines {ℓ} : {A : Type ℓ} → Result A → Result A → Type ℓ
Refines m n = (x : _) → m ≡ ok x → n ≡ ok x

pub Refines-same {ℓ} : {A : Type ℓ} (m : Result A) → Refines m m
Refines-same m x h = h

pub Refines->>= {ℓ κ} :
    {A : Type ℓ} {B : Type κ} (m n : Result A) (f g : A → Result B)
    → Refines m n
    → ((a : A) → Refines (f a) (g a))
    → Refines (m >>= f) (n >>= g)
Refines->>= (err e) n f g k l x h = cc
Refines->>= (ok a) n f g k l x h = rw (k a refl) (l a x h)

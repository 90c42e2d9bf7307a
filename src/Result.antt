-- ===== src/Result.antt =====
-- The outcome of a C++ call: a value, or the exception that leaves it.
use ieee.Prelude.{String, ◌≡◌, refl, subst}

-- `length_error`, `runtime_error` and `invalid_argument` carry what `what()` returns.
-- `out_of_bounds` is no exception: it is a read or a write through a pointer past its buffer.
-- `out_of_fuel` is not in the program either: a loop of the model used up its rounds.
pub data Error : Type 0 where
  length_error : String → Error
  runtime_error : String → Error
  invalid_argument : String → Error
  out_of_bounds : Error
  out_of_fuel : Error

pub data Result {ℓ} (A : Type ℓ) : Type ℓ where
  ok : A → Result A
  err : Error → Result A

infixl 5 ◌>>=◌
abbrev pub ◌>>=◌ {ℓ κ} : {A : Type ℓ} {B : Type κ} → Result A → (A → Result B) → Result B
ok value >>= next = next value
err thrown >>= next = err thrown

-- The call returns a value that satisfies `P`, or throws a runtime_error. It throws no other
-- exception and meets no fault.
abbrev pub Safely {ℓ} : {A : Type ℓ} → (A → Type 0) → Result A → Type 0
Safely P (ok a) = P a
Safely P (err (runtime_error s)) = Unit {0}
Safely P (err _) = ⊥

pub Safely-bind {ℓ κ} :
    {A : Type ℓ} {B : Type κ} (P : A → Type 0) (Q : B → Type 0) (r : Result A) (f : A → Result B)
    → Safely P r
    → ((a : A) → P a → Safely Q (f a))
    → Safely Q (r >>= f)
Safely-bind P Q (ok a) f h k = k a h
Safely-bind P Q (err (length_error s)) f h k = h
Safely-bind P Q (err (runtime_error s)) f h k = h
Safely-bind P Q (err (invalid_argument s)) f h k = h
Safely-bind P Q (err out_of_bounds) f h k = h
Safely-bind P Q (err out_of_fuel) f h k = h

pub Safely-ok {ℓ} :
    {A : Type ℓ} (P : A → Type 0) (r : Result A) {a : A} → Safely P r → r ≡ ok a → P a
Safely-ok P (ok a) h e = subst P (cc) h
Safely-ok P (err x) h e = cc

pub Safely-map {ℓ} :
    {A : Type ℓ} (P Q : A → Type 0) (r : Result A) → Safely P r → ((a : A) → P a → Q a) → Safely Q r
Safely-map P Q (ok a) h k = k a h
Safely-map P Q (err (length_error s)) h k = h
Safely-map P Q (err (runtime_error s)) h k = h
Safely-map P Q (err (invalid_argument s)) h k = h
Safely-map P Q (err out_of_bounds) h k = h
Safely-map P Q (err out_of_fuel) h k = h

-- Inversion of a call that returned.
pub >>=-eq-ok {ℓ κ} :
    {A : Type ℓ} {B : Type κ} {b : B} (first : Result A) (next : A → Result B)
    → (first >>= next) ≡ ok b
    → (value : A) × (first ≡ ok value) × (next value ≡ ok b)
>>=-eq-ok (ok value) next returned = (value, refl, returned)
>>=-eq-ok (err thrown) next returned = cc

pub same_error {ℓ} : {A : Type ℓ} {e e' : Error} → ◌≡◌ {A = Result A} (err e) (err e') → e ≡ e'
same_error same = cc

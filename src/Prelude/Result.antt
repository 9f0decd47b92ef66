-- ===== src/Prelude/Result.antt =====
-- How a call ends, for the functions of the library that return a `dpu_offload_status_t`.
use mathlib.Core.Path.{◌≡◌, ◌∙◌, ap}
use mathlib.Core.Logic.{◌⊎◌, inl, inr}
use mathlib.Core.Bool.{Bool, true, false}
use mathlib.Core.Option.{Option, none, some}

-- `ok` is DO_SUCCESS with what goes out through the pointers; `err` is DO_ERROR, with what was
-- written through the pointers before, if anything; `fault` is a failed `assert`, a NULL pointer
-- that is read or an access out of bounds.
pub data Result {ℓ} (A : Type ℓ) : Type ℓ where
  ok : A → Result A
  err : Option A → Result A
  fault : Result A

infixl 5 ◌>>=◌
abbrev pub ◌>>=◌ {ℓ κ} : {A : Type ℓ} {B : Type κ} → Result A → (A → Result B) → Result B
ok a >>= f = f a
err e >>= f = err none
fault >>= f = fault

-- A read that may be out of bounds, or a pointer that must not be NULL.
abbrev pub need {ℓ} : {A : Type ℓ} → Option A → Result A
need (some a) = ok a
need none = fault

-- `assert(b)`
abbrev pub check {ℓ} : {A : Type ℓ} → Bool → Result A → Result A
check true r = r
check false r = fault

-- What goes out is used further, also beside an error.
abbrev pub map_result {ℓ κ} : {A : Type ℓ} {B : Type κ} → (A → B) → Result A → Result B
map_result f (ok a) = ok (f a)
map_result f (err none) = err none
map_result f (err (some a)) = err (some (f a))
map_result f fault = fault

-- A call that ends with an error if the one before it does, and keeps what is there then.
abbrev pub keep_err {ℓ κ} : {A : Type ℓ} {B : Type κ} → B → Result A → (A → Result B) → Result B
keep_err b (ok a) f = f a
keep_err b (err e) f = err (some b)
keep_err b fault f = fault

-- A call after another one on the same state, if that succeeded.
abbrev pub and_then {ℓ} : {A : Type ℓ} → Result A → (A → Result A) → Result A
and_then (ok a) f = f a
and_then (err e) f = err e
and_then fault f = fault

-- An error that is printed, with which the code goes on.
abbrev pub printed {ℓ} : {A : Type ℓ} → Result A → Result A
printed (ok a) = ok a
printed (err (some a)) = ok a
printed (err none) = err none
printed fault = fault

-- The same for code that cannot return an error.
abbrev pub bind {ℓ κ} : {A : Type ℓ} {B : Type κ} → Option A → (A → Option B) → Option B
bind none f = none
bind (some a) f = f a

abbrev pub assert {ℓ} : {A : Type ℓ} → Bool → Option A → Option A
assert true r = r
assert false r = none

-- Inversion of a read that succeeded.
pub bind-eq-some {ℓ κ} :
    {A : Type ℓ} {B : Type κ} (m : Option A) (f : A → Option B) {b : B}
    → bind m f ≡ some b
    → (a : A) × (m ≡ some a) × (f a ≡ some b)
bind-eq-some none f h = cc
bind-eq-some (some a) f h = (a, mathlib.Core.Path.refl, h)

pub Result-cases {ℓ} :
    {A : Type ℓ} (r : Result A)
    → ((a : A) × (r ≡ ok a)) ⊎ (((e : Option A) × (r ≡ err e)) ⊎ (r ≡ fault))
Result-cases (ok a) = inl (a, mathlib.Core.Path.refl)
Result-cases (err e) = inr (inl (e, mathlib.Core.Path.refl))
Result-cases fault = inr (inr mathlib.Core.Path.refl)

-- A call that succeeded, and what follows.
pub >>=-ok {ℓ κ} :
    {A : Type ℓ} {B : Type κ} {m : Result A} {a : A} (f : A → Result B) {r : Result B}
    → m ≡ ok a
    → f a ≡ r
    → (m >>= f) ≡ r
>>=-ok f e h = ap (λ x. x >>= f) e ∙ h

-- A sequence that succeeded: its first call did, and so did the rest on what it gave.
pub check-inv {ℓ} :
    {A : Type ℓ} (test : Bool) (call : Result A) {found : A}
    → check test call ≡ ok found
    → (test ≡ true) × (call ≡ ok found)
check-inv false call done = absurd cc
check-inv true call done = (mathlib.Core.Path.refl, done)

pub >>=-inv {ℓ κ} :
    {A : Type ℓ} {B : Type κ} (call : Result A) (rest : A → Result B) {out : B}
    → (call >>= rest) ≡ ok out
    → (found : A) × (call ≡ ok found) × (rest found ≡ ok out)
>>=-inv fault rest done = absurd cc
>>=-inv (err left) rest done = absurd cc
>>=-inv (ok found) rest done = (found, mathlib.Core.Path.refl, done)

-- A part that was had, and what follows.
pub bind-some :
    {A B : Type 0} {m : Option A} {a : A} (f : A → Option B) {r : Option B}
    → m ≡ some a
    → f a ≡ r
    → bind m f ≡ r
bind-some f e h = ap (λ x. bind x f) e ∙ h

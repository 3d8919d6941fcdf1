-- ===== src/Prelude/Faults.antt =====
-- What a call does besides returning: it throws, or its behaviour is undefined in C++.
use mathlib.Core.Path.{◌≡◌, refl, ap}
use mathlib.Core.Option.{Option, none, some}

pub data Fault : Type 0 where
  undefined : Fault
  invalid_argument : Fault
  out_of_range : Fault
  system_error : Fault

pub data Result {ℓ} (A : Type ℓ) : Type ℓ where
  err : Fault → Result A
  ok : A → Result A

-- An access that the source makes with no test, such as `top` of a stack or `v[i]` of a vector.
abbrev pub or_undefined {ℓ} : {A : Type ℓ} → Option A → Result A
or_undefined (some a) = ok a
or_undefined none = err undefined

module _ {ℓ κ} {A : Type ℓ} {B : Type κ} where
  infixl 5 ◌>>=◌
  -- What comes after a fault is not run.
  abbrev pub ◌>>=◌ : Result A → (A → Result B) → Result B
  err fault >>= next = err fault
  ok value >>= next = next value

  pub >>=-eq-ok :
      (m : Result A) (next : A → Result B) {b : B}
      → (m >>= next) ≡ ok b
      → (value : A) × (m ≡ ok value) × (next value ≡ ok b)
  >>=-eq-ok (ok value) next h = (value, refl, h)
  >>=-eq-ok (err fault) next h = cc

pub ok-injective {ℓ} : {A : Type ℓ} (a b : A) → ok a ≡ ok b → a ≡ b
ok-injective a b e = ap (λ r. elim r [ err fault ↦ a | ok value ↦ value ]) e

bind_assoc {ℓ κ μ} :
    {A : Type ℓ} {B : Type κ} {C : Type μ} (m : Result A) (next : A → Result B)
    (last : B → Result C)
    → (m >>= next >>= last) ≡ (m >>= λ value. next value >>= last)
bind_assoc (err fault) next last = refl
bind_assoc (ok value) next last = refl

-- ===== src/Result.antt =====
-- What a Python call answers: a value, or the exception that it raises.
use auth_claw.Prelude.{refl, ◌≡◌}

pub data Fault : Type 0 where
  attribute_error timeout_error value_error provider_error storage_error : Fault

pub data Result {ℓ} (A : Type ℓ) : Type ℓ where
  ok : A → Result A
  raised : Fault → Result A

-- The call returns a value.
abbrev pub Returns {ℓ} : {A : Type ℓ} → Result A → Type ℓ
Returns {A} r = (a : A) × (r ≡ ok a)

infixl 5 ◌>>=◌
abbrev pub ◌>>=◌ {ℓ κ} : {A : Type ℓ} {B : Type κ} → Result A → (A → Result B) → Result B
ok a >>= next = next a
raised fault >>= next = raised fault

module _ {ℓ κ} {A : Type ℓ} {B : Type κ} (m : Result A) (f : A → Result B) where
  pub Returns-bind : Returns m → ((a : A) → Returns (f a)) → Returns (m >>= f)
  Returns-bind (a, e) h = rw e (h a)

  -- The value that a call which goes on has returned.
  pub >>=-eq-ok : {b : B} → (m >>= f) ≡ ok b → (a : A) × (m ≡ ok a) × (f a ≡ ok b)
  >>=-eq-ok {b} h = first_value m h
    where
      first_value : (n : Result A) → (n >>= f) ≡ ok b → (a : A) × (n ≡ ok a) × (f a ≡ ok b)
      first_value (raised fault) k = cc
      first_value (ok a) k = (a, refl, k)

pub Returns-ok {ℓ} : {A : Type ℓ} (a : A) → Returns (ok a)
Returns-ok a = (a, refl)

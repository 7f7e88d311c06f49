-- ===== src/Prelude/Lists.antt =====
-- Lists measured by native numbers, Boolean quantifiers and predicates by recursion.
use Prim.Native.Nat.{ℕ, suc, ◌+◌}
use mathlib.Core.Path.{◌≡◌, refl}
use mathlib.Core.Bool.{Bool, true, false, ◌&&◌, ◌||◌}
use mathlib.Core.List.{List, [], ◌∷◌, ◌++◌, map}
use native.Mathlib.Omega.{arith}
use auth_claw.Prelude.Tests.{if◌then◌else◌}

module _ {ℓ} {A : Type ℓ} where
  abbrev pub length : List A → ℕ
  length [] = 0
  length (x ∷ xs) = suc (length xs)

  abbrev pub all : (A → Bool) → List A → Bool
  all p [] = true
  all p (x ∷ xs) = p x && all p xs

  abbrev pub any : (A → Bool) → List A → Bool
  any p [] = false
  any p (x ∷ xs) = p x || any p xs

  -- Python's `[x for x in xs if p x]`.
  abbrev pub keep : (A → Bool) → List A → List A
  keep p [] = []
  keep p (x ∷ xs) = let rest = keep p xs in if p x then x ∷ rest else rest

  abbrev pub is_empty : List A → Bool
  is_empty [] = true
  is_empty (x ∷ xs) = false

  pub length-append : (xs ys : List A) → length (xs ++ ys) ≡ length xs + length ys
  length-append [] ys = omega arith
  length-append (x ∷ xs) ys = omega (arith, length-append xs ys)

  pub any-append : (p : A → Bool) (xs ys : List A) → any p (xs ++ ys) ≡ (any p xs || any p ys)
  any-append p [] ys = refl
  any-append p (x ∷ xs) ys = ground (arith, any-append p xs ys)

module _ {ℓ κ} {A : Type ℓ} (P : A → Type κ) where
  abbrev pub All : List A → Type κ
  All [] = Unit
  All (x ∷ xs) = P x × All xs

  -- There is an item of the list with the property, and its place is known.
  pub data Exists : List A → Type (ℓ ⊔ κ) where
    here : {x : A} {xs : List A} → P x → Exists (x ∷ xs)
    there : {x : A} {xs : List A} → Exists xs → Exists (x ∷ xs)

  pub All-append : (xs ys : List A) → All xs → All ys → All (xs ++ ys)
  All-append [] ys h k = k
  All-append (x ∷ xs) ys (p, h) k = (p, All-append xs ys h k)

  pub Exists-append_left : (xs ys : List A) → Exists xs → Exists (xs ++ ys)
  Exists-append_left [] ys e = elim e [ ]
  Exists-append_left (x ∷ xs) ys (here p) = here p
  Exists-append_left (x ∷ xs) ys (there e) = there (Exists-append_left xs ys e)

  pub Exists-append_right : (xs ys : List A) → Exists ys → Exists (xs ++ ys)
  Exists-append_right [] ys e = e
  Exists-append_right (x ∷ xs) ys e = there (Exists-append_right xs ys e)

module _ {ℓ κ μ} {A : Type ℓ} {P : A → Type κ} {Q : A → Type μ} where
  pub Exists-weaken : ((x : A) → P x → Q x) → (xs : List A) → Exists P xs → Exists Q xs
  Exists-weaken f [] e = elim e [ ]
  Exists-weaken f (x ∷ xs) (here p) = here (f x p)
  Exists-weaken f (x ∷ xs) (there e) = there (Exists-weaken f xs e)

  pub All-weaken : ((x : A) → P x → Q x) → (xs : List A) → All P xs → All Q xs
  All-weaken f [] h = tt
  All-weaken f (x ∷ xs) (p, h) = (f x p, All-weaken f xs h)

module _ {ℓ κ μ} {A : Type ℓ} {B : Type κ} (P : B → Type μ) (f : A → B) where
  pub Exists-map : (xs : List A) → Exists (λ x. P (f x)) xs → Exists P (map f xs)
  Exists-map [] e = elim e [ ]
  Exists-map (x ∷ xs) (here p) = here p
  Exists-map (x ∷ xs) (there e) = there (Exists-map xs e)

  pub All-map : (xs : List A) → All (λ x. P (f x)) xs → All P (map f xs)
  All-map [] h = tt
  All-map (x ∷ xs) (p, h) = (p, All-map xs h)

  pub All-unmap : (xs : List A) → All P (map f xs) → All (λ x. P (f x)) xs
  All-unmap [] h = tt
  All-unmap (x ∷ xs) (p, h) = (p, All-unmap xs h)

-- What holds of all items holds of the one that is found.
pub All-Exists {ℓ κ μ} :
    {A : Type ℓ} {P : A → Type κ} {Q : A → Type μ} (xs : List A)
    → All P xs
    → Exists Q xs
    → Exists (λ x. P x × Q x) xs
All-Exists [] h e = elim e [ ]
All-Exists (x ∷ xs) (p, h) (here q) = here (p, q)
All-Exists (x ∷ xs) (p, h) (there e) = there (All-Exists xs h e)

pub Exists-elim {ℓ κ μ} :
    {A : Type ℓ} {P : A → Type κ} {C : Type μ} (xs : List A) → ((x : A) → P x → C) → Exists P xs → C
Exists-elim [] f e = elim e [ ]
Exists-elim (x ∷ xs) f (here p) = f x p
Exists-elim (x ∷ xs) f (there e) = Exists-elim xs f e

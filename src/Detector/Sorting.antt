-- ===== src/Detector/Sorting.antt =====
-- Python's stable `sorted`, as insertion from the right, and properties that it keeps.
use auth_claw.Prelude.{
  All, All-append, All-weaken, Bool, Bool-cases, List, [], false, if◌then◌else◌, inl, inr, true,
  ◌++◌, ◌∷◌, ◌≡◌,
}

module _ {ℓ} {A : Type ℓ} (before : A → A → Bool) where
  -- The item goes before the first one that need not precede it.
  unfoldable pub insert : A → List A → List A
  insert x [] = x ∷ []
  insert x (y ∷ ys) = let rest = insert x ys in if before x y then x ∷ y ∷ ys else y ∷ rest

  -- sorted(xs), where `before` says that an item may stand before another.
  unfoldable pub sort : List A → List A
  unfolding insert
  sort [] = []
  sort (x ∷ xs) = insert x (sort xs)

-- A relation between every item and each later one.
abbrev pub Pairwise {ℓ κ} : {A : Type ℓ} → (A → A → Type κ) → List A → Type κ
Pairwise R [] = Unit
Pairwise R (x ∷ xs) = All (R x) xs × Pairwise R xs

pub Pairwise-append_one {ℓ κ} :
    {A : Type ℓ} (R : A → A → Type κ) (xs : List A) (y : A)
    → Pairwise R xs
    → All (λ x. R x y) xs
    → Pairwise R (xs ++ y ∷ [])
Pairwise-append_one R [] y h p = (tt, tt)
Pairwise-append_one R (x ∷ xs) y (q, h) (r, p) =
    (All-append (R x) xs (y ∷ []) q (r, tt), Pairwise-append_one R xs y h p)

module _ {ℓ κ} {A : Type ℓ} (before : A → A → Bool) (P : A → Type κ) where
  pub insert-All : (x : A) (ys : List A) → P x → All P ys → All P (insert before x ys)
  unfolding insert
  insert-All x [] p h = (p, tt)
  insert-All x (y ∷ ys) p (q, h) = elim (Bool-cases (before x y)) [
    | inl e ↦ rw e (p, (q, h))
    | inr e ↦ rw e (q, insert-All x ys p h)
  ]

  pub sort-All : (xs : List A) → All P xs → All P (sort before xs)
  unfolding sort
  sort-All [] h = tt
  sort-All (x ∷ xs) (p, h) = insert-All x (sort before xs) p (sort-All xs h)

module _ {ℓ κ} {A : Type ℓ} (before : A → A → Bool) (R : A → A → Type κ)
    (R-sym : (x y : A) → R x y → R y x) where
  insert-Pairwise :
      (x : A) (ys : List A) → All (R x) ys → Pairwise R ys → Pairwise R (insert before x ys)
  unfolding insert
  insert-Pairwise x [] p h = (tt, tt)
  insert-Pairwise x (y ∷ ys) (p, ps) (q, h) = elim (Bool-cases (before x y)) [
    | inl e ↦ rw e ((p, ps), (q, h))
    | inr e ↦ rw e (insert-All before (R y) x ys (R-sym x y p) q, insert-Pairwise x ys ps h)
  ]

  pub sort-Pairwise : (xs : List A) → Pairwise R xs → Pairwise R (sort before xs)
  unfolding sort
  sort-Pairwise [] h = tt
  sort-Pairwise (x ∷ xs) (p, h) =
      insert-Pairwise x (sort before xs) (sort-All before (R x) xs p) (sort-Pairwise xs h)

-- Sorted by an order that is total and transitive.
module _ {ℓ κ} {A : Type ℓ} (before : A → A → Bool) (R : A → A → Type κ)
    (R-yes : (x y : A) → before x y ≡ true → R x y) (R-no : (x y : A) → before x y ≡ false → R y x)
    (R-trans : (x y z : A) → R x y → R y z → R x z) where
  insert-IsOrdered : (x : A) (ys : List A) → Pairwise R ys → Pairwise R (insert before x ys)
  unfolding insert
  insert-IsOrdered x [] h = (tt, tt)
  insert-IsOrdered x (y ∷ ys) (q, h) = elim (Bool-cases (before x y)) [
    | inl e ↦ rw e ((R-yes x y e, All-weaken (λ z. R-trans x y z (R-yes x y e)) ys q), (q, h))
    | inr e ↦ rw e (insert-All before (R y) x ys (R-no x y e) q, insert-IsOrdered x ys h)
  ]

  pub sort-IsOrdered : (xs : List A) → Pairwise R (sort before xs)
  unfolding sort
  sort-IsOrdered [] = tt
  sort-IsOrdered (x ∷ xs) = insert-IsOrdered x (sort before xs) (sort-IsOrdered xs)

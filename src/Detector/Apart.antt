-- ===== src/Detector/Apart.antt =====
-- The findings that `_dedupe` answers do not overlap.
use auth_claw.Detector.Dedupe.{
  best_with, is_in, overlaps, remove_first, remove_worse, add_finding, select_all,
}
use auth_claw.Detector.Sorting.{Pairwise}
use auth_claw.Detector.State.{SensitiveFinding, finding_eq, is_same}
use auth_claw.Prelude.{
  All, All-append, Bool, Bool-cases, List, [], arith, false, if◌then◌else◌, inl, inr, is_empty,
  keep, not, text_eq_refl, true, ◌&&◌, ◌++◌, ◌∷◌, ◌≡◌,
}

-- Two findings have no character in common.
abbrev pub Apart : SensitiveFinding → SensitiveFinding → Type 0
Apart a b = overlaps a b ≡ false

-- Two findings are two objects.
abbrev pub Distinct : SensitiveFinding → SensitiveFinding → Type 0
Distinct a b = is_same a b ≡ false

pub Apart-sym : (a b : SensitiveFinding) → Apart a b → Apart b a
unfolding overlaps
Apart-sym a b h = ground (arith, h)

pub Distinct-sym : (a b : SensitiveFinding) → Distinct a b → Distinct b a
Distinct-sym a b h = ground (arith, h)

pub finding_eq_refl : (a : SensitiveFinding) → finding_eq a a ≡ true
unfolding finding_eq
finding_eq_refl a =
    let t = text_eq_refl a.entity_type in
    let v = text_eq_refl a.value in let o = text_eq_refl a.source in ground (arith, t, v, o)

pub overlaps-finding_eq :
    (f a b : SensitiveFinding) → finding_eq a b ≡ true → overlaps f a ≡ overlaps f b
unfolding overlaps finding_eq
overlaps-finding_eq f a b h = ground (arith, h)

-- What holds of every selected finding holds of those left.
module _ {ℓ} (P : SensitiveFinding → Type ℓ) where
  remove_first-All :
      (item : SensitiveFinding) (xs : List SensitiveFinding)
      → All P xs
      → All P (remove_first item xs)
  unfolding remove_first
  remove_first-All item [] h = tt
  remove_first-All item (x ∷ xs) (p, h) = elim (Bool-cases (finding_eq item x)) [
    | inl e ↦ rw e h
    | inr e ↦ rw e (p, remove_first-All item xs h)
  ]

  pub remove_worse-All :
      (best : SensitiveFinding) (items xs : List SensitiveFinding)
      → All P xs
      → All P (remove_worse best items xs)
  unfolding remove_worse
  remove_worse-All best [] xs h = h
  remove_worse-All best (item ∷ items) xs h =
      remove_worse-All best items _ (one (is_in item xs && not (is_same item best)))
    where
      one : (b : Bool) → All P (if b then remove_first item xs else xs)
      one true = remove_first-All item xs h
      one false = h

  pub add_finding-All :
      (f : SensitiveFinding) (xs : List SensitiveFinding)
      → P f
      → All P xs
      → All P (add_finding f xs)
  unfolding add_finding
  add_finding-All f xs p h =
      let found = keep (overlaps f) xs in
      let best = best_with found f in
      let left = remove_worse best found xs in
      let kept = remove_worse-All best found xs h in
      answer (is_empty found) (is_same best f && not (is_in f left)) left kept
    where
      answer :
          (a b : Bool) (left : List SensitiveFinding)
          → All P left
          → All P (if a then xs ++ f ∷ [] else if b then left ++ f ∷ [] else left)
      answer true b left k = All-append P xs (f ∷ []) h (p, tt)
      answer false true left k = All-append P left (f ∷ []) k (p, tt)
      answer false false left k = k

  pub select_all-All :
      (fs xs : List SensitiveFinding) → All P fs → All P xs → All P (select_all fs xs)
  unfolding select_all
  select_all-All [] xs p h = h
  select_all-All (f ∷ fs) xs (p, ps) h =
      select_all-All fs (add_finding f xs) ps (add_finding-All f xs p h)

module _ {ℓ} (R : SensitiveFinding → SensitiveFinding → Type ℓ) where
  remove_first-Pairwise :
      (item : SensitiveFinding) (xs : List SensitiveFinding)
      → Pairwise R xs
      → Pairwise R (remove_first item xs)
  unfolding remove_first
  remove_first-Pairwise item [] h = tt
  remove_first-Pairwise item (x ∷ xs) (p, h) = elim (Bool-cases (finding_eq item x)) [
    | inl e ↦ rw e h
    | inr e ↦ rw e (remove_first-All (R x) item xs p, remove_first-Pairwise item xs h)
  ]

  pub remove_worse-Pairwise :
      (best : SensitiveFinding) (items xs : List SensitiveFinding)
      → Pairwise R xs
      → Pairwise R (remove_worse best items xs)
  unfolding remove_worse
  remove_worse-Pairwise best [] xs h = h
  remove_worse-Pairwise best (item ∷ items) xs h =
      remove_worse-Pairwise best items _ (one (is_in item xs && not (is_same item best)))
    where
      one : (b : Bool) → Pairwise R (if b then remove_first item xs else xs)
      one true = remove_first-Pairwise item xs h
      one false = h

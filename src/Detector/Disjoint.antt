-- ===== src/Detector/Disjoint.antt =====
-- The loop of `_dedupe` keeps the selected findings apart.
use auth_claw.Detector.Apart.{
  Apart, Apart-sym, Distinct, Distinct-sym, finding_eq_refl, overlaps-finding_eq,
  remove_worse-Pairwise, add_finding-All,
}
use auth_claw.Detector.Dedupe.{
  best_with, by_place, by_start, dedupe, is_in, overlaps, remove_first, remove_worse, add_finding,
  select_all,
}
use auth_claw.Detector.Sorting.{Pairwise, Pairwise-append_one, sort, sort-Pairwise}
use auth_claw.Detector.State.{SensitiveFinding, finding_eq, is_same}
use auth_claw.Prelude.{
  All, All-weaken, Bool, Bool-cases, List, [], and-split, ap, arith, false, if◌then◌else◌, inl, inr,
  is_empty, keep, not, refl, subst, sym, true, ◌&&◌, ◌∙◌, ◌∷◌, ◌≡◌,
}

abbrev clear_of : SensitiveFinding → SensitiveFinding → Bool
clear_of f x = not (overlaps f x)

-- A finding that no removed item is equal to stays in front.
remove_worse-stays :
    (best f y : SensitiveFinding) (items zs : List SensitiveFinding)
    → overlaps f y ≡ false
    → All (λ x. overlaps f x ≡ true) items
    → remove_worse best items (y ∷ zs) ≡ y ∷ remove_worse best items zs
unfolding remove_worse is_in remove_first
remove_worse-stays best f y [] zs h p = refl
remove_worse-stays best f y (item ∷ items) zs h (o, p) = elim (Bool-cases (finding_eq item y)) [
  | inl e ↦ let same_place = overlaps-finding_eq f item y e in cc
  | inr e ↦
      ap (remove_worse best items) (one e (is_same item best))
      ∙ remove_worse-stays best f y items
          (if is_in item zs && not (is_same item best) then remove_first item zs else zs) h p
]
  where
    if-cons :
        (c : Bool)
        → (if c then y ∷ remove_first item zs else y ∷ zs)
          ≡ y ∷ (if c then remove_first item zs else zs)
    if-cons true = refl
    if-cons false = refl

    one :
        finding_eq item y ≡ false
        → (b : Bool)
        → (if is_in item (y ∷ zs) && not b then remove_first item (y ∷ zs) else y ∷ zs)
          ≡ y ∷ (if is_in item zs && not b then remove_first item zs else zs)
    one e b = rw e (if-cons (is_in item zs && not b))

keep-overlaps :
    (f : SensitiveFinding) (xs : List SensitiveFinding)
    → All (λ x. overlaps f x ≡ true) (keep (overlaps f) xs)
keep-overlaps f [] = tt
keep-overlaps f (x ∷ xs) = elim (Bool-cases (overlaps f x)) [
  | inl e ↦ rw e (e, keep-overlaps f xs)
  | inr e ↦ rw e (keep-overlaps f xs)
]

head-removed :
    (best x : SensitiveFinding) (xs : List SensitiveFinding)
    → is_same x best ≡ false
    → (if is_in x (x ∷ xs) && not (is_same x best) then remove_first x (x ∷ xs) else x ∷ xs) ≡ xs
unfolding is_in remove_first
head-removed best x xs d = rw (finding_eq_refl x) (rw d refl)

-- Where the best finding is none of the selected ones, all that overlap with it are removed.
remove_worse-clears :
    (best f : SensitiveFinding) (xs : List SensitiveFinding)
    → All (λ x. is_same x best ≡ false) xs
    → remove_worse best (keep (overlaps f) xs) xs ≡ keep (clear_of f) xs
unfolding remove_worse
remove_worse-clears best f [] h = refl
remove_worse-clears best f (x ∷ xs) (d, h) = elim (Bool-cases (overlaps f x)) [
  | inl e ↦ rw e (
      ap (remove_worse best (keep (overlaps f) xs)) (head-removed best x xs d)
      ∙ remove_worse-clears best f xs h)
  | inr e ↦ rw e (
      remove_worse-stays best f x (keep (overlaps f) xs) xs e (keep-overlaps f xs)
      ∙ ap (◌∷◌ x) (remove_worse-clears best f xs h))
]

keep-All :
    (f : SensitiveFinding) (xs : List SensitiveFinding)
    → All (λ x. Apart x f) (keep (clear_of f) xs)
keep-All f [] = tt
keep-All f (x ∷ xs) = elim (Bool-cases (overlaps f x)) [
  | inl e ↦ rw e (keep-All f xs)
  | inr e ↦ rw e (Apart-sym f x e, keep-All f xs)
]

keep-none :
    (f : SensitiveFinding) (xs : List SensitiveFinding)
    → is_empty (keep (overlaps f) xs) ≡ true
    → All (λ x. Apart x f) xs
keep-none f [] h = tt
keep-none f (x ∷ xs) h = elim (Bool-cases (overlaps f x)) [
  | inl e ↦ let no_way : false ≡ true = sym (ap emptied e) ∙ h in cc
  | inr e ↦ (Apart-sym f x e, keep-none f xs (sym (ap emptied e) ∙ h))
]
  where
    emptied : Bool → Bool
    emptied b = is_empty (if b then x ∷ keep (overlaps f) xs else keep (overlaps f) xs)

add_finding-Apart :
    (f : SensitiveFinding) (xs : List SensitiveFinding)
    → All (λ x. Distinct x f) xs
    → Pairwise Apart xs
    → Pairwise Apart (add_finding f xs)
unfolding add_finding
add_finding-Apart f xs d h =
    let found = keep (overlaps f) xs in
    let best = best_with found f in
    let left = remove_worse best found xs in
    let still = remove_worse-Pairwise Apart best found xs h in
    elim (Bool-cases (is_empty found)) [
      | inl e ↦ rw e (Pairwise-append_one Apart xs f h (keep-none f xs e))
      | inr e ↦ elim (Bool-cases (is_same best f && not (is_in f left))) [
        | inr k ↦ rw e (rw k still)
        | inl k ↦
            let (same_best, new) = and-split (is_same best f) (not (is_in f left)) k in
            let others = All-weaken (λ x p. other x best same_best p) xs d in
            let cleared = remove_worse-clears best f xs others in
            rw e (
              rw k (
                Pairwise-append_one Apart left f still
                  (subst (All (λ x. Apart x f)) (sym cleared) (keep-All f xs))))
      ]
    ]
  where
    other : (x best : SensitiveFinding) → is_same best f ≡ true → Distinct x f → Distinct x best
    other x best e p = ground (arith, e, p)

select_all-Apart :
    (fs xs : List SensitiveFinding)
    → Pairwise Distinct fs
    → All (λ f. All (λ x. Distinct x f) xs) fs
    → Pairwise Apart xs
    → Pairwise Apart (select_all fs xs)
unfolding select_all
select_all-Apart [] xs p d h = h
select_all-Apart (f ∷ fs) xs (p, ps) (d, ds) h =
    select_all-Apart fs (add_finding f xs) ps (later fs p ds) (add_finding-Apart f xs d h)
  where
    later :
        (gs : List SensitiveFinding)
        → All (Distinct f) gs
        → All (λ g. All (λ x. Distinct x g) xs) gs
        → All (λ g. All (λ x. Distinct x g) (add_finding f xs)) gs
    later [] q k = tt
    later (g ∷ gs) (q, qs) (k, ks) = (add_finding-All (λ x. Distinct x g) f xs q k, later gs qs ks)

nothing_selected : (fs : List SensitiveFinding) → All (λ f. All (λ x. Distinct x f) []) fs
nothing_selected [] = tt
nothing_selected (f ∷ fs) = (tt, nothing_selected fs)

-- Where the findings are different objects, no two that are left after the removal of duplicates have
-- a character in common.
pub dedupe-Apart : (fs : List SensitiveFinding) → Pairwise Distinct fs → Pairwise Apart (dedupe fs)
unfolding dedupe
dedupe-Apart fs d =
    let placed = sort by_place fs in
    sort-Pairwise by_start Apart Apart-sym (select_all placed []) (
      select_all-Apart placed [] (sort-Pairwise by_place Distinct Distinct-sym fs d)
        (nothing_selected placed) tt)

-- ===== src/Detector/Laid.antt =====
-- Findings in the order of their places.
use auth_claw.Detector.Apart.{Apart, Distinct, select_all-All}
use auth_claw.Detector.Dedupe.{by_place, by_start, dedupe, overlaps, select_all}
use auth_claw.Detector.Disjoint.{dedupe-Apart}
use auth_claw.Detector.Sorting.{Pairwise, sort, sort-All, sort-IsOrdered}
use auth_claw.Detector.State.{SensitiveFinding}
use auth_claw.Prelude.{All, List, [], arith, ℕ, ◌<◌, ◌∷◌, ◌≤◌}

-- Each finding has a character and begins where the one before it ends, or later; `pos` is the end
-- of what stands before and `n` the length of the text.
abbrev pub Laid : ℕ → ℕ → List SensitiveFinding → Type 0
Laid pos n [] = pos ≤ n
Laid pos n (x ∷ xs) = (pos ≤ x.start) × (x.start < x.end) × Laid x.end n xs

-- The place of a finding in a text of length n.
abbrev pub Inside : ℕ → SensitiveFinding → Type 0
Inside n x = (x.start < x.end) × (x.end ≤ n)

abbrev Follows : SensitiveFinding → SensitiveFinding → Type 0
Follows x y = x.start ≤ y.start

after-Apart :
    (n : ℕ) (x y : SensitiveFinding) → Apart x y → Follows x y → Inside n y → x.end ≤ y.start
unfolding overlaps
after-Apart n x y a f (s, e) = ground (arith, a, f, s)

Laid-Apart :
    (pos n : ℕ) (xs : List SensitiveFinding)
    → pos ≤ n
    → All (λ x. pos ≤ x.start) xs
    → Pairwise Apart xs
    → Pairwise Follows xs
    → All (Inside n) xs
    → Laid pos n xs
Laid-Apart pos n [] h p a f i = h
Laid-Apart pos n (x ∷ xs) h (p, ps) (a, a_rest) (f, fs) ((s, e), i) =
    (p, s, Laid-Apart x.end n xs e (later xs a f i) a_rest fs i)
  where
    later :
        (ys : List SensitiveFinding)
        → All (Apart x) ys
        → All (Follows x) ys
        → All (Inside n) ys
        → All (λ y. x.end ≤ y.start) ys
    later [] b g j = tt
    later (y ∷ ys) (b, bs) (g, gs) (j, js) = (after-Apart n x y b g j, later ys bs gs js)

-- The findings after the removal of duplicates are laid out one after the other in the text.
pub dedupe-Laid :
    (n : ℕ) (found : List SensitiveFinding)
    → Pairwise Distinct found
    → All (Inside n) found
    → Laid 0 n (dedupe found)
unfolding dedupe
dedupe-Laid n found d i =
    let placed = sort by_place found in
    let chosen = select_all placed [] in
    let inside = select_all-All (Inside n) placed [] (sort-All by_place (Inside n) found i) tt in
    Laid-Apart 0 n (sort by_start chosen) (omega arith) (from_zero (sort by_start chosen))
      (dedupe-Apart found d)
      (sort-IsOrdered by_start Follows (λ x y e. ground (arith, e)) (λ x y e. ground (arith, e))
        (λ x y z e k. omega (arith, e, k)) chosen)
      (sort-All by_start (Inside n) chosen inside)
  where
    from_zero : (xs : List SensitiveFinding) → All (λ x. 0 ≤ x.start) xs
    from_zero [] = tt
    from_zero (x ∷ xs) = (omega arith, from_zero xs)

-- ===== src/Detector/Spliced.antt =====
-- The replacement from the last finding to the first is one pass over the text.
use auth_claw.Detector.Apart.{Distinct}
use auth_claw.Detector.Dedupe.{dedupe}
use auth_claw.Detector.Laid.{Inside, Laid, dedupe-Laid}
use auth_claw.Detector.Redact.{
  FindingMetadata, Settings, by_start_down, metadata_of, put, redact_findings, replace_each,
  replacement_of,
}
use auth_claw.Detector.Sorting.{Pairwise, insert, sort, sort-All}
use auth_claw.Detector.State.{SensitiveFinding}
use auth_claw.Prelude.{
  All, List, Option, Text, [], ap, append_assoc, ap₂, arith, false, if◌then◌else◌, is_empty, length,
  map, refl, reverse, reverse-append, reverse-reverse, suc, sym, zero, ℕ, ◌++◌, ◌-◌, ◌∙◌, ◌∷◌, ◌≡◌,
  ◌≤◌,
}
use auth_claw.Redaction.Pieces.{first_chars-after}
use auth_claw.Redaction.Stream.{after_chars, first_chars}

-- One pass from the left: `s` is what of the text stands from `pos` on.
unfoldable pub spliced : (SensitiveFinding → Text) → ℕ → List SensitiveFinding → Text → Text
unfolding first_chars after_chars
spliced new pos [] s = s
spliced new pos (x ∷ xs) s =
    first_chars (x.start - pos) s ++ new x ++ spliced new x.end xs (after_chars (x.end - pos) s)

-- Each replacement in the text that the later ones left.
applied : (SensitiveFinding → Text) → List SensitiveFinding → Text → Text
unfolding put
applied new [] text = text
applied new (x ∷ xs) text = put x.start x.end (new x) (applied new xs text)

first_chars-within :
    (a b : ℕ) (t u : Text)
    → a ≤ b
    → b ≤ length t
    → first_chars a (first_chars b t ++ u) ≡ first_chars a t
unfolding first_chars
first_chars-within zero b t u h k = refl
first_chars-within (suc a) zero t u h k = let no_way : ⊥ = omega (arith, h) in elim no_way [ ]
first_chars-within (suc a) (suc b) [] u h k = let no_way : ⊥ = omega (arith, k) in elim no_way [ ]
first_chars-within (suc a) (suc b) (c ∷ t) u h k =
    ap (◌∷◌ c) (first_chars-within a b t u (omega (arith, h)) (omega (arith, k)))

after_chars-first : (b : ℕ) (t u : Text) → b ≤ length t → after_chars b (first_chars b t ++ u) ≡ u
unfolding first_chars after_chars
after_chars-first zero t u k = refl
after_chars-first (suc b) [] u k = let no_way : ⊥ = omega (arith, k) in elim no_way [ ]
after_chars-first (suc b) (c ∷ t) u k = after_chars-first b t u (omega (arith, k))

first_chars-split :
    (a b : ℕ) (t : Text)
    → a ≤ b
    → first_chars b t ≡ first_chars a t ++ first_chars (b - a) (after_chars a t)
unfolding first_chars after_chars
first_chars-split zero b t h = ap (λ k. first_chars k t) (omega arith)
first_chars-split (suc a) zero t h = let no_way : ⊥ = omega (arith, h) in elim no_way [ ]
first_chars-split (suc a) (suc b) [] h = nothing (suc b - suc a)
  where
    nothing : (k : ℕ) → [] ≡ first_chars k []
    nothing zero = refl
    nothing (suc k) = refl
first_chars-split (suc a) (suc b) (c ∷ t) h =
    ap (◌∷◌ c) (first_chars-split a b t (omega (arith, h)))
    ∙ ap (λ k. c ∷ first_chars a t ++ first_chars k (after_chars a t)) (omega arith)

after_chars-split :
    (a b : ℕ) (t : Text) → a ≤ b → after_chars b t ≡ after_chars (b - a) (after_chars a t)
unfolding after_chars
after_chars-split zero b t h = ap (λ k. after_chars k t) (omega arith)
after_chars-split (suc a) zero t h = let no_way : ⊥ = omega (arith, h) in elim no_way [ ]
after_chars-split (suc a) (suc b) [] h = nothing (suc b - suc a)
  where
    nothing : (k : ℕ) → [] ≡ after_chars k []
    nothing zero = refl
    nothing (suc k) = refl
after_chars-split (suc a) (suc b) (c ∷ t) h =
    after_chars-split a b t (omega (arith, h))
    ∙ ap (λ k. after_chars k (after_chars a t)) (omega arith)

Laid-bound : (pos n : ℕ) (xs : List SensitiveFinding) → Laid pos n xs → pos ≤ n
Laid-bound pos n [] h = h
Laid-bound pos n (x ∷ xs) (p, s, l) = let k = Laid-bound x.end n xs l in omega (arith, p, s, k)

module _ (new : SensitiveFinding → Text) (text : Text) where
  applied-spliced :
      (pos : ℕ) (xs : List SensitiveFinding)
      → Laid pos (length text) xs
      → applied new xs text ≡ first_chars pos text ++ spliced new pos xs (after_chars pos text)
  unfolding applied spliced put
  applied-spliced pos [] h = sym (first_chars-after pos text)
  applied-spliced pos (x ∷ xs) (p, s, l) =
      let rest = spliced new x.end xs (after_chars x.end text) in
      let k = Laid-bound x.end (length text) xs l in
      let begin : first_chars x.start (first_chars x.end text ++ rest) ≡ first_chars x.start text =
        first_chars-within x.start x.end text rest (omega (arith, s)) k in
      ap (put x.start x.end (new x)) (applied-spliced x.end xs l)
      ∙ ap₂ (λ a b. a ++ new x ++ b) begin (after_chars-first x.end text rest k)
      ∙ ap₂ (λ a b. a ++ new x ++ spliced new x.end xs b) (first_chars-split pos x.start text p)
          (after_chars-split pos x.end text (omega (arith, p, s)))
      ∙ ap (λ t. t ++ spliced new x.end xs (after_chars (x.end - pos) (after_chars pos text)))
          (append_assoc (first_chars pos text) (first_chars (x.start - pos) (after_chars pos text))
            (new x))
      ∙ append_assoc (first_chars pos text)
          (first_chars (x.start - pos) (after_chars pos text) ++ new x)
          (spliced new x.end xs (after_chars (x.end - pos) (after_chars pos text)))

Laid-later :
    (low pos n : ℕ) (xs : List SensitiveFinding)
    → low ≤ pos
    → Laid pos n xs
    → All (λ y. low ≤ y.start) xs
Laid-later low pos n [] h l = tt
Laid-later low pos n (x ∷ xs) h (p, s, l) =
    (omega (arith, h, p), Laid-later low x.end n xs (omega (arith, h, p, s)) l)

insert-last :
    (x : SensitiveFinding) (ys : List SensitiveFinding)
    → All (λ y. suc x.start ≤ y.start) ys
    → insert by_start_down x ys ≡ ys ++ x ∷ []
unfolding insert
insert-last x [] h = refl
insert-last x (y ∷ ys) (p, h) =
    let later : by_start_down x y ≡ false = ground (arith, p) in
    rw later (ap (◌∷◌ y) (insert-last x ys h))

-- Laid findings, sorted downwards, are in the reverse order.
sort-last :
    (pos n : ℕ) (x : SensitiveFinding) (xs : List SensitiveFinding)
    → Laid pos n (x ∷ xs)
    → sort by_start_down (x ∷ xs) ≡ sort by_start_down xs ++ x ∷ []
unfolding sort
sort-last pos n x xs (p, s, l) = insert-last x (sort by_start_down xs) (
    sort-All by_start_down (λ y. suc x.start ≤ y.start) xs
      (Laid-later (suc x.start) x.end n xs (omega (arith, s)) l))

module _ (fingerprint : Text → Text) (anonymized : SensitiveFinding → Text → Option Text)
    (settings : Settings) (username : Text) where
  abbrev new_text : SensitiveFinding → Text
  new_text = replacement_of fingerprint anonymized settings username

  abbrev entry : SensitiveFinding → FindingMetadata
  entry = metadata_of fingerprint anonymized settings username

  abbrev each : List SensitiveFinding → Text → List FindingMetadata → Text × List FindingMetadata
  each = replace_each fingerprint anonymized settings username

  replace_each-append_one :
      (ys : List SensitiveFinding) (x : SensitiveFinding) (t : Text) (m : List FindingMetadata)
      → each (ys ++ x ∷ []) t m
        ≡ (put x.start x.end (new_text x) (each ys t m).0, (each ys t m).1 ++ entry x ∷ [])
  unfolding replace_each
  replace_each-append_one [] x t m = refl
  replace_each-append_one (y ∷ ys) x t m =
      replace_each-append_one ys x (put y.start y.end (new_text y) t) (m ++ entry y ∷ [])

  replace_each-sorted :
      (pos : ℕ) (xs : List SensitiveFinding) (t : Text)
      → Laid pos (length t) xs
      → each (sort by_start_down xs) t [] ≡ (applied new_text xs t, reverse (map entry xs))
  unfolding replace_each applied sort
  replace_each-sorted pos [] t h = refl
  replace_each-sorted pos (x ∷ xs) t (p, s, l) =
      ap (λ ys. each ys t []) (sort-last pos (length t) x xs (p, s, l))
      ∙ replace_each-append_one (sort by_start_down xs) x t []
      ∙ ap (λ q. (put x.start x.end (new_text x) q.0, q.1 ++ entry x ∷ []))
          (replace_each-sorted x.end xs t l)
      ∙ ap (λ m. (applied new_text (x ∷ xs) t, m))
          (sym (reverse-append (entry x ∷ []) (map entry xs)))

  -- Where the detectors' findings are different objects, each with a character, inside the text, the
  -- answer is one pass from left to right: the findings that are left after the removal of
  -- duplicates are replaced where they stand and all other characters stay; and the metadata are
  -- those findings' in the order of the text.
  pub redact_findings-spliced :
      (detected : List SensitiveFinding) (text : Text)
      → Pairwise Distinct detected
      → All (Inside (length text)) detected
      → redact_findings fingerprint anonymized settings username detected text ≡ (
        spliced new_text 0 (dedupe detected) text,
        map (metadata_of fingerprint anonymized settings username) (dedupe detected),
      )
  unfolding redact_findings spliced first_chars after_chars
  redact_findings-spliced detected text d i =
      answered (dedupe detected) (dedupe-Laid (length text) detected d i)
    where
      answer : List SensitiveFinding → Text × List FindingMetadata → Text × List FindingMetadata
      answer findings (redacted, metadata) =
          if is_empty findings then (text, []) else (redacted, reverse metadata)

      answered :
          (xs : List SensitiveFinding)
          → Laid 0 (length text) xs
          → answer xs (each (sort by_start_down xs) text [])
            ≡ (spliced new_text 0 xs text, map entry xs)
      answered [] l = refl
      answered (x ∷ xs) l =
          ap (answer (x ∷ xs)) (replace_each-sorted 0 (x ∷ xs) text l)
          ∙ ap₂ (λ t m. (t, m)) (applied-spliced new_text text 0 (x ∷ xs) l)
              (reverse-reverse (map entry (x ∷ xs)))

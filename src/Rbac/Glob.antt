-- ===== src/Rbac/Glob.antt =====
-- Python's `fnmatch` for patterns whose only special character is `*`, the ones of
-- services/rbac_matrix.py.
use auth_claw.Prelude.{
  ==_iff, Bool, Bool-cases, Text, [], and-split, ap, arith, false, if◌then◌else◌, inl, inr,
  is_empty, or-split, refl, subst, sym, true, ℕ, ◌&&◌, ◌++◌, ◌==◌, ◌||◌, ◌↔◌, ◌∙◌, ◌∷◌, ◌≡◌,
}

-- Some suffix of the text passes the test.
unfoldable pub some_suffix : (Text → Bool) → Text → Bool
some_suffix test [] = test []
some_suffix test (c ∷ s) = test (c ∷ s) || some_suffix test s

unfoldable pub eat : ℕ → (Text → Bool) → Text → Bool
eat d test [] = false
eat d test (c ∷ s) = c == d && test s

-- fnmatch.fnmatch(name, pattern), the pattern first.
unfoldable pub fnmatch : Text → Text → Bool
unfolding some_suffix eat
fnmatch [] name = is_empty name
fnmatch (d ∷ p) name = if d == 42 then some_suffix (fnmatch p) name else eat d (fnmatch p) name

-- What a pattern stands for: `*` for any text and another character for itself.
pub data Stands : Text → Text → Type 0 where
  end : Stands [] []
  star : {p : Text} (s : Text) {t : Text} → Stands p t → Stands (42 ∷ p) (s ++ t)
  literal : {d : ℕ} {p t : Text} → (d == 42) ≡ false → Stands p t → Stands (d ∷ p) (d ∷ t)

-- The texts that pass some_suffix are those with a suffix that passes the test.
some_suffix_sound :
    (test : Text → Bool) (name : Text)
    → some_suffix test name ≡ true
    → (s : Text) × (t : Text) × (name ≡ s ++ t) × (test t ≡ true)
unfolding some_suffix
some_suffix_sound test [] h = ([], [], refl, h)
some_suffix_sound test (c ∷ name) h = elim (or-split (test (c ∷ name)) (some_suffix test name) h) [
  | inl now ↦ ([], c ∷ name, refl, now)
  | inr later ↦ let (s, t, e, k) = some_suffix_sound test name later in (c ∷ s, t, ap (◌∷◌ c) e, k)
]

some_suffix-append :
    (test : Text → Bool) (s t : Text) → test t ≡ true → some_suffix test (s ++ t) ≡ true
unfolding some_suffix
some_suffix-append test [] [] h = h
some_suffix-append test [] (c ∷ t) h = ground (arith, h)
some_suffix-append test (c ∷ s) t h = let ih = some_suffix-append test s t h in ground (arith, ih)

eat_sound :
    (d : ℕ) (test : Text → Bool) (name : Text)
    → eat d test name ≡ true
    → (t : Text) × (name ≡ d ∷ t) × (test t ≡ true)
unfolding eat
eat_sound d test [] h = cc
eat_sound d test (c ∷ s) h =
    let (e, k) = and-split (c == d) (test s) h in (s, ap (λ b. b ∷ s) ((==_iff c d).0 e), k)

fnmatch-at_star :
    (d : ℕ) (p name : Text) → (d == 42) ≡ true → fnmatch (d ∷ p) name ≡ some_suffix (fnmatch p) name
unfolding fnmatch
fnmatch-at_star d p name e = rw e refl

fnmatch-at_char :
    (d : ℕ) (p name : Text) → (d == 42) ≡ false → fnmatch (d ∷ p) name ≡ eat d (fnmatch p) name
unfolding fnmatch
fnmatch-at_char d p name e = rw e refl

fnmatch_sound : (p name : Text) → fnmatch p name ≡ true → Stands p name
unfolding fnmatch
fnmatch_sound [] [] h = end
fnmatch_sound [] (c ∷ s) h = cc
fnmatch_sound (d ∷ p) name h = elim (Bool-cases (d == 42)) [
  | inl e ↦
      let (s, t, split, k) =
        some_suffix_sound (fnmatch p) name (sym (fnmatch-at_star d p name e) ∙ h) in
      subst (λ c. Stands (c ∷ p) name) (sym ((==_iff d 42).0 e))
        (subst (Stands (42 ∷ p)) (sym split) (star s (fnmatch_sound p t k)))
  | inr e ↦
      let (t, split, k) = eat_sound d (fnmatch p) name (sym (fnmatch-at_char d p name e) ∙ h) in
      subst (Stands (d ∷ p)) (sym split) (literal e (fnmatch_sound p t k))
]

fnmatch_complete : {p name : Text} → Stands p name → fnmatch p name ≡ true
unfolding fnmatch eat
fnmatch_complete end = refl
fnmatch_complete (star {p} s {t} m) = some_suffix-append (fnmatch p) s t (fnmatch_complete m)
fnmatch_complete (literal {d} {p} {t} e m) =
    fnmatch-at_char d p (d ∷ t) e ∙ ground (arith, fnmatch_complete m)

-- The pattern test answers true exactly for the texts that the pattern stands for, where `*` stands
-- for any text, also one with `/`, and each other character for itself.
pub fnmatch-Stands : (p name : Text) → (fnmatch p name ≡ true) ↔ Stands p name
fnmatch-Stands p name = (fnmatch_sound p name, fnmatch_complete)

-- ===== src/Redaction/Honest.antt =====
-- A step of the redaction that changes the text records it.
use auth_claw.Prelude.{
  ==_iff, All, Bool, Bool-cases, List, Text, [], and-split, ap, append-nil, append_assoc, ap₂,
  arith, false, inl, inr, is_empty, length, not, refl, starts_with, suc, sym, text_eq,
  text_eq_sound, true, zero, ℕ, ◌++◌, ◌-◌, ◌==◌, ◌∙◌, ◌∷◌, ◌≡◌, ◌⊎◌,
}
use auth_claw.Redaction.Matches.{Match, Matches, interleave, replace_from, replace_text, substitute}
use auth_claw.Redaction.Scan.{
  Scan, Triggered, apply_pattern, is_open, record_matches, redacted_label,
}
use auth_claw.Redaction.Stream.{after_chars}

-- The second scan appends entries to the first, and at least one where its text is another.
unfoldable pub Honest : Scan → Scan → Type 0
Honest s t =
    (new : List Triggered) × (t.triggered ≡ s.triggered ++ new)
    × ((t.text ≡ s.text) ⊎ (is_empty new ≡ false))

pub Honest-refl : (s : Scan) → Honest s s
unfolding Honest
Honest-refl s = ([], sym (append-nil s.triggered), inl refl)

nonempty-append_left : (xs ys : List Triggered) → is_empty xs ≡ false → is_empty (xs ++ ys) ≡ false
nonempty-append_left [] ys h = cc
nonempty-append_left (x ∷ xs) ys h = refl

pub nonempty-append_right :
    (xs ys : List Triggered) → is_empty ys ≡ false → is_empty (xs ++ ys) ≡ false
nonempty-append_right [] ys h = h
nonempty-append_right (x ∷ xs) ys h = refl

pub Honest-trans : (s t u : Scan) → Honest s t → Honest t u → Honest s u
unfolding Honest
Honest-trans s t u (a, e, p) (b, f, q) = (
  a ++ b,
  f ∙ ap (λ l. l ++ b) e ∙ append_assoc s.triggered a b,
  elim p [
    | inr k ↦ inr (nonempty-append_left a b k)
    | inl k ↦ elim q [ inl l ↦ inl (l ∙ k) | inr l ↦ inr (nonempty-append_right a b l) ]
  ],
)

-- A match that is not recorded is replaced by itself.
abbrev pub Faithful : (Match → Bool) → (Match → Text) → Match → Type 0
Faithful recorded new m = (recorded m ≡ true) ⊎ (new m ≡ m.whole)

substitute-whole :
    (recorded : Match → Bool) (entry : Match → Triggered) (new : Match → Text) (ms : List Match)
    (rest : Text)
    → All (Faithful recorded new) ms
    → (substitute new ms rest ≡ substitute (λ m. m.whole) ms rest)
      ⊎ (is_empty (record_matches recorded entry ms) ≡ false)
unfolding substitute record_matches
substitute-whole recorded entry new [] rest h = inl refl
substitute-whole recorded entry new (m ∷ ms) rest (p, h) = elim (Bool-cases (recorded m)) [
  | inl e ↦ inr (rw e refl)
  | inr e ↦ elim p [
    | inl k ↦ cc
    | inr k ↦ elim (substitute-whole recorded entry new ms rest h) [
      | inl l ↦ inl (ap₂ (λ a b. m.gap ++ (a ++ b)) k l)
      | inr l ↦ inr (rw e l)
    ]
  ]
]

pub apply_pattern-Honest :
    (found : Matches) (recorded : Match → Bool) (entry : Match → Triggered) (new : Match → Text)
    (scan : Scan)
    → substitute (λ m. m.whole) found.matches found.rest ≡ scan.text
    → All (Faithful recorded new) found.matches
    → Honest scan (apply_pattern found recorded entry new scan)
unfolding Honest apply_pattern
apply_pattern-Honest found recorded entry new scan covers h = (
  record_matches recorded entry found.matches,
  refl,
  elim (substitute-whole recorded entry new found.matches found.rest h) [
    | inl k ↦ inl (k ∙ covers)
    | inr k ↦ inr k
  ],
)

-- An open value is recorded, and another is the label.
pub is_open-cases :
    (value : Match → Text) (m : Match) → (is_open value m ≡ true) ⊎ (value m ≡ redacted_label)
is_open-cases value m = elim (Bool-cases (text_eq (value m) redacted_label)) [
  | inl e ↦ inr (text_eq_sound (value m) redacted_label e)
  | inr e ↦ inl (ap not e)
]

-- Replacing a text by itself.
starts_with-split :
    (s old : Text) → starts_with s old ≡ true → s ≡ old ++ after_chars (length old) s
unfolding starts_with after_chars
starts_with-split s [] h = refl
starts_with-split [] (d ∷ old) h = cc
starts_with-split (c ∷ s) (d ∷ old) h =
    let (e, k) = and-split (c == d) (starts_with s old) h in
    ap₂ ◌∷◌ ((==_iff c d).0 e) (starts_with-split s old k)

replace_from-same :
    (d : ℕ) (old : Text) (skip : ℕ) (s : Text)
    → replace_from (length (d ∷ old)) skip (d ∷ old) (d ∷ old) s ≡ after_chars skip s
unfolding replace_from after_chars
replace_from-same d old zero [] = refl
replace_from-same d old (suc skip) [] = refl
replace_from-same d old (suc skip) (c ∷ s) = replace_from-same d old skip s
replace_from-same d old zero (c ∷ s) = elim (Bool-cases (starts_with (c ∷ s) (d ∷ old))) [
  | inl e ↦
      let n = length old in
      rw e (
        ap (λ t. (d ∷ old) ++ t)
          (replace_from-same d old (suc n - 1) s ∙ ap (λ k. after_chars k s) (omega arith))
        ∙ sym (starts_with-split (c ∷ s) (d ∷ old) e))
  | inr e ↦ rw e (ap (◌∷◌ c) (replace_from-same d old zero s))
]

interleave-nothing : (s : Text) → interleave [] s ≡ s
unfolding interleave
interleave-nothing [] = refl
interleave-nothing (c ∷ s) = ap (◌∷◌ c) (interleave-nothing s)

pub replace_text-same : (old s : Text) → replace_text old old s ≡ s
unfolding replace_text after_chars
replace_text-same [] s = interleave-nothing s
replace_text-same (d ∷ old) s = replace_from-same d old 0 s

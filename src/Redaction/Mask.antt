-- ===== src/Redaction/Mask.antt =====
-- What the action "mask" leaves of an Aadhaar or a card number.
use auth_claw.Prelude.{
  Bool, Bool-cases, Text, [], ap, arith, codes, false, if◌then◌else◌, inl, inr, length, lower, ltb,
  refl, subst, suc, sym, text_eq, true, zero, ℕ, ◌&&◌, ◌+◌, ◌-◌, ◌∙◌, ◌∷◌, ◌≡◌, ◌⊎◌,
}
use auth_claw.Redaction.Apply.{
  aadhaar, apply_redaction, credit_card, digits, is_digit, mask, mask_digits,
}
use auth_claw.Redaction.Stream.{after_chars}

after_chars-nil : (n : ℕ) → after_chars n [] ≡ []
unfolding after_chars
after_chars-nil zero = refl
after_chars-nil (suc n) = refl

-- The digits of a text, in their order.
unfoldable pub digits_of : Text → Text
digits_of [] = []
digits_of (c ∷ s) = let rest = digits_of s in if is_digit c then c ∷ rest else rest

digits_of-length : (s : Text) → length (digits_of s) ≡ digits s
unfolding digits_of digits
digits_of-length [] = refl
digits_of-length (c ∷ s) = let ih = digits_of-length s in ground (arith, ih)

-- With `total - 4 - count` digits still to mask, those digits go first.
mask_digits-digits_of :
    (total count : ℕ) (s : Text)
    → digits_of (mask_digits total count s) ≡ after_chars (total - 4 - count) (digits_of s)
unfolding mask_digits digits_of after_chars
mask_digits-digits_of total count [] = sym (after_chars-nil (total - 4 - count))
mask_digits-digits_of total count (c ∷ s) = elim (Bool-cases (is_digit c)) [
  | inr e ↦ rw e (rw e (mask_digits-digits_of total count s))
  | inl e ↦ elim (Bool-cases (ltb count (total - 4))) [
    | inl l ↦
        let one : total - 4 - count ≡ suc (total - 4 - (count + 1)) = ground (arith, l) in
        rw e (
          rw l (
            mask_digits-digits_of total (count + 1) s
            ∙ ap (λ n. after_chars n (c ∷ digits_of s)) (sym one)))
    | inr l ↦
        let zeros : total - 4 - count ≡ 0 = ground (arith, l) in
        rw e (
          rw l (
            rw e (
              ap (◌∷◌ c)
                (mask_digits-digits_of total count s ∙ ap (λ n. after_chars n (digits_of s)) zeros)
              ∙ ap (λ n. after_chars n (c ∷ digits_of s)) (sym zeros))))
  ]
]

-- Each character stays, or it is a digit and a star takes its place.
abbrev pub IsMasked : Text → Text → Type 0
IsMasked [] [] = Unit {0}
IsMasked [] (d ∷ t) = ⊥
IsMasked (c ∷ s) [] = ⊥
IsMasked (c ∷ s) (d ∷ t) = ((d ≡ c) ⊎ ((is_digit c ≡ true) × (d ≡ 42))) × IsMasked s t

mask_digits-IsMasked : (total count : ℕ) (s : Text) → IsMasked s (mask_digits total count s)
unfolding mask_digits
mask_digits-IsMasked total count [] = tt
mask_digits-IsMasked total count (c ∷ s) =
    let masked = is_digit c && ltb count (total - 4) in
    (
      kept (is_digit c) (ltb count (total - 4)) c,
      mask_digits-IsMasked total (if masked then count + 1 else count) s,
    )
  where
    kept :
        (digit few : Bool) (d : ℕ)
        → ((if digit && few then 42 else d) ≡ d)
          ⊎ ((digit ≡ true) × ((if digit && few then 42 else d) ≡ 42))
    kept false few d = inl refl
    kept true false d = inl refl
    kept true true d = inr (refl, refl)

apply_redaction-mask_digits :
    (fingerprint : Text → Text) (val action : Text)
    → text_eq (lower action) (codes "mask") ≡ true
    → (apply_redaction fingerprint aadhaar val action ≡ mask_digits (digits val) 0 val)
      × (apply_redaction fingerprint credit_card val action ≡ mask_digits (digits val) 0 val)
unfolding apply_redaction mask
apply_redaction-mask_digits fingerprint val action h = (rw h refl, rw h refl)

-- Under the action "mask", in any case, the text that replaces an Aadhaar or a card number has the
-- value's characters in their places but for stars in the place of digits, and its digits are the
-- last four of the value's digits, or all where the value has at most four.
pub apply_redaction-four_digits :
    (fingerprint : Text → Text) (val action : Text)
    → text_eq (lower action) (codes "mask") ≡ true
    → (apply_redaction fingerprint credit_card val action
        ≡ apply_redaction fingerprint aadhaar val action)
      × IsMasked val (apply_redaction fingerprint aadhaar val action)
      × (digits_of (apply_redaction fingerprint aadhaar val action)
          ≡ after_chars (length (digits_of val) - 4) (digits_of val))
apply_redaction-four_digits fingerprint val action h =
    let n = digits val in
    let (first, second) = apply_redaction-mask_digits fingerprint val action h in
    (
      second ∙ sym first,
      subst (IsMasked val) (sym first) (mask_digits-IsMasked n 0 val),
      ap digits_of first
          ∙ mask_digits-digits_of n 0 val
          ∙ ap (λ k. after_chars k (digits_of val))
              (omega arith ∙ ap (λ k. k - 4) (sym (digits_of-length val))),
    )

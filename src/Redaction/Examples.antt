-- ===== src/Redaction/Examples.antt =====
-- Streams and masks.
use auth_claw.Prelude.{
  All, Bool-cases, List, Option, Text, [], ap, arith, codes, contains, false, if◌then◌else◌, inl,
  inr, is_empty, length, lookup, lower, lower_code, none, not, refl, some, starts_with, sym,
  text_eq, text_eq_sound, true, ℕ, ◌++◌, ◌+◌, ◌-◌, ◌==◌, ◌||◌, ◌∷◌, ◌≡◌,
}
use auth_claw.Redaction.Apply.{
  aadhaar, apply_redaction, credit_card, digits, mask, mask_digits, redact_label,
}
use auth_claw.Redaction.Compliance.{active_type, apply_gdpr, apply_hipaa, apply_soc2, is_redacting}
use auth_claw.Redaction.Mask.{IsMasked, apply_redaction-four_digits, digits_of}
use auth_claw.Redaction.Matches.{
  Finder, IsRegular, Match, Matches, Regex, baseline_phone, is_baseline, is_keyword, substitute,
}
use auth_claw.Redaction.Pieces.{joined, token_text}
use auth_claw.Redaction.Recorded.{redact_sensitive_data_rich-recorded}
use auth_claw.Redaction.Rich.{
  add_defaults, apply_baseline, redact_baseline, redact_sensitive_data_rich, sanitized,
}
use auth_claw.Redaction.Scan.{apply_pattern, new_trigger}
use auth_claw.Redaction.Stream.{
  after_chars, cut, first_chars, has_digits, holdback_of, stream_hint_words,
  stream_needs_redaction_scan, stream_pieces, stream_redact_sensitive_tokens, take_token,
  take_tokens,
}
use auth_claw.Redaction.Streamed.{IsScreened, Keeps, stream_redact-IsScreened, stream_redact-joined}
use auth_claw.Redaction.Tokenised.{IsTokenised, redact_sensitive_data_rich-IsTokenised}

abbrev keeps_all : Text → Text
keeps_all t = t

abbrev two_tokens : List (Option Text)
two_tokens = some (codes "Hello ") ∷ none ∷ some (codes "world") ∷ []

at_signs : Text → ℕ
at_signs [] = 0
at_signs (c ∷ s) = let rest = at_signs s in if c == 64 then 1 + rest else rest

at_signs-append : (s t : Text) → at_signs (s ++ t) ≡ at_signs s + at_signs t
unfolding at_signs
at_signs-append [] t = omega arith
at_signs-append (c ∷ s) t = let ih = at_signs-append s t in ground (arith, ih)

-- A redactor of the texts with an "@".
abbrev hides_addresses : Text → Text
unfolding at_signs
hides_addresses t = if at_signs t == 0 then t else codes "[REDACTED_EMAIL]"

hides_addresses-Keeps : Keeps hides_addresses (token_text two_tokens)
unfolding at_signs codes token_text
hides_addresses-Keeps before part after e =
    let whole : at_signs (before ++ (part ++ after)) ≡ 0 = ap at_signs (sym e) in
    let first = at_signs-append before (part ++ after) in
    let second = at_signs-append part after in
    let none_left : at_signs part ≡ 0 = omega (arith, whole, first, second) in rw none_left refl

-- The redactor changes other texts.
address_hidden : hides_addresses (codes "me@home") ≡ codes "[REDACTED_EMAIL]"
unfolding codes hides_addresses
address_hidden = refl

stream_redact-joined_example :
    joined (stream_redact_sensitive_tokens hides_addresses none (some 4) two_tokens)
    ≡ token_text two_tokens
stream_redact-joined_example =
    stream_redact-joined hides_addresses none (some 4) two_tokens hides_addresses-Keeps

-- Two pieces leave before the end of the stream.
hello_pieces :
    stream_redact_sensitive_tokens keeps_all none (some 4) two_tokens
    ≡ codes "He" ∷ codes "llo w" ∷ codes "orld" ∷ []
unfolding stream_redact_sensitive_tokens stream_pieces take_tokens take_token cut first_chars
    after_chars stream_needs_redaction_scan lower contains stream_hint_words has_digits codes
    holdback_of lower_code starts_with
hello_pieces = refl

abbrev blanks : Text → Text
blanks t = codes "[REDACTED]"

stream_redact-IsScreened_example :
    All (IsScreened blanks) (stream_redact_sensitive_tokens blanks none (some 4) two_tokens)
stream_redact-IsScreened_example = stream_redact-IsScreened blanks none (some 4) two_tokens

abbrev card_number : Text
card_number = codes "4111 1111 1111 1234"

apply_redaction-four_digits_example :
    (apply_redaction keeps_all credit_card card_number (codes "Mask")
      ≡ apply_redaction keeps_all aadhaar card_number (codes "Mask"))
    × IsMasked card_number (apply_redaction keeps_all aadhaar card_number (codes "Mask"))
    × (digits_of (apply_redaction keeps_all aadhaar card_number (codes "Mask"))
        ≡ after_chars (length (digits_of card_number) - 4) (digits_of card_number))
unfolding codes text_eq lower lower_code
apply_redaction-four_digits_example =
    apply_redaction-four_digits keeps_all card_number (codes "Mask") refl

card_masked :
    apply_redaction keeps_all credit_card (codes "4111-1111 12") (codes "mask")
    ≡ codes "****-**11 12"
unfolding apply_redaction codes text_eq lower lower_code mask mask_digits digits
card_masked = refl

abbrev number : Text
number = codes "9876543210"

abbrev one_match : Matches
one_match = record {
  matches = record { gap = []; whole = number; group_1 = []; group_2 = []; group_3 = [] } ∷ [];
  rest = [];
}

abbrev no_match : Text → Matches
no_match t = record { matches = []; rest = t }

-- Finds the phone number where it is the whole text.
abbrev find_number : Finder
find_number baseline_phone t = if text_eq t number then one_match else no_match t
find_number _ t = no_match t

phone_matches :
    (P : Match → Type 0) (t : Text)
    → All P one_match.matches
    → All P (find_number baseline_phone t).matches
phone_matches P t h = elim (Bool-cases (text_eq t number)) [ inl e ↦ rw e h | inr e ↦ rw e tt ]

number_covers :
    (r : Regex) (t : Text)
    → substitute (λ m. m.whole) (find_number r t).matches (find_number r t).rest ≡ t
unfolding substitute codes
number_covers baseline_phone t = elim (Bool-cases (text_eq t number)) [
  | inl e ↦ rw e (sym (text_eq_sound t number e))
  | inr e ↦ rw e refl
]
number_covers _ t = refl

number_groups :
    (r : Regex) (t : Text)
    → is_keyword r ≡ true
    → All (λ m. m.whole ≡ m.group_1 ++ (m.group_2 ++ m.group_3)) (find_number r t).matches
number_groups baseline_phone t h = cc
number_groups _ t h = tt

number_unlabelled :
    (r : Regex) (t : Text)
    → is_baseline r ≡ true
    → All (λ m. contains m.whole (codes "[REDACTED") ≡ false) (find_number r t).matches
unfolding contains starts_with codes
number_unlabelled baseline_phone t h =
    phone_matches (λ m. contains m.whole (codes "[REDACTED") ≡ false) t (refl, tt)
number_unlabelled _ t h = tt

find_number-IsRegular : IsRegular find_number
find_number-IsRegular = record {
  covers = number_covers;
  groups = number_groups;
  unlabelled = number_unlabelled;
}

redact_sensitive_data_rich-recorded_example :
    let answer =
      redact_sensitive_data_rich find_number keeps_all (number, []) [] [] (codes "ada") in
    (text_eq answer.0 number || not (is_empty answer.1)) ≡ true
redact_sensitive_data_rich-recorded_example =
    redact_sensitive_data_rich-recorded find_number keeps_all (number, []) [] [] (codes "ada")
      find_number-IsRegular

redact_sensitive_data_rich-IsTokenised_example :
    All IsTokenised
      (redact_sensitive_data_rich find_number keeps_all (number, []) [] [] (codes "ada")).1
redact_sensitive_data_rich-IsTokenised_example =
    redact_sensitive_data_rich-IsTokenised find_number keeps_all (number, []) [] [] (codes "ada")

-- The number is replaced by its label.
number_redacted :
    (redact_sensitive_data_rich find_number keeps_all (number, []) [] [] (codes "ada")).0
    ≡ codes "[REDACTED_PHONE]"
unfolding redact_sensitive_data_rich apply_gdpr apply_hipaa apply_soc2 apply_baseline
    redact_baseline apply_pattern substitute apply_redaction lookup active_type is_redacting
    redact_label lower lower_code text_eq codes
number_redacted = refl

-- A passport number stays in its finding.
passport_kept :
    (sanitized keeps_all (
      new_trigger
        (codes "GDPR")
        (codes "GDPR")
        (codes "ada")
        (codes "passport")
        (codes "A1234567"))).redacted_value
    ≡ codes "A1234567"
unfolding sanitized add_defaults lower lower_code text_eq codes
passport_kept = refl

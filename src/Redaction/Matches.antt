-- ===== src/Redaction/Matches.antt =====
-- The regular expressions of redaction.py, as what `finditer` and `sub` give for them: the engine is
-- the parameter `Finder`.
use auth_claw.Prelude.{
  All, Bool, List, Text, [], codes, contains, false, if◌then◌else◌, length, starts_with, suc, true,
  zero, ℕ, ◌++◌, ◌-◌, ◌∷◌, ◌≡◌,
}

-- The compiled patterns of the four tables.
pub data Regex : Type 0 where
  gdpr_ssn gdpr_ssn_raw gdpr_passport gdpr_keyword : Regex
  hipaa_medical_record hipaa_keyword : Regex
  soc2_card_brand soc2_card_delimited soc2_card_digits soc2_routing soc2_keyword soc2_pin_near :
      Regex
  baseline_email baseline_aadhaar baseline_phone : Regex

-- A match: the text since the one before it, the whole match and its groups.
pub record Match : Type 0 where
  pub gap : Text
  pub whole : Text
  pub group_1 : Text
  pub group_2 : Text
  pub group_3 : Text

-- All matches of a text and what follows the last one.
pub record Matches : Type 0 where
  pub matches : List Match
  pub rest : Text

abbrev pub Finder : Type 0
Finder = Regex → Text → Matches

-- pattern.sub(new, text), where the matches are those of `finditer`.
unfoldable pub substitute : (Match → Text) → List Match → Text → Text
substitute new [] rest = rest
substitute new (m ∷ ms) rest = m.gap ++ (new m ++ substitute new ms rest)

unfoldable pub replace_from : ℕ → ℕ → Text → Text → Text → Text
unfolding starts_with
replace_from size skip old new [] = []
replace_from size zero old new (c ∷ s) =
    if starts_with (c ∷ s) old
    then new ++ replace_from size (size - 1) old new s
    else c ∷ replace_from size zero old new s
replace_from size (suc skip) old new (c ∷ s) = replace_from size skip old new s

-- The text with the replacement before every character and at the end.
unfoldable pub interleave : Text → Text → Text
interleave new [] = new
interleave new (c ∷ s) = new ++ (c ∷ interleave new s)

-- s.replace(old, new) for texts
unfoldable pub replace_text : Text → Text → Text → Text
unfolding replace_from interleave
replace_text [] new s = interleave new s
replace_text (d ∷ old) new s = replace_from (length (d ∷ old)) 0 (d ∷ old) new s

abbrev pub is_keyword : Regex → Bool
is_keyword gdpr_keyword = true
is_keyword hipaa_keyword = true
is_keyword soc2_keyword = true
is_keyword _ = false

abbrev pub is_baseline : Regex → Bool
is_baseline baseline_email = true
is_baseline baseline_aadhaar = true
is_baseline baseline_phone = true
is_baseline _ = false

-- What Python's `re` answers: the gaps and the matches are the text; the three groups of a keyword
-- pattern are the match; and no match of a baseline pattern has a bracket, so not this label.
pub record IsRegular (find : Finder) : Type 0 where
  pub covers :
      (r : Regex) (t : Text) → substitute (λ m. m.whole) (find r t).matches (find r t).rest ≡ t
  pub groups :
      (r : Regex) (t : Text)
      → is_keyword r ≡ true
      → All (λ m. m.whole ≡ m.group_1 ++ (m.group_2 ++ m.group_3)) (find r t).matches
  pub unlabelled :
      (r : Regex) (t : Text)
      → is_baseline r ≡ true
      → All (λ m. contains m.whole (codes "[REDACTED") ≡ false) (find r t).matches

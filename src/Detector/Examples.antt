-- ===== src/Detector/Examples.antt =====
-- Findings in a short text.
use auth_claw.Detector.Apart.{Apart, Distinct}
use auth_claw.Detector.Dedupe.{
  best_of, best_with, dedupe, is_better, is_in, overlaps, remove_first, remove_worse, add_finding,
  select_all,
}
use auth_claw.Detector.Disjoint.{dedupe-Apart}
use auth_claw.Detector.Laid.{Inside}
use auth_claw.Detector.Masks.{mask_ends, mask_first, mask_value}
use auth_claw.Detector.Redact.{
  Settings, action_for, metadata_of, put, redact_findings, replace_each, replacement_for,
  replacement_of, unlisted_action,
}
use auth_claw.Detector.Sorting.{Pairwise, insert, sort}
use auth_claw.Detector.Spliced.{redact_findings-spliced, spliced}
use auth_claw.Detector.State.{SensitiveFinding, finding_eq, secret_entities}
use auth_claw.Prelude.{
  All, List, Option, Text, [], arith, codes, contains, length, lookup, map, none, one_of, refl,
  starts_with, text_eq, upper, upper_code, ℕ, ◌∷◌, ◌≡◌,
}
use auth_claw.Redaction.Apply.{digits, last_of, mask_local, split_at_sign, stars}
use auth_claw.Redaction.Stream.{after_chars, first_chars}

abbrev sample : Text
sample = codes "id 123-45 to a@b.co end"

abbrev id_found : SensitiveFinding
id_found = record {
  object = 0;
  entity_type = codes "ssn";
  start = 3;
  end = 9;
  value = codes "123-45";
  confidence = 9200;
  source = codes "custom";
}

-- A weaker finding that shares characters with the first one.
abbrev part_found : SensitiveFinding
part_found = record {
  object = 1;
  entity_type = codes "phone";
  start = 7;
  end = 11;
  value = codes "45 t";
  confidence = 8000;
  source = codes "custom";
}

abbrev mail_found : SensitiveFinding
mail_found = record {
  object = 2;
  entity_type = codes "email";
  start = 13;
  end = 19;
  value = codes "a@b.co";
  confidence = 9600;
  source = codes "presidio";
}

abbrev all_found : List SensitiveFinding
all_found = mail_found ∷ part_found ∷ id_found ∷ []

abbrev plain_settings : Settings
plain_settings = record {
  actions = (codes "ssn", codes "mask") ∷ [];
  approval_confidence_threshold = none;
  default_action = none;
}

abbrev same_text : Text → Text
same_text t = t

abbrev no_anonymizer : SensitiveFinding → Text → Option Text
no_anonymizer finding action = none

all_found-Distinct : Pairwise Distinct all_found
all_found-Distinct = ((refl, (refl, tt)), ((refl, tt), (tt, tt)))

all_found-Inside : All (Inside (length sample)) all_found
unfolding codes
all_found-Inside =
    ((omega arith, omega arith), ((omega arith, omega arith), ((omega arith, omega arith), tt)))

dedupe-Apart_example : Pairwise Apart (dedupe all_found)
dedupe-Apart_example = dedupe-Apart all_found all_found-Distinct

redact_findings-spliced_example :
    redact_findings same_text no_anonymizer plain_settings (codes "ada") all_found sample ≡ (
      spliced
          (replacement_of same_text no_anonymizer plain_settings (codes "ada"))
          0
          (dedupe all_found)
          sample,
      map (metadata_of same_text no_anonymizer plain_settings (codes "ada")) (dedupe all_found),
    )
redact_findings-spliced_example =
    redact_findings-spliced same_text no_anonymizer plain_settings (codes "ada") all_found sample
      all_found-Distinct all_found-Inside

sample_redacted :
    (redact_findings same_text no_anonymizer plain_settings (codes "ada") all_found sample).0
    ≡ codes "id 1****5 to [REDACTED] end"
unfolding redact_findings replace_each put first_chars after_chars dedupe sort insert select_all
    add_finding overlaps best_with best_of is_better is_in finding_eq remove_first remove_worse
    replacement_for text_eq codes upper upper_code mask_value action_for lookup unlisted_action
    one_of secret_entities contains starts_with split_at_sign digits mask_ends mask_first stars
    last_of mask_local
sample_redacted = refl

abbrev at : ℕ → ℕ → ℕ → ℕ → SensitiveFinding
at object start stop confidence = record {
  object = object;
  entity_type = [];
  start = start;
  end = stop;
  value = [];
  confidence = confidence;
  source = [];
}

-- Of three findings where the second overlaps with both others, only the third is left, though the
-- first shares no character with it.
chain_left : dedupe (at 0 0 10 5000 ∷ at 1 8 20 6000 ∷ at 2 18 30 9000 ∷ []) ≡ at 2 18 30 9000 ∷ []
unfolding dedupe sort insert select_all add_finding overlaps best_with best_of is_better is_in
    finding_eq remove_first remove_worse text_eq
chain_left = refl

-- ===== src/Detector/Redact.antt =====
-- The replacement of the findings in a text. The HMAC of a value and the answer of the anonymiser,
-- where there is one, are parameters.
use auth_claw.Detector.Dedupe.{dedupe}
use auth_claw.Detector.Masks.{mask_value}
use auth_claw.Detector.Sorting.{sort}
use auth_claw.Detector.State.{SensitiveFinding, secret_entities}
use auth_claw.Prelude.{
  Bool, List, Option, Text, [], codes, if◌then◌else◌, is_empty, leb, lookup, none, one_of, reverse,
  some, text_eq, upper, ℕ, ◌++◌, ◌∷◌,
}
use auth_claw.Redaction.Stream.{after_chars, first_chars}

-- The settings under `sensitive_data` of the policy file; a key that is missing is `none`.
pub record Settings : Type 0 where
  pub actions : List (Text × Text)
  pub approval_confidence_threshold : Option ℕ
  pub default_action : Option Text

abbrev pub text_default : Option Text → Text → Text
text_default none t = t
text_default (some s) t = s

abbrev pub number_default : Option ℕ → ℕ → ℕ
number_default none n = n
number_default (some m) n = m

-- The tests of action_for after the lookup of the entity type.
unfoldable pub unlisted_action : Settings → Text → ℕ → Text
unfolding one_of secret_entities codes lookup
unlisted_action settings entity_type confidence =
    if one_of entity_type secret_entities
    then text_default (lookup (codes "secrets") settings.actions) (codes "block")
    else if leb (number_default settings.approval_confidence_threshold 10100) confidence
    then codes "require_approval"
    else text_default settings.default_action (codes "redact")

unfoldable pub action_for : Settings → Text → ℕ → Text
unfolding lookup unlisted_action
action_for settings entity_type confidence =
    text_default (lookup entity_type settings.actions)
      (unlisted_action settings entity_type confidence)

-- What the dict of a finding holds, without its time.
pub record FindingMetadata : Type 0 where
  pub policy_name : Text
  pub policy_type : Text
  pub matched_pattern : Text
  pub redacted_value : Text
  pub token_id : Text
  pub value_hash : Text
  pub confidence : ℕ
  pub action : Text
  pub detector : Text
  pub username : Text

-- new_text = text[:start] + replacement + text[end:]
unfoldable pub put : ℕ → ℕ → Text → Text → Text
unfolding first_chars after_chars
put begin stop replacement text = first_chars begin text ++ replacement ++ after_chars stop text

-- sorted with reverse=True
abbrev pub by_start_down : SensitiveFinding → SensitiveFinding → Bool
by_start_down a b = leb b.start a.start

module _ (fingerprint : Text → Text) (anonymized : SensitiveFinding → Text → Option Text) where
  abbrev plain_replacement : SensitiveFinding → Text → Text
  plain_replacement finding action =
      if text_eq action (codes "allow")
      then finding.value
      else if text_eq action (codes "block")
      then codes "[BLOCKED_" ++ upper finding.entity_type ++ codes "]"
      else if text_eq action (codes "require_approval")
      then codes "[APPROVAL_REQUIRED_" ++ upper finding.entity_type ++ codes "]"
      else if text_eq action (codes "hash")
      then codes "[HASH_" ++ fingerprint finding.value ++ codes "]"
      else if text_eq action (codes "tokenize")
      then codes "[TOKEN_"
        ++ upper finding.entity_type
        ++ codes "_"
        ++ fingerprint finding.value
        ++ codes "]"
      else if text_eq action (codes "mask")
      then mask_value finding.entity_type finding.value
      else codes "[REDACTED]"

  unfoldable pub replacement_for : SensitiveFinding → Text → Text
  unfolding text_eq codes upper mask_value
  replacement_for finding action =
      if text_eq finding.source (codes "presidio")
      then text_default (anonymized finding action) (plain_replacement finding action)
      else plain_replacement finding action

  unfoldable pub to_policy_finding : SensitiveFinding → Text → Text → FindingMetadata
  unfolding codes one_of secret_entities
  to_policy_finding finding action username =
      let token = codes "tok_" ++ finding.entity_type ++ codes "_" ++ fingerprint finding.value in
      record {
        policy_name = codes "Sensitive Data Detection";
        policy_type =
            if one_of finding.entity_type secret_entities then codes "Secret" else codes "PII";
        matched_pattern = finding.entity_type;
        redacted_value = token;
        token_id = token;
        value_hash = fingerprint finding.value;
        confidence = finding.confidence;
        action = action;
        detector = finding.source;
        username = username;
      }

  module _ (settings : Settings) (username : Text) where
    abbrev pub replacement_of : SensitiveFinding → Text
    replacement_of finding =
        replacement_for finding (action_for settings finding.entity_type finding.confidence)

    abbrev pub metadata_of : SensitiveFinding → FindingMetadata
    metadata_of finding =
        to_policy_finding finding (action_for settings finding.entity_type finding.confidence)
          username

    -- The loop over the findings, from the last one in the text.
    unfoldable pub replace_each :
        List SensitiveFinding → Text → List FindingMetadata → Text × List FindingMetadata
    unfolding put
    replace_each [] redacted metadata = (redacted, metadata)
    replace_each (f ∷ fs) redacted metadata =
        replace_each fs (put f.start f.end (replacement_of f) redacted)
          (metadata ++ metadata_of f ∷ [])

    -- `detected` are the findings of all the detectors.
    unfoldable pub redact_findings : List SensitiveFinding → Text → Text × List FindingMetadata
    unfolding dedupe replace_each sort
    redact_findings detected text =
        let findings = dedupe detected in
        let (redacted, metadata) = replace_each (sort by_start_down findings) text [] in
        if is_empty findings then (text, []) else (redacted, reverse metadata)

-- ===== src/Redaction/Rich.antt =====
-- `redact_sensitive_data_rich` of redaction.py with the baseline patterns, and
-- `sanitize_finding_metadata` of services/sensitive_data_detection.py, where the salt of the HMAC is
-- configured and logs/audit.log can be written: else the call raises.
use auth_claw.Detector.Redact.{FindingMetadata}
use auth_claw.Prelude.{
  Bool, List, Option, Text, [], codes, contains, if◌then◌else◌, is_empty, lookup, lower, map, none,
  not, one_of, replace, some, starts_with, text_eq, ◌++◌, ◌||◌, ◌∷◌,
}
use auth_claw.Redaction.Apply.{FieldKind, aadhaar, apply_redaction, email, phone}
use auth_claw.Redaction.Compliance.{DbPolicy, apply_gdpr, apply_hipaa, apply_soc2}
use auth_claw.Redaction.Matches.{Finder, Regex, baseline_aadhaar, baseline_email, baseline_phone}
use auth_claw.Redaction.Scan.{Scan, Triggered, apply_pattern, new_trigger, redacted_label}

-- A dict of the detector as an entry.
unfoldable pub from_detector : FindingMetadata → Triggered
from_detector f = record {
  policy_name = f.policy_name;
  policy_type = f.policy_type;
  matched_pattern = f.matched_pattern;
  redacted_value = f.redacted_value;
  username = f.username;
  token_id = some f.token_id;
  value_hash = some f.value_hash;
  confidence = some f.confidence;
  action = some f.action;
}

abbrev or_redact : Option Text → Text
or_redact none = codes "redact"
or_redact (some a) = a

module _ (find : Finder) (fingerprint : Text → Text) (username : Text) where
  -- A pattern of the table of baseline patterns, with the action of the policy file.
  unfoldable pub redact_baseline : Regex → FieldKind → Text → Option Text → Scan → Scan
  unfolding apply_pattern contains codes apply_redaction
  redact_baseline regex kind label action scan =
      apply_pattern (find regex scan.text) (λ m. not (contains m.whole (codes "[REDACTED")))
        (λ m. new_trigger (codes "PII Protection") (codes "Security") username label m.whole)
        (λ m. apply_redaction fingerprint kind m.whole (or_redact action)) scan

  -- Email, Aadhaar and phone; `rules` are the policy file's under `redaction`.
  unfoldable pub apply_baseline : List (Text × Text) → Scan → Scan
  unfolding redact_baseline lookup codes
  apply_baseline rules scan =
      redact_baseline baseline_phone phone (codes "phone") (lookup (codes "phone") rules) (
        redact_baseline baseline_aadhaar aadhaar (codes "aadhaar") (lookup (codes "aadhaar") rules)
          (redact_baseline baseline_email email (codes "email") (lookup (codes "email") rules)
            scan))

-- item.setdefault(key, value)
abbrev pub set_default {ℓ} : {A : Type ℓ} → A → Option A → Option A
set_default a none = some a
set_default a (some b) = some b

unfoldable pub add_defaults : Triggered → Triggered
unfolding codes
add_defaults t = record t {
  confidence = set_default 8000 t.confidence;
  action = set_default (codes "redact") t.action;
}

abbrev pub is_passport : Triggered → Bool
is_passport t = text_eq (lower t.matched_pattern) (codes "passport")

-- The value is empty, a token, or one of the two labels.
abbrev pub is_hidden : Text → Bool
is_hidden value =
    is_empty value
    || starts_with value (codes "tok_")
    || one_of value (codes "N/A" ∷ redacted_label ∷ [])

-- str(matched_pattern or policy_type or "sensitive").lower().replace(" ", "_")
unfoldable pub entity_of : Triggered → Text
unfolding lower replace codes
entity_of t =
    let name =
      if not (is_empty t.matched_pattern)
      then t.matched_pattern
      else if not (is_empty t.policy_type)
      then t.policy_type
      else codes "sensitive" in
    replace 32 95 (lower name)

unfoldable pub sanitized : (Text → Text) → Triggered → Triggered
unfolding add_defaults entity_of text_eq lower codes starts_with one_of
sanitized fingerprint t =
    let hash = fingerprint t.redacted_value in
    let token = codes "tok_" ++ (entity_of t ++ (codes "_" ++ hash)) in
    if is_passport t
    then add_defaults t
    else if not (is_hidden t.redacted_value)
    then add_defaults
        (record t { redacted_value = token; token_id = some token; value_hash = some hash })
    else add_defaults t

-- The redacted text and the findings. `detected` is what the detector answers for the text.
unfoldable pub redact_sensitive_data_rich :
    Finder
    → (Text → Text)
    → Text × List FindingMetadata
    → List DbPolicy
    → List (Text × Text)
    → Text
    → Text × List Triggered
unfolding from_detector apply_gdpr apply_hipaa apply_soc2 apply_baseline sanitized
redact_sensitive_data_rich find fingerprint detected policies rules username =
    let start : Scan = record { text = detected.0; triggered = map from_detector detected.1 } in
    let scan = apply_baseline find fingerprint username rules (
      apply_soc2 find username policies
        (apply_hipaa find username policies (apply_gdpr find username policies start))) in
    (scan.text, map (sanitized fingerprint) scan.triggered)

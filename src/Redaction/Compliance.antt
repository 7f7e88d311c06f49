-- ===== src/Redaction/Compliance.antt =====
-- The patterns of `redact_sensitive_data_rich` by policy: GDPR, HIPAA and SOC2.
use auth_claw.Opa.Enforce.{scan}
use auth_claw.Policy.Json.{Fields, get, truthy}
use auth_claw.Prelude.{
  Bool, List, Option, Text, [], codes, false, if◌then◌else◌, none, some, text_eq, ◌++◌, ◌∷◌,
}
use auth_claw.Redaction.Matches.{
  Finder, Match, Regex, gdpr_keyword, gdpr_passport, gdpr_ssn, gdpr_ssn_raw, hipaa_keyword,
  hipaa_medical_record, replace_text, soc2_card_brand, soc2_card_delimited, soc2_card_digits,
  soc2_keyword, soc2_pin_near, soc2_routing,
}
use auth_claw.Redaction.Scan.{Scan, apply_pattern, is_open, new_trigger, redacted_label}

-- A row of the policies that are enabled.
pub record DbPolicy : Type 0 where
  pub name : Text
  pub type : Text
  pub rules : Fields

-- {p["type"]: p for p in db_policies}: the last of a type
unfoldable pub active_type : Text → List DbPolicy → Option DbPolicy
unfolding text_eq
active_type kind [] = none
active_type kind (p ∷ ps) = later (active_type kind ps)
  where
    later : Option DbPolicy → Option DbPolicy
    later none = if text_eq p.type kind then some p else none
    later (some q) = some q

abbrev pub whole_of : Match → Text
whole_of m = m.whole

-- rules.get("pii_redaction", False) of the policy of the type, if there is one.
unfoldable pub is_redacting : Option DbPolicy → Bool
unfolding truthy get codes
is_redacting none = false
is_redacting (some p) = truthy (get p.rules (codes "pii_redaction"))

abbrev pub name_of : Option DbPolicy → Text
name_of none = []
name_of (some p) = p.name

module _ (find : Finder) (username : Text) where
  module _ (name kind : Text) where
    -- A pattern whose whole match is the value.
    unfoldable pub redact_whole : Regex → Text → Scan → Scan
    unfolding apply_pattern text_eq codes
    redact_whole regex label scan =
        apply_pattern (find regex scan.text) (is_open whole_of)
          (λ m. new_trigger name kind username label m.whole) (λ m. redacted_label) scan

    -- r"\1\2[REDACTED]"
    unfoldable pub redact_keyword : Regex → Scan → Scan
    unfolding apply_pattern text_eq codes
    redact_keyword regex scan =
        apply_pattern (find regex scan.text) (is_open (λ m. m.group_3))
          (λ m. new_trigger name kind username m.group_1 m.group_3)
          (λ m. m.group_1 ++ (m.group_2 ++ redacted_label)) scan

    -- The PIN near its keyword.
    unfoldable pub redact_pin : Scan → Scan
    unfolding apply_pattern text_eq replace_text codes
    redact_pin scan =
        apply_pattern (find soc2_pin_near scan.text) (is_open (λ m. m.group_1))
          (λ m. new_trigger name kind username (codes "pin number") m.group_1)
          (λ m. replace_text m.group_1 redacted_label m.whole) scan

  unfoldable pub apply_gdpr : List DbPolicy → Scan → Scan
  unfolding active_type is_redacting redact_whole redact_keyword codes
  apply_gdpr policies scan =
      let p = active_type (codes "GDPR") policies in
      let whole = redact_whole (name_of p) (codes "GDPR") in
      if is_redacting p
      then redact_keyword (name_of p) (codes "GDPR") gdpr_keyword (
          whole gdpr_passport (codes "passport")
            (whole gdpr_ssn_raw (codes "ssn") (whole gdpr_ssn (codes "ssn") scan)))
      else scan

  unfoldable pub apply_hipaa : List DbPolicy → Scan → Scan
  unfolding active_type is_redacting redact_whole redact_keyword codes
  apply_hipaa policies scan =
      let p = active_type (codes "HIPAA") policies in
      if is_redacting p
      then redact_keyword (name_of p) (codes "HIPAA") hipaa_keyword (
          redact_whole (name_of p) (codes "HIPAA") hipaa_medical_record (codes "medical record")
            scan)
      else scan

  unfoldable pub apply_soc2 : List DbPolicy → Scan → Scan
  unfolding active_type is_redacting redact_whole redact_keyword redact_pin codes
  apply_soc2 policies scan =
      let p = active_type (codes "SOC2") policies in
      let whole = redact_whole (name_of p) (codes "SOC2") in
      if is_redacting p
      then redact_pin (name_of p) (codes "SOC2") (
          redact_keyword (name_of p) (codes "SOC2") soc2_keyword (
            whole soc2_routing (codes "bank routing") (
              whole soc2_card_digits (codes "credit card") (
                whole soc2_card_delimited (codes "credit card")
                  (whole soc2_card_brand (codes "credit card") scan)))))
      else scan

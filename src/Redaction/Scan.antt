-- ===== src/Redaction/Scan.antt =====
-- One pattern of `redact_sensitive_data_rich`: what it records and what it replaces.
use auth_claw.Approvals.State.{found}
use auth_claw.Opa.Enforce.{scan}
use auth_claw.Prelude.{
  Bool, List, Option, Text, [], codes, if◌then◌else◌, none, not, text_eq, ℕ, ◌++◌, ◌∷◌,
}
use auth_claw.Redaction.Matches.{Match, Matches, substitute}

-- An entry of triggered_policies, without its time. The last four keys are set by the sanitising.
pub record Triggered : Type 0 where
  pub policy_name : Text
  pub policy_type : Text
  pub matched_pattern : Text
  pub redacted_value : Text
  pub username : Text
  pub token_id : Option Text
  pub value_hash : Option Text
  pub confidence : Option ℕ
  pub action : Option Text

-- The text and triggered_policies between two patterns.
pub record Scan : Type 0 where
  pub text : Text
  pub triggered : List Triggered

abbrev pub redacted_label : Text
redacted_label = codes "[REDACTED]"

abbrev pub new_trigger : Text → Text → Text → Text → Text → Triggered
new_trigger name kind username pattern value = record {
  policy_name = name;
  policy_type = kind;
  matched_pattern = pattern;
  redacted_value = value;
  username = username;
  token_id = none;
  value_hash = none;
  confidence = none;
  action = none;
}

-- The loop over the matches that appends an entry for those that pass the test.
unfoldable pub record_matches : (Match → Bool) → (Match → Triggered) → List Match → List Triggered
record_matches recorded entry [] = []
record_matches recorded entry (m ∷ ms) =
    let later = record_matches recorded entry ms in if recorded m then entry m ∷ later else later

-- The loop and the substitution.
unfoldable pub apply_pattern :
    Matches → (Match → Bool) → (Match → Triggered) → (Match → Text) → Scan → Scan
unfolding record_matches substitute
apply_pattern found recorded entry new scan = record {
  text = substitute new found.matches found.rest;
  triggered = scan.triggered ++ record_matches recorded entry found.matches;
}

-- val != "[REDACTED]"
abbrev pub is_open : (Match → Text) → Match → Bool
is_open value m = not (text_eq (value m) redacted_label)

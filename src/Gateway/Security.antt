-- ===== src/Gateway/Security.antt =====
-- services/security_agent.py and risk.py. `redact_sensitive_data_rich` of redaction.py is an
-- argument.
use auth_claw.Gateway.State.{Trigger, is_low}
use auth_claw.Policy.Category.{get_or}
use auth_claw.Policy.Engine.{RiskLevel, high, low, medium}
use auth_claw.Prelude.{
  Bool, List, Text, [], any, codes, contains, false, if◌then◌else◌, is_empty, lower, not, some,
  text_eq, ℕ, ◌&&◌, ◌++◌, ◌||◌, ◌∷◌,
}
use auth_claw.Redaction.Rich.{sanitized}

-- `redact_sensitive_data_rich(text, username, tenant_id)`
abbrev pub Redactor : Type 0
Redactor = Text → Text → ℕ → Text × List Trigger

pub record Keywords : Type 0 where
  pub high_risk_keywords : List Text
  pub medium_risk_keywords : List Text

-- `for word in keywords: if word in query` of risk.py
unfoldable pub has_keyword : List Text → Text → Bool
unfolding contains
has_keyword [] query = false
has_keyword (word ∷ words) query = contains query word || has_keyword words query

unfoldable pub calculate_risk : Keywords → Text → RiskLevel
unfolding has_keyword lower
calculate_risk policy query =
    if has_keyword policy.high_risk_keywords (lower query)
    then high
    else if has_keyword policy.medium_risk_keywords (lower query)
    then medium
    else low

unfoldable pub prompt_injection_terms : List Text
unfolding codes
prompt_injection_terms =
    codes "ignore previous instructions"
    ∷ codes "ignore all instructions"
    ∷ codes "reveal system prompt"
    ∷ codes "show internal system prompts"
    ∷ codes "disable audit"
    ∷ codes "disable logging"
    ∷ codes "bypass policies"
    ∷ []

unfoldable pub injection_trigger : Text → Trigger
unfolding codes
injection_trigger term = record {
  policy_name = codes "Security Agent";
  policy_type = codes "prompt_injection";
  matched_pattern = term;
  redacted_value = codes "N/A";
  action = some (codes "block");
}

unfoldable pub injection_triggers : Text → List Text → List Trigger
unfolding contains injection_trigger
injection_triggers lowered [] = []
injection_triggers lowered (term ∷ terms) =
    let rest = injection_triggers lowered terms in
    if contains lowered term then injection_trigger term ∷ rest else rest

-- str(finding.get("action", default)).lower()
unfoldable pub trigger_action : Text → Trigger → Text
unfolding lower
trigger_action default t = lower (get_or t.action default)

-- `name in {…}` over the actions of the findings
unfoldable pub some_action : Text → Text → List Trigger → Bool
unfolding text_eq trigger_action
some_action default name findings = any (λ t. text_eq (trigger_action default t) name) findings

pub record SecurityAgentResult : Type 0 where
  pub approved : Bool
  pub risk_level : RiskLevel
  pub findings : List Trigger
  pub sanitized_text : Text

-- The risk once the findings are known, in `inspect_input` and in `risk_node`.
unfoldable pub risk_with_findings : List Trigger → RiskLevel → RiskLevel
unfolding some_action codes
risk_with_findings findings risk =
    if some_action [] (codes "block") findings || some_action [] (codes "require_approval") findings
    then high
    else if not (is_empty findings) && is_low risk
    then medium
    else risk

unfoldable pub inspect_input : Redactor → Keywords → Text → Text → ℕ → SecurityAgentResult
unfolding calculate_risk lower injection_triggers some_action risk_with_findings codes
inspect_input redact_rich policy text username tenant_id =
    let (sanitized, triggered) = redact_rich text username tenant_id in
    let findings = triggered ++ injection_triggers (lower text) prompt_injection_terms in
    record {
      approved = not (some_action [] (codes "block") findings);
      risk_level = risk_with_findings findings (calculate_risk policy text);
      findings = findings;
      sanitized_text = sanitized;
    }

-- ===== src/Policy/Findings.antt =====
-- The four kinds of finding that the engine collects. A rule whose `category_actions` (or
-- `actions`) is truthy and no dict raises AttributeError at `.items()`.
use auth_claw.Policy.Action.{Action, block, normalize_action, or_action, redact, require_approval}
use auth_claw.Policy.Category.{
  TenantPolicy, category_for_policy, get_or, list_rules, matching_policy, normalize_category,
}
use auth_claw.Policy.Json.{Fields, Json, Rules, end, field, get, obj, or_else, str}
use auth_claw.Policy.Patterns.{
  data_exfiltration_patterns, entity_categories, financial_patterns, legal_patterns,
  medical_patterns, prompt_injection_patterns, secret_types, security_bypass_patterns,
}
use auth_claw.Prelude.{
  List, Option, Text, [], any, codes, contains, if◌then◌else◌, is_empty, lookup, lower, none, not,
  one_of, some, text_eq, ℕ, ◌&&◌, ◌++◌, ◌∷◌,
}
use auth_claw.Result.{Result, attribute_error, ok, raised, ◌>>=◌}

-- What `SensitiveDataDetector.redact` reports of one match; a float is in ten-thousandths.
pub record Detection : Type 0 where
  pub matched_pattern : Text
  pub action : Json
  pub confidence : Option ℕ
  pub redacted_value : Text
  pub value_hash : Option Text
  pub detector : Text

pub record PolicyFinding : Type 0 where
  pub policy_name : Text
  pub policy_type : Text
  pub category : Text
  pub action : Action
  pub matched_pattern : Text
  pub reason : Text
  pub confidence : ℕ
  pub policy_id : Option ℕ
  pub policy_version : ℕ
  pub redacted_value : Text
  pub value_hash : Option Text
  pub detector : Text

-- The loop over `category_rules.items()`: the first key that names the category decides.
unfoldable pub category_action_in : Text → Fields → Json → Option Action
unfolding lower normalize_category text_eq normalize_action
category_action_in category_key end default = normalize_action default
category_action_in category_key (field k v fs) default =
    if text_eq (lower (normalize_category (str k))) category_key
    then normalize_action v
    else category_action_in category_key fs default

unfoldable pub action_from : Text → Json → Json → Result (Option Action)
unfolding category_action_in
action_from category_key (obj fs) default = ok (category_action_in category_key fs default)
action_from category_key _ default = raised attribute_error

-- rules.get("category_actions") or rules.get("actions") or {}
unfoldable pub category_rules : Rules → Json
unfolding or_else get codes
category_rules rules =
    or_else (or_else (get rules (codes "category_actions")) (get rules (codes "actions"))) (obj end)

unfoldable pub action_for_category : Text → Option TenantPolicy → Result (Option Action)
unfolding action_from category_rules get codes lower normalize_category
action_for_category category none = ok none
action_for_category category (some policy) =
    action_from (lower (normalize_category (str category))) (category_rules policy.rules)
      (get policy.rules (codes "action"))

name_or : Option TenantPolicy → Text → Text
name_or none d = d
name_or (some p) d = p.name

type_or : Option TenantPolicy → Text → Text
type_or none d = d
type_or (some p) d = p.type

id_of : Option TenantPolicy → Option ℕ
id_of none = none
id_of (some p) = p.id

version_of : Option TenantPolicy → ℕ
version_of none = 1
version_of (some p) = p.version

-- The category of a detected entity.
unfoldable pub entity_category : Text → Text
unfolding one_of secret_types entity_categories lookup codes
entity_category entity =
    if one_of entity secret_types
    then codes "SECRETS"
    else get_or (lookup entity entity_categories) (codes "PII")

unfoldable pub detector_finding : Detection → Option TenantPolicy → Option Action → PolicyFinding
unfolding lower entity_category normalize_action codes name_or type_or id_of version_of
detector_finding item policy chosen =
    let entity = lower item.matched_pattern in
    record {
      policy_name = name_or policy (codes "Sensitive Data Detection");
      policy_type = type_or policy (entity_category entity);
      category = entity_category entity;
      action = or_action chosen (or_action (normalize_action item.action) redact);
      matched_pattern = entity;
      reason = entity_category entity ++ codes " detected by " ++ item.detector;
      confidence = get_or item.confidence 8000;
      policy_id = id_of policy;
      policy_version = version_of policy;
      redacted_value = item.redacted_value;
      value_hash = item.value_hash;
      detector = item.detector;
    }

unfoldable pub detector_findings : List Detection → List TenantPolicy → Result (List PolicyFinding)
unfolding lower entity_category matching_policy
detector_findings [] policies = ok []
detector_findings (item ∷ rest) policies =
    let category = entity_category (lower item.matched_pattern) in
    let policy = matching_policy (str category) policies in
    let later = detector_findings rest policies in
    do
      chosen ← action_for_category category policy
      findings ← later
      ok (detector_finding item policy chosen ∷ findings)

baseline_finding : Text → Text → Text → Text → ℕ → Text → PolicyFinding
unfolding codes
baseline_finding name kind category reason confidence pattern = record {
  policy_name = name;
  policy_type = kind;
  category = category;
  action = block;
  matched_pattern = pattern;
  reason = reason;
  confidence = confidence;
  policy_id = none;
  policy_version = 1;
  redacted_value = codes "N/A";
  value_hash = none;
  detector = codes "policy_engine";
}

-- One of the loops `for pattern in …: if pattern in lowered`.
unfoldable pub matches_of : (Text → PolicyFinding) → Text → List Text → List PolicyFinding
unfolding contains
matches_of make lowered [] = []
matches_of make lowered (pattern ∷ patterns) =
    let rest = matches_of make lowered patterns in
    if contains lowered pattern then make pattern ∷ rest else rest

unfoldable pub injection_findings : Text → List PolicyFinding
unfolding matches_of baseline_finding codes
injection_findings lowered =
    matches_of
      (baseline_finding (codes "Baseline Prompt Injection Defense") (codes "prompt_injection")
        (codes "PROMPT_INJECTION") (codes "Prompt injection pattern matched") 9700)
      lowered prompt_injection_patterns

unfoldable pub bypass_findings : Text → List PolicyFinding
unfolding matches_of baseline_finding codes
bypass_findings lowered =
    matches_of
      (baseline_finding (codes "Baseline Security Bypass Defense") (codes "security_bypass")
        (codes "SECURITY_BYPASS") (codes "Security bypass pattern matched") 9600)
      lowered security_bypass_patterns

unfoldable pub exfiltration_findings : Text → List PolicyFinding
unfolding matches_of baseline_finding codes
exfiltration_findings lowered =
    matches_of
      (baseline_finding (codes "Baseline Data Exfiltration Defense") (codes "data_exfiltration")
        (codes "DATA_EXFILTRATION") (codes "Data exfiltration pattern matched") 9600)
      lowered data_exfiltration_patterns

unfoldable pub baseline_findings : Text → List PolicyFinding
unfolding injection_findings bypass_findings exfiltration_findings lower
baseline_findings text =
    injection_findings (lower text)
    ++ (bypass_findings (lower text) ++ exfiltration_findings (lower text))

-- A finding of a tenant's policy, with the engine's defaults for what it does not state.
policy_finding : TenantPolicy → Text → Action → Text → Text → ℕ → PolicyFinding
unfolding codes
policy_finding policy category action pattern reason confidence = record {
  policy_name = policy.name;
  policy_type = policy.type;
  category = category;
  action = action;
  matched_pattern = pattern;
  reason = reason;
  confidence = confidence;
  policy_id = policy.id;
  policy_version = policy.version;
  redacted_value = codes "N/A";
  value_hash = none;
  detector = codes "policy_engine";
}

unfoldable pub topic_finding : TenantPolicy → Text → Text → Text → Result PolicyFinding
unfolding policy_finding normalize_action get codes action_for_category
topic_finding policy category pattern reason = do
  chosen ← action_for_category category (some policy)
  let fallback = or_action (normalize_action (get policy.rules (codes "action"))) require_approval
  ok (policy_finding policy category (or_action chosen fallback) pattern reason 8600)

-- findings.append(…), which an exception in making the finding breaks off
unfoldable pub cons_finding :
    Result PolicyFinding → Result (List PolicyFinding) → Result (List PolicyFinding)
cons_finding made rest = do finding ← made; findings ← rest; ok (finding ∷ findings)

-- The loop over a built-in category's patterns, for the policy that is about it.
unfoldable pub built_in_findings :
    TenantPolicy → Text → Text → List Text → Result (List PolicyFinding)
unfolding contains topic_finding cons_finding codes
built_in_findings policy category lowered [] = ok []
built_in_findings policy category lowered (pattern ∷ patterns) =
    let rest = built_in_findings policy category lowered patterns in
    if contains lowered pattern
    then (do
      finding ← topic_finding policy category pattern (codes "Built-in category topic matched")
      findings ← rest
      ok (finding ∷ findings))
    else rest

unfoldable pub findings_if_matched :
    Option TenantPolicy → Text → Text → List Text → Result (List PolicyFinding)
unfolding built_in_findings
findings_if_matched none category lowered patterns = ok []
findings_if_matched (some policy) category lowered patterns =
    built_in_findings policy category lowered patterns

unfoldable pub built_in_category :
    List TenantPolicy → Text → Text → List Text → Result (List PolicyFinding)
unfolding matching_policy findings_if_matched
built_in_category policies lowered category patterns =
    findings_if_matched (matching_policy (str category) policies) category lowered patterns

unfoldable pub blocked_topic_findings :
    TenantPolicy → Text → List Text → Result (List PolicyFinding)
unfolding contains lower topic_finding cons_finding codes
blocked_topic_findings policy lowered [] = ok []
blocked_topic_findings policy lowered (topic ∷ topics) =
    let rest = blocked_topic_findings policy lowered topics in
    if contains lowered (lower topic)
    then (do
      finding ←
          topic_finding policy (codes "CUSTOMER_DEFINED_TOPICS") topic
            (codes "Tenant blocked topic matched")
      findings ← rest
      ok (finding ∷ findings))
    else rest

unfoldable pub allowed_topic_findings : TenantPolicy → Text → Result (List PolicyFinding)
unfolding contains lower topic_finding cons_finding codes list_rules
allowed_topic_findings policy lowered =
    let allowed_topics = list_rules policy.rules (codes "allowed_topics") in
    if not (is_empty allowed_topics)
      && not (any (λ topic. contains lowered (lower topic)) allowed_topics)
    then (do
      finding ←
          topic_finding policy (codes "CUSTOMER_DEFINED_TOPICS") (codes "outside_allowed_topics")
            (codes "Prompt is outside tenant allowed topics")
      ok (finding ∷ []))
    else ok []

unfoldable pub tenant_topic_findings : Text → List TenantPolicy → Result (List PolicyFinding)
unfolding blocked_topic_findings allowed_topic_findings list_rules codes
tenant_topic_findings lowered [] = ok []
tenant_topic_findings lowered (policy ∷ policies) =
    let rest = tenant_topic_findings lowered policies in
    do
      blocked ←
          blocked_topic_findings policy lowered (list_rules policy.rules (codes "blocked_topics"))
      outside ← allowed_topic_findings policy lowered
      later ← rest
      ok (blocked ++ (outside ++ later))

unfoldable pub topic_findings : Text → List TenantPolicy → Result (List PolicyFinding)
unfolding built_in_category tenant_topic_findings codes lower
topic_findings text policies = do
  financial ← built_in_category policies (lower text) (codes "FINANCIAL_DATA") financial_patterns
  medical ← built_in_category policies (lower text) (codes "MEDICAL_DATA") medical_patterns
  legal ← built_in_category policies (lower text) (codes "LEGAL_DATA") legal_patterns
  tenant ← tenant_topic_findings (lower text) policies
  ok (financial ++ (medical ++ (legal ++ tenant)))

unfoldable pub keyword_finding : TenantPolicy → Text → PolicyFinding
unfolding policy_finding normalize_action get codes category_for_policy
keyword_finding policy keyword =
    let category = category_for_policy policy in
    policy_finding policy (if is_empty category then codes "CUSTOMER_DEFINED_TOPICS" else category)
      (or_action (normalize_action (get policy.rules (codes "action"))) block) keyword
      (codes "Tenant policy keyword matched") 9000

unfoldable pub keywords_of : TenantPolicy → Text → List Text → List PolicyFinding
unfolding contains lower keyword_finding
keywords_of policy lowered [] = []
keywords_of policy lowered (keyword ∷ rest) =
    let later = keywords_of policy lowered rest in
    if contains lowered (lower keyword) then keyword_finding policy keyword ∷ later else later

unfoldable pub keyword_findings : Text → List TenantPolicy → List PolicyFinding
unfolding keywords_of list_rules codes
keyword_findings lowered [] = []
keyword_findings lowered (policy ∷ policies) =
    keywords_of policy lowered (list_rules policy.rules (codes "blocked_keywords"))
    ++ keyword_findings lowered policies

-- ===== src/Policy/Engine.antt =====
-- `PolicyEngine.evaluate` of services/policy_engine.py. The detector of
-- services/sensitive_data_detection.py is the argument `Detector`.
use auth_claw.Policy.Action.{
  Action, action_text, allow, block, final_action, permits, priority, redact, require_approval,
}
use auth_claw.Policy.Category.{TenantPolicy, category_priority}
use auth_claw.Policy.Findings.{
  Detection, PolicyFinding, baseline_findings, detector_findings, keyword_findings, topic_findings,
}
use auth_claw.Prelude.{
  Bool, List, Option, Text, [], codes, if◌then◌else◌, leb, lower, ltb, map, one_of, ℕ, ◌++◌, ◌∷◌,
}
use auth_claw.Result.{Result, ok, ◌>>=◌}

-- `SensitiveDataDetector(tenant_id).redact(text, username)`
abbrev pub Detector : Type 0
Detector = Option ℕ → Text → Text → Text × List Detection

pub data RiskLevel : Type 0 where
  low medium high : RiskLevel

pub record PolicyVersion : Type 0 where
  pub policy_id : Option ℕ
  pub name : Text
  pub version : ℕ
  pub status : Text

-- A finding as `to_dict` gives it: with its action in small letters, the user and the tenant.
pub record FindingDict : Type 0 where
  pub finding : PolicyFinding
  pub action : Text
  pub username : Text
  pub tenant_id : Option ℕ

pub record PolicyEvaluationResult : Type 0 where
  pub action : Action
  pub allowed : Bool
  pub risk_level : RiskLevel
  pub redacted_text : Text
  pub findings : List FindingDict
  pub policy_versions : List PolicyVersion
  pub triggered_categories : List Text
  pub reason : Text

unfoldable pub to_dict : Text → Option ℕ → PolicyFinding → FindingDict
unfolding lower action_text
to_dict username tenant_id f = record {
  finding = f;
  action = lower (action_text f.action);
  username = username;
  tenant_id = tenant_id;
}

unfoldable pub risk_level_of : Action → List PolicyFinding → RiskLevel
risk_level_of block findings = high
risk_level_of require_approval findings = high
risk_level_of redact findings = medium
risk_level_of allow [] = low
risk_level_of allow (f ∷ fs) = medium

-- max(findings, key=…): the first of the strongest
unfoldable pub strongest : PolicyFinding → List PolicyFinding → PolicyFinding
strongest best [] = best
strongest best (f ∷ fs) =
    strongest (if ltb (priority best.action) (priority f.action) then f else best) fs

unfoldable pub reason_of : Action → List PolicyFinding → Text
unfolding codes strongest
reason_of allow findings = codes "policy_checks_passed"
reason_of _ [] = codes "policy_action_required"
reason_of _ (f ∷ fs) = (strongest f fs).reason

-- A set in the order of first occurrence: Python's order of a set is not specified, and shows
-- only among categories of one priority.
unfoldable pub insert_by_priority : Text → List Text → List Text
unfolding category_priority
insert_by_priority c [] = c ∷ []
insert_by_priority c (d ∷ ds) =
    let rest = insert_by_priority c ds in
    if leb (category_priority c) (category_priority d) then c ∷ d ∷ ds else d ∷ rest

unfoldable pub sorted_categories : List Text → List Text
unfolding insert_by_priority one_of
sorted_categories [] = []
sorted_categories (c ∷ cs) =
    let rest = sorted_categories cs in if one_of c cs then rest else insert_by_priority c rest

-- ALLOW becomes REDACT when the detector found something.
unfoldable pub raise_for_detections : Action → List Detection → Action
raise_for_detections allow [] = allow
raise_for_detections allow (d ∷ ds) = redact
raise_for_detections a ds = a

unfoldable pub collect : Text → List TenantPolicy → List Detection → Result (List PolicyFinding)
unfolding detector_findings baseline_findings topic_findings keyword_findings lower
collect text policies detections = do
  detected ← detector_findings detections policies
  topics ← topic_findings text policies
  ok (detected ++ (baseline_findings text ++ (topics ++ keyword_findings (lower text) policies)))

abbrev version_entry : TenantPolicy → PolicyVersion
version_entry p = record { policy_id = p.id; name = p.name; version = p.version; status = p.status }

unfoldable pub decide : List PolicyFinding → List Detection → Action
unfolding final_action raise_for_detections
decide findings detections =
    raise_for_detections (final_action (map (λ f. f.action) findings)) detections

unfoldable pub conclude :
    Option ℕ
    → Text
    → List TenantPolicy
    → Text
    → List Detection
    → List PolicyFinding
    → PolicyEvaluationResult
unfolding decide risk_level_of to_dict sorted_categories reason_of
conclude tenant_id username policies redacted detections findings =
    let action = decide findings detections in
    record {
      action = action;
      allowed = permits action;
      risk_level = risk_level_of action findings;
      redacted_text = redacted;
      findings = map (to_dict username tenant_id) findings;
      policy_versions = map version_entry policies;
      triggered_categories = sorted_categories (map (λ f. f.category) findings);
      reason = reason_of action findings;
    }

unfoldable pub evaluate :
    Detector → Option ℕ → Text → List TenantPolicy → Text → Result PolicyEvaluationResult
unfolding collect conclude
evaluate detect tenant_id username policies text =
    let (redacted, detections) = detect tenant_id text username in
    do
      findings ← collect text policies detections
      ok (conclude tenant_id username policies redacted detections findings)

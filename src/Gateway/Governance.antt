-- ===== src/Gateway/Governance.antt =====
-- services/policy_agent.py, nodes/policy_node.py, nodes/risk_node.py, nodes/decision_node.py with
-- services/decision_engine.py.
use auth_claw.Gateway.Effects.{Run, done, lift, log_agent_event, raise, ◌>>=◌, ◌>>◌}
use auth_claw.Gateway.Env.{Env}
use auth_claw.Gateway.Intake.{extend}
use auth_claw.Gateway.Security.{calculate_risk, risk_with_findings}
use auth_claw.Gateway.State.{
  AuthState, Trigger, allowed_of, decided, is_approved, is_high, is_pending, pending_approval,
  risk_of, security_block, tenant_of, username_of,
}
use auth_claw.Policy.Action.{Action, allow, block, permits, redact, require_approval}
use auth_claw.Policy.Category.{get_or}
use auth_claw.Policy.Engine.{
  FindingDict, PolicyEvaluationResult, PolicyVersion, RiskLevel, evaluate, high,
}
use auth_claw.Prelude.{
  Bool, List, Option, Text, [], codes, false, if◌then◌else◌, is_empty, lower, map, none, not, some,
  true, ℕ, ◌&&◌, ◌||◌, ◌∷◌,
}
use auth_claw.Result.{Result, ok, raised, timeout_error}

pub record PolicyAgentResult : Type 0 where
  pub approved : Bool
  pub policy_decision : Action
  pub violated_policies : List Trigger
  pub reason : Text
  pub category : Text
  pub redacted_text : Text
  pub risk_level : RiskLevel
  pub policy_versions : List PolicyVersion

-- The dict of a finding of the policy engine, with the keys that the pipeline reads.
abbrev trigger_of : FindingDict → Trigger
trigger_of d = record {
  policy_name = d.finding.policy_name;
  policy_type = d.finding.policy_type;
  matched_pattern = d.finding.matched_pattern;
  redacted_value = d.finding.redacted_value;
  action = some d.action;
}

first_category : List Text → Text
unfolding lower
first_category [] = []
first_category (c ∷ cs) = lower c

unfoldable pub agent_result : PolicyEvaluationResult → PolicyAgentResult
unfolding first_category
agent_result r = record {
  approved = permits r.action;
  policy_decision = r.action;
  violated_policies = map trigger_of r.findings;
  reason = r.reason;
  category = first_category r.triggered_categories;
  redacted_text = r.redacted_text;
  risk_level = r.risk_level;
  policy_versions = r.policy_versions;
}

unfoldable pub agent_outcome : Result PolicyEvaluationResult → Result PolicyAgentResult
unfolding agent_result
agent_outcome (ok r) = ok (agent_result r)
agent_outcome (raised e) = raised e

unfoldable pub policy_agent_evaluate : Env → Text → Text → ℕ → Result PolicyAgentResult
unfolding evaluate agent_outcome
policy_agent_evaluate env text username tenant_id =
    agent_outcome
      (evaluate env.detect (some tenant_id) username (env.load_policies (some tenant_id)) text)

-- `if not state.get("original_query")` and the list of triggers
unfoldable pub with_defaults : AuthState → AuthState
with_defaults s = record s {
  original_query = (elim s.original_query [
    | none ↦ some s.message
    | some q ↦ (if is_empty q then some s.message else some q)
  ]);
  triggered_policies = extend s.triggered_policies [];
}

-- `state.get("security_approved") is False`
abbrev pub is_refused : Option Bool → Bool
is_refused (some false) = true
is_refused _ = false

unfoldable pub preserve_refusal : AuthState → AuthState
unfolding codes
preserve_refusal s = record s {
  allowed = some false;
  policy_decision = some (get_or s.policy_decision security_block);
  block_reason = some (
      get_or s.block_reason
        (codes "Sensitive data policy blocked the request before provider execution."));
  block_category = some (get_or s.block_category (codes "sensitive_data"));
}

abbrev is_redact : Action → Bool
is_redact redact = true
is_redact _ = false

abbrev pub is_require_approval : Action → Bool
is_require_approval require_approval = true
is_require_approval _ = false

-- `if not result.approved and result.category`
unfoldable pub refused_by_policy : PolicyAgentResult → AuthState → AuthState
refused_by_policy r s =
    let t = record s {
      triggered_policies = extend s.triggered_policies r.violated_policies;
      block_reason = some r.reason;
      block_category = some r.category;
      policy_decision = some (decided r.policy_decision);
    } in
    if is_require_approval r.policy_decision
    then record t {
      allowed = some true;
      risk_level = some high;
      approval_status = some pending_approval;
    }
    else record t { allowed = some false }

-- `if result.policy_decision == "REDACT" and result.redacted_text`
redacted_by_policy : PolicyAgentResult → AuthState → AuthState
redacted_by_policy r s =
    if is_redact r.policy_decision && not (is_empty r.redacted_text)
    then record s { message = r.redacted_text; risk_level = some r.risk_level }
    else s

unfoldable pub concluded_by_policy : PolicyAgentResult → AuthState → AuthState
unfolding redacted_by_policy
concluded_by_policy r s =
    let t = redacted_by_policy r s in
    record t {
      triggered_policies = extend s.triggered_policies r.violated_policies;
      policy_versions =
          if is_empty r.policy_versions then s.policy_versions else some r.policy_versions;
      allowed = some r.approved;
      policy_decision = some (decided r.policy_decision);
    }

unfoldable pub apply_policy : PolicyAgentResult → AuthState → AuthState
unfolding refused_by_policy concluded_by_policy
apply_policy r s =
    if not r.approved && not (is_empty r.category)
    then refused_by_policy r s
    else concluded_by_policy r s

unfoldable pub policy_node : Env → AuthState → Run AuthState
unfolding with_defaults preserve_refusal policy_agent_evaluate apply_policy username_of
policy_node env s =
    let t = with_defaults s in
    if is_refused s.security_approved
    then (do log_agent_event "Policy Agent" "POLICY_EVALUATED"; done (preserve_refusal t))
    else (do
      result ← lift (policy_agent_evaluate env s.message (username_of s) (tenant_of s))
      log_agent_event "Policy Agent" "JAILBREAK_DETECTION_CHECK"
      log_agent_event "Policy Agent" "POLICY_EVALUATED"
      done (apply_policy result t))

unfoldable pub risk_node : Env → AuthState → Run AuthState
unfolding calculate_risk risk_with_findings
risk_node env s =
    if env.risk_on_time
    then (let risk =
          risk_with_findings (get_or s.security_findings [])
            (calculate_risk env.keywords s.message) in
        do
          log_agent_event "Security Agent" "RISK_CLASSIFIED"
          log_agent_event "Risk Agent" "RISK_CLASSIFIED"
          done (record s { risk_level = some risk }))
    else raise timeout_error

pub record DecisionResult : Type 0 where
  pub action : Action
  pub reason : Text
  pub risk_level : RiskLevel

-- `DecisionEngine.evaluate`
unfoldable pub decision_engine : AuthState → DecisionResult
unfolding codes
decision_engine s =
    if not (allowed_of s)
    then record {
      action = block;
      reason = get_or s.block_reason (codes "policy_violation");
      risk_level = risk_of s;
    }
    else if is_approved s.approval_status
    then record {
      action = allow;
      reason = codes "approval_already_granted";
      risk_level = risk_of s;
    }
    else if is_pending s.approval_status || is_high (risk_of s)
    then record {
      action = require_approval;
      reason = codes "high_risk_request";
      risk_level = risk_of s;
    }
    else record {
      action = allow;
      reason = codes "policy_and_risk_checks_passed";
      risk_level = risk_of s;
    }

unfoldable pub decision_node : AuthState → Run AuthState
unfolding decision_engine
decision_node s =
    let result = decision_engine s in
    do
      log_agent_event "Decision Engine" "DECISION_EVALUATED"
      done (record s { decision = some result.action; decision_reason = some result.reason })

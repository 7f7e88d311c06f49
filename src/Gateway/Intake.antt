-- ===== src/Gateway/Intake.antt =====
-- nodes/orchestrator_node.py and nodes/redact_node.py.
use auth_claw.Gateway.Effects.{
  Run, done, emit, from_user, log_agent_event, message_added, raise_some, ◌>>◌,
}
use auth_claw.Gateway.Env.{Env}
use auth_claw.Gateway.Security.{SecurityAgentResult, inspect_input, some_action}
use auth_claw.Gateway.State.{
  AuthState, TaskType, Trigger, gdpr, general, hipaa, security_block, session_of, soc2, tenant_of,
  username_of,
}
use auth_claw.Policy.Action.{allow, block, require_approval}
use auth_claw.Policy.Engine.{high}
use auth_claw.Prelude.{
  List, Option, Text, [], codes, contains, false, if◌then◌else◌, lower, none, some, ◌++◌, ◌∷◌,
}

task_type_of : Text → TaskType
unfolding contains codes
task_type_of message =
    if contains message (codes "gdpr")
    then gdpr
    else if contains message (codes "hipaa")
    then hipaa
    else if contains message (codes "soc2")
    then soc2
    else general

unfoldable pub orchestrator_node : AuthState → Run AuthState
unfolding task_type_of lower
orchestrator_node s = do
  log_agent_event "Gateway Agent" "API_KEY_VALIDATED"
  log_agent_event "Gateway Agent" "RATE_LIMIT_CHECKED"
  done (record s { task_type = some (task_type_of (lower s.message)) })

-- state["triggered_policies"].extend(…), from an empty list if there is none
abbrev pub extend : Option (List Trigger) → List Trigger → Option (List Trigger)
extend none ts = some ts
extend (some old) ts = some (old ++ ts)

unfoldable pub blocked_by_security : AuthState → AuthState
unfolding codes
blocked_by_security s = record s {
  allowed = some false;
  block_reason =
      some (codes "Sensitive data policy blocked the request before provider execution.");
  block_category = some (codes "sensitive_data");
  policy_decision = some security_block;
  security_policy_action = some block;
}

-- The branch on the actions of the findings.
unfoldable pub apply_findings : List Trigger → AuthState → AuthState
unfolding blocked_by_security some_action codes
apply_findings findings s =
    if some_action (codes "redact") (codes "block") findings
    then blocked_by_security s
    else if some_action (codes "redact") (codes "require_approval") findings
    then record s { security_policy_action = some require_approval; risk_level = some high }
    else record s { security_policy_action = some allow }

unfoldable pub log_findings : List Trigger → Run (Unit {0})
log_findings [] = log_agent_event "Security Agent" "PII_SCAN_CLEAN"
log_findings (t ∷ ts) = do
  log_agent_event "Security Agent" "PII_DETECTED"
  log_agent_event "Security Agent" "SYNTHETIC_REPLACEMENT_APPLIED"

unfoldable pub redacted_state : SecurityAgentResult → AuthState → AuthState
unfolding apply_findings
redacted_state result s =
    let t = apply_findings result.findings s in
    record t {
      security_approved = some result.approved;
      security_findings = some result.findings;
      triggered_policies = extend s.triggered_policies result.findings;
      message = result.sanitized_text;
    }

unfoldable pub redact_node : Env → AuthState → Run AuthState
unfolding redacted_state log_findings inspect_input session_of username_of
redact_node env s =
    let result =
      inspect_input env.redact_rich env.keywords s.message (username_of s) (tenant_of s) in
    do
      raise_some (env.redact_fails s.message (username_of s) (tenant_of s))
      log_findings result.findings
      emit (message_added (session_of s) from_user result.sanitized_text)
      done (redacted_state result s)

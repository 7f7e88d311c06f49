-- ===== src/Gateway/Response.antt =====
-- nodes/response_checks_node.py with `sanitize_output`, and nodes/audit_node.py with
-- services/audit_agent.py. Where the source joins the members of a set, the block here holds the
-- distinct values.
use auth_claw.Gateway.Effects.{
  AuditBlock, LoggedStatus, Run, audit_block, blocked, completed, done, emit, from_assistant,
  granted, log_agent_event, message_added, pending, raise, raise_some, system, user, ◌>>◌,
}
use auth_claw.Gateway.Env.{Env, ReadBack, read_fails, row_found, row_missing}
use auth_claw.Gateway.Intake.{extend}
use auth_claw.Gateway.State.{
  AuthState, Trigger, allowed_of, is_pending, risk_of, session_of, tenant_of, username_of,
}
use auth_claw.Policy.Category.{get_or}
use auth_claw.Prelude.{
  List, Option, Text, [], codes, if◌then◌else◌, map, none, not, one_of, some, ℕ, ◌∷◌,
}
use auth_claw.Result.{Fault}

unfoldable pub log_output_findings : List Trigger → Run (Unit {0})
log_output_findings [] = log_agent_event "Security Agent" "OUTPUT_PII_SCAN_CLEAN"
log_output_findings (t ∷ ts) = log_agent_event "Security Agent" "OUTPUT_PII_REDACTED"

unfoldable pub response_checks_node : Env → AuthState → Run AuthState
unfolding log_output_findings session_of username_of
response_checks_node env s =
    let (checked, triggers) =
      env.redact_rich (get_or s.response []) (username_of s) (tenant_of s) in
    do
      log_agent_event "Security Agent" "OUTPUT_PII_SCAN_START"
      log_agent_event "AuthClaw Checks" "OUTPUT_PII_SCAN_START"
      raise_some (env.redact_fails (get_or s.response []) (username_of s) (tenant_of s))
      log_output_findings triggers
      emit (message_added (session_of s) from_assistant checked)
      done (record s {
        triggered_policies = extend s.triggered_policies triggers;
        response = some checked;
      })

unfoldable pub distinct : List Text → List Text
unfolding one_of
distinct [] = []
distinct (t ∷ ts) = let rest = distinct ts in if one_of t ts then rest else t ∷ rest

-- `status_to_log`
unfoldable pub status_to_log : AuthState → LoggedStatus
status_to_log s =
    if is_pending s.approval_status
    then pending
    else if not (allowed_of s)
    then blocked
    else (elim s.approval_status [ none ↦ completed | some status ↦ granted status ])

unfoldable pub audit_block_of : AuthState → AuditBlock
unfolding status_to_log distinct session_of username_of codes
audit_block_of s =
    let triggers = get_or s.triggered_policies [] in
    record {
      query = get_or s.original_query s.message;
      response = get_or s.response (codes "BLOCKED BY POLICY");
      allowed = allowed_of s;
      risk_level = risk_of s;
      approval_status = status_to_log s;
      session_id = session_of s;
      approval_id = s.approval_id;
      approver = if is_pending s.approval_status then system else user (username_of s);
      policy_names = distinct (map (λ t. t.policy_name) triggers);
      policy_types = distinct (map (λ t. t.policy_type) triggers);
      matched_patterns = distinct (map (λ t. t.matched_pattern) triggers);
      redacted_values = distinct (map (λ t. t.redacted_value) triggers);
      username = username_of s;
      tenant_id = tenant_of s;
    }

-- What the agent logs where it reads the row back.
unfoldable pub log_stored : ReadBack → Run (Unit {0})
log_stored row_found = do
  log_agent_event "Audit Agent" "AUDIT_RECORD_STORED"
  log_agent_event "Audit Agent" "LEDGER_HASH_GENERATED"
  log_agent_event "Audit Agent" "CHAIN_VERIFICATION_COMPLETE"
log_stored row_missing = done tt
log_stored (read_fails e) = raise e

-- `AuditAgent.record`, with what it raises before the block is committed and what follows.
unfoldable pub audit_record : ℕ → Option Fault → ReadBack → AuthState → Run AuthState
unfolding audit_block_of log_stored
audit_record record_id fails read s = do
  raise_some fails
  emit (audit_block (audit_block_of s))
  log_stored read
  done (record s { audit_record_id = some record_id })

unfoldable pub audit_node : Env → AuthState → Run AuthState
unfolding audit_record
audit_node env s = audit_record env.new_record_id env.audit_fails env.read_back s

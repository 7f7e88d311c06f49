-- ===== src/Gateway/Approval.antt =====
-- nodes/approval_node.py.
use auth_claw.Gateway.Effects.{
  ApprovalRequest, Run, approval_created, done, emit, raise, ◌>>=◌, ◌>>◌,
}
use auth_claw.Gateway.Env.{Env, Timing, never, on_time, too_late}
use auth_claw.Gateway.State.{
  ApprovalReason, AuthState, PolicyDecision, approved, decided, high_risk, is_approved, is_high,
  pending_approval, policy_violation, risk_of, sensitive_data,
}
use auth_claw.Policy.Action.{Action, block, require_approval}
use auth_claw.Policy.Category.{get_or}
use auth_claw.Prelude.{
  Bool, List, Option, Text, [], codes, false, if◌then◌else◌, none, one_of, some, true, ◌||◌, ◌∷◌,
}
use auth_claw.Result.{timeout_error}

sensitive_categories : List Text
unfolding codes
sensitive_categories = codes "pii" ∷ codes "secrets" ∷ codes "sensitive_data" ∷ []

-- x in {…}, and x == …, for a key that may be missing
abbrev text_in : Option Text → List Text → Bool
text_in none ts = false
text_in (some t) ts = one_of t ts

abbrev is_require : Option Action → Bool
is_require (some require_approval) = true
is_require _ = false

-- state.get("policy_decision") in {"REQUIRE_APPROVAL", "BLOCK"}
abbrev is_violation : Option PolicyDecision → Bool
is_violation (some (decided require_approval)) = true
is_violation (some (decided block)) = true
is_violation _ = false

-- `unknown_provider_risk` is a key that no node sets.
unfoldable pub approval_reason_of : AuthState → ApprovalReason
unfolding sensitive_categories codes one_of
approval_reason_of s =
    if is_require s.security_policy_action || text_in s.block_category sensitive_categories
    then sensitive_data
    else if is_violation s.policy_decision || text_in s.block_reason (codes "policy_violation" ∷ [])
    then policy_violation
    else high_risk

unfoldable pub approval_request : AuthState → ApprovalRequest
unfolding approval_reason_of codes
approval_request s = record {
  query = s.message;
  risk_level = risk_of s;
  session_id = get_or s.session_id [];
  tenant_id = s.tenant_id;
  request_id = s.request_id;
  reason = approval_reason_of s;
  policy_decision = s.policy_decision;
  security_policy_action = s.security_policy_action;
  block_category = s.block_category;
  block_reason = s.block_reason;
}

-- `create_approval` under the time limit; it answers the identifier.
unfoldable pub create_in_time : Env → Timing → ApprovalRequest → Run Text
create_in_time env on_time request = do emit (approval_created request); done env.new_approval_id
create_in_time env too_late request = do emit (approval_created request); raise timeout_error
create_in_time env never request = raise timeout_error

-- `state["risk_level"]`: risk_node has set the key.
unfoldable pub approval_node : Env → AuthState → Run AuthState
unfolding create_in_time approval_request
approval_node env s =
    if is_approved s.approval_status
    then done s
    else if is_high (risk_of s)
    then (do
      new_id ← create_in_time env env.approval_timing (approval_request s)
      done (record s {
        approval_id = some new_id;
        approval_status = some pending_approval;
        approval_reason = some (approval_reason_of s);
      }))
    else done (record s { approval_status = some approved })

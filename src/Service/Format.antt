-- ===== src/Service/Format.antt =====
-- `format_chat_response` of services/gateway_service.py: the answer, and the message that it adds to
-- the session.
use auth_claw.Gateway.State.{ApprovalReason, allowed_of, high_risk, is_pending, risk_of}
use auth_claw.Policy.Category.{get_or}
use auth_claw.Policy.Engine.{RiskLevel}
use auth_claw.Prelude.{List, Option, Text, [], codes, if◌then◌else◌, not, some, ◌∷◌}
use auth_claw.Service.State.{GatewayExecution}

-- The answer without the request's id, the decision and the trace, which every answer has.
pub data ChatResponse : Type 0 where
  blocked_response : Text → ChatResponse
  approval_response : Option Text → Option ApprovalReason → RiskLevel → ChatResponse
  text_response : Text → RiskLevel → Text → Text → Option Text → ChatResponse

-- add_message with the role "blocked" and its category, or "system" and the approval.
pub data AddedMessage : Type 0 where
  blocked_message : Text → Text → AddedMessage
  approval_message : Text → Option Text → Option ApprovalReason → AddedMessage

unfoldable pub format_chat_response : GatewayExecution → ChatResponse × List AddedMessage
unfolding codes
format_chat_response e =
    let s = e.result in
    let category = get_or s.block_category (codes "prompt_injection") in
    let reason = some (get_or s.approval_reason high_risk) in
    if not (allowed_of s)
    then (blocked_response category, blocked_message e.session_id category ∷ [])
    else if is_pending s.approval_status
    then (
      approval_response s.approval_id reason (risk_of s),
      approval_message e.session_id s.approval_id reason ∷ [],
    )
    else (
      text_response (get_or s.response (codes "No response generated")) (risk_of s) e.provider
          e.model e.route_id,
      [],
    )

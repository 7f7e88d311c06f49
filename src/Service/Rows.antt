-- ===== src/Service/Rows.antt =====
-- The state that a run of services/gateway_service.py starts from, and what its result becomes: the
-- execution and the row that is registered.
use auth_claw.Gateway.State.{AuthState, Selection, allowed_of, is_pending, risk_of}
use auth_claw.Policy.Category.{get_or}
use auth_claw.Policy.Engine.{RiskLevel, low}
use auth_claw.Prelude.{
  List, Option, Text, [], codes, false, if◌then◌else◌, inl, inr, none, some, ℕ, ◌∷◌,
}
use auth_claw.Result.{Result, ok, raised, value_error}
use auth_claw.Service.State.{
  GatewayExecution, RegisteredRequest, RequestStatus, ServiceResult, configuration_error, executed,
  or_option, provider_unavailable, status_allowed, status_blocked, status_pending,
  status_unavailable, text_or_else,
}

-- The dict that a run starts from; the keys that are not given are missing.
unfoldable pub new_state : Text → Text → Text → ℕ → Text → AuthState
new_state message session_id username tenant_id request_id = record {
  message = message;
  session_id = some session_id;
  request_id = some request_id;
  tenant_id = some tenant_id;
  allowed = none;
  block_reason = none;
  block_category = none;
  risk_level = none;
  approval_status = none;
  approval_id = none;
  decision = none;
  decision_reason = none;
  task_type = none;
  triggered_policies = none;
  original_query = none;
  selection = none;
  context = none;
  response = none;
  username = some username;
  security_approved = none;
  security_findings = none;
  security_policy_action = none;
  policy_decision = none;
  policy_versions = none;
  approval_reason = none;
  provider_status = none;
  audit_record_id = none;
}

-- result.get("provider"), result.get("model") and result.get("route_id") where the provider router
-- has set them.
abbrev pub provider_of : Option Selection → Option Text
provider_of none = none
provider_of (some s) = some s.provider_name

abbrev pub model_of : Option Selection → Option Text
model_of none = none
model_of (some s) = some s.model

abbrev pub route_of : Option Selection → Option Text
route_of none = none
route_of (some s) = s.route_id

-- What is fixed before the run.
pub record Around : Type 0 where
  pub request_id : Text
  pub session_id : Text
  pub tenant_id : ℕ
  pub route_id : Option Text
  pub provider : Text
  pub model : Text

-- The row for an exception of the workflow.
unfoldable pub unavailable_row : Around → Option RiskLevel → Option Text → RegisteredRequest
unfolding codes
unavailable_row a risk_level route_id = record {
  risk_level = risk_level;
  allowed = false;
  status = status_unavailable;
  request_id = a.request_id;
  session_id = a.session_id;
  tenant_id = a.tenant_id;
  route_id = route_id;
  provider = a.provider;
  model = a.model;
  decision = inl (codes "PROVIDER_UNAVAILABLE");
}

unfoldable pub chat_status : AuthState → RequestStatus
chat_status s =
    if is_pending s.approval_status
    then status_pending
    else if allowed_of s
    then status_allowed
    else status_blocked

unfoldable pub approval_status_of : AuthState → RequestStatus
approval_status_of s = if allowed_of s then status_allowed else status_blocked

-- The row for a result.
unfoldable pub result_row : Around → RequestStatus → RiskLevel → AuthState → RegisteredRequest
result_row a status risk_level s = record {
  risk_level = some risk_level;
  allowed = allowed_of s;
  status = status;
  request_id = a.request_id;
  session_id = a.session_id;
  tenant_id = a.tenant_id;
  route_id = or_option (route_of s.selection) a.route_id;
  provider = text_or_else (provider_of s.selection) a.provider;
  model = text_or_else (model_of s.selection) a.model;
  decision = inr s.decision;
}

unfoldable pub execution_of : Around → AuthState → GatewayExecution
execution_of a s = record {
  request_id = a.request_id;
  tenant_id = a.tenant_id;
  session_id = a.session_id;
  result = s;
  provider = text_or_else (provider_of s.selection) a.provider;
  model = text_or_else (model_of s.selection) a.model;
  route_id = or_option (route_of s.selection) a.route_id;
  decision = s.decision;
}

abbrev pub Registered : Type 0
Registered = ServiceResult × List RegisteredRequest

-- The except clauses and what follows the run of a chat: a ValueError is a wrong configuration.
unfoldable pub finish_chat : Around → Result AuthState → Registered
unfolding unavailable_row result_row chat_status execution_of
finish_chat a (ok s) =
    (executed (execution_of a s), result_row a (chat_status s) (risk_of s) s ∷ [])
finish_chat a (raised value_error) = (configuration_error, [])
finish_chat a (raised fault) =
    (provider_unavailable a.request_id, unavailable_row a none a.route_id ∷ [])

unfoldable pub finish_approval : Around → Option RiskLevel → Result AuthState → Registered
unfolding unavailable_row result_row approval_status_of execution_of
finish_approval a risk (ok s) = (
  executed (execution_of a s),
  result_row a (approval_status_of s) (get_or s.risk_level (get_or risk low)) s ∷ [],
)
finish_approval a risk (raised value_error) = (configuration_error, [])
finish_approval a risk (raised fault) =
    (provider_unavailable a.request_id, unavailable_row a risk none ∷ [])

-- ===== src/Gateway/State.antt =====
-- `AuthState`, the dict that the nodes pass on. A field that is `none` is a key that is missing
-- (or None, which the nodes treat alike). `security_approved` to `policy_versions` at the end are
-- keys that the nodes use and that state.py does not declare.
use auth_claw.Policy.Action.{Action}
use auth_claw.Policy.Category.{get_or}
use auth_claw.Policy.Engine.{PolicyVersion, RiskLevel, high, low}
use auth_claw.Prelude.{Bool, List, Option, Text, codes, false, none, refl, some, true, ℕ, ◌≡◌}

pub data ApprovalStatus : Type 0 where
  approved pending_approval : ApprovalStatus

pub data TaskType : Type 0 where
  gdpr hipaa soc2 general : TaskType

-- The value of "policy_decision": redact_node writes "block", policy_node the engine's action.
pub data PolicyDecision : Type 0 where
  security_block : PolicyDecision
  decided : Action → PolicyDecision

pub data ApprovalReason : Type 0 where
  unknown_provider_risk sensitive_data policy_violation high_risk : ApprovalReason

-- A finding of redaction.py, of the security agent or of the policy engine, as a dict.
pub record Trigger : Type 0 where
  pub policy_name : Text
  pub policy_type : Text
  pub matched_pattern : Text
  pub redacted_value : Text
  pub action : Option Text

-- What `ProviderRouter.select` answers; the client is a number.
pub record Selection : Type 0 where
  pub provider_client : ℕ
  pub provider_name : Text
  pub model : Text
  pub route_id : Option Text
  pub source : Text

pub record AuthState : Type 0 where
  pub message : Text
  pub session_id : Option Text
  pub request_id : Option Text
  pub tenant_id : Option ℕ
  pub allowed : Option Bool
  pub block_reason : Option Text
  pub block_category : Option Text
  pub risk_level : Option RiskLevel
  pub approval_status : Option ApprovalStatus
  pub approval_id : Option Text
  pub decision : Option Action
  pub decision_reason : Option Text
  pub task_type : Option TaskType
  pub triggered_policies : Option (List Trigger)
  pub original_query : Option Text
  pub selection : Option Selection
  pub context : Option Text
  pub response : Option Text
  pub username : Option Text
  pub security_approved : Option Bool
  pub security_findings : Option (List Trigger)
  pub security_policy_action : Option Action
  pub policy_decision : Option PolicyDecision
  pub policy_versions : Option (List PolicyVersion)
  pub approval_reason : Option ApprovalReason
  pub provider_status : Option Text
  pub audit_record_id : Option ℕ

-- state.get("tenant_id", 1), and the other defaults
abbrev pub tenant_of : AuthState → ℕ
tenant_of s = get_or s.tenant_id 1

unfoldable pub session_of : AuthState → Text
unfolding codes
session_of s = get_or s.session_id (codes "default")

unfoldable pub username_of : AuthState → Text
unfolding codes
username_of s = get_or s.username (codes "admin_user")

abbrev pub allowed_of : AuthState → Bool
allowed_of s = get_or s.allowed true

abbrev pub risk_of : AuthState → RiskLevel
risk_of s = get_or s.risk_level low

abbrev pub is_approved : Option ApprovalStatus → Bool
is_approved (some approved) = true
is_approved _ = false

abbrev pub is_pending : Option ApprovalStatus → Bool
is_pending (some pending_approval) = true
is_pending _ = false

abbrev pub is_high : RiskLevel → Bool
is_high high = true
is_high _ = false

abbrev pub is_low : RiskLevel → Bool
is_low low = true
is_low _ = false

-- What the graph's runtime may do to the state between two nodes: the declared keys are kept.
-- Whether it keeps the others is left open.
pub record KeepsDeclared (carry : AuthState → AuthState) : Type 0 where
  pub message : (s : AuthState) → (carry s).message ≡ s.message
  pub session_id : (s : AuthState) → (carry s).session_id ≡ s.session_id
  pub request_id : (s : AuthState) → (carry s).request_id ≡ s.request_id
  pub tenant_id : (s : AuthState) → (carry s).tenant_id ≡ s.tenant_id
  pub allowed : (s : AuthState) → (carry s).allowed ≡ s.allowed
  pub block_reason : (s : AuthState) → (carry s).block_reason ≡ s.block_reason
  pub block_category : (s : AuthState) → (carry s).block_category ≡ s.block_category
  pub risk_level : (s : AuthState) → (carry s).risk_level ≡ s.risk_level
  pub approval_status : (s : AuthState) → (carry s).approval_status ≡ s.approval_status
  pub approval_id : (s : AuthState) → (carry s).approval_id ≡ s.approval_id
  pub decision : (s : AuthState) → (carry s).decision ≡ s.decision
  pub decision_reason : (s : AuthState) → (carry s).decision_reason ≡ s.decision_reason
  pub task_type : (s : AuthState) → (carry s).task_type ≡ s.task_type
  pub triggered_policies : (s : AuthState) → (carry s).triggered_policies ≡ s.triggered_policies
  pub original_query : (s : AuthState) → (carry s).original_query ≡ s.original_query
  pub selection : (s : AuthState) → (carry s).selection ≡ s.selection
  pub context : (s : AuthState) → (carry s).context ≡ s.context
  pub response : (s : AuthState) → (carry s).response ≡ s.response

-- The runtime that keeps the declared keys and drops all others.
unfoldable pub declared_only : AuthState → AuthState
declared_only s = record s {
  username = none;
  security_approved = none;
  security_findings = none;
  security_policy_action = none;
  policy_decision = none;
  policy_versions = none;
  approval_reason = none;
  provider_status = none;
  audit_record_id = none;
}

pub declared_only-KeepsDeclared : KeepsDeclared declared_only
unfolding declared_only
declared_only-KeepsDeclared = record {
  message = λ s. refl;
  session_id = λ s. refl;
  request_id = λ s. refl;
  tenant_id = λ s. refl;
  allowed = λ s. refl;
  block_reason = λ s. refl;
  block_category = λ s. refl;
  risk_level = λ s. refl;
  approval_status = λ s. refl;
  approval_id = λ s. refl;
  decision = λ s. refl;
  decision_reason = λ s. refl;
  task_type = λ s. refl;
  triggered_policies = λ s. refl;
  original_query = λ s. refl;
  selection = λ s. refl;
  context = λ s. refl;
  response = λ s. refl;
}

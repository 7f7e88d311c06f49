-- ===== src/Service/State.antt =====
-- The arguments and results of services/gateway_service.py. The trace of agent events, which is read
-- back from the table, and the durations are left out.
use auth_claw.Gateway.Env.{Env}
use auth_claw.Gateway.State.{AuthState}
use auth_claw.Policy.Action.{Action}
use auth_claw.Policy.Engine.{RiskLevel}
use auth_claw.Prelude.{
  Bool, Option, Text, [], codes, if◌then◌else◌, none, some, starts_with, ℕ, ◌∷◌, ◌⊎◌,
}
use auth_claw.Redaction.Stream.{after_chars}
use auth_claw.Result.{Fault, Result, ok}

-- What the service is built with, and the identifiers that it draws.
pub record Gateway : Type 0 where
  pub env : Env
  pub carry : AuthState → AuthState
  pub resolve_tenant : Option Text → Option Text → Result ℕ
  -- The claim "sub" of a token's payload, if it has one.
  pub decode_jwt : Text → Result (Option Text)
  pub request_id : Text
  pub new_session_id : Text

pub record ChatRequest : Type 0 where
  pub message : Text
  pub session_id : Option Text
  pub x_api_key : Option Text
  pub authorization : Option Text
  pub username : Option Text
  pub route_id : Option Text
  pub provider : Text
  pub model : Text

-- The keys of an approval that its execution reads.
pub record ApprovedRequest : Type 0 where
  pub approval_id : Text
  pub tenant_id : Option ℕ
  pub correlation_id : Option Text
  pub query : Text
  pub risk_level : Option RiskLevel

pub data RequestStatus : Type 0 where
  status_pending status_allowed status_blocked status_unavailable : RequestStatus

-- A risk of "UNKNOWN" is `none`.
pub record RegisteredRequest : Type 0 where
  pub risk_level : Option RiskLevel
  pub allowed : Bool
  pub status : RequestStatus
  pub request_id : Text
  pub session_id : Text
  pub tenant_id : ℕ
  pub route_id : Option Text
  pub provider : Text
  pub model : Text
  -- "PROVIDER_UNAVAILABLE", or the result's decision
  pub decision : Text ⊎ Option Action

pub record GatewayExecution : Type 0 where
  pub request_id : Text
  pub tenant_id : ℕ
  pub session_id : Text
  pub result : AuthState
  pub provider : Text
  pub model : Text
  pub route_id : Option Text
  pub decision : Option Action

-- How a call ends: it returns, or raises GatewayProviderConfigurationError or
-- GatewayProviderUnavailableError, or what resolve_tenant raises.
pub data ServiceResult : Type 0 where
  executed : GatewayExecution → ServiceResult
  configuration_error : ServiceResult
  provider_unavailable : Text → ServiceResult
  tenant_refused : Fault → ServiceResult

-- a or b, for texts
abbrev pub text_or_else : Option Text → Text → Text
text_or_else none t = t
text_or_else (some []) t = t
text_or_else (some (c ∷ s)) t = c ∷ s

-- a or b, where b may be None
abbrev pub or_option : Option Text → Option Text → Option Text
or_option none t = t
or_option (some []) t = t
or_option (some (c ∷ s)) t = some (c ∷ s)

abbrev sub_or_admin : Result (Option Text) → Text
sub_or_admin (ok (some sub)) = sub
sub_or_admin _ = codes "admin_user"

-- _username_from_authorization
unfoldable pub username_from_authorization : (Text → Result (Option Text)) → Option Text → Text
unfolding codes starts_with after_chars
username_from_authorization decode_jwt none = codes "admin_user"
username_from_authorization decode_jwt (some []) = codes "admin_user"
username_from_authorization decode_jwt (some (c ∷ s)) =
    sub_or_admin
      (decode_jwt (if starts_with (c ∷ s) (codes "Bearer ") then after_chars 7 (c ∷ s) else c ∷ s))

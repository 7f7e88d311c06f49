-- ===== src/Gateway/Effects.antt =====
-- What a run writes outside the state, as a sequence of events, and runs as a state monad that
-- keeps the events of a run that raises.
use auth_claw.Gateway.State.{ApprovalReason, ApprovalStatus, PolicyDecision}
use auth_claw.Policy.Action.{Action}
use auth_claw.Policy.Engine.{RiskLevel}
use auth_claw.Prelude.{Bool, List, Option, String, Text, [], none, some, ℕ, ◌++◌, ◌∷◌}
use auth_claw.Result.{Fault, Result, ok, raised}

pub record ApprovalRequest : Type 0 where
  pub query : Text
  pub risk_level : RiskLevel
  pub session_id : Text
  pub tenant_id : Option ℕ
  pub request_id : Option Text
  pub reason : ApprovalReason
  pub policy_decision : Option PolicyDecision
  pub security_policy_action : Option Action
  pub block_category : Option Text
  pub block_reason : Option Text

-- The status of an audit block.
pub data LoggedStatus : Type 0 where
  pending blocked completed : LoggedStatus
  granted : ApprovalStatus → LoggedStatus

pub data Approver : Type 0 where
  system : Approver
  user : Text → Approver

pub record AuditBlock : Type 0 where
  pub query : Text
  pub response : Text
  pub allowed : Bool
  pub risk_level : RiskLevel
  pub approval_status : LoggedStatus
  pub session_id : Text
  pub approval_id : Option Text
  pub approver : Approver
  pub policy_names : List Text
  pub policy_types : List Text
  pub matched_patterns : List Text
  pub redacted_values : List Text
  pub username : Text
  pub tenant_id : ℕ

pub data Role : Type 0 where
  from_user from_assistant : Role

pub data Event : Type 0 where
  agent_event : String → String → Event
  message_added : Text → Role → Text → Event
  approval_created : ApprovalRequest → Event
  provider_called : ℕ → Text → Event
  audit_block : AuditBlock → Event

abbrev pub Trace : Type 0
Trace = List Event

abbrev pub Run : Type 0 → Type 0
Run A = Trace → Result A × Trace

abbrev pub continue_run : {A B : Type 0} → Result A → (A → Run B) → Run B
continue_run (ok a) f t = f a t
continue_run (raised e) f t = (raised e, t)

infixl 5 ◌>>=◌ ◌>>◌
abbrev pub ◌>>=◌ : {A B : Type 0} → Run A → (A → Run B) → Run B
◌>>=◌ m f t = let (r, t') = m t in continue_run r f t'

abbrev pub ◌>>◌ : {A B : Type 0} → Run A → Run B → Run B
m >> k = m >>= λ _. k

abbrev pub done : {A : Type 0} → A → Run A
done a t = (ok a, t)

abbrev pub emit : Event → Run (Unit {0})
emit e t = (ok tt, t ++ e ∷ [])

abbrev pub log_agent_event : String → String → Run (Unit {0})
log_agent_event agent kind = emit (agent_event agent kind)

abbrev pub raise : {A : Type 0} → Fault → Run A
raise e t = (raised e, t)

-- What a call raises, if it raises.
abbrev pub raise_some : Option Fault → Run (Unit {0})
raise_some none = done tt
raise_some (some e) = raise e

abbrev pub lift : {A : Type 0} → Result A → Run A
lift r t = (r, t)

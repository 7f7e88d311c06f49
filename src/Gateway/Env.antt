-- ===== src/Gateway/Env.antt =====
-- What the pipeline calls: components that have modules of their own or are arguments, and the
-- outcomes of timed calls.
use auth_claw.Gateway.Effects.{Trace}
use auth_claw.Gateway.Security.{Keywords, Redactor}
use auth_claw.Gateway.State.{Selection}
use auth_claw.Policy.Category.{TenantPolicy}
use auth_claw.Policy.Engine.{Detector}
use auth_claw.Prelude.{Bool, List, Option, Text, ℕ}
use auth_claw.Result.{Fault, Result}

-- How `executor.submit(create_approval, …)` with a timeout of 5 seconds ends: in time, too late
-- (the thread goes on and creates the approval) or with nothing created.
pub data Timing : Type 0 where
  on_time too_late never : Timing

-- A stored chat message, as `get_history` gives it.
pub record HistoryMessage : Type 0 where
  pub role : Option Text
  pub content : Option Text
  pub category : Option Text
  pub approval_id : Option Text

-- What `AuditAgent.record` meets once the INSERT of the block is committed: the row is read back, or
-- is not found, or the SELECT and UPDATE of its hashes or the reading raises.
pub data ReadBack : Type 0 where
  row_found row_missing : ReadBack
  read_fails : Fault → ReadBack

-- What `get_provider` of providers/__init__.py answers, with its class's name and its `model_name`.
pub record LegacyProvider : Type 0 where
  pub client : ℕ
  pub class_name : Text
  pub model_name : Text

-- `redact_fails` tells what the redaction raises on a text, and `redact_rich` what it answers where it
-- raises nothing; `audit_fails` is what the audit raises before its INSERT is committed. The detector,
-- the stored policies, the documents and the history are taken to answer.
pub record Env : Type 0 where
  pub keywords : Keywords
  pub redact_rich : Redactor
  pub redact_fails : Text → Text → ℕ → Option Fault
  pub detect : Detector
  pub load_policies : Option ℕ → List TenantPolicy
  pub select_provider : ℕ → Result Selection
  pub legacy_provider : Result LegacyProvider
  pub generate : ℕ → Text → Result Text
  pub docs : Text
  pub get_history : Trace → Text → List HistoryMessage
  pub risk_on_time : Bool
  pub approval_timing : Timing
  pub new_approval_id : Text
  pub new_record_id : ℕ
  pub audit_fails : Option Fault
  pub read_back : ReadBack

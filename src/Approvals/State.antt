-- ===== src/Approvals/State.antt =====
-- The record of an approval, its copies in memory and in the table gateway_approvals, and the
-- requests of the endpoints. Times are in seconds; a request sees one time. The table is reachable,
-- so that every assignment to a key of the record stores the record.
use auth_claw.Prelude.{
  Bool, List, Option, String, Text, [], false, if◌then◌else◌, leb, none, some, true, ℕ, ◌&&◌, ◌*◌,
  ◌++◌, ◌+◌, ◌∷◌,
}

pub data Status : Type 0 where
  pending approved rejected expired executing executed execution_failed : Status

pub record ApprovalRecord : Type 0 where
  pub approval_id : Text
  pub tenant_id : Option ℕ
  pub status : Status
  pub created_at : ℕ
  pub expires_at : Option ℕ
  pub approved_at : Option ℕ
  pub rejected_at : Option ℕ
  pub executed_at : Option ℕ
  pub query : Text
  pub reason : Text
  pub approved_by : Option Text
  pub rejected_by : Option Text
  pub executed_by : Option Text
  pub mfa_verified : Bool
  pub approval_mfa_verified : Bool
  pub execution_mfa_verified : Bool
  pub approval_mfa_binding_hash : Option Text
  pub execution_mfa_binding_hash : Option Text
  pub approval_mfa_counter : Option ℕ
  pub execution_mfa_counter : Option ℕ
  pub execution_token_hash : Option Text
  pub execution_token_used_at : Option ℕ
  pub execution_expires_at : Option ℕ
  pub last_action_at : ℕ

-- The claims of a session token.
pub record UserPayload : Type 0 where
  pub tenant_id : Option ℕ
  pub email : Option Text
  pub sub : Option Text

pub data Body : Type 0 where
  no_body invalid_json : Body
  parsed : Option Text → Body

pub record ActionRequest : Type 0 where
  pub user : UserPayload
  pub body : Body
  pub now : ℕ

-- What `execute_approval` or the remediation runtime ends with.
pub data Execution : Type 0 where
  completed provider_not_configured provider_unavailable other_error : Execution

-- What an endpoint does besides changing the record: entries of the approval's history, and the
-- start of the approved action.
pub data ApprovalEvent : Type 0 where
  audited : String → ApprovalEvent
  action_started : ℕ → ApprovalEvent

-- The record in memory and the row of the table, if there are any.
pub record Store : Type 0 where
  pub cache : Option ApprovalRecord
  pub row : Option ApprovalRecord
  pub events : List ApprovalEvent

pub record Config : Type 0 where
  pub require_mfa : Bool
  pub execution_expiry_minutes : ℕ
  pub totp_secret : ApprovalRecord → UserPayload → Option Text
  pub hotp : Text → ℕ → Option Text
  pub binding_hash : ApprovalRecord → Text → ℕ → Option ℕ → Text
  pub execute : ApprovalRecord → Execution
  pub token_hash : Text

-- record[key] = value, for the last of some keys
abbrev pub save : ApprovalRecord → Store → Store
save r s = record s { cache = some r; row = some r }

abbrev pub append_approval_audit : String → Store → Store
append_approval_audit action s = record s { events = s.events ++ audited action ∷ [] }

-- now >= limit, if there is a limit
abbrev pub has_passed : ℕ → Option ℕ → Bool
has_passed now none = false
has_passed now (some limit) = leb limit now

unfoldable pub create_approval : Text → Option ℕ → Text → Text → ℕ → ℕ → Store → Store
create_approval new_id tenant_id query reason now expiry_minutes s =
    let r : ApprovalRecord = record {
      approval_id = new_id;
      tenant_id = tenant_id;
      status = pending;
      created_at = now;
      expires_at = some (now + 60 * expiry_minutes);
      approved_at = none;
      rejected_at = none;
      executed_at = none;
      query = query;
      reason = reason;
      approved_by = none;
      rejected_by = none;
      executed_by = none;
      mfa_verified = false;
      approval_mfa_verified = false;
      execution_mfa_verified = false;
      approval_mfa_binding_hash = none;
      execution_mfa_binding_hash = none;
      approval_mfa_counter = none;
      execution_mfa_counter = none;
      execution_token_hash = none;
      execution_token_used_at = none;
      execution_expires_at = none;
      last_action_at = now;
    } in
    append_approval_audit "created" (save r s)

abbrev pub is_waiting : Status → Bool
is_waiting pending = true
is_waiting _ = false

-- `_check_expiry`
unfoldable pub check_expiry : ℕ → ApprovalRecord → Store → ApprovalRecord × Store
check_expiry now r s =
    if is_waiting r.status && has_passed now r.expires_at
    then (let e = record r { status = expired; last_action_at = now } in
        (e, append_approval_audit "expired" (save e s)))
    else (r, s)

abbrev pub checked_record : ℕ → Option ApprovalRecord → Store → Option ApprovalRecord × Store
checked_record now none s = (none, s)
checked_record now (some r) s = let (e, s') = check_expiry now r s in (some e, s')

-- A record that is not in memory is loaded from the table.
abbrev pub found : ℕ → Option ApprovalRecord → Store → Option ApprovalRecord × Store
found now none s = checked_record now s.row (record s { cache = s.row })
found now (some r) s = checked_record now (some r) s

unfoldable pub get_approval : ℕ → Store → Option ApprovalRecord × Store
unfolding check_expiry
get_approval now s = found now s.cache s

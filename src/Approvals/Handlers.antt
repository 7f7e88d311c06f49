-- ===== src/Approvals/Handlers.antt =====
-- The endpoints /approve and /reject of main.py for one approval. A reply
-- that is not 200 has its HTTP status. Comments and the audit blocks of the decisions are left out.
use auth_claw.Approvals.Mfa.{
  MfaResult, approval, approval_actor, not_configured, verified, verify_approval_stage_mfa,
}
use auth_claw.Approvals.State.{
  ActionRequest, ApprovalRecord, Body, Config, Status, Store, UserPayload, append_approval_audit,
  approved, executed, executing, execution_failed, expired, get_approval, invalid_json, no_body,
  parsed, pending, rejected, save,
}
use auth_claw.Policy.Category.{get_or}
use auth_claw.Prelude.{
  Bool, Option, Text, false, if◌then◌else◌, leb, none, not, some, true, ℕ, ◌*◌, ◌+◌, ◌==◌, ◌||◌,
}

pub data Reply : Type 0 where
  success : Reply
  refused : ℕ → Reply

-- `_approval_authenticated_payload`: a tenant that is missing or 0 has no access.
abbrev pub is_authenticated : UserPayload → Bool
is_authenticated payload = not (get_or payload.tenant_id 0 == 0)

-- `ensure_approval_tenant_access`
abbrev pub tenants_differ : Option ℕ → Option ℕ → Bool
tenants_differ (some a) (some b) = not (a == b)
tenants_differ _ _ = false

abbrev pub is_foreign : ApprovalRecord → UserPayload → Bool
is_foreign r payload = tenants_differ payload.tenant_id r.tenant_id

-- The statuses that may still be approved.
abbrev pub is_open : Status → Bool
is_open pending = true
is_open approved = true
is_open _ = false

-- The statuses that may be rejected.
abbrev pub is_rejectable : Status → Bool
is_rejectable expired = false
is_rejectable approved = false
is_rejectable executed = false
is_rejectable _ = true

abbrev pub is_approved_status : Status → Bool
is_approved_status approved = true
is_approved_status _ = false

abbrev pub has_run : Status → Bool
has_run executing = true
has_run executed = true
has_run execution_failed = true
has_run _ = false

abbrev pub is_no_body : Body → Bool
is_no_body no_body = true
is_no_body _ = false

abbrev pub is_invalid_json : Body → Bool
is_invalid_json invalid_json = true
is_invalid_json _ = false

abbrev pub code_of : Body → Option Text
code_of (parsed code) = code
code_of _ = none

abbrev pub max : ℕ → ℕ → ℕ
max a b = if leb a b then b else a

-- The keys that an approval sets.
unfoldable pub approved_record :
    Config → ApprovalRecord → ActionRequest → Bool → Option Text → Option ℕ → ApprovalRecord
unfolding approval_actor
approved_record config r request checked hash counter = record r {
  status = approved;
  approved_at = some request.now;
  approved_by = some (approval_actor request.user);
  mfa_verified = checked;
  approval_mfa_verified = checked;
  approval_mfa_binding_hash = hash;
  approval_mfa_counter = counter;
  execution_expires_at = some (request.now + 60 * max 1 config.execution_expiry_minutes);
  last_action_at = request.now;
}

unfoldable pub grant : ApprovalRecord → Store → Reply × Store
grant r s = (success, append_approval_audit "approved" (save r s))

unfoldable pub approve_checked :
    Config → ApprovalRecord → ActionRequest → MfaResult → Store → Reply × Store
unfolding grant approved_record
approve_checked config r request (verified hash counter) s =
    grant (approved_record config r request true (some hash) (some counter)) s
approve_checked config r request not_configured s = (refused 400, s)
approve_checked config r request _ s = (refused 401, append_approval_audit "approval_mfa_failed" s)

unfoldable pub approve_record : Config → ApprovalRecord → ActionRequest → Store → Reply × Store
unfolding approve_checked grant approved_record verify_approval_stage_mfa
approve_record config r request s =
    if not (is_authenticated request.user)
    then (refused 401, s)
    else if is_foreign r request.user
    then (refused 404, s)
    else if not (is_open r.status) || is_invalid_json request.body
    then (refused 400, s)
    else if not config.require_mfa
    then grant (approved_record config r request false none none) s
    else if is_no_body request.body
    then (refused 401, s)
    else approve_checked config r request
        (verify_approval_stage_mfa config r request.user (code_of request.body) request.now approval
          r.expires_at)
        s

-- The handler, on what `get_approval` gives.
abbrev pub with_record :
    (ApprovalRecord → Store → Reply × Store) → Option ApprovalRecord × Store → Reply × Store
with_record handle (none, s) = (refused 404, s)
with_record handle (some r, s) = handle r s

unfoldable pub approve_request : Config → ActionRequest → Store → Reply × Store
unfolding approve_record get_approval
approve_request config request s =
    with_record (λ r. approve_record config r request) (get_approval request.now s)

unfoldable pub reject_record : ApprovalRecord → ActionRequest → Store → Reply × Store
unfolding approval_actor
reject_record r request s =
    if is_foreign r request.user
    then (refused 404, s)
    else if is_invalid_json request.body || not (is_rejectable r.status)
    then (refused 400, s)
    else (
      success,
      append_approval_audit "rejected" (
          save
            (record r {
              status = rejected;
              rejected_at = some request.now;
              rejected_by = some (approval_actor request.user);
              last_action_at = request.now;
            })
            s),
    )

unfoldable pub reject_request : ActionRequest → Store → Reply × Store
unfolding reject_record get_approval
reject_request request s = with_record (λ r. reject_record r request) (get_approval request.now s)

-- ===== src/Approvals/Execute.antt =====
-- The endpoints /execute and /test/expire of main.py for one approval.
use auth_claw.Approvals.Handlers.{
  Reply, code_of, has_run, is_approved_status, is_authenticated, is_foreign, is_invalid_json,
  is_no_body, refused, success, with_record,
}
use auth_claw.Approvals.Mfa.{
  MfaResult, approval_actor, execution, not_configured, verified, verify_approval_stage_mfa,
}
use auth_claw.Approvals.State.{
  ActionRequest, ApprovalRecord, Config, Execution, Store, action_started, append_approval_audit,
  completed, executed, executing, execution_failed, expired, get_approval, has_passed, pending,
  provider_unavailable, save,
}
use auth_claw.Prelude.{
  Bool, Option, Text, [], false, if◌then◌else◌, none, not, some, text_eq, true, ℕ, ◌&&◌, ◌++◌, ◌-◌,
  ◌||◌, ◌∷◌,
}

abbrev pub is_unused : Option ℕ → Bool
is_unused none = true
is_unused (some t) = false

-- UPDATE … WHERE status = 'approved' AND execution_token_used_at IS NULL
abbrev pub can_lock : Option ApprovalRecord → Bool
can_lock none = false
can_lock (some row) = is_approved_status row.status && is_unused row.execution_token_used_at

-- `record.get("approved_by") and record.get("approved_by") != approver`
abbrev pub is_transferred : Option Text → Text → Bool
is_transferred none actor = false
is_transferred (some []) actor = false
is_transferred (some (c ∷ by)) actor = not (text_eq (c ∷ by) actor)

unfoldable pub executing_record :
    Config → ApprovalRecord → ActionRequest → Text → ℕ → ApprovalRecord
unfolding approval_actor
executing_record config r request hash counter = record r {
  status = executing;
  executed_by = some (approval_actor request.user);
  execution_mfa_verified = true;
  execution_mfa_binding_hash = some hash;
  execution_mfa_counter = some counter;
  execution_token_hash = some config.token_hash;
  execution_token_used_at = some request.now;
  last_action_at = request.now;
}

unfoldable pub failed : ApprovalRecord → ActionRequest → ℕ → Store → Reply × Store
failed r request code s = (
  refused code,
  append_approval_audit "execution_failed"
      (save (record r { status = execution_failed; last_action_at = request.now }) s),
)

-- What follows the end of the action.
unfoldable pub finish : ApprovalRecord → ActionRequest → Execution → Store → Reply × Store
unfolding failed
finish r request completed s = (
  success,
  append_approval_audit "executed" (
      save
        (record r {
          status = executed;
          executed_at = some request.now;
          last_action_at = request.now;
        })
        s),
)
finish r request provider_unavailable s = failed r request 503 s
finish r request _ s = failed r request 500 s

-- The event `action_started` says that the approved action runs.
unfoldable pub start : Config → ApprovalRecord → ActionRequest → Store → Reply × Store
unfolding finish
start config r request s =
    let t = append_approval_audit "executing" (save r s) in
    finish r request (config.execute r)
      (record t { events = t.events ++ action_started request.now ∷ [] })

unfoldable pub execute_checked :
    Config → ApprovalRecord → ActionRequest → MfaResult → Store → Reply × Store
unfolding start executing_record
execute_checked config r request (verified hash counter) s =
    if can_lock s.row
    then start config (executing_record config r request hash counter) request s
    else (refused 400, append_approval_audit "replay_rejected" s)
execute_checked config r request not_configured s =
    (refused 400, append_approval_audit "execution_mfa_failed" s)
execute_checked config r request _ s = (refused 401, append_approval_audit "execution_mfa_failed" s)

-- status = "expired"
unfoldable pub lapse : ApprovalRecord → ActionRequest → Store → Reply × Store
lapse r request s = (
  refused 400,
  append_approval_audit "expired"
      (save (record r { status = expired; last_action_at = request.now }) s),
)

abbrev pub expiry_or : Option ℕ → Option ℕ → Option ℕ
expiry_or none e = e
expiry_or (some t) e = some t

unfoldable pub execute_record : Config → ApprovalRecord → ActionRequest → Store → Reply × Store
unfolding execute_checked lapse verify_approval_stage_mfa approval_actor text_eq
execute_record config r request s =
    if not (is_authenticated request.user)
    then (refused 401, s)
    else if is_foreign r request.user
    then (refused 404, s)
    else if is_invalid_json request.body
    then (refused 400, s)
    else if not (is_approved_status r.status)
    then (refused 400, if has_run r.status then append_approval_audit "replay_rejected" s else s)
    else if is_transferred r.approved_by (approval_actor request.user)
    then (refused 403, append_approval_audit "transfer_rejected" s)
    else if has_passed request.now r.expires_at || has_passed request.now r.execution_expires_at
    then lapse r request s
    else if is_no_body request.body
    then (refused 401, s)
    else execute_checked config r request
        (verify_approval_stage_mfa config r request.user (code_of request.body) request.now
          execution (expiry_or r.execution_expires_at r.expires_at))
        s

unfoldable pub execute_request : Config → ActionRequest → Store → Reply × Store
unfolding execute_record get_approval
execute_request config request s =
    with_record (λ r. execute_record config r request) (get_approval request.now s)

-- /test/expire: five minutes before now
unfoldable pub expire_record : ℕ → ApprovalRecord → Store → Reply × Store
expire_record now r s =
    (success, save (record r { expires_at = some (now - 300); status = pending }) s)

unfoldable pub test_expire_approval : ℕ → Store → Reply × Store
unfolding expire_record get_approval
test_expire_approval now s = with_record (expire_record now) (get_approval now s)

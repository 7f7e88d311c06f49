-- ===== src/Approvals/Lifecycle.antt =====
-- main.py: sequences of calls of the endpoints for one approval.
use auth_claw.Approvals.Execute.{
  can_lock, execute_checked, execute_record, execute_request, executing_record, expire_record,
  failed, finish, is_transferred, is_unused, lapse, start, test_expire_approval,
}
use auth_claw.Approvals.Handlers.{
  approve_request, has_run, is_approved_status, is_authenticated, is_foreign, is_invalid_json,
  is_no_body, reject_request,
}
use auth_claw.Approvals.Mfa.{
  MfaResult, approval_actor, code_required, fresh_code_required, invalid_code, not_configured,
  stale_code, verified,
}
use auth_claw.Approvals.Once.{
  IsAnswered, IsGood, IsHeld, approve_record-IsGood, audit-IsGood, get_approval-IsAnswered,
  held-IsGood, if-IsGood, is_free, reject_record-IsGood, save-IsGood, started, started-append,
  with_record-IsGood,
}
use auth_claw.Approvals.State.{
  ActionRequest, ApprovalRecord, Config, Execution, Store, action_started, append_approval_audit,
  audited, completed, create_approval, get_approval, has_passed, other_error,
  provider_not_configured, provider_unavailable, save,
}
use auth_claw.Prelude.{
  Bool, Bool-cases, Option, String, Text, [], and-split, ap, arith, false, if◌then◌else◌, inl, inr,
  none, not, refl, some, true, ℕ, ◌++◌, ◌||◌, ◌∙◌, ◌∷◌, ◌≡◌, ◌≤◌,
}

-- A store in which the action has just been started, with its token taken.
abbrev IsRunning : ApprovalRecord → Store → Type 0
IsRunning r s = (is_unused r.execution_token_used_at ≡ false) × (started s.events ≤ 1)

running-IsGood :
    (a : String) (r : ApprovalRecord) (s : Store)
    → IsRunning r s
    → IsGood (append_approval_audit a (save r s))
running-IsGood a r s (u, k) = audit-IsGood a (save r s) (inr refl, ((λ free. cc), k))

finish-IsGood :
    (r : ApprovalRecord) (request : ActionRequest) (x : Execution) (s : Store)
    → IsRunning r s
    → IsGood (finish r request x s).1
unfolding finish failed
finish-IsGood r request completed s h = running-IsGood "executed" _ s h
finish-IsGood r request provider_unavailable s h = running-IsGood "execution_failed" _ s h
finish-IsGood r request provider_not_configured s h = running-IsGood "execution_failed" _ s h
finish-IsGood r request other_error s h = running-IsGood "execution_failed" _ s h

start-IsGood :
    (config : Config) (r : ApprovalRecord) (request : ActionRequest) (s : Store)
    → is_unused r.execution_token_used_at ≡ false
    → started s.events ≡ 0
    → IsGood (start config r request s).1
unfolding start
start-IsGood config r request s u e =
    let logged = started-append s.events (audited "executing" ∷ []) in
    let begun =
      started-append (s.events ++ audited "executing" ∷ []) (action_started request.now ∷ []) in
    finish-IsGood r request (config.execute r) _ (u, omega (arith, logged, begun, e))

can_lock_free : (o : Option ApprovalRecord) → can_lock o ≡ true → is_free o ≡ true
can_lock_free none h = cc
can_lock_free (some r) h =
    (and-split (is_approved_status r.status) (is_unused r.execution_token_used_at) h).1

execute_checked-IsGood :
    (config : Config) (r : ApprovalRecord) (request : ActionRequest) (m : MfaResult) (s : Store)
    → IsHeld r s
    → IsGood (execute_checked config r request m s).1
unfolding execute_checked executing_record
execute_checked-IsGood config r request (verified hash counter) s h =
    elim (Bool-cases (can_lock s.row)) [
      | inl e ↦ rw e (
          start-IsGood config (executing_record config r request hash counter) request s refl
            (h.2.0 (can_lock_free s.row e)))
      | inr e ↦ rw e (audit-IsGood "replay_rejected" s (held-IsGood r s h))
    ]
execute_checked-IsGood config r request not_configured s h = audit-IsGood _ s (held-IsGood r s h)
execute_checked-IsGood config r request code_required s h = audit-IsGood _ s (held-IsGood r s h)
execute_checked-IsGood config r request invalid_code s h = audit-IsGood _ s (held-IsGood r s h)
execute_checked-IsGood config r request stale_code s h = audit-IsGood _ s (held-IsGood r s h)
execute_checked-IsGood config r request fresh_code_required s h =
    audit-IsGood _ s (held-IsGood r s h)

replayed-IsGood :
    (b : Bool) (s : Store)
    → IsGood s
    → IsGood (if b then append_approval_audit "replay_rejected" s else s)
replayed-IsGood true s h = audit-IsGood "replay_rejected" s h
replayed-IsGood false s h = h

execute_record-IsGood :
    (config : Config) (r : ApprovalRecord) (request : ActionRequest) (s : Store)
    → IsHeld r s
    → IsGood (execute_record config r request s).1
unfolding execute_record lapse
execute_record-IsGood config r request s h =
    let good = held-IsGood r s h in
    let late =
      has_passed request.now r.expires_at || has_passed request.now r.execution_expires_at in
    if-IsGood (not (is_authenticated request.user)) _ _ good (λ e.
      if-IsGood (is_foreign r request.user) _ _ good (λ e.
        if-IsGood (is_invalid_json request.body) _ _ good (λ e.
          if-IsGood (not (is_approved_status r.status)) _ _
            (replayed-IsGood (has_run r.status) s good)
            (λ e.
              if-IsGood (is_transferred r.approved_by (approval_actor request.user)) _ _
                (audit-IsGood "transfer_rejected" s good)
                (λ e. if-IsGood late _ _ (save-IsGood "expired" r _ s h refl) (λ e.
                  if-IsGood (is_no_body request.body) _ _ good
                    (λ e. execute_checked-IsGood config r request _ s h)))))))

expire_record-IsGood :
    (now : ℕ) (r : ApprovalRecord) (s : Store) → IsHeld r s → IsGood (expire_record now r s).1
unfolding expire_record
expire_record-IsGood now r s (c, w, (h, k)) = (inr refl, ((λ free. h (ap is_free w ∙ free)), k))

-- The stores that the endpoints make of one in which the approval has just been created; at any
-- time the process may start again, with nothing in memory.
pub data IsReachable (config : Config) : Store → Type 0 where
  creates :
      (id : Text) (tenant_id : Option ℕ) (query reason : Text) (now minutes : ℕ)
      → IsReachable config (
          create_approval id tenant_id query reason now minutes
            (record { cache = none; row = none; events = [] }))
  reads : {s : Store} → IsReachable config s → (now : ℕ) → IsReachable config (get_approval now s).1
  approves :
      {s : Store}
      → IsReachable config s
      → (request : ActionRequest) → IsReachable config (approve_request config request s).1
  rejects :
      {s : Store}
      → IsReachable config s
      → (request : ActionRequest) → IsReachable config (reject_request request s).1
  executes :
      {s : Store}
      → IsReachable config s
      → (request : ActionRequest) → IsReachable config (execute_request config request s).1
  expires :
      {s : Store}
      → IsReachable config s
      → (now : ℕ) → IsReachable config (test_expire_approval now s).1
  restarts : {s : Store} → IsReachable config s → IsReachable config (record s { cache = none })

answered-IsGood : (o : Option ApprovalRecord × Store) → IsAnswered o → IsGood o.1
answered-IsGood (none, s) h = h
answered-IsGood (some r, s) h = held-IsGood r s h

IsReachable-IsGood : (config : Config) (s : Store) → IsReachable config s → IsGood s
unfolding create_approval approve_request reject_request execute_request test_expire_approval
IsReachable-IsGood config _ (creates id tenant_id query reason now minutes) =
    (inr refl, ((λ e. refl), omega arith))
IsReachable-IsGood config _ (reads {s} c now) =
    answered-IsGood _ (get_approval-IsAnswered now s (IsReachable-IsGood config s c))
IsReachable-IsGood config _ (approves {s} c request) =
    with_record-IsGood _ _ (get_approval-IsAnswered request.now s (IsReachable-IsGood config s c))
      (λ r t h. approve_record-IsGood config r request t h)
IsReachable-IsGood config _ (rejects {s} c request) =
    with_record-IsGood _ _ (get_approval-IsAnswered request.now s (IsReachable-IsGood config s c))
      (λ r t h. reject_record-IsGood r request t h)
IsReachable-IsGood config _ (executes {s} c request) =
    with_record-IsGood _ _ (get_approval-IsAnswered request.now s (IsReachable-IsGood config s c))
      (λ r t h. execute_record-IsGood config r request t h)
IsReachable-IsGood config _ (expires {s} c now) =
    with_record-IsGood _ _ (get_approval-IsAnswered now s (IsReachable-IsGood config s c))
      (λ r t h. expire_record-IsGood now r t h)
IsReachable-IsGood config _ (restarts {s} c) = (inl refl, (IsReachable-IsGood config s c).1)

-- In one process, after any sequence of reads, approvals, rejections, executions, forced expiries
-- and restarts, by any users and at any times, the approved action has been started at most once.
pub IsReachable-once : (config : Config) (s : Store) → IsReachable config s → started s.events ≤ 1
IsReachable-once config s c = (IsReachable-IsGood config s c).1.1

-- ===== src/Approvals/Guarded.antt =====
-- main.py: the conditions on which /execute starts the approved action.
use auth_claw.Approvals.Execute.{execute_checked, execute_record, expiry_or, is_transferred, lapse}
use auth_claw.Approvals.Handlers.{
  Reply, code_of, has_run, is_approved_status, is_authenticated, is_foreign, is_invalid_json,
  is_no_body,
}
use auth_claw.Approvals.Mfa.{
  MfaResult, approval_actor, code_required, execution, fresh_code_required, invalid_code,
  is_counter, not_configured, stale_code, verified, verify_approval_stage_mfa, verify_counter,
  with_secret,
}
use auth_claw.Approvals.Once.{started, started-append}
use auth_claw.Approvals.State.{
  ActionRequest, ApprovalRecord, Config, Status, Store, UserPayload, append_approval_audit,
  approved, audited, executed, executing, execution_failed, expired, has_passed, pending, rejected,
}
use auth_claw.Prelude.{
  Bool, Bool-cases, Option, String, Text, [], arith, false, if◌then◌else◌, inl, inr, none, not,
  refl, some, subst, true, ℕ, ◌||◌, ◌∷◌, ◌≡◌, ◌⊎◌,
}

-- Nothing has been started by the call.
abbrev pub NotStarted : Store → Reply × Store → Type 0
NotStarted s (reply, t) = started t.events ≡ started s.events

audit-NotStarted :
    (a : String) (s t : Store)
    → started t.events ≡ started s.events
    → started (append_approval_audit a t).events ≡ started s.events
audit-NotStarted a s t h = omega (arith, started-append t.events (audited a ∷ []), h)

-- The code of the request as the execution stage sees it.
abbrev pub checked_code : Config → ApprovalRecord → ActionRequest → MfaResult
checked_code config r request =
    verify_approval_stage_mfa config r request.user (code_of request.body) request.now execution
      (expiry_or r.execution_expires_at r.expires_at)

-- What must hold for the record and the request when the action is started: an authenticated user
-- of the tenant, the status APPROVED, the approving actor, neither limit passed, and a code whose
-- counter is not that of the approval's code.
abbrev pub IsCleared : Config → ApprovalRecord → ActionRequest → Type 0
IsCleared config r request =
    (is_authenticated request.user ≡ true)
    × (is_foreign r request.user ≡ false)
    × (r.status ≡ approved)
    × (is_transferred r.approved_by (approval_actor request.user) ≡ false)
    × (has_passed request.now r.expires_at ≡ false)
    × (has_passed request.now r.execution_expires_at ≡ false)
    × ((hash : Text) × (counter : ℕ) × (checked_code config r request ≡ verified hash counter)
        × (is_counter r.approval_mfa_counter counter ≡ false))

-- Either nothing was started, or the conditions hold.
abbrev pub IsGuarded : Config → ApprovalRecord → ActionRequest → Store → Reply × Store → Type 0
IsGuarded config r request s o = NotStarted s o ⊎ IsCleared config r request

not-false : (b : Bool) → not b ≡ false → b ≡ true
not-false true h = refl
not-false false h = cc

or_false : (a b : Bool) → (a || b) ≡ false → (a ≡ false) × (b ≡ false)
or_false false false h = (refl, refl)
or_false true b h = cc
or_false false true h = cc

approved_of : (s : Status) → is_approved_status s ≡ true → s ≡ approved
approved_of approved h = refl
approved_of pending h = cc
approved_of rejected h = cc
approved_of expired h = cc
approved_of executing h = cc
approved_of executed h = cc
approved_of execution_failed h = cc

if-guarded :
    (P : Reply × Store → Type 0) (b : Bool) (m n : Reply × Store)
    → P m
    → (b ≡ false → P n)
    → P (if b then m else n)
if-guarded P true m n h k = h
if-guarded P false m n h k = k refl

verified_counter : (h h' : Text) (c c' : ℕ) → verified h c ≡ verified h' c' → c ≡ c'
verified_counter h h' c c' e = cc

-- A verified execution code is fresh.
verify_counter-fresh :
    (config : Config) (r : ApprovalRecord) (payload : UserPayload) (expiry o : Option ℕ)
    (hash : Text) (counter : ℕ)
    → verify_counter config r payload execution expiry o ≡ verified hash counter
    → is_counter r.approval_mfa_counter counter ≡ false
unfolding verify_counter
verify_counter-fresh config r payload expiry none hash counter h = cc
verify_counter-fresh config r payload expiry (some c) hash counter h =
    elim (Bool-cases (is_counter r.execution_mfa_counter c)) [
      | inl e ↦ cc (rw e at h)
      | inr e ↦ elim (Bool-cases (is_counter r.approval_mfa_counter c)) [
        | inl f ↦ cc (rw (e, f) at h)
        | inr f ↦
            let same : c ≡ counter = verified_counter _ _ _ _ (rw (e, f) at h) in
            subst (λ k. is_counter r.approval_mfa_counter k ≡ false) same f
      ]
    ]

with_secret-fresh :
    (config : Config) (r : ApprovalRecord) (payload : UserPayload) (code : Text) (now : ℕ)
    (expiry : Option ℕ) (secret : Option Text) (hash : Text) (counter : ℕ)
    → with_secret config r payload code now execution expiry secret ≡ verified hash counter
    → is_counter r.approval_mfa_counter counter ≡ false
unfolding with_secret
with_secret-fresh config r payload code now expiry none hash counter h = cc
with_secret-fresh config r payload code now expiry (some []) hash counter h = cc
with_secret-fresh config r payload code now expiry (some (c ∷ secret)) hash counter h =
    verify_counter-fresh config r payload expiry _ hash counter h

stage-fresh :
    (config : Config) (r : ApprovalRecord) (payload : UserPayload) (code : Option Text) (now : ℕ)
    (expiry : Option ℕ) (hash : Text) (counter : ℕ)
    → verify_approval_stage_mfa config r payload code now execution expiry ≡ verified hash counter
    → is_counter r.approval_mfa_counter counter ≡ false
unfolding verify_approval_stage_mfa
stage-fresh config r payload none now expiry hash counter h = cc
stage-fresh config r payload (some []) now expiry hash counter h = cc
stage-fresh config r payload (some (c ∷ code)) now expiry hash counter h =
    with_secret-fresh config r payload (c ∷ code) now expiry (config.totp_secret r payload) hash
      counter h

-- Only a verified code starts the action.
execute_checked-verified :
    (config : Config) (r : ApprovalRecord) (request : ActionRequest) (m : MfaResult) (s : Store)
    → NotStarted s (execute_checked config r request m s)
      ⊎ ((hash : Text) × (counter : ℕ) × (m ≡ verified hash counter))
unfolding execute_checked
execute_checked-verified config r request (verified hash counter) s = inr (hash, counter, refl)
execute_checked-verified config r request not_configured s = inl (audit-NotStarted _ s s refl)
execute_checked-verified config r request code_required s = inl (audit-NotStarted _ s s refl)
execute_checked-verified config r request invalid_code s = inl (audit-NotStarted _ s s refl)
execute_checked-verified config r request stale_code s = inl (audit-NotStarted _ s s refl)
execute_checked-verified config r request fresh_code_required s = inl (audit-NotStarted _ s s refl)

replayed-NotStarted :
    (b : Bool) (s : Store)
    → started (if b then append_approval_audit "replay_rejected" s else s).events ≡ started s.events
replayed-NotStarted true s = audit-NotStarted "replay_rejected" s s refl
replayed-NotStarted false s = refl

-- A call of /execute for a record starts the approved action only if the user is authenticated and
-- not of another tenant than the record's, the status is approved, the record names no other
-- approving actor, neither time limit has passed, and the MFA code is verified with a counter that
-- the approval has not used; otherwise the number of starts stays as it was.
pub execute_record-IsGuarded :
    (config : Config) (r : ApprovalRecord) (request : ActionRequest) (s : Store)
    → IsGuarded config r request s (execute_record config r request s)
unfolding execute_record lapse
execute_record-IsGuarded config r request s =
    let P = IsGuarded config r request s in
    if-guarded P (not (is_authenticated request.user)) _ _ (inl refl) (λ a.
      if-guarded P (is_foreign r request.user) _ _ (inl refl) (λ f.
        if-guarded P (is_invalid_json request.body) _ _ (inl refl) (λ j.
          if-guarded P (not (is_approved_status r.status)) _ _
            (inl (replayed-NotStarted (has_run r.status) s))
            (λ p.
              if-guarded P (is_transferred r.approved_by (approval_actor request.user)) _ _
                (inl (audit-NotStarted _ s s refl))
                (λ x.
                  if-guarded P
                    (has_passed request.now r.expires_at
                      || has_passed request.now r.execution_expires_at)
                    _ _ (inl (audit-NotStarted "expired" s s refl))
                    (λ l. if-guarded P (is_no_body request.body) _ _ (inl refl) (λ n.
                      elim (execute_checked-verified config r request
                        (checked_code config r request) s) [
                          | inl none_started ↦ inl none_started
                          | inr (hash, counter, v) ↦
                              let (u, w) = or_false _ _ l in
                              inr (
                                not-false _ a,
                                f,
                                approved_of r.status (not-false _ p),
                                x,
                                u,
                                w,
                                (
                                  hash,
                                  counter,
                                  v,
                                  stage-fresh config r request.user _ request.now _ hash counter v,
                                ),
                              )
                        ])))))))

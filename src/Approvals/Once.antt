-- ===== src/Approvals/Once.antt =====
-- main.py, approval_store.py: how often the action of an approval is started, and the single-use
-- token.
use auth_claw.Approvals.Execute.{is_unused}
use auth_claw.Approvals.Handlers.{
  Reply, approve_checked, approve_record, approved_record, grant, is_authenticated, is_foreign,
  is_invalid_json, is_no_body, is_open, is_rejectable, reject_record, with_record,
}
use auth_claw.Approvals.Mfa.{
  MfaResult, code_required, fresh_code_required, invalid_code, not_configured, stale_code, verified,
}
use auth_claw.Approvals.State.{
  ActionRequest, ApprovalEvent, ApprovalRecord, Config, Store, action_started,
  append_approval_audit, audited, check_expiry, checked_record, expired, found, get_approval,
  has_passed, is_waiting, save,
}
use auth_claw.Prelude.{
  Bool, Bool-cases, List, Option, String, [], ap, arith, false, if◌then◌else◌, inl, inr, none, not,
  refl, some, sym, true, ℕ, ◌&&◌, ◌++◌, ◌+◌, ◌||◌, ◌∙◌, ◌∷◌, ◌≡◌, ◌≤◌, ◌⊎◌,
}

-- How often the approved action has been started.
abbrev pub started : List ApprovalEvent → ℕ
started [] = 0
started (audited a ∷ es) = started es
started (action_started t ∷ es) = 1 + started es

abbrev pub is_free : Option ApprovalRecord → Bool
is_free none = true
is_free (some r) = is_unused r.execution_token_used_at

-- The token of the row is free only if nothing has been started, and there is one start at most.
abbrev pub IsSpent : Store → Type 0
IsSpent s = (is_free s.row ≡ true → started s.events ≡ 0) × (started s.events ≤ 1)

-- The record in memory is the row, if it has been loaded.
abbrev pub IsConsistent : Store → Type 0
IsConsistent s = (s.cache ≡ none) ⊎ (s.cache ≡ s.row)

abbrev pub IsGood : Store → Type 0
IsGood s = IsConsistent s × IsSpent s

-- What `get_approval` establishes for its record.
abbrev pub IsHeld : ApprovalRecord → Store → Type 0
IsHeld r s = (s.cache ≡ some r) × (s.row ≡ some r) × IsSpent s

pub started-append : (xs ys : List ApprovalEvent) → started (xs ++ ys) ≡ started xs + started ys
started-append [] ys = omega arith
started-append (audited a ∷ xs) ys = started-append xs ys
started-append (action_started t ∷ xs) ys = omega (arith, started-append xs ys)

audit-IsSpent : (a : String) (s : Store) → IsSpent s → IsSpent (append_approval_audit a s)
audit-IsSpent a s (h, k) =
    let same = started-append s.events (audited a ∷ []) in
    (λ e. omega (arith, same, h e), omega (arith, same, k))

pub audit-IsGood : (a : String) (s : Store) → IsGood s → IsGood (append_approval_audit a s)
audit-IsGood a s (c, h) = (c, audit-IsSpent a s h)

pub held-IsGood : (r : ApprovalRecord) (s : Store) → IsHeld r s → IsGood s
held-IsGood r s (c, w, h) = (inr (c ∙ sym w), h)

-- A change that leaves the token alone.
pub save-IsHeld :
    (a : String) (r r' : ApprovalRecord) (s : Store)
    → IsHeld r s
    → r'.execution_token_used_at ≡ r.execution_token_used_at
    → IsHeld r' (append_approval_audit a (save r' s))
save-IsHeld a r r' s (c, w, (h, k)) e = (
  refl,
  refl,
  audit-IsSpent a (save r' s) (λ free. h (ap is_free w ∙ (ap is_unused (sym e) ∙ free)), k),
)

pub save-IsGood :
    (a : String) (r r' : ApprovalRecord) (s : Store)
    → IsHeld r s
    → r'.execution_token_used_at ≡ r.execution_token_used_at
    → IsGood (append_approval_audit a (save r' s))
save-IsGood a r r' s h e =
    held-IsGood r' (append_approval_audit a (save r' s)) (save-IsHeld a r r' s h e)

-- What `get_approval` answers.
abbrev pub IsAnswered : Option ApprovalRecord × Store → Type 0
IsAnswered (none, s) = IsGood s
IsAnswered (some r, s) = IsHeld r s

check_expiry-IsHeld :
    (now : ℕ) (r : ApprovalRecord) (s : Store)
    → IsHeld r s
    → IsHeld (check_expiry now r s).0 (check_expiry now r s).1
unfolding check_expiry
check_expiry-IsHeld now r s h =
    elim (Bool-cases (is_waiting r.status && has_passed now r.expires_at)) [
      | inl e ↦
          rw e
            (save-IsHeld "expired" r (record r { status = expired; last_action_at = now }) s h refl)
      | inr e ↦ rw e h
    ]

found-IsAnswered :
    (now : ℕ) (o : Option ApprovalRecord) (s : Store)
    → s.cache ≡ o
    → IsGood s
    → IsAnswered (found now o s)
found-IsAnswered now (some r) s c (inl e, h) = cc
found-IsAnswered now (some r) s c (inr e, h) = check_expiry-IsHeld now r s (c, sym e ∙ c, h)
found-IsAnswered now none s c (e, h) = loaded s.row refl
  where
    loaded :
        (o : Option ApprovalRecord)
        → s.row ≡ o
        → IsAnswered (checked_record now o (record s { cache = o }))
    loaded none w = (inl refl, h)
    loaded (some r) w = check_expiry-IsHeld now r (record s { cache = some r }) (refl, w, h)

pub get_approval-IsAnswered : (now : ℕ) (s : Store) → IsGood s → IsAnswered (get_approval now s)
unfolding get_approval
get_approval-IsAnswered now s h = found-IsAnswered now s.cache s refl h

pub with_record-IsGood :
    (handle : ApprovalRecord → Store → Reply × Store) (o : Option ApprovalRecord × Store)
    → IsAnswered o
    → ((r : ApprovalRecord) (s : Store) → IsHeld r s → IsGood (handle r s).1)
    → IsGood (with_record handle o).1
with_record-IsGood handle (none, s) h k = h
with_record-IsGood handle (some r, s) h k = k r s h

pub if-IsGood :
    (b : Bool) (m n : Reply × Store)
    → IsGood m.1
    → (b ≡ false → IsGood n.1)
    → IsGood (if b then m else n).1
if-IsGood true m n h k = h
if-IsGood false m n h k = k refl

approve_checked-IsGood :
    (config : Config) (r : ApprovalRecord) (request : ActionRequest) (m : MfaResult) (s : Store)
    → IsHeld r s
    → IsGood (approve_checked config r request m s).1
unfolding approve_checked grant approved_record
approve_checked-IsGood config r request (verified hash counter) s h =
    save-IsGood "approved" r _ s h refl
approve_checked-IsGood config r request not_configured s h = held-IsGood r s h
approve_checked-IsGood config r request code_required s h = audit-IsGood _ s (held-IsGood r s h)
approve_checked-IsGood config r request invalid_code s h = audit-IsGood _ s (held-IsGood r s h)
approve_checked-IsGood config r request stale_code s h = audit-IsGood _ s (held-IsGood r s h)
approve_checked-IsGood config r request fresh_code_required s h =
    audit-IsGood _ s (held-IsGood r s h)

pub approve_record-IsGood :
    (config : Config) (r : ApprovalRecord) (request : ActionRequest) (s : Store)
    → IsHeld r s
    → IsGood (approve_record config r request s).1
unfolding approve_record grant approved_record
approve_record-IsGood config r request s h =
    let good = held-IsGood r s h in
    if-IsGood (not (is_authenticated request.user)) _ _ good (λ e.
      if-IsGood (is_foreign r request.user) _ _ good (λ e.
        if-IsGood (not (is_open r.status) || is_invalid_json request.body) _ _ good (λ e.
          if-IsGood (not config.require_mfa) _ _ (save-IsGood "approved" r _ s h refl) (λ e.
            if-IsGood (is_no_body request.body) _ _ good
              (λ e. approve_checked-IsGood config r request _ s h)))))

pub reject_record-IsGood :
    (r : ApprovalRecord) (request : ActionRequest) (s : Store)
    → IsHeld r s
    → IsGood (reject_record r request s).1
unfolding reject_record
reject_record-IsGood r request s h =
    let good = held-IsGood r s h in
    if-IsGood (is_foreign r request.user) _ _ good (λ e.
      if-IsGood (is_invalid_json request.body || not (is_rejectable r.status)) _ _ good
        (λ e. save-IsGood "rejected" r _ s h refl))

-- ===== src/Gateway/Held.antt =====
-- nodes/approval_node.py: the requests that wait for an approval.
use auth_claw.Gateway.Approval.{approval_node, approval_request, create_in_time}
use auth_claw.Gateway.Effects.{ApprovalRequest, Event, provider_called}
use auth_claw.Gateway.Env.{Env, Timing, never, on_time, too_late}
use auth_claw.Gateway.Governance.{decision_node, risk_node}
use auth_claw.Gateway.Graph.{after_approval, govern, route_after_approval, to_audit}
use auth_claw.Gateway.Guarantee.{
  Guarantees, Guarantees-bind, Guarantees-done, Guarantees-emit, Guarantees-if, Guarantees-raise,
}
use auth_claw.Gateway.Security.{calculate_risk, risk_with_findings}
use auth_claw.Gateway.State.{
  AuthState, KeepsDeclared, Trigger, is_approved, is_high, pending_approval, risk_of,
}
use auth_claw.Policy.Category.{get_or}
use auth_claw.Policy.Engine.{high}
use auth_claw.Prelude.{List, [], ap, arith, false, refl, some, ◌∙◌, ◌≡◌}
use auth_claw.Result.{timeout_error}

abbrev pub IsUnanswered : Event → Type 0
IsUnanswered (provider_called c p) = ⊥
IsUnanswered _ = Unit

-- Waits for the approval that was just created.
abbrev pub IsHeld : Env → AuthState → Type 0
IsHeld env s =
    (s.approval_status ≡ some pending_approval) × (s.approval_id ≡ some env.new_approval_id)

-- What the nodes before the approval node keep for it.
abbrev IsHigh : AuthState → Type 0
IsHigh s = (s.risk_level ≡ some high) × (is_approved s.approval_status ≡ false)

risk_with_findings-high : (ts : List Trigger) → risk_with_findings ts high ≡ high
unfolding risk_with_findings
risk_with_findings-high ts = ground arith

risk_node-IsHigh :
    (env : Env) (s : AuthState)
    → calculate_risk env.keywords s.message ≡ high
    → is_approved s.approval_status ≡ false
    → Guarantees (risk_node env s) IsUnanswered IsHigh
unfolding risk_node
risk_node-IsHigh env s h n =
    let risen =
      ap (risk_with_findings (get_or s.security_findings [])) h
      ∙ risk_with_findings-high (get_or s.security_findings []) in
    Guarantees-if env.risk_on_time _ _
      (λ e. Guarantees-emit _ _ tt (Guarantees-emit _ _ tt (Guarantees-done _ (ap some risen, n))))
      (λ e. Guarantees-raise timeout_error)

decision_node-IsHigh : (s : AuthState) → IsHigh s → Guarantees (decision_node s) IsUnanswered IsHigh
unfolding decision_node
decision_node-IsHigh s h = Guarantees-emit _ _ tt (Guarantees-done _ h)

create_in_time-IsNewId :
    (env : Env) (timing : Timing) (request : ApprovalRequest)
    → Guarantees (create_in_time env timing request) IsUnanswered (λ i. i ≡ env.new_approval_id)
unfolding create_in_time
create_in_time-IsNewId env on_time request = Guarantees-emit _ _ tt (Guarantees-done _ refl)
create_in_time-IsNewId env too_late request =
    Guarantees-emit _ _ tt (Guarantees-raise timeout_error)
create_in_time-IsNewId env never request = Guarantees-raise timeout_error

approval_node-IsHeld :
    (env : Env) (s : AuthState)
    → IsHigh s
    → Guarantees (approval_node env s) IsUnanswered (IsHeld env)
unfolding approval_node
approval_node-IsHeld env s (h, n) =
    Guarantees-if (is_approved s.approval_status) _ _ (λ e. cc)
      (λ e.
        Guarantees-if (is_high (risk_of s)) _ _
          (λ k.
            Guarantees-bind (create_in_time env env.approval_timing (approval_request s)) _
              (create_in_time-IsNewId env env.approval_timing (approval_request s))
              (λ i new. Guarantees-done _ (refl, ap some new)))
          (λ k. cc (rw h at k)))

to_audit-of_pending :
    (s : AuthState) → s.approval_status ≡ some pending_approval → route_after_approval s ≡ to_audit
unfolding route_after_approval
to_audit-of_pending s h = rw h refl

module _ (env : Env) (carry : AuthState → AuthState) where
  after_approval-IsHeld :
      (s : AuthState)
      → IsHeld env s
      → Guarantees (after_approval env carry s (route_after_approval s)) IsUnanswered (IsHeld env)
  unfolding after_approval
  after_approval-IsHeld s h = rw (to_audit-of_pending s h.0) (Guarantees-done s h)

  -- From the risk node on, if the keywords make the risk of the message HIGH and the request has
  -- not been approved, then no provider is called, and the state that is returned, if one is, has
  -- the status PENDING_APPROVAL and the identifier of the new approval.
  pub govern-holds_high :
      KeepsDeclared carry
      → (s : AuthState) → calculate_risk env.keywords s.message ≡ high
      → is_approved s.approval_status ≡ false
      → Guarantees (govern env carry s) IsUnanswered (IsHeld env)
  unfolding govern
  govern-holds_high keeps s h n =
      Guarantees-bind (risk_node env s) _ (risk_node-IsHigh env s h n) (λ a (r, m).
        Guarantees-bind (decision_node (carry a)) _
          (decision_node-IsHigh (carry a)
            (keeps.risk_level a ∙ r, ap is_approved (keeps.approval_status a) ∙ m))
          (λ b (r', m').
            Guarantees-bind (approval_node env (carry b)) _
              (approval_node-IsHeld env (carry b)
                (keeps.risk_level b ∙ r', ap is_approved (keeps.approval_status b) ∙ m'))
              (λ c (p, i).
                after_approval-IsHeld (carry c)
                  (keeps.approval_status c ∙ p, keeps.approval_id c ∙ i))))

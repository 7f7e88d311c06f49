-- ===== src/Gateway/LetThrough.antt =====
-- nodes/approval_node.py: the requests that need no approval.
use auth_claw.Gateway.Approval.{approval_node}
use auth_claw.Gateway.Effects.{Run, Trace, ◌>>=◌}
use auth_claw.Gateway.Env.{Env}
use auth_claw.Gateway.Governance.{decision_node, risk_node}
use auth_claw.Gateway.Graph.{
  after_approval, answer, govern, route_after_approval, to_provider_router,
}
use auth_claw.Gateway.Guarantee.{continue-ok}
use auth_claw.Gateway.Security.{calculate_risk, risk_with_findings}
use auth_claw.Gateway.State.{
  ApprovalStatus, AuthState, KeepsDeclared, approved, is_approved, is_high, pending_approval,
  risk_of,
}
use auth_claw.Policy.Category.{get_or}
use auth_claw.Policy.Engine.{RiskLevel, low}
use auth_claw.Prelude.{
  Bool-cases, Option, [], ap, false, inl, inr, none, refl, some, true, ◌∙◌, ◌≡◌,
}
use auth_claw.Result.{ok}

-- What the risk node says of the state.
abbrev pub node_risk : Env → AuthState → RiskLevel
node_risk env s =
    risk_with_findings (get_or s.security_findings []) (calculate_risk env.keywords s.message)

is_approved_sound : (o : Option ApprovalStatus) → is_approved o ≡ true → o ≡ some approved
is_approved_sound none h = cc
is_approved_sound (some approved) h = refl
is_approved_sound (some pending_approval) h = cc

-- The run returns a state with the given status and the message of `s`.
abbrev LetsThrough : {A : Type 0} → Run AuthState → Trace → (AuthState → A) → A → AuthState → Type 0
LetsThrough m t key value s =
    (r : AuthState) × (t' : Trace) × (m t ≡ (ok r, t')) × (key r ≡ value) × (r.message ≡ s.message)

risk_node-returns :
    (env : Env) (s : AuthState) (t : Trace)
    → env.risk_on_time ≡ true
    → LetsThrough (risk_node env s) t (λ r. r.risk_level) (some (node_risk env s)) s
unfolding risk_node
risk_node-returns env s t e = rw e (_, _, refl, refl, refl)

decision_node-returns :
    (s : AuthState) (t : Trace) → LetsThrough (decision_node s) t (λ r. r.risk_level) s.risk_level s
unfolding decision_node
decision_node-returns s t = (_, _, refl, refl, refl)

approval_node-returns :
    (env : Env) (s : AuthState) (t : Trace)
    → is_high (risk_of s) ≡ false
    → LetsThrough (approval_node env s) t (λ r. r.approval_status) (some approved) s
unfolding approval_node
approval_node-returns env s t h = elim (Bool-cases (is_approved s.approval_status)) [
  | inl e ↦ rw e (s, t, refl, is_approved_sound s.approval_status e, refl)
  | inr e ↦ rw (e, h) (_, _, refl, refl, refl)
]

to_provider-of_approved :
    (s : AuthState)
    → s.approval_status ≡ some approved
    → route_after_approval s ≡ to_provider_router
unfolding route_after_approval
to_provider-of_approved s h = rw h refl

module _ (env : Env) (carry : AuthState → AuthState) where
  abbrev routed : AuthState → Run AuthState
  routed s = after_approval env carry (carry s) (route_after_approval (carry s))

  abbrev from_approval : AuthState → Run AuthState
  from_approval s = approval_node env (carry s) >>= routed

  abbrev from_decision : AuthState → Run AuthState
  from_decision s = decision_node (carry s) >>= from_approval

  -- From the risk node on, if the risk calculation is in time and does not give HIGH, then the run
  -- goes on as the one from the provider router on, in a state with the status APPROVED and the
  -- same message; this holds whatever the status of the request was, PENDING_APPROVAL included.
  pub govern-approves :
      KeepsDeclared carry
      → (s : AuthState) (t : Trace) → env.risk_on_time ≡ true
      → is_high (node_risk env s) ≡ false
      → (r : AuthState) × (t' : Trace) × (govern env carry s t ≡ answer env carry r t')
        × (r.approval_status ≡ some approved)
        × (r.message ≡ s.message)
  unfolding govern after_approval
  govern-approves keeps s t timely h =
      let (a, u, e, risk, m) = risk_node-returns env s t timely in
      let (b, v, e', risk', m') = decision_node-returns (carry a) u in
      let low_risk : is_high (risk_of (carry b)) ≡ false =
        ap (λ o. is_high (get_or o low))
          (keeps.risk_level b ∙ (risk' ∙ (keeps.risk_level a ∙ risk)))
        ∙ h in
      let (c, w, e'', status, m'') = approval_node-returns env (carry b) v low_risk in
      let approved' = keeps.approval_status c ∙ status in
      (
        carry c,
        w,
        continue-ok (risk_node env s) from_decision t e
            ∙ (continue-ok (decision_node (carry a)) from_approval u e'
                ∙ (continue-ok (approval_node env (carry b)) routed v e''
                    ∙ ap (λ route. after_approval env carry (carry c) route w)
                        (to_provider-of_approved (carry c) approved'))),
        approved',
        keeps.message c ∙ (m'' ∙ (keeps.message b ∙ (m' ∙ (keeps.message a ∙ m)))),
      )

-- ===== src/Gateway/Nodes.antt =====
-- What each node before the provider adds and returns.
use auth_claw.Gateway.Effects.{
  Event, Run, agent_event, approval_created, audit_block, lift, message_added, provider_called,
  ◌>>◌,
}
use auth_claw.Gateway.Env.{Env}
use auth_claw.Gateway.Governance.{
  PolicyAgentResult, agent_outcome, agent_result, apply_policy, concluded_by_policy, is_refused,
  policy_agent_evaluate, policy_node, preserve_refusal, refused_by_policy,
}
use auth_claw.Gateway.Guarantee.{
  Any, Guarantees, Guarantees-bind, Guarantees-done, Guarantees-emit, Guarantees-if,
  Guarantees-lift, Guarantees-raise_some, ok-injective,
}
use auth_claw.Gateway.Intake.{log_findings, orchestrator_node, redact_node, redacted_state}
use auth_claw.Gateway.Security.{SecurityAgentResult, inspect_input}
use auth_claw.Gateway.State.{AuthState, Trigger, tenant_of, username_of}
use auth_claw.Policy.Action.{block, permits}
use auth_claw.Policy.Engine.{PolicyEvaluationResult, evaluate}
use auth_claw.Policy.Verdict.{HasBaselinePattern, evaluate-block}
use auth_claw.Prelude.{
  Bool-cases, List, Text, [], ap, false, inl, inr, is_empty, refl, some, subst, ℕ, ◌∷◌, ◌≡◌, ◌⊎◌,
}
use auth_claw.Result.{Result, ok, raised}

-- The events of the agents' log and of the chat history.
abbrev pub IsLog : Event → Type 0
IsLog (agent_event a k) = Unit
IsLog (message_added s r m) = Unit
IsLog (approval_created r) = ⊥
IsLog (provider_called c p) = ⊥
IsLog (audit_block b) = ⊥

abbrev pub SameRequest : AuthState → AuthState → Type 0
SameRequest s r =
    (r.message ≡ s.message)
    × (r.tenant_id ≡ s.tenant_id)
    × (r.allowed ≡ s.allowed)
    × (r.approval_status ≡ s.approval_status)

pub orchestrator_node-SameRequest :
    (s : AuthState) → Guarantees (orchestrator_node s) IsLog (SameRequest s)
unfolding orchestrator_node
orchestrator_node-SameRequest s =
    Guarantees-emit _ _ tt (Guarantees-emit _ _ tt (Guarantees-done _ (refl, refl, refl, refl)))

-- The result of the security agent on the message of the state.
abbrev pub inspected : Env → AuthState → SecurityAgentResult
inspected env s = inspect_input env.redact_rich env.keywords s.message (username_of s) (tenant_of s)

abbrev pub IsRedacted : Env → AuthState → AuthState → Type 0
IsRedacted env s r = r ≡ redacted_state (inspected env s) s

log_findings-logs :
    {A : Type 0} {Q : A → Type 0} (ts : List Trigger) (m : Run A)
    → Guarantees m IsLog Q
    → Guarantees (log_findings ts >> m) IsLog Q
unfolding log_findings
log_findings-logs [] m h = Guarantees-emit _ _ tt h
log_findings-logs (t ∷ ts) m h = Guarantees-emit _ _ tt (Guarantees-emit _ _ tt h)

pub redact_node-IsRedacted :
    (env : Env) (s : AuthState) → Guarantees (redact_node env s) IsLog (IsRedacted env s)
unfolding redact_node
redact_node-IsRedacted env s = Guarantees-raise_some _ _ (
    log_findings-logs (inspected env s).findings _
      (Guarantees-emit _ _ tt (Guarantees-done _ refl)))

-- `policy_node` may only add to the log.
pub policy_node-logs : (env : Env) (s : AuthState) → Guarantees (policy_node env s) IsLog Any
unfolding policy_node
policy_node-logs env s =
    Guarantees-if (is_refused s.security_approved) _ _
      (λ e. Guarantees-emit _ _ tt (Guarantees-done _ tt))
      (λ e.
        Guarantees-bind {Q = Any}
          (lift (policy_agent_evaluate env s.message (username_of s) (tenant_of s))) _
          (Guarantees-lift _ (λ a h. tt))
          (λ r h. Guarantees-emit _ _ tt (Guarantees-emit _ _ tt (Guarantees-done _ tt))))

apply_policy-refuses :
    (r : PolicyAgentResult) (s : AuthState)
    → r.policy_decision ≡ block
    → r.approved ≡ false
    → (apply_policy r s).allowed ≡ some false
unfolding apply_policy refused_by_policy concluded_by_policy
apply_policy-refuses r s d a = elim (Bool-cases (is_empty r.category)) [
  | inl e ↦ rw (e, a) refl
  | inr e ↦ rw (e, a, d) refl
]

agent_outcome_inv :
    (o : Result PolicyEvaluationResult) (r : PolicyAgentResult)
    → agent_outcome o ≡ ok r
    → (v : PolicyEvaluationResult) × (o ≡ ok v) × (agent_result v ≡ r)
unfolding agent_outcome
agent_outcome_inv (ok v) r h = (v, refl, ok-injective _ _ h)
agent_outcome_inv (raised e) r h = cc

agent-block :
    (env : Env) (text username : Text) (tenant_id : ℕ) (r : PolicyAgentResult)
    → HasBaselinePattern text
    → policy_agent_evaluate env text username tenant_id ≡ ok r
    → (r.policy_decision ≡ block) × (r.approved ≡ false)
unfolding policy_agent_evaluate agent_result
agent-block env text username tenant_id r h e =
    let policies = env.load_policies (some tenant_id) in
    let (v, k, same) =
      agent_outcome_inv (evaluate env.detect (some tenant_id) username policies text) r e in
    let (b, a, l) = evaluate-block env.detect (some tenant_id) username policies text k h in
    subst (λ q. (q.policy_decision ≡ block) × (q.approved ≡ false)) same (b, ap permits b)

-- A refusal by the security agent that reaches the node, or a pattern of the policy engine.
abbrev pub MustBlock : AuthState → Type 0
MustBlock s = (s.security_approved ≡ some false) ⊎ HasBaselinePattern s.message

pub policy_node-refuses :
    (env : Env) (s : AuthState)
    → MustBlock s
    → Guarantees (policy_node env s) IsLog (λ r. r.allowed ≡ some false)
unfolding policy_node preserve_refusal
policy_node-refuses env s must =
    Guarantees-if (is_refused s.security_approved) _ _
      (λ e. Guarantees-emit _ _ tt (Guarantees-done _ refl))
      (λ e.
        Guarantees-bind {Q = λ r. (r.policy_decision ≡ block) × (r.approved ≡ false)}
          (lift (policy_agent_evaluate env s.message (username_of s) (tenant_of s))) _
          (Guarantees-lift _ (λ r h. elim must [
            | inl unapproved ↦ cc (rw unapproved at e)
            | inr pattern ↦ agent-block env s.message (username_of s) (tenant_of s) r pattern h
          ]))
          (λ r (d, a).
            Guarantees-emit _ _ tt
              (Guarantees-emit _ _ tt (Guarantees-done _ (apply_policy-refuses r _ d a)))))

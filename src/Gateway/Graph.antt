-- ===== src/Gateway/Graph.antt =====
-- graph.py: the nodes in the order of the workflow's edges. `carry` is what the graph's runtime
-- does to the state between two nodes.
use auth_claw.Gateway.Approval.{approval_node}
use auth_claw.Gateway.Effects.{Run, done, ◌>>=◌}
use auth_claw.Gateway.Env.{Env}
use auth_claw.Gateway.Governance.{decision_node, policy_node, risk_node}
use auth_claw.Gateway.Intake.{orchestrator_node, redact_node}
use auth_claw.Gateway.Provider.{llm_node, provider_router_node, rag_node}
use auth_claw.Gateway.Response.{audit_node, response_checks_node}
use auth_claw.Gateway.State.{AuthState, allowed_of, is_approved}
use auth_claw.Prelude.{if◌then◌else◌}

pub data Route : Type 0 where
  to_risk to_audit to_provider_router : Route

unfoldable pub route_after_policy : AuthState → Route
route_after_policy s = if allowed_of s then to_risk else to_audit

unfoldable pub route_after_approval : AuthState → Route
route_after_approval s = if is_approved s.approval_status then to_provider_router else to_audit

module _ (env : Env) (carry : AuthState → AuthState) where
  -- provider_router → rag → llm → response_checks
  unfoldable pub answer : AuthState → Run AuthState
  unfolding provider_router_node rag_node llm_node response_checks_node
  answer s = do
    s₁ ← provider_router_node env s
    s₂ ← rag_node env (carry s₁)
    s₃ ← llm_node env (carry s₂)
    response_checks_node env (carry s₃)

  unfoldable pub after_approval : AuthState → Route → Run AuthState
  unfolding answer
  after_approval s to_provider_router = answer s
  after_approval s _ = done s

  -- risk → decision → approval, and what `route_after_approval` adds
  unfoldable pub govern : AuthState → Run AuthState
  unfolding risk_node decision_node approval_node after_approval route_after_approval
  govern s = do
    s₁ ← risk_node env s
    s₂ ← decision_node (carry s₁)
    s₃ ← approval_node env (carry s₂)
    after_approval (carry s₃) (route_after_approval (carry s₃))

  unfoldable pub after_policy : AuthState → Route → Run AuthState
  unfolding govern
  after_policy s to_risk = govern s
  after_policy s _ = done s

  -- graph.invoke: every way through the workflow ends with the audit node.
  unfoldable pub invoke : AuthState → Run AuthState
  unfolding orchestrator_node redact_node policy_node after_policy route_after_policy audit_node
  invoke s = do
    s₁ ← orchestrator_node (carry s)
    s₂ ← redact_node env (carry s₁)
    s₃ ← policy_node env (carry s₂)
    s₄ ← after_policy (carry s₃) (route_after_policy (carry s₃))
    audit_node env (carry s₄)
